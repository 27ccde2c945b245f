-- ===== src/Interrupts/Controller.antt =====
-- The two interrupt controllers after the initialisation.
use mono.Prelude.{
  ℕ, ◌%◌, ◌<◌, ◌≡◌, sym, subst, List, [], ◌∷◌, arith, ◌==◌, leb, if◌then◌else◌, Bool-cases, inl,
  inr,
}
use mono.Interrupts.{
  pic1_command, pic1_data, pic2_command, pic2_data, pic_remap, pic_send_eoi, Handlers, Cpu,
  init_idt,
}
use mono.Ports.{Access, input, output, Device}

-- An 8259 controller, as its data sheet describes it: a write to its command port, a write to its
-- data port, and when it is ready, with a vector offset and a mask. The first initialisation word,
-- followed by the offset, the wiring and the mode, and then a mask, makes it ready in any state; a
-- ready one takes masks at its data port, and the end of an interrupt at its command port.
pub record Controller : Type 1 where
  pub State : Type 0
  pub command : ℕ → State → State
  pub data_word : ℕ → State → State
  pub IsReady : ℕ → ℕ → State → Type 0
  pub initialised :
      (offset wiring mask : ℕ) (s : State)
      → IsReady offset mask
          (data_word mask (data_word 1 (data_word wiring (data_word offset (command 0x11 s)))))
  pub masked :
      (offset mask mask' : ℕ) (s : State)
      → IsReady offset mask s
      → IsReady offset mask' (data_word mask' s)
  pub eoi_kept :
      (offset mask : ℕ) (s : State) → IsReady offset mask s → IsReady offset mask (command 0x20 s)

module _ (pic : Controller) where
  open pic use {State, command, data_word, IsReady, initialised, masked, eoi_kept}

  -- What the accesses of a run do to the controller at these two ports.
  unfoldable pub fed : ℕ → ℕ → List Access → State → State
  fed command_port data_port [] s = s
  fed command_port data_port (input p v ∷ log) s = fed command_port data_port log s
  fed command_port data_port (output p v ∷ log) s =
      if p == command_port
      then command v (fed command_port data_port log s)
      else if p == data_port
      then data_word v (fed command_port data_port log s)
      else fed command_port data_port log s

  -- A byte is the word that `outb` sends.
  sent :
      (offset mask wiring : ℕ) (s : State)
      → offset < 256
      → IsReady offset mask (
          data_word mask
            (data_word 1 (data_word wiring (data_word (offset % 256) (command 0x11 s)))))
  sent offset mask wiring s h =
      subst
        (λ o.
          IsReady offset mask
            (data_word mask (data_word 1 (data_word wiring (data_word o (command 0x11 s))))))
        (sym (byte offset h)) (initialised offset wiring mask s)
    where
      byte : (n : ℕ) → n < 256 → n % 256 ≡ n
      byte n h' = omega arith

  -- `PIC_remap` leaves both controllers ready at the new offsets with the masks that they had.
  pub pic_remap-IsReady :
      (offset1 offset2 : ℕ) (dev : Device) (log : List Access) (s1 s2 : State)
      → offset1 < 256
      → offset2 < 256
      → IsReady offset1
          (dev log pic1_data % 256 % 256)
          (fed pic1_command pic1_data (pic_remap offset1 offset2 dev log).1 s1)
        × IsReady offset2
            (dev (input pic1_data (dev log pic1_data % 256) ∷ log) pic2_data % 256 % 256)
            (fed pic2_command pic2_data (pic_remap offset1 offset2 dev log).1 s2)
  unfolding fed pic_remap
  pic_remap-IsReady offset1 offset2 dev log s1 s2 h1 h2 = (
    sent offset1 (dev log pic1_data % 256 % 256) 4 (fed pic1_command pic1_data log s1) h1,
    sent offset2 (dev (input pic1_data (dev log pic1_data % 256) ∷ log) pic2_data % 256 % 256) 2
        (fed pic2_command pic2_data log s2) h2,
  )

  -- `init_idt` leaves the first controller ready at vector 0x20 with only the timer and the keyboard
  -- let through, and the second one at 0x28 with all lines masked.
  pub init_idt-IsReady :
      (h : Handlers) (address : ℕ) (cpu : Cpu) (dev : Device) (log : List Access) (s1 s2 : State)
      → IsReady 0x20 0xFC (fed pic1_command pic1_data (init_idt h address cpu dev log).1 s1)
        × IsReady 0x28 0xFF (fed pic2_command pic2_data (init_idt h address cpu dev log).1 s2)
  unfolding fed init_idt
  init_idt-IsReady h address cpu dev log s1 s2 =
      let r = pic_remap-IsReady 0x20 0x28 dev log s1 s2 (omega arith) (omega arith) in
      (
        masked 0x20 (dev log pic1_data % 256 % 256) 0xFC
            (fed pic1_command pic1_data (pic_remap 0x20 0x28 dev log).1 s1) r.0,
        masked 0x28 (dev (input pic1_data (dev log pic1_data % 256) ∷ log) pic2_data % 256 % 256)
            0xFF (fed pic2_command pic2_data (pic_remap 0x20 0x28 dev log).1 s2) r.1,
      )

  -- The end of an interrupt leaves a ready controller ready.
  pub pic_send_eoi-IsReady :
      (irq offset1 mask1 offset2 mask2 : ℕ) (dev : Device) (log : List Access) (s1 s2 : State)
      → IsReady offset1 mask1 (fed pic1_command pic1_data log s1)
      → IsReady offset2 mask2 (fed pic2_command pic2_data log s2)
      → IsReady offset1 mask1 (fed pic1_command pic1_data (pic_send_eoi irq dev log).1 s1)
        × IsReady offset2 mask2 (fed pic2_command pic2_data (pic_send_eoi irq dev log).1 s2)
  unfolding fed pic_send_eoi
  pic_send_eoi-IsReady irq offset1 mask1 offset2 mask2 dev log s1 s2 r1 r2 =
      elim (Bool-cases (leb 8 irq)) [
        | inl slave ↦ rw slave (
          eoi_kept offset1 mask1 (fed pic1_command pic1_data log s1) r1,
          eoi_kept offset2 mask2 (fed pic2_command pic2_data log s2) r2,
        )
        | inr master ↦ rw master (eoi_kept offset1 mask1 (fed pic1_command pic1_data log s1) r1, r2)
      ]
