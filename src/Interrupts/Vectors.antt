-- ===== src/Interrupts/Vectors.antt =====
-- The interrupt descriptor table after the initialisation, and the keyboard's handler on it.
use mono.Prelude.{ℕ, ◌+◌, ◌*◌, ◌/◌, ◌%◌, ◌^◌, ◌<◌, ◌≡◌, ◌≢◌, refl, true, List, arith, ==_of_ne}
use mono.Keyboard.{Keyboard}
use mono.Keyboard.Queue.{queue_of, press, process_scancode-press}
use mono.Keyboard.Ring.{IsValid, pending_count, process_scancode-IsValid}
use mono.Interrupts.{
  IdtEntry, Cpu, Handlers, set_idt_entry, load_idt, init_idt, interrupt_keyboard_handler,
}
use mono.Ports.{Access, Device}

-- The address that a gate jumps to, and a present 32-bit interrupt gate of privilege level 0.
abbrev pub target : IdtEntry → ℕ
target e = e.offset_low + 65536 * e.offset_high

abbrev pub Opens : IdtEntry → ℕ → Type 0
Opens e handler = (target e ≡ handler) × (e.selector ≡ 8) × (e.zero_byte ≡ 0) × (e.type_attr ≡ 0x8E)

halves : (n : ℕ) → n < 2 ^ 32 → n % 65536 + 65536 * (n / 65536 % 65536) ≡ n
halves n h = omega arith

-- After `init_idt` the vectors of the timer, of the keyboard and of the system call lead to their
-- handlers' 32-bit addresses, all other entries are as before, the table register holds the table's
-- place and its limit, and interrupts are on.
pub init_idt-Opens :
    (h : Handlers) (address : ℕ) (cpu : Cpu) (dev : Device) (log : List Access)
    → h.timer < 2 ^ 32
    → h.keyboard < 2 ^ 32
    → h.syscall < 2 ^ 32
    → Opens ((init_idt h address cpu dev log).0.idt 0x20) h.timer
      × Opens ((init_idt h address cpu dev log).0.idt 0x21) h.keyboard
      × Opens ((init_idt h address cpu dev log).0.idt 0x33) h.syscall
      × ((n : ℕ)
          → n ≢ 0x20
          → n ≢ 0x21
          → n ≢ 0x33
          → (init_idt h address cpu dev log).0.idt n ≡ cpu.idt n)
      × ((init_idt h address cpu dev log).0.base ≡ address)
      × ((init_idt h address cpu dev log).0.limit ≡ 2047)
      × ((init_idt h address cpu dev log).0.enabled ≡ true)
unfolding init_idt set_idt_entry load_idt
init_idt-Opens h address cpu dev log h1 h2 h3 = (
  (halves h.timer h1, refl, refl, refl),
  (halves h.keyboard h2, refl, refl, refl),
  (halves h.syscall h3, refl, refl, refl),
  (λ n a b c. rw (==_of_ne n 0x33 c, ==_of_ne n 0x21 b, ==_of_ne n 0x20 a) refl),
  refl,
  refl,
  refl,
)

-- The keyboard's interrupt puts the byte at port 0x60 into the queue, if fewer than 255 scancodes
-- wait, and keeps the ring valid.
pub interrupt_keyboard_handler-press :
    (dev : Device) (log : List Access) {k : Keyboard}
    → IsValid k
    → pending_count k < 255
    → IsValid (interrupt_keyboard_handler k dev log).0
      × (queue_of (interrupt_keyboard_handler k dev log).0
          ≡ press (dev log 0x60 % 256) (queue_of k))
unfolding interrupt_keyboard_handler
interrupt_keyboard_handler-press dev log v h = (
  process_scancode-IsValid (dev log 0x60 % 256) v,
  process_scancode-press (dev log 0x60 % 256) v h,
)
