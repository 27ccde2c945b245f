-- ===== src/Shell/Listing/Pieces.antt =====
-- The calls that show one row of the listing: a name, blanks up to column 19, the size, and a newline.
use mono.Graphics.{video_memory}
use mono.Terminal.Message.{Apart}
use mono.Line.Echo.{Console, OutStack}
use mono.Memory.{Memory, HasString, HasString-same}
use mono.Prelude.{
  ℕ, suc, zero, ◌+◌, ◌-◌, ◌%◌, ◌^◌, ◌≤◌, ◌<◌, ◌≡◌, refl, ◌⊎◌, inl, some, List, [], ◌∷◌, length,
  arith, lt→ltb, ltb_of_le,
}
use mono.Process.{Machine}
use mono.Shell.Listing.{
  KeptMemory, Displays, blanks, Displays-bind, kputs-Displays, kputc-Displays, Clear,
  HasString-kept,
}
use mono.Shell.{Image, bind, kputs, kputc, pad_from, while_below, padding_bound}
use mono.Str.Compare.{strlen_nonempty}
use mono.Str.{strlen}
use mono.Terminal.Char.{AllAccepted, put_all_on_sheet}
use mono.Terminal.Sheet.{Sheet, Sized, put_on_sheet}

-- The arrays on the stack are outside the frame buffer.
abbrev pub StackOut : ℕ → Type 0
StackOut stack = (stack + 13 < video_memory) ⊎ (video_memory + 64000 ≤ stack)

module _ (rows columns : ℕ) (z : Sized rows columns) (small : (rows ≤ 21) × (columns ≤ 36))
    (image : Image) (out : OutStack image.stack) where
  one_blank :
      (n r i fuel p : ℕ) (c : ℕ) (cs : List ℕ) (s : Machine)
      → HasString s.display.memory p (c ∷ cs)
      → length cs < fuel
      → i + n + length (c ∷ cs) ≡ 19
      → while_below i
          (padding_bound (strlen fuel p s.display.memory))
          (bind (kputc image.stack 32 s) (pad_from r ((i + 1) % 256) fuel image.stack p))
          (some s)
        ≡ while_below i
            (some (i + n))
            (bind (kputc image.stack 32 s) (pad_from r (i + 1) fuel image.stack p))
            (some s)
  one_blank n r i fuel p c cs s h hf e =
      let bound : (19 + (2 ^ 32 - length (c ∷ cs))) % 2 ^ 32 ≡ i + n = omega arith in
      let next : (i + 1) % 256 ≡ i + 1 = omega arith in
      rw (strlen_nonempty fuel p c s.display.memory cs h hf (omega arith), bound, next) refl

  pad_from-Displays :
      (n r i fuel p c : ℕ) (cs ns : List ℕ) (s : Machine) (t : Sheet)
      → HasString s.display.memory p (c ∷ cs)
      → Clear image.stack p (length (c ∷ cs))
      → length cs < fuel
      → i + n + length (c ∷ cs) ≡ 19
      → n < r
      → Console rows columns ns s.display t
      → Displays rows columns image.stack s
          (pad_from r i fuel image.stack p s)
          (put_all_on_sheet rows columns (blanks n) t)
  unfolding pad_from put_all_on_sheet blanks
  pad_from-Displays n zero i fuel p c cs ns s t name clear hf e hr h = absurd (omega arith)
  pad_from-Displays zero (suc r) i fuel p c cs ns s t name clear hf e hr h =
      rw (one_blank zero r i fuel p c cs s name hf e, ltb_of_le i (i + 0) (omega arith))
        (ns, s.display, refl, h, λ a o n1 n2. refl)
  pad_from-Displays (suc n) (suc r) i fuel p c cs ns s t name clear hf e hr h =
      rw (one_blank (suc n) r i fuel p c cs s name hf e, lt→ltb i (i + suc n) (omega arith))
        (Displays-bind rows columns z small image.stack out s (kputc image.stack 32 s)
          (pad_from r (i + 1) fuel image.stack p) (put_on_sheet rows columns 32 t)
          (put_all_on_sheet rows columns (blanks n) (put_on_sheet rows columns 32 t))
          (kputc-Displays rows columns z small image.stack out 32 ns s t (omega arith) (omega arith)
            h)
          (λ ns' d h' kept.
            pad_from-Displays n r (i + 1) fuel p c cs ns' (record s { display = d })
              (put_on_sheet rows columns 32 t)
              (HasString-kept image.stack s.display.memory d.memory p (c ∷ cs)
                (λ a o n1 n2. kept a o n1 n2) clear name)
              clear hf (omega (arith, e)) (omega arith) h'))

  Clear-Apart :
      (p : ℕ) (cs : List ℕ) → Clear image.stack p (length cs) → length cs < 64000 → Apart p cs
  Clear-Apart p cs clear few =
      let first = clear 0 (omega arith) in
      let last = clear (length cs) (omega arith) in omega (arith, first.0, last.0)

  kept_digits :
      (m m' : Memory) (ds : List ℕ)
      → StackOut image.stack
      → KeptMemory image.stack m m'
      → length ds ≤ 10
      → HasString m (image.stack + 2) ds
      → HasString m' (image.stack + 2) ds
  kept_digits m m' ds so kept few h =
      HasString-same m m' (image.stack + 2) ds
        (λ i l. kept (image.stack + 2 + i) (omega (arith, so)) (omega arith) (omega arith)) h

  -- The row, once the size is written behind the small array.
  pub after_itoa :
      (fuel p c : ℕ) (cs ds ns : List ℕ) (s : Machine) (t : Sheet)
      → StackOut image.stack
      → 20 ≤ fuel
      → HasString s.display.memory p (c ∷ cs)
      → Clear image.stack p (length (c ∷ cs))
      → length (c ∷ cs) ≤ 19
      → AllAccepted (c ∷ cs)
      → HasString s.display.memory (image.stack + 2) ds
      → AllAccepted ds
      → length ds ≤ 10
      → HasString s.display.memory image.newline (10 ∷ [])
      → Clear image.stack image.newline 1
      → Console rows columns ns s.display t
      → Displays rows columns image.stack s
          (bind
            (bind
              (bind (kputs fuel p s) (pad_from 256 0 fuel image.stack p))
              (kputs fuel (image.stack + 2)))
            (kputs fuel image.newline))
          (put_on_sheet rows columns 10 (
            put_all_on_sheet rows columns ds (
              put_all_on_sheet rows columns
                (blanks (19 - length (c ∷ cs)))
                (put_all_on_sheet rows columns (c ∷ cs) t))))
  unfolding put_all_on_sheet
  after_itoa fuel p c cs ds ns s t so hf name clear short acc digits accd few newline nclear h =
      Displays-bind rows columns z small image.stack out s _ (kputs fuel image.newline) after_digits
        _
        (Displays-bind rows columns z small image.stack out s _ (kputs fuel (image.stack + 2))
          after_blanks after_digits
          (Displays-bind rows columns z small image.stack out s (kputs fuel p s)
            (pad_from 256 0 fuel image.stack p) after_name after_blanks
            (kputs-Displays rows columns z small image.stack out fuel p (c ∷ cs) ns s t name
              (Clear-Apart p (c ∷ cs) clear (omega arith)) acc (omega arith) (omega arith) h)
            (λ ns1 d1 h1 kept.
              pad_from-Displays (19 - length (c ∷ cs)) 256 0 fuel p c cs ns1
                (record s { display = d1 }) after_name
                (HasString-kept image.stack s.display.memory d1.memory p (c ∷ cs)
                  (λ a o n1 n2. kept a o n1 n2) clear name)
                clear (omega arith) (omega arith) (omega arith) h1))
          (λ ns2 d2 h2 kept.
            kputs-Displays rows columns z small image.stack out fuel (image.stack + 2) ds ns2
              (record s { display = d2 }) after_blanks
              (kept_digits s.display.memory d2.memory ds so (λ a o n1 n2. kept a o n1 n2) few
                digits)
              (omega (arith, so)) accd (omega arith) (omega arith) h2))
        (λ ns3 d3 h3 kept.
          kputs-Displays rows columns z small image.stack out fuel image.newline (10 ∷ []) ns3
            (record s { display = d3 }) after_digits
            (HasString-kept image.stack s.display.memory d3.memory image.newline (10 ∷ [])
              (λ a o n1 n2. kept a o n1 n2) nclear newline)
            (Clear-Apart image.newline (10 ∷ []) nclear (omega arith)) (inl (omega arith), tt)
            (omega arith) (omega arith) h3)
    where
      after_name : Sheet
      after_name = put_all_on_sheet rows columns (c ∷ cs) t

      after_blanks : Sheet
      after_blanks = put_all_on_sheet rows columns (blanks (19 - length (c ∷ cs))) after_name

      after_digits : Sheet
      after_digits = put_all_on_sheet rows columns ds after_blanks
