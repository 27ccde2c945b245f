-- ===== src/Shell/Listing/Rows.antt =====
-- One row of the listing: a name, blanks up to column 19, and the size.
use mono.Graphics.Frame.{OutFrame}
use mono.Terminal.{Display}
use mono.Line.Echo.{Console, OutStack, Shows-in_memory}
use mono.Memory.{Memory, HasString, HasString-same, read32}
use mono.Prelude.Int.{pos, signed32}
use mono.Prelude.{
  ℕ, ◌+◌, ◌-◌, ◌^◌, ◌≤◌, ◌<◌, ◌≡◌, ◌≢◌, refl, sym, subst, ap, ◌∙◌, ◌⊎◌, inl, Option, none, some,
  List, [], ◌∷◌, length, arith,
}
use mono.Process.{Machine, in_memory}
use mono.Romdisk.Table.{Entry}
use mono.Shell.Listing.Pieces.{StackOut, after_itoa}
use mono.Shell.Listing.{Displays, blanks, Clear}
use mono.Shell.{Image, Act, bind, kputs, with_memory, pad_from, list_row}
use mono.Str.Itoa.Decimal
use mono.Str.Itoa.Text.{Writes, itoa_lem}
use mono.Str.Itoa.{itoa}
use mono.Terminal.Char.{AllAccepted, put_all_on_sheet}
use mono.Terminal.Sheet.{Sheet, Sized, put_on_sheet}

-- The row of an entry, on the sheet.
unfoldable pub put_row : ℕ → ℕ → Entry → Sheet → Sheet
put_row rows columns e t = put_on_sheet rows columns 10 (
    put_all_on_sheet rows columns (Decimal.decimal e.size) (
      put_all_on_sheet rows columns (blanks (19 - length e.filename))
        (put_all_on_sheet rows columns e.filename t)))

-- What the code relies on for an entry: a name of one to 19 characters, and a size that is a positive `int`.
pub record Listable (e : Entry) : Type 0 where
  pub named : length e.filename ≢ 0
  pub short : length e.filename ≤ 19
  pub shown : AllAccepted e.filename
  pub some_bytes : 0 < e.size
  pub below : e.size < 2 ^ 31

-- Memory outside the frame buffer and the arrays on the stack is as it was.
abbrev pub KeptOut : ℕ → Memory → Memory → Type 0
KeptOut stack m m' = (a : ℕ) → OutFrame a → (a < stack) ⊎ (stack + 13 ≤ a) → m' a ≡ m a

-- An outcome that is no fault, with the terminal showing the sheet; of the machine only the display has changed.
abbrev pub Lists : ℕ → ℕ → ℕ → Machine → Option Machine → Sheet → Type 0
Lists rows columns stack s o t =
    (ns : List ℕ) × (d : Display) × (o ≡ some (record s { display = d }))
    × Console rows columns ns d t
    × KeptOut stack s.display.memory d.memory

module _ (rows columns : ℕ) (z : Sized rows columns) (small : (rows ≤ 21) × (columns ≤ 36))
    (image : Image) (out : OutStack image.stack) where
  Console-in_memory :
      (ns : List ℕ) (f : Memory → Memory) (d : Display) (t : Sheet)
      → Console rows columns ns d t
      → Console rows columns ns (record d { memory = f d.memory }) t
  Console-in_memory ns f d t h = record {
    shows = Shows-in_memory rows columns ns f d t h.shows;
    placed = h.placed;
    saved = h.saved;
  }

  digits-AllAccepted : (ds : List ℕ) → Decimal.AreDigits ds → AllAccepted ds
  digits-AllAccepted [] h = tt
  digits-AllAccepted (c ∷ ds) h = (inl (omega (arith, h.1)), digits-AllAccepted ds h.2)

  written-Lists :
      (fuel p c size : ℕ) (cs ns : List ℕ) (s : Machine) (t u : Sheet)
      (k : Machine → Option Machine)
      → ((m : Memory)
          → HasString m (image.stack + 2) (Decimal.decimal size)
          → ((a : ℕ) → (a < image.stack + 2) ⊎ (image.stack + 12 < a) → m a ≡ s.display.memory a)
          → Displays rows columns image.stack (in_memory (λ _. m) s) (k (in_memory (λ _. m) s)) u)
      → Writes size (image.stack + 2) s.display.memory
      → Lists rows columns image.stack s
          (bind (with_memory s (itoa (pos size) (image.stack + 2) s.display.memory)) k)
          u
  written-Lists fuel p c size cs ns s t u k next (m, e, text, reads, digits, same) =
      shown_on (next m text (λ a o. same a (omega (arith, o))))
    where
      shown_on :
          Displays rows columns image.stack (in_memory (λ _. m) s) (k (in_memory (λ _. m) s)) u
          → Lists rows columns image.stack s
              (bind (with_memory s (itoa (pos size) (image.stack + 2) s.display.memory)) k)
              u
      shown_on (ns', d, e', console, kept) = (
        ns',
        d,
        ap (λ o. bind (with_memory s o) k) e ∙ e',
        console,
        λ a outside away.
            kept a outside (omega (arith, away)) (omega (arith, away))
            ∙ same a (omega (arith, away)),
      )

  four_calls :
      (o : Option Machine) (f1 f2 f3 f4 : Act)
      → bind (bind (bind (bind o f1) f2) f3) f4 ≡ bind o (λ s. bind (bind (bind (f1 s) f2) f3) f4)
  four_calls none f1 f2 f3 f4 = refl
  four_calls (some s) f1 f2 f3 f4 = refl

  pub named-Lists :
      (fuel p c size : ℕ) (cs ns : List ℕ) (s : Machine) (t : Sheet)
      → StackOut image.stack
      → 20 ≤ fuel
      → length (c ∷ cs) ≤ 19
      → AllAccepted (c ∷ cs)
      → 0 < size
      → size < 2 ^ 31
      → HasString s.display.memory p (c ∷ cs)
      → read32 s.display.memory (p + 68) ≡ size
      → Clear image.stack p (length (c ∷ cs))
      → HasString s.display.memory image.newline (10 ∷ [])
      → Clear image.stack image.newline 1
      → Console rows columns ns s.display t
      → Lists rows columns image.stack s (list_row fuel image p s) (
          put_on_sheet rows columns 10 (
            put_all_on_sheet rows columns (Decimal.decimal size) (
              put_all_on_sheet rows columns
                (blanks (19 - length (c ∷ cs)))
                (put_all_on_sheet rows columns (c ∷ cs) t))))
  unfolding list_row
  named-Lists fuel p c size cs ns s t so hf short acc there below name read clear newline nclear h =
      subst
        (λ o. Lists rows columns image.stack s o (
          put_on_sheet rows columns 10 (
            put_all_on_sheet rows columns (Decimal.decimal size) (
              put_all_on_sheet rows columns (blanks (19 - length (c ∷ cs)))
                (put_all_on_sheet rows columns (c ∷ cs) t)))))
        (sym (
          four_calls
            (with_memory s (
              itoa (signed32 (read32 s.display.memory (p + 68))) (image.stack + 2)
                s.display.memory))
            (kputs fuel p) (pad_from 256 0 fuel image.stack p) (kputs fuel (image.stack + 2))
            (kputs fuel image.newline)))
        (rw (read, signed)
          (written-Lists fuel p c size cs ns s t _ _
            (λ m text same.
              after_itoa rows columns z small image out fuel p c cs (Decimal.decimal size) ns
                (in_memory (λ _. m) s) t so hf (kept_text m p (c ∷ cs) same clear name) clear short
                acc text
                (digits-AllAccepted (Decimal.decimal size) (Decimal.decimal-AreDigits size))
                (Decimal.length-decimal-le size)
                (kept_text m image.newline (10 ∷ []) same nclear newline) nclear
                (Console-in_memory ns (λ _. m) s.display t h))
            (itoa_lem size (image.stack + 2) s.display.memory there below)))
    where
      signed : signed32 size ≡ pos size
      signed = ground arith

      kept_text :
          (m : Memory) (q : ℕ) (text : List ℕ)
          → ((a : ℕ) → (a < image.stack + 2) ⊎ (image.stack + 12 < a) → m a ≡ s.display.memory a)
          → Clear image.stack q (length text)
          → HasString s.display.memory q text
          → HasString m q text
      kept_text m q text same away text_there =
          HasString-same s.display.memory m q text
            (λ i l. same (q + i) (omega (arith, (away i l).1))) text_there
