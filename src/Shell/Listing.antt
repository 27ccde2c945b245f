-- ===== src/Shell/Listing.antt =====
-- Output of the shell on a terminal, one call after the other.
use mono.Graphics.Frame.{OutFrame}
use mono.Line.Echo.{Console, Echoes, OutStack, put_one-Echoes}
use mono.Line.{put_one}
use mono.Memory.{Memory, HasString, HasString-same}
use mono.Prelude.{
  ℕ, suc, zero, ◌+◌, ◌-◌, ◌%◌, ◌^◌, ◌≤◌, ◌<◌, ◌≡◌, ◌≢◌, refl, sym, subst, ap, ◌∙◌, ◌⊎◌, inl, inr,
  Option, some, List, [], ◌∷◌, length, arith, lt→ltb, ltb_of_le,
}
use mono.Process.{Machine}
use mono.Shell.{Image, Act, bind, shown, kputs, kputc, pad_from}
use mono.Str.Compare.{strlen_nonempty}
use mono.Terminal.Char.{AllAccepted, put_all_on_sheet}
use mono.Terminal.Message.{Apart, Draws, tputs-Draws}
use mono.Terminal.Sheet.{Sheet, Sized, Accepts, IsPlaced, put_on_sheet, put_on_sheet-IsPlaced}
use mono.Terminal.{Display, tputs}
pub mod Pieces
pub mod Rows
pub mod Table
pub mod Whole
mod Tests

-- Memory outside the frame buffer and the two bytes of the small array is as it was.
abbrev pub KeptMemory : ℕ → Memory → Memory → Type 0
KeptMemory stack m m' = (a : ℕ) → OutFrame a → a ≢ stack → a ≢ stack + 1 → m' a ≡ m a

-- An outcome that is no fault, with the terminal showing the sheet; of the machine only the display has changed.
abbrev pub Displays : ℕ → ℕ → ℕ → Machine → Option Machine → Sheet → Type 0
Displays rows columns stack s o t =
    (ns : List ℕ) × (d : Display) × (o ≡ some (record s { display = d }))
    × Console rows columns ns d t
    × KeptMemory stack s.display.memory d.memory

-- `n` blanks.
unfoldable pub blanks : ℕ → List ℕ
blanks zero = []
blanks (suc n) = 32 ∷ blanks n

-- A text of `n` characters and its zero, outside the frame buffer and not in the arrays on the stack, which
-- take 13 bytes.
abbrev pub Clear : ℕ → ℕ → ℕ → Type 0
Clear stack p n = (i : ℕ) → i ≤ n → OutFrame (p + i) × ((p + i < stack) ⊎ (stack + 13 ≤ p + i))

pub HasString-kept :
    (stack : ℕ) (m m' : Memory) (p : ℕ) (cs : List ℕ)
    → KeptMemory stack m m'
    → Clear stack p (length cs)
    → HasString m p cs
    → HasString m' p cs
HasString-kept stack m m' p cs kept clear h =
    HasString-same m m' p cs
      (λ i l. let q = clear i l in kept (p + i) q.0 (omega (arith, q.1)) (omega (arith, q.1))) h

module _ (rows columns : ℕ) (z : Sized rows columns) (small : (rows ≤ 21) × (columns ≤ 36))
    (stack : ℕ) (out : OutStack stack) where
  put_all_on_sheet-IsPlaced :
      (cs : List ℕ) (t : Sheet)
      → AllAccepted cs
      → IsPlaced rows columns t
      → IsPlaced rows columns (put_all_on_sheet rows columns cs t)
  unfolding put_all_on_sheet
  put_all_on_sheet-IsPlaced [] t a p = p
  put_all_on_sheet-IsPlaced (c ∷ cs) t a p =
      put_all_on_sheet-IsPlaced cs (put_on_sheet rows columns c t) a.1
        (put_on_sheet-IsPlaced rows columns c t z (omega (arith, a.0)) p)

  pub Displays-bind :
      (s : Machine) (o : Option Machine) (f : Act) (t u : Sheet)
      → Displays rows columns stack s o t
      → ((ns : List ℕ) (d : Display)
          → Console rows columns ns d t
          → KeptMemory stack s.display.memory d.memory
          → Displays rows columns stack (record s { display = d }) (f (record s { display = d })) u)
      → Displays rows columns stack s (bind o f) u
  Displays-bind s o f t u (ns, d, e, console, kept) next = extend (next ns d console kept)
    where
      extend :
          Displays rows columns stack (record s { display = d }) (f (record s { display = d })) u
          → Displays rows columns stack s (bind o f) u
      extend (ns', d', e', console', kept') = (
        ns',
        d',
        ap (λ o'. bind o' f) e ∙ e',
        console',
        λ a outside n1 n2. kept' a outside n1 n2 ∙ kept a outside n1 n2,
      )

  pub kputs-Displays :
      (fuel p : ℕ) (cs ns : List ℕ) (s : Machine) (t : Sheet)
      → HasString s.display.memory p cs
      → Apart p cs
      → AllAccepted cs
      → length cs < fuel
      → length cs < 65535
      → Console rows columns ns s.display t
      → Displays rows columns stack s (kputs fuel p s) (put_all_on_sheet rows columns cs t)
  unfolding kputs
  kputs-Displays fuel p cs ns s t text apart acc hf hl h = drawn (
      tputs-Draws rows columns z small fuel p cs ns s.display t text apart acc hf hl h.placed
        h.shows h.saved)
    where
      drawn :
          Draws rows columns s.display (tputs fuel p s.display) (put_all_on_sheet rows columns cs t)
          → Displays rows columns stack s
              (shown s (tputs fuel p s.display))
              (put_all_on_sheet rows columns cs t)
      drawn (ns', d, e, shows, framed) = (
        ns',
        d,
        ap (shown s) e,
        record {
          shows = shows;
          placed = put_all_on_sheet-IsPlaced cs t acc h.placed;
          saved = framed.saved;
        },
        λ a outside n1 n2. framed.memory a outside,
      )

  pub kputc-Displays :
      (c : ℕ) (ns : List ℕ) (s : Machine) (t : Sheet)
      → c ≢ 0
      → c < 128
      → Console rows columns ns s.display t
      → Displays rows columns stack s (kputc stack c s) (put_on_sheet rows columns c t)
  unfolding kputc
  kputc-Displays c ns s t ne low h =
      echoed (put_one-Echoes rows columns z small stack c ns s.display t out ne low h)
    where
      echoed :
          Echoes rows columns stack s.display
            (put_one stack c s.display)
            (put_on_sheet rows columns c t)
          → Displays rows columns stack s
              (shown s (put_one stack c s.display))
              (put_on_sheet rows columns c t)
      echoed (ns', d, e, console, kept) = (ns', d, ap (shown s) e, console, kept)
