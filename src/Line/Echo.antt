-- ===== src/Line/Echo.antt =====
-- The echo of one character.
use mono.Prelude.{
  ℕ, ◌+◌, ◌≤◌, ◌<◌, ◌≡◌, ◌≢◌, refl, ◌∙◌, ◌⊎◌, inl, inr, Option, some, List, [], ◌∷◌, arith, ◌==◌,
  if◌then◌else◌, Bool-cases,
}
use mono.Graphics.{video_memory}
use mono.Graphics.Frame.{IsSaved, OutFrame}
use mono.Line.{in_memory, put_one, echo_one}
use mono.Memory.{Memory, write}
use mono.Terminal.{Display}
use mono.Terminal.Char.{put_all_on_sheet}
use mono.Terminal.Message.{Draws, tputs-Draws}
use mono.Terminal.Sheet.{Sheet, Sized, Shows, IsPlaced, put_on_sheet, put_on_sheet-IsPlaced}

pub Shows-in_memory :
    (rows columns : ℕ) (ns : List ℕ) (f : Memory → Memory) (d : Display) (s : Sheet)
    → Shows rows columns ns d s
    → Shows rows columns ns (in_memory f d) s
Shows-in_memory rows columns ns f d s h = record {
  chain = h.chain;
  distinct = h.distinct;
  count = h.count;
  rows_is = h.rows_is;
  columns_is = h.columns_is;
  x_is = h.x_is;
  y_is = h.y_is;
  colour_is = h.colour_is;
  cells = h.cells;
}

-- The terminal's part of the loop's state: what it shows, with a placed cursor and a saved square
-- that is on the screen or none.
pub record Console (rows columns : ℕ) (ns : List ℕ) (d : Display) (s : Sheet) : Type 0 where
  pub shows : Shows rows columns ns d s
  pub placed : IsPlaced rows columns s
  pub saved : IsSaved d.area

-- Two addresses of the stack, outside the frame buffer.
abbrev pub OutStack : ℕ → Type 0
OutStack stack = (stack + 1 < video_memory) ⊎ (video_memory + 64000 ≤ stack)

-- An outcome that is no fault, shows the sheet, and has the same memory but for the frame buffer and
-- the two bytes of the stack.
abbrev pub Echoes : ℕ → ℕ → ℕ → Display → Option Display → Sheet → Type 0
Echoes rows columns stack d o t =
    (ns : List ℕ) × (d' : Display) × (o ≡ some d')
    × Console rows columns ns d' t
    × ((a : ℕ) → OutFrame a → a ≢ stack → a ≢ stack + 1 → d'.memory a ≡ d.memory a)

abbrev pub echoed_sheet : ℕ → ℕ → ℕ → ℕ → Sheet → Sheet
echoed_sheet rows columns echo c s = if echo == 0 then s else put_on_sheet rows columns c s

module _ (rows columns : ℕ) (z : Sized rows columns) (small : (rows ≤ 21) × (columns ≤ 36)) where
  pub put_one-Echoes :
      (stack c : ℕ) (ns : List ℕ) (d : Display) (s : Sheet)
      → OutStack stack
      → c ≢ 0
      → c < 128
      → Console rows columns ns d s
      → Echoes rows columns stack d (put_one stack c d) (put_on_sheet rows columns c s)
  unfolding put_one put_all_on_sheet
  put_one-Echoes stack c ns d s out ne low h = wrap (
      tputs-Draws rows columns z small 2 stack (c ∷ []) ns lit s (ground arith) (ground arith)
        (inl low, tt) (omega arith) (omega arith) h.placed
        (Shows-in_memory rows columns ns (λ m. write (write m stack c) (stack + 1) 0) d s h.shows)
        h.saved)
    where
      lit : Display
      lit = in_memory (λ m. write (write m stack c) (stack + 1) 0) d

      wrap :
          {o : Option Display}
          → Draws rows columns lit o (put_on_sheet rows columns c s)
          → Echoes rows columns stack d o (put_on_sheet rows columns c s)
      wrap (ns', d', e, shows, framed) = (
        ns',
        d',
        e,
        record {
          shows = shows;
          placed = put_on_sheet-IsPlaced rows columns c s z (omega arith) h.placed;
          saved = framed.saved;
        },
        λ a outside ne1 ne2. framed.memory a outside ∙ ground arith,
      )

  pub echo_one-Echoes :
      (echo stack c : ℕ) (ns : List ℕ) (d : Display) (s : Sheet)
      → OutStack stack
      → c ≢ 0
      → c < 128
      → Console rows columns ns d s
      → Echoes rows columns stack d (echo_one echo stack c d) (echoed_sheet rows columns echo c s)
  echo_one-Echoes echo stack c ns d s out ne low h = elim (Bool-cases (echo == 0)) [
    | inl silent ↦ rw silent (ns, d, refl, h, λ a o n1 n2. refl)
    | inr loud ↦ rw loud (put_one-Echoes stack c ns d s out ne low h)
  ]
