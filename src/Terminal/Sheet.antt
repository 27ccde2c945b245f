-- ===== src/Terminal/Sheet.antt =====
-- What a terminal shows, as a sheet of cells with a cursor: the abstract view of src/terminal.c.
use Prim.Native.Nat.{bit_and, bit_or}
use mono.Prelude.{
  ℕ, suc, ◌+◌, ◌-◌, ◌≤◌, ◌<◌, ◌≡◌, ◌⊎◌, ◌&&◌, Option, none, some, List, ◌↔◌, Bool, true, refl,
  arith, all_below, all_below_sound, ltb, leb, ◌==◌, if◌then◌else◌, length, get_or,
}
use mono.Graphics.Font.{default_font}
use mono.Terminal.{Display}
use mono.Terminal.Chain.{Chain, Distinct}

pub record Sheet : Type 0 where
  pub x : ℕ
  pub y : ℕ
  pub colour : ℕ
  pub cell : ℕ → ℕ → ℕ

-- At least two rows and one column, and at most 8188 of each: further ones stand at coordinates of 16 bits
-- at which the loops around the cursor have no end.
pub record Sized (rows columns : ℕ) : Type 0 where
  pub two_rows : 2 ≤ rows
  pub few_rows : rows ≤ 8188
  pub one_column : 1 ≤ columns
  pub few_columns : columns ≤ 8188

-- The cursor stands on a cell, or past the end of a line, or at the start of the line below the
-- last; the colour is one of sixteen.
pub record IsPlaced (rows columns : ℕ) (s : Sheet) : Type 0 where
  pub x_in : s.x ≤ columns
  pub y_in : s.y ≤ rows
  pub edge : (s.x ≡ 0) ⊎ (s.y < rows)
  pub colour_in : s.colour < 16

-- The rows of the display are the distinct nodes `ns` in order, and they hold the sheet's cells.
pub record Shows (rows columns : ℕ) (ns : List ℕ) (d : Display) (s : Sheet) : Type 0 where
  pub chain : Chain d.nodes.next d.term.screen ns
  pub distinct : Distinct ns
  pub count : length ns ≡ rows
  pub rows_is : d.term.rows ≡ rows
  pub columns_is : d.term.columns ≡ columns
  pub x_is : d.term.cursor_x ≡ s.x
  pub y_is : d.term.cursor_y ≡ s.y
  pub colour_is : d.term.colour ≡ s.colour
  pub cells : (j i : ℕ) → j < rows → i < columns → d.nodes.cell (get_or ns j 0) i ≡ s.cell j i

-- An outcome that is no fault, and shows the sheet.
abbrev pub Refines : ℕ → ℕ → Option Display → Sheet → Type 0
Refines rows columns o s = (ns : List ℕ) × (d : Display) × (o ≡ some d) × Shows rows columns ns d s

-- One row up, with an empty last row.
unfoldable pub scroll_sheet : ℕ → Sheet → Sheet
scroll_sheet rows s = record s {
  y = s.y - 1;
  cell = λ j i. if ltb (suc j) rows then s.cell (suc j) i else 0;
}

unfoldable pub settle : ℕ → Sheet → Sheet
settle rows s = if leb rows s.y then scroll_sheet rows s else s

abbrev pub place : ℕ → ℕ → Sheet → Sheet
place x y s = record s { x = x; y = y }

abbrev pub with_cell : ℕ → Sheet → Sheet
with_cell v s = record s { cell = λ j i. if j == s.y && i == s.x then v else s.cell j i }

unfoldable pub wrap_sheet : ℕ → Sheet → Sheet
wrap_sheet columns s = if s.x == columns then place 0 (s.y + 1) s else s

abbrev pub cursor_back : ℕ → Sheet → Sheet
cursor_back columns s = if s.x == 0 then place (columns - 1) (s.y - 1) s else place (s.x - 1) s.y s

unfoldable pub erase_back : ℕ → Sheet → Sheet
erase_back columns s = if s.x == 0 && s.y == 0 then s else with_cell 0 (cursor_back columns s)

unfoldable pub type_glyph : ℕ → Sheet → Sheet
type_glyph g s = let s' = with_cell (bit_or g s.colour) s in place (s.x + 1) s.y s'

abbrev pub glyph_of : Option ℕ → ℕ
glyph_of none = 0
glyph_of (some g) = g

abbrev pub next_line : Sheet → Sheet
next_line s = place 0 (s.y + 1) s

-- What a character does to a sheet: a colour code, a newline, a backspace or a glyph.
unfoldable pub put_on_sheet : ℕ → ℕ → ℕ → Sheet → Sheet
put_on_sheet rows columns c s =
    if bit_and c 0xF0 == 0xF0
    then record s { colour = bit_and c 0x0F }
    else if c == 10
    then settle rows (next_line (wrap_sheet columns s))
    else if c == 8
    then erase_back columns (wrap_sheet columns s)
    else type_glyph (glyph_of (default_font c)) (settle rows (wrap_sheet columns s))

-- The bytes that the driver takes: 7-bit characters, and colour codes from 0xF0 on.
abbrev pub Accepts : ℕ → Type 0
Accepts c = (c < 128) ⊎ ((240 ≤ c) × (c < 256))

colour_ok : ℕ → Bool
colour_ok c = ltb (bit_and c 0x0F) 16 && (if bit_and c 0xF0 == 0xF0 then leb 240 c else ltb c 240)

colour_table : all_below 256 colour_ok ≡ true
unfolding all_below colour_ok
colour_table = refl

-- A byte is a colour code from 0xF0 on, and the code's low bits are one of sixteen colours.
abbrev pub Coded : ℕ → Type 0
Coded c = (bit_and c 0x0F < 16) × (((bit_and c 0xF0 == 0xF0) ≡ true) ↔ (240 ≤ c))

Coded-parts : (c : ℕ) → colour_ok c ≡ true → Coded c
unfolding colour_ok
Coded-parts c h = ground arith

pub colour_code_lem : (c : ℕ) → c < 256 → Coded c
colour_code_lem c h = Coded-parts c (all_below_sound 256 colour_ok c colour_table h)

-- The cursor stays placed.
pub put_on_sheet-IsPlaced :
    (rows columns c : ℕ) (s : Sheet)
    → Sized rows columns
    → c < 256
    → IsPlaced rows columns s
    → IsPlaced rows columns (put_on_sheet rows columns c s)
unfolding put_on_sheet wrap_sheet settle scroll_sheet erase_back type_glyph
put_on_sheet-IsPlaced rows columns c s z hc p = ground (arith, colour_code_lem c hc)
