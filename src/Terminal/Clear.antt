-- ===== src/Terminal/Clear.antt =====
-- clear_terminal empties every cell and moves the cursor home.
use mono.Prelude.{
  ℕ, zero, suc, ◌+◌, ◌<◌, ◌≡◌, ◌≤◌, refl, true, Option, none, some, List, [], ◌∷◌, arith, length,
  get_or,
}
use mono.Terminal.{Display, clear_row, clear_rows, clear_terminal, move_to}
use mono.Terminal.Chain.{Chain}
use mono.Terminal.Put.{refresh_terminal-Refines}
use mono.Terminal.Sheet.{Sheet, Shows, Refines}

-- The cells after the rows `ns` are cleared one after the other.
unfoldable pub cleared : List ℕ → ℕ → (ℕ → ℕ → ℕ) → ℕ → ℕ → ℕ
cleared [] columns cell = cell
cleared (n ∷ ns) columns cell = cleared ns columns (clear_row n columns cell)

cleared_zero :
    (ns : List ℕ) (columns : ℕ) (cell : ℕ → ℕ → ℕ) (n i : ℕ)
    → cell n i ≡ 0
    → cleared ns columns cell n i ≡ 0
unfolding cleared
cleared_zero [] columns cell n i h = h
cleared_zero (k ∷ ks) columns cell n i h =
    cleared_zero ks columns (clear_row k columns cell) n i (ground arith)

cleared_row :
    (ns : List ℕ) (columns : ℕ) (cell : ℕ → ℕ → ℕ) (j i : ℕ)
    → j < length ns
    → i < columns
    → cleared ns columns cell (get_or ns j 0) i ≡ 0
unfolding cleared
cleared_row [] columns cell j i hj hi = absurd (omega arith)
cleared_row (n ∷ ns) columns cell zero i hj hi =
    cleared_zero ns columns (clear_row n columns cell) n i (ground arith)
cleared_row (n ∷ ns) columns cell (suc j) i hj hi =
    cleared_row ns columns (clear_row n columns cell) j i (omega arith) hi

abbrev pub with_cells : (ℕ → ℕ → ℕ) → Display → Display
with_cells cell d = record d { nodes = record d.nodes { cell = cell } }

clear_rows_lem :
    (f : ℕ) (p : Option ℕ) (ns : List ℕ) (d : Display)
    → Chain d.nodes.next p ns
    → length ns < f
    → clear_rows f p d ≡ some (with_cells (cleared ns d.term.columns d.nodes.cell) d)
unfolding clear_rows cleared
clear_rows_lem zero p ns d c h = absurd (omega arith)
clear_rows_lem (suc f) none [] d c h = refl
clear_rows_lem (suc f) none (n ∷ ns) d c h = cc
clear_rows_lem (suc f) (some q) [] d c h = cc
clear_rows_lem (suc f) (some q) (n ∷ ns) d c h =
    let e : q ≡ n = cc (c.0) in
    rw e (
      clear_rows_lem f (d.nodes.next n) ns (with_cells (clear_row n d.term.columns d.nodes.cell) d)
        c.1 (omega arith))

-- The empty sheet in the same colour.
abbrev pub empty_sheet : Sheet → Sheet
empty_sheet s = record s { x = 0; y = 0; cell = λ j i. 0 }

-- On a terminal of at most 8188 rows and columns that shows a sheet, `clear_terminal` ends without a fault, and the terminal then shows
-- the empty sheet in the same colour, with the cursor on the first cell.
pub clear_terminal-Refines :
    (rows columns : ℕ) (ns : List ℕ) (d : Display) (s : Sheet)
    → rows ≤ 8188
    → columns ≤ 8188
    → Shows rows columns ns d s
    → Refines rows columns (clear_terminal d) (empty_sheet s)
unfolding clear_terminal
clear_terminal-Refines rows columns ns d s few wide h =
    rw
      (clear_rows_lem (d.term.rows + 1) d.term.screen ns d h.chain
        (omega (arith, h.count, h.rows_is)))
      (refresh_terminal-Refines rows columns true ns
        (move_to 0 0 (with_cells (cleared ns d.term.columns d.nodes.cell) d)) (empty_sheet s) few
        wide
        (record {
          chain = h.chain;
          distinct = h.distinct;
          count = h.count;
          rows_is = h.rows_is;
          columns_is = h.columns_is;
          x_is = refl;
          y_is = refl;
          colour_is = h.colour_is;
          cells = λ j i hj hi.
              cleared_row ns d.term.columns d.nodes.cell j i (omega (arith, h.count))
                (omega (arith, h.columns_is));
        }))
