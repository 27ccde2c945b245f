-- ===== src/Terminal/Refresh.antt =====
-- Drawing ends, and leaves the terminal and its rows alone.
use mono.Prelude.{
  ℕ, zero, suc, ◌+◌, ◌<◌, ◌≡◌, refl, sym, subst, ◌%◌, ◌^◌, ◌∙◌, Bool, true, false, Option, none,
  some, List, [], ◌∷◌, arith, for_range_inv_below, length, ◌*◌, ◌≤◌, ap, Bool-cases, inl, inr, ◌&&◌,
  ◌==◌, if◌then◌else◌,
}
use mono.Graphics.{display_bitmap}
use mono.Graphics.Cursor.{saved_cells, restored_by, save_area-ends, restore_area-ends}
use mono.Memory.{Memory}
use mono.Terminal.{
  Display, Nodes, Terminal, screen_at, cursor_bitmap, cursor_at, restored, under_cursor, drawn_over,
  draw_cell, draw_row, draw_rows, with_background, refresh_terminal, ◌>>=◌,
}
use mono.Terminal.Chain.{Chain}

-- Only the memory and the saved square differ.
pub record Redrawn (d d' : Display) : Type 0 where
  pub term : d'.term ≡ d.term
  pub nodes : d'.nodes ≡ d.nodes

pub Redrawn-refl : (d : Display) → Redrawn d d
Redrawn-refl d = record { term = refl; nodes = refl }

pub Redrawn-trans : {d e f : Display} → Redrawn d e → Redrawn e f → Redrawn d f
Redrawn-trans r s = record { term = s.term ∙ r.term; nodes = s.nodes ∙ r.nodes }

-- The display after a cell is drawn over the memory `m`.
abbrev pub with_cell_drawn : ℕ → ℕ → ℕ → Memory → Display → Display
with_cell_drawn row node i m d =
    if cursor_at row i d.term
    then record d {
      area = record {
        cells = saved_cells (screen_at i) (screen_at row) m d.area.cells;
        x = screen_at i;
        y = screen_at row;
      };
      memory = display_bitmap cursor_bitmap (screen_at i) (screen_at row) m;
    }
    else record d { memory = display_bitmap (d.nodes.cell node i) (screen_at i) (screen_at row) m }

-- At most 8188 rows and columns: the squares around the cells end below 65534.
abbrev pub Few : ℕ → Type 0
Few n = n ≤ 8188

restored_there :
    (row i : ℕ) (d : Display) → row < 8188 → i < 8188 → (m : Memory) × (restored row i d ≡ some m)
restored_there row i d hr hi =
    elim (Bool-cases (30 + row * 8 == d.area.y && 30 + i * 8 == d.area.x)) [
      | inl on ↦ (
        restored_by d.area d.memory,
        rw on (
            restore_area-ends d.area d.memory (ground arith) (ground arith) (ground arith)
              (ground arith)),
      )
      | inr off ↦ (d.memory, rw off refl)
    ]

-- A cell among these is drawn.
pub draw_cell_there :
    (row node i : ℕ) (d : Display)
    → row < 8188
    → i < 8188
    → (m : Memory) × (restored row i d ≡ some m)
      × (draw_cell row node i d ≡ some (with_cell_drawn row node i m d))
unfolding draw_cell
draw_cell_there row node i d hr hi = drawn (restored_there row i d hr hi)
  where
    drawn :
        (m : Memory) × (restored row i d ≡ some m)
        → (m : Memory) × (restored row i d ≡ some m)
          × (drawn_over row node i d (restored row i d) ≡ some (with_cell_drawn row node i m d))
    drawn (m, e) = (
      m,
      e,
      ap (drawn_over row node i d) e ∙ (elim (Bool-cases (cursor_at row i d.term)) [
        | inl cursor ↦ rw cursor (
            ap (under_cursor row i m d) (
              save_area-ends (screen_at i) (screen_at row) m d.area (omega arith) (omega arith)
                (omega arith) (omega arith)))
        | inr plain ↦ rw plain refl
      ]),
    )

pub with_cell_drawn-Redrawn :
    (row node i : ℕ) (m : Memory) (d : Display) → Redrawn d (with_cell_drawn row node i m d)
with_cell_drawn-Redrawn row node i m d = ground arith

-- An outcome that is there and differs at most in memory.
abbrev pub Redraws : Display → Option Display → Type 0
Redraws d o = (d' : Display) × (o ≡ some d') × Redrawn d d'

extend : {d e : Display} {o : Option Display} → Redrawn d e → Redraws e o → Redraws d o
extend r (d', run, s) = (d', run, Redrawn-trans r s)

draw_cell-Redraws :
    (row node i : ℕ) (d : Display) → row < 8188 → i < 8188 → Redraws d (draw_cell row node i d)
draw_cell-Redraws row node i d hr hi =
    let (m, e, run) = draw_cell_there row node i d hr hi in
    (with_cell_drawn row node i m d, run, with_cell_drawn-Redrawn row node i m d)

Redraws-bind :
    {d : Display} {o : Option Display} (f : Display → Option Display)
    → Redraws d o
    → ((e : Display) → Redrawn d e → Redraws e (f e))
    → Redraws d (o >>= f)
Redraws-bind {d} f (e, run, r) next = rw run (extend r (next e r))

pub draw_row-Redraws :
    (row node : ℕ) (d : Display) → row < 8188 → Few d.term.columns → Redraws d (draw_row row node d)
unfolding draw_row
draw_row-Redraws row node d hr few =
    for_range_inv_below (Redraws d) (λ i o. o >>= draw_cell row node i) d.term.columns 0 (some d)
      (λ i o hi h.
        Redraws-bind (draw_cell row node i) h
          (λ e r. draw_cell-Redraws row node i e hr (omega arith)))
      (d, refl, Redrawn-refl d)

draw_rows-Redraws :
    (f row : ℕ) (p : Option ℕ) (ns : List ℕ) (d : Display)
    → Chain d.nodes.next p ns
    → length ns < f
    → Few (row + length ns)
    → Few d.term.columns
    → Redraws d (draw_rows f row p d)
unfolding draw_rows
draw_rows-Redraws zero row p ns d c h few wide = absurd (omega arith)
draw_rows-Redraws (suc f) row none ns d c h few wide = (d, refl, Redrawn-refl d)
draw_rows-Redraws (suc f) row (some n) [] d c h few wide = cc
draw_rows-Redraws (suc f) row (some n) (k ∷ ks) d c h few wide =
    let at_n : n ≡ k = cc (c.0) in
    let below : Chain d.nodes.next (d.nodes.next n) ks =
      subst (λ j. Chain d.nodes.next (d.nodes.next j) ks) (sym at_n) c.1 in
    Redraws-bind (draw_rows f ((row + 1) % 2 ^ 16) (d.nodes.next n))
      (draw_row-Redraws row n d (omega arith) wide)
      (λ e r.
        draw_rows-Redraws f ((row + 1) % 2 ^ 16) (d.nodes.next n) ks e
          (subst (λ (m : Nodes). Chain m.next (d.nodes.next n) ks) (sym r.nodes) below)
          (omega arith) (omega arith) (subst (λ (t : Terminal). Few t.columns) (sym r.term) wide))

-- On a list of as many rows as the terminal has, at most 8188 and as many columns, `refresh_terminal`
-- ends, and leaves the terminal and its rows as they were.
pub refresh_terminal-Redraws :
    (redraw : Bool) (d : Display) (ns : List ℕ)
    → Chain d.nodes.next d.term.screen ns
    → length ns ≡ d.term.rows
    → Few d.term.rows
    → Few d.term.columns
    → Redraws d (refresh_terminal redraw d)
unfolding refresh_terminal
refresh_terminal-Redraws true d ns c h few wide =
    extend (record { term = refl; nodes = refl })
      (draw_rows-Redraws (d.term.rows + 1) 0 d.term.screen ns (with_background d) c (omega arith)
        (omega arith) wide)
refresh_terminal-Redraws false d ns c h few wide =
    draw_rows-Redraws (d.term.rows + 1) 0 d.term.screen ns d c (omega arith) (omega arith) wide
