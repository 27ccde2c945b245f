-- ===== src/Terminal/Frame.antt =====
-- The terminal writes memory in the frame buffer only.
use mathlib.Core.Option.{some-injective}
use mono.Prelude.{
  ℕ, zero, suc, ◌+◌, ◌%◌, ◌^◌, ◌≤◌, ◌<◌, ◌≡◌, refl, sym, subst, ap, ◌*◌, ◌∙◌, inl, inr, ◌&&◌, Bool,
  true, false, Option, none, some, List, [], ◌∷◌, arith, ◌==◌, for_range_inv_below, length,
  Bool-cases,
}
use mono.Memory.{Memory}
use mono.Graphics.Frame.{
  OutFrame, IsSaved, draw_background-outside, display_bitmap-frame, restore_area-frame,
}
use mono.Terminal.{
  Display, Nodes, screen_at, cursor_at, restored, draw_cell, draw_row, draw_rows, with_background,
  refresh_terminal, ◌>>=◌,
}
use mono.Terminal.Chain.{Chain}
use mono.Terminal.Refresh.{
  Redrawn, Redrawn-refl, Redrawn-trans, with_cell_drawn, with_cell_drawn-Redrawn, draw_cell_there,
}

-- From `d` to `d'` no byte outside the frame buffer changed, and what `d'` has saved is a square of
-- the screen.
pub record Framed (d d' : Display) : Type 0 where
  pub saved : IsSaved d'.area
  pub columns : d'.term.columns ≡ d.term.columns
  pub memory : (a : ℕ) → OutFrame a → d'.memory a ≡ d.memory a

pub Framed-refl : (d : Display) → IsSaved d.area → Framed d d
Framed-refl d s = record { saved = s; columns = refl; memory = λ a out. refl }

pub Framed-trans : {d e f : Display} → Framed d e → Framed e f → Framed d f
Framed-trans r s = record {
  saved = s.saved;
  columns = s.columns ∙ r.columns;
  memory = λ a out. s.memory a out ∙ r.memory a out;
}

restored-frame :
    (row i : ℕ) (d : Display) (m : Memory) (a : ℕ)
    → IsSaved d.area
    → OutFrame a
    → restored row i d ≡ some m
    → m a ≡ d.memory a
restored-frame row i d m a s out e =
    elim (Bool-cases (30 + row * 8 == d.area.y && 30 + i * 8 == d.area.x)) [
      | inl on ↦ restore_area-frame d.area a d.memory m s out (rw on at e)
      | inr off ↦
          let same : some d.memory ≡ some m = rw off at e in
          ap (λ (m' : Memory). m' a) (some-injective m d.memory (sym same))
    ]

with_cell_drawn-Framed :
    (row node i : ℕ) (m : Memory) (d : Display)
    → row < 21
    → i < 36
    → IsSaved d.area
    → restored row i d ≡ some m
    → Framed d (with_cell_drawn row node i m d)
with_cell_drawn-Framed row node i m d hr hi s e = elim (Bool-cases (cursor_at row i d.term)) [
  | inl cursor ↦ rw cursor (record {
    saved = inr (omega arith);
    columns = refl;
    memory = λ a out.
        display_bitmap-frame _ (screen_at i) (screen_at row) a m (omega arith) out
        ∙ restored-frame row i d m a s out e;
  })
  | inr plain ↦ rw plain (record {
    saved = s;
    columns = refl;
    memory = λ a out.
        display_bitmap-frame _ (screen_at i) (screen_at row) a m (omega arith) out
        ∙ restored-frame row i d m a s out e;
  })
]

-- The outcome is there, with the rows of the terminal as they were.
abbrev Drawn : Display → Option Display → Type 0
Drawn d o = (e : Display) × (o ≡ some e) × Redrawn d e × Framed d e

draw_cell-Drawn :
    (row node i : ℕ) (d : Display)
    → row < 21
    → i < 36
    → IsSaved d.area
    → Drawn d (draw_cell row node i d)
draw_cell-Drawn row node i d hr hi s =
    let (m, e, run) = draw_cell_there row node i d (omega arith) (omega arith) in
    (
      with_cell_drawn row node i m d,
      run,
      with_cell_drawn-Redrawn row node i m d,
      with_cell_drawn-Framed row node i m d hr hi s e,
    )

Drawn-bind :
    {d : Display} {o : Option Display} (f : Display → Option Display)
    → Drawn d o
    → ((e : Display) → Framed d e → Drawn e (f e))
    → Drawn d (o >>= f)
Drawn-bind {d} f (e, run, r, fr) next = rw run (extend (next e fr))
  where
    extend : Drawn e (f e) → Drawn d (f e)
    extend (e', run', r', fr') = (e', run', Redrawn-trans r r', Framed-trans fr fr')

draw_row-Drawn :
    (row node : ℕ) (d : Display)
    → row < 21
    → d.term.columns ≤ 36
    → IsSaved d.area
    → Drawn d (draw_row row node d)
unfolding draw_row
draw_row-Drawn row node d hr hc s =
    for_range_inv_below (Drawn d) (λ i o. o >>= draw_cell row node i) d.term.columns 0 (some d)
      (λ i o hi h.
        Drawn-bind (draw_cell row node i) h
          (λ e f. draw_cell-Drawn row node i e hr (omega arith) f.saved))
      (d, refl, Redrawn-refl d, Framed-refl d s)

-- Every outcome is framed.
abbrev pub Frames : Display → Option Display → Type 0
Frames d o = (d' : Display) → o ≡ some d' → Framed d d'

after_row :
    {d : Display} {o : Option Display} {f : Display → Option Display}
    → Drawn d o
    → ((e : Display) → Redrawn d e → Framed d e → Frames e (f e))
    → Frames d (o >>= f)
after_row (e, run, r, first) next = rw run (λ d' e'. Framed-trans first (next e r first d' e'))

draw_rows-Frames :
    (f row : ℕ) (p : Option ℕ) (ns : List ℕ) (d : Display)
    → Chain d.nodes.next p ns
    → row + length ns ≤ 21
    → d.term.columns ≤ 36
    → IsSaved d.area
    → Frames d (draw_rows f row p d)
unfolding draw_rows
draw_rows-Frames zero row p ns d c h hc s = λ d' e. cc
draw_rows-Frames (suc f) row none ns d c h hc s =
    λ d' e. subst (Framed d) (some-injective d d' e) (Framed-refl d s)
draw_rows-Frames (suc f) row (some n) [] d c h hc s = cc
draw_rows-Frames (suc f) row (some n) (k ∷ ks) d c h hc s =
    let at_n : n ≡ k = cc (c.0) in
    let below : Chain d.nodes.next (d.nodes.next n) ks =
      subst (λ j. Chain d.nodes.next (d.nodes.next j) ks) (sym at_n) c.1 in
    after_row (draw_row-Drawn row n d (omega arith) hc s) (λ e r first.
      draw_rows-Frames f ((row + 1) % 2 ^ 16) (d.nodes.next n) ks e
        (subst (λ (m : Nodes). Chain m.next (d.nodes.next n) ks) (sym r.nodes) below) (omega arith)
        (subst (λ t. t ≤ 36) (sym first.columns) hc) first.saved)

with_background-Framed : (d : Display) → IsSaved d.area → Framed d (with_background d)
with_background-Framed d s = record {
  saved = s;
  columns = refl;
  memory = λ a out. draw_background-outside d.term.background a d.memory out;
}

pub refresh_terminal-Frames :
    (redraw : Bool) (d : Display) (ns : List ℕ)
    → Chain d.nodes.next d.term.screen ns
    → length ns ≤ 21
    → d.term.columns ≤ 36
    → IsSaved d.area
    → Frames d (refresh_terminal redraw d)
unfolding refresh_terminal
refresh_terminal-Frames true d ns c h hc s = λ d' e. Framed-trans (with_background-Framed d s) (
    draw_rows-Frames (d.term.rows + 1) 0 d.term.screen ns (with_background d) c (omega arith) hc s
      d' e)
refresh_terminal-Frames false d ns c h hc s =
    draw_rows-Frames (d.term.rows + 1) 0 d.term.screen ns d c (omega arith) hc s
