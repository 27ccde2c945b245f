-- ===== src/Terminal/Scroll.antt =====
-- terminal_scroll moves every row up by one and brings in an empty last row.
use mono.Prelude.{
  ℕ, suc, ◌+◌, ◌^◌, ◌≤◌, ◌<◌, ◌≡◌, refl, ap₂, ◌∙◌, none, List, [], ◌∷◌, ◌++◌, arith, ltb, leb,
  if◌then◌else◌, length, length-append, get_or, get_or-snoc, Bool-cases, inl, inr, leb→le,
}
use mono.Terminal.{
  Display, relink, clear_row, pred16, with_background, terminal_scroll, scroll_if_below,
}
use mono.Terminal.Chain.{NotIn, last, find_tail_lem, relink-Chain, Distinct-rotate, NotIn-get_or}
use mono.Terminal.Sheet.{Sheet, Sized, Shows, Refines, scroll_sheet, settle}

-- The display after scrolling, if node `a` is the first row and `tail` the last.
abbrev pub scrolled : ℕ → ℕ → Display → Display
scrolled a tail d = with_background (record d {
  term = record d.term { screen = d.nodes.next a; cursor_y = pred16 d.term.cursor_y };
  nodes = record {
    next = relink tail a d.nodes.next;
    cell = clear_row a d.term.columns d.nodes.cell;
  };
})

-- The rotated nodes hold the rows from the second on, and then the emptied first.
rotated_cell :
    (cell : ℕ → ℕ → ℕ) (a columns : ℕ) (ns : List ℕ) (j i : ℕ)
    → NotIn a ns
    → j ≤ length ns
    → i < columns
    → clear_row a columns cell (get_or (ns ++ a ∷ []) j 0) i
      ≡ (if ltb j (length ns) then cell (get_or ns j 0) i else 0)
rotated_cell cell a columns ns j i out hj hi =
    ground (arith, get_or-snoc ns a j, NotIn-get_or a ns j out)

module _ (rows columns : ℕ) (z : Sized rows columns) (d : Display) (s : Sheet) where
  scroll_step :
      (a b : ℕ) (ks : List ℕ)
      → Shows rows columns (a ∷ b ∷ ks) d s
      → 1 ≤ s.y
      → s.y < 2 ^ 16
      → Refines rows columns (terminal_scroll d) (scroll_sheet rows s)
  unfolding terminal_scroll scroll_sheet
  scroll_step a b ks h hy hy' = (
    b ∷ ks ++ a ∷ [],
    scrolled a (last b ks) d,
    rw (
      h.chain.0,
      find_tail_lem (d.term.rows + 1) d.nodes.next (d.nodes.next a) none b ks h.chain.1
          (omega arith),
    ),
    record {
      chain = relink-Chain d.nodes.next (d.nodes.next a) a b ks h.chain.1 h.distinct.0 h.distinct.1;
      distinct = Distinct-rotate a (b ∷ ks) h.distinct.0 h.distinct.1;
      count = omega (arith, length-append (b ∷ ks) (a ∷ []));
      rows_is = h.rows_is;
      columns_is = h.columns_is;
      x_is = h.x_is;
      y_is = omega arith;
      colour_is = h.colour_is;
      cells = λ j i hj hi.
          rotated_cell d.nodes.cell a d.term.columns (b ∷ ks) j i h.distinct.0 (omega arith)
            (omega arith)
          ∙ moved_up j i hi;
    },
  )
    where
      moved_up :
          (j i : ℕ)
          → i < columns
          → (if ltb j (length (b ∷ ks)) then d.nodes.cell (get_or (b ∷ ks) j 0) i else 0)
            ≡ (if ltb (suc j) rows then s.cell (suc j) i else 0)
      moved_up j i hi = ground (arith, h.cells (suc j) i)

  -- On a terminal of at least two rows that shows a sheet, with the cursor below the first row,
  -- `terminal_scroll` does not fault, and the terminal then shows the scrolled sheet: every row one
  -- up, the last one empty, and the cursor one up.
  pub terminal_scroll-Refines :
      (ns : List ℕ)
      → Shows rows columns ns d s
      → 1 ≤ s.y
      → s.y < 2 ^ 16
      → Refines rows columns (terminal_scroll d) (scroll_sheet rows s)
  terminal_scroll-Refines [] h hy hy' = absurd (omega (arith, z.two_rows, h.count))
  terminal_scroll-Refines (a ∷ []) h hy hy' = absurd (omega (arith, z.two_rows, h.count))
  terminal_scroll-Refines (a ∷ b ∷ ks) h hy hy' = scroll_step a b ks h hy hy'

  pub scroll_if_below-Refines :
      (ns : List ℕ)
      → Shows rows columns ns d s
      → s.y < 2 ^ 16
      → Refines rows columns (scroll_if_below d) (settle rows s)
  unfolding settle
  scroll_if_below-Refines ns h hy = elim (Bool-cases (leb rows s.y)) [
    | inl below ↦
        rw (same ∙ below, below)
          (terminal_scroll-Refines ns h (omega (arith, z.two_rows, leb→le rows s.y below)) hy)
    | inr above ↦ rw (same ∙ above, above) (ns, d, refl, h)
  ]
    where
      same : leb d.term.rows d.term.cursor_y ≡ leb rows s.y
      same = ap₂ leb h.rows_is h.y_is
