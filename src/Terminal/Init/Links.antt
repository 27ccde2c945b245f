-- ===== src/Terminal/Init/Links.antt =====
-- A new terminal shows the empty sheet.
use mono.Prelude.{
  ℕ, zero, suc, ◌+◌, ◌-◌, ◌*◌, ◌%◌, ◌^◌, ◌≤◌, ◌<◌, ◌≡◌, refl, ap, ◌∙◌, none, some, arith, for_range,
  for_range_inv, ℕ_discrete,
}
use mono.Terminal.{Display, Terminal}
use mono.Terminal.Sheet.{Sheet, Shows}
use mono.Terminal.Init.{
  pool_at, set_next, new_buffer, with_pool, reset_terminal, link_row, init_terminal,
}
use mono.Terminal.Init.Pool.{
  pool_from, length-pool_from, get_or-pool_from, pool_from-Distinct, pool_from-Chain,
}

module _ (pool columns : ℕ) where
  linked : ℕ → ℕ → Display × ℕ → Display × ℕ
  linked n i s = for_range n i (link_row pool columns) s

  next_before :
      (n i : ℕ) (s : Display × ℕ) (a : ℕ)
      → a < pool_at pool i
      → (linked n i s).0.nodes.next a ≡ s.0.nodes.next a
  unfolding linked for_range
  next_before zero i s a h = refl
  next_before (suc n) i s a h =
      next_before n (i + 1) (link_row pool columns i s) a (omega arith) ∙ ground arith

  next_linked :
      (n i : ℕ) (s : Display × ℕ) (k : ℕ)
      → i ≤ k
      → k < i + n
      → (linked n i s).0.nodes.next (pool_at pool k) ≡ some (pool_at pool (k + 1))
  unfolding linked for_range
  next_linked zero i s k h l = absurd (omega arith)
  next_linked (suc n) i s k h l = elim (ℕ_discrete i k) [
    | yes e ↦
        next_before n (i + 1) (link_row pool columns i s) (pool_at pool k) (omega arith)
        ∙ ground arith
    | no ne ↦ next_linked n (i + 1) (link_row pool columns i s) k (omega arith) (omega arith)
  ]

  cell_kept :
      (n i : ℕ) (s : Display × ℕ) (a j : ℕ)
      → s.0.nodes.cell a j ≡ 0
      → (linked n i s).0.nodes.cell a j ≡ 0
  unfolding linked
  cell_kept n i s a j h =
      for_range_inv (λ (t : Display × ℕ). t.0.nodes.cell a j ≡ 0) (link_row pool columns) n i s
        (λ k t e. ground arith) h

  cell_linked :
      (n i : ℕ) (s : Display × ℕ) (k j : ℕ)
      → i < k
      → k ≤ i + n
      → j < columns
      → (linked n i s).0.nodes.cell (pool_at pool k) j ≡ 0
  unfolding linked for_range
  cell_linked zero i s k j h l hj = absurd (omega arith)
  cell_linked (suc n) i s k j h l hj = elim (ℕ_discrete (i + 1) k) [
    | yes e ↦ cell_kept n (i + 1) (link_row pool columns i s) (pool_at pool k) j (ground arith)
    | no ne ↦ cell_linked n (i + 1) (link_row pool columns i s) k j (omega arith) (omega arith) hj
  ]

  term_linked : (n i : ℕ) (s : Display × ℕ) → (linked n i s).0.term ≡ s.0.term
  unfolding linked
  term_linked n i s =
      for_range_inv (λ (t : Display × ℕ). t.0.term ≡ s.0.term) (link_row pool columns) n i s
        (λ k t e. e) refl

  start_linked :
      (n i : ℕ) (s : Display × ℕ)
      → s.1 + 4 * columns * n < 2 ^ 32
      → (linked n i s).1 ≡ s.1 + 4 * columns * n
  unfolding linked for_range
  start_linked zero i s h = omega arith
  start_linked (suc n) i s h =
      let room : 4 * columns * suc n ≡ 4 * columns + 4 * columns * n = grind arith in
      let next : (s.1 + 4 * columns) % 2 ^ 32 ≡ s.1 + 4 * columns = omega arith in
      start_linked n (i + 1) (link_row pool columns i s) (omega arith) ∙ omega arith

-- An empty sheet with the cursor on the first cell.
abbrev pub new_sheet : ℕ → Sheet
new_sheet colour = record { x = 0; y = 0; colour = colour; cell = λ j i. 0 }

-- `init_terminal` with at least one row, when the allocator has room in 32 bits: the terminal shows
-- the empty sheet of that size, in that colour, its rows are the nodes of the pool in order, and the
-- allocator stands past the pool and the buffers of all rows.
pub init_terminal-Shows :
    (rows columns background colour : ℕ) (s : Display × ℕ)
    → 1 ≤ rows
    → s.1 + 8 * rows + 4 * columns * rows < 2 ^ 32
    → Shows rows columns
        (pool_from s.1 0 rows)
        (init_terminal rows columns background colour s).0
        (new_sheet colour)
      × ((init_terminal rows columns background colour s).1 ≡ s.1 + 8 * rows + 4 * columns * rows)
unfolding init_terminal linked
init_terminal-Shows zero columns background colour s h room = absurd (omega arith)
init_terminal-Shows (suc n) columns background colour s h room = rw back (
  record {
    chain =
        pool_from-Chain
          (set_next (s.1 + 8 * suc n - 8) none (linked s.1 columns n 0 first).0.nodes.next) s.1 0 n
          (linked s.1 columns n 0 first).0.term.screen
          (ap (λ (t : Terminal). t.screen) same_term ∙ ap some (omega arith))
          (λ k low high. ground (arith, next_linked s.1 columns n 0 first k low high))
          (ground arith);
    distinct = pool_from-Distinct s.1 0 (suc n);
    count = length-pool_from s.1 0 (suc n);
    rows_is = ap (λ (t : Terminal). t.rows) same_term;
    columns_is = ap (λ (t : Terminal). t.columns) same_term;
    x_is = ap (λ (t : Terminal). t.cursor_x) same_term;
    y_is = ap (λ (t : Terminal). t.cursor_y) same_term;
    colour_is = ap (λ (t : Terminal). t.colour) same_term;
    cells = λ j i hj hi.
        ap (λ a. (linked s.1 columns n 0 first).0.nodes.cell a i)
          (get_or-pool_from s.1 0 (suc n) j hj ∙ omega arith)
        ∙ row_empty j i hj hi;
  },
  start_linked s.1 columns n 0 first small ∙ ends,
)
  where
    back : suc n - 1 ≡ n
    back = omega arith

    rows_room : 4 * columns * suc n ≡ 4 * columns + 4 * columns * n
    rows_room = grind arith

    first : Display × ℕ
    first =
        new_buffer s.1 columns
          (with_pool s.1 (suc n) (reset_terminal (suc n) columns background colour s.0, s.1))

    same_term : (linked s.1 columns n 0 first).0.term ≡ first.0.term
    same_term = term_linked s.1 columns n 0 first

    row_empty :
        (j i : ℕ)
        → j < suc n
        → i < columns
        → (linked s.1 columns n 0 first).0.nodes.cell (pool_at s.1 j) i ≡ 0
    row_empty zero i hj hi = cell_kept s.1 columns n 0 first (pool_at s.1 0) i (ground arith)
    row_empty (suc j) i hj hi =
        cell_linked s.1 columns n 0 first (suc j) i (omega arith) (omega arith) hi

    small : first.1 + 4 * columns * n < 2 ^ 32
    small = omega (arith, rows_room)

    ends : first.1 + 4 * columns * n ≡ s.1 + 8 * suc n + 4 * columns * suc n
    ends = omega (arith, rows_room)
