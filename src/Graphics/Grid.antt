-- ===== src/Graphics/Grid.antt =====
-- Loops over the five by five cells of a character.
use mono.Prelude.{ℕ, ◌<◌, ◌≡◌, ◌≢◌, arith, for_range, for_range_skip, for_range_hit}

-- Rows of five columns, as the two loops of the source visit them.
abbrev pub over_grid : (ℕ → ℕ → (ℕ → ℕ) → ℕ → ℕ) → (ℕ → ℕ) → ℕ → ℕ
over_grid body m = for_range 5 0 (λ row. for_range 5 0 (body row)) m

pub over_grid_skip :
    (body : ℕ → ℕ → (ℕ → ℕ) → ℕ → ℕ) (m : ℕ → ℕ) (a : ℕ)
    → ((r c : ℕ) (m' : ℕ → ℕ) → r < 5 → c < 5 → body r c m' a ≡ m' a)
    → over_grid body m a ≡ m a
over_grid_skip body m a spare =
    for_range_skip 5 0 (λ row. for_range 5 0 (body row)) m a
      (λ r m' _ hr.
        for_range_skip 5 0 (body r) m' a (λ c m'' _ hc. spare r c m'' (omega arith) (omega arith)))

-- Only the cell in row `r` and column `c` touches `a`.
pub over_grid_hit :
    (body : ℕ → ℕ → (ℕ → ℕ) → ℕ → ℕ) (m : ℕ → ℕ) (a r c : ℕ) (f : ℕ → ℕ)
    → r < 5
    → c < 5
    → ((m' : ℕ → ℕ) → body r c m' a ≡ f (m' a))
    → ((r' c' : ℕ) (m' : ℕ → ℕ) → r' < 5 → c' < 5 → (r' ≡ r → c' ≢ c) → body r' c' m' a ≡ m' a)
    → over_grid body m a ≡ f (m a)
over_grid_hit body m a r c f hr hc hit spare =
    for_range_hit 5 0 (λ row. for_range 5 0 (body row)) m a r f (omega arith) (omega arith)
      (λ m'.
        for_range_hit 5 0 (body r) m' a c f (omega arith) (omega arith) hit
          (λ c' m'' ne _ hc'. spare r c' m'' hr (omega arith) (λ _. ne)))
      (λ r' m' ne _ hr'.
        for_range_skip 5 0 (body r') m' a
          (λ c' m'' _ hc'. spare r' c' m'' (omega arith) (omega arith) (λ e. absurd (ne e))))
