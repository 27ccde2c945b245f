-- ===== src/Terminal/Init/Pool.antt =====
-- A pool of nodes, each linked to the next one.
use mono.Prelude.{
  ℕ, zero, suc, ◌+◌, ◌≤◌, ◌<◌, ◌≡◌, refl, Option, none, some, List, [], ◌∷◌, arith, length, get_or,
  ap, ◌∙◌,
}
use mono.Terminal.Chain.{Chain, NotIn, Distinct}
use mono.Terminal.Init.{pool_at}

-- `n` nodes of the pool, from index `i` on.
unfoldable pub pool_from : ℕ → ℕ → ℕ → List ℕ
pool_from pool i zero = []
pool_from pool i (suc n) = pool_at pool i ∷ pool_from pool (i + 1) n

pub length-pool_from : (pool i n : ℕ) → length (pool_from pool i n) ≡ n
unfolding pool_from
length-pool_from pool i zero = refl
length-pool_from pool i (suc n) = ap suc (length-pool_from pool (i + 1) n)

pub get_or-pool_from :
    (pool i n j : ℕ) → j < n → get_or (pool_from pool i n) j 0 ≡ pool_at pool (i + j)
unfolding pool_from
get_or-pool_from pool i zero j h = absurd (omega arith)
get_or-pool_from pool i (suc n) zero h = omega arith
get_or-pool_from pool i (suc n) (suc j) h =
    get_or-pool_from pool (i + 1) n j (omega arith) ∙ omega arith

pool_from-NotIn : (a pool i n : ℕ) → a < pool_at pool i → NotIn a (pool_from pool i n)
unfolding pool_from
pool_from-NotIn a pool i zero h = tt
pool_from-NotIn a pool i (suc n) h = (omega arith, pool_from-NotIn a pool (i + 1) n (omega arith))

pub pool_from-Distinct : (pool i n : ℕ) → Distinct (pool_from pool i n)
unfolding pool_from
pool_from-Distinct pool i zero = tt
pool_from-Distinct pool i (suc n) = (
  pool_from-NotIn (pool_at pool i) pool (i + 1) n (omega arith),
  pool_from-Distinct pool (i + 1) n,
)

-- Nodes linked one to the next, up to the last, are a list.
pub pool_from-Chain :
    (next : ℕ → Option ℕ) (pool i n : ℕ) (p : Option ℕ)
    → p ≡ some (pool_at pool i)
    → ((k : ℕ) → i ≤ k → k < i + n → next (pool_at pool k) ≡ some (pool_at pool (k + 1)))
    → next (pool_at pool (i + n)) ≡ none
    → Chain next p (pool_from pool i (suc n))
unfolding pool_from
pool_from-Chain next pool i zero p e linked ended = (e, ap (λ k. next k) (omega arith) ∙ ended)
pool_from-Chain next pool i (suc n) p e linked ended = (
  e,
  pool_from-Chain next pool (i + 1) n (next (pool_at pool i)) (linked i (omega arith) (omega arith))
      (λ k h l. linked k (omega arith) (omega arith)) (ap (λ k. next k) (omega arith) ∙ ended),
)
