-- ===== src/Prelude/Loops.antt =====
-- Counted loops, and what they do to one cell of a map from numbers.
use Prim.Native.Nat.{ℕ, zero, suc, ◌+◌, ◌≤◌, ◌<◌}
use mathlib.Core.Path.{◌≡◌, refl, ◌∙◌, ap, subst}
use mathlib.Core.Logic.{◌≢◌}
use native.Mathlib.Omega.{arith}
use native.Mathlib.Decide.{ℕ_discrete}

-- for (k = i; k < i + n; k++) s = step k s
unfoldable pub for_range {ℓ} : {T : Type ℓ} → ℕ → ℕ → (ℕ → T → T) → T → T
for_range zero i step t = t
for_range (suc k) i step t = for_range k (i + 1) step (step i t)

-- A loop whose rounds all spare the cell `a` spares it.
pub for_range_skip :
    (n i : ℕ) (step : ℕ → (ℕ → ℕ) → ℕ → ℕ) (m : ℕ → ℕ) (a : ℕ)
    → ((j : ℕ) (m' : ℕ → ℕ) → i ≤ j → j < i + n → step j m' a ≡ m' a)
    → for_range n i step m a ≡ m a
unfolding for_range
for_range_skip zero i step m a spare = refl
for_range_skip (suc n) i step m a spare =
    for_range_skip n (i + 1) step (step i m) a (λ j m' h l. spare j m' (omega arith) (omega arith))
    ∙ spare i m (omega arith) (omega arith)

-- A loop in which only round `j` touches the cell `a` does to it what that round does.
pub for_range_hit :
    (n i : ℕ) (step : ℕ → (ℕ → ℕ) → ℕ → ℕ) (m : ℕ → ℕ) (a j : ℕ) (f : ℕ → ℕ)
    → i ≤ j
    → j < i + n
    → ((m' : ℕ → ℕ) → step j m' a ≡ f (m' a))
    → ((k : ℕ) (m' : ℕ → ℕ) → k ≢ j → i ≤ k → k < i + n → step k m' a ≡ m' a)
    → for_range n i step m a ≡ f (m a)
unfolding for_range
for_range_hit zero i step m a j f h l hit spare = absurd (omega arith)
for_range_hit (suc n) i step m a j f h l hit spare = elim (ℕ_discrete i j) [
  | yes e ↦
      for_range_skip n (i + 1) step (step i m) a
        (λ k m' h' l'. spare k m' (omega arith) (omega arith) (omega arith))
      ∙ ap (λ t. step t m a) e
      ∙ hit m
  | no ne ↦
      for_range_hit n (i + 1) step (step i m) a j f (omega arith) (omega arith) hit
        (λ k m' nk h' l'. spare k m' nk (omega arith) (omega arith))
      ∙ ap f (spare i m ne (omega arith) (omega arith))
]

-- What every round keeps, the loop keeps.
pub for_range_inv {ℓ κ} :
    {T : Type ℓ} (P : T → Type κ) (step : ℕ → T → T) (n i : ℕ) (t : T)
    → ((j : ℕ) (s' : T) → P s' → P (step j s'))
    → P t
    → P (for_range n i step t)
unfolding for_range
for_range_inv P step zero i s keep h = h
for_range_inv P step (suc n) i s keep h =
    for_range_inv P step n (i + 1) (step i s) keep (keep i s h)

-- The same where the step may use that the round is one of the loop's.
pub for_range_inv_below {ℓ κ} :
    {T : Type ℓ} (P : T → Type κ) (step : ℕ → T → T) (n i : ℕ) (t : T)
    → ((j : ℕ) (s' : T) → j < i + n → P s' → P (step j s'))
    → P t
    → P (for_range n i step t)
unfolding for_range
for_range_inv_below P step zero i s keep h = h
for_range_inv_below P step (suc n) i s keep h =
    for_range_inv_below P step n (i + 1) (step i s) (λ j s' l. keep j s' (omega arith))
      (keep i s (omega arith) h)

-- An invariant that counts the rounds.
pub for_range_upto {ℓ κ} :
    {T : Type ℓ} (P : ℕ → T → Type κ) (step : ℕ → T → T) (n i : ℕ) (t : T)
    → ((j : ℕ) (s' : T) → j < i + n → P j s' → P (suc j) (step j s'))
    → P i t
    → P (i + n) (for_range n i step t)
unfolding for_range
for_range_upto P step zero i s keep h = subst (λ k. P k s) (omega arith) h
for_range_upto P step (suc n) i s keep h =
    subst (λ k. P k (for_range n (i + 1) step (step i s))) (omega arith)
      (for_range_upto P step n (i + 1) (step i s) (λ j s' l. keep j s' (omega arith))
        (subst (λ k. P k (step i s)) (omega arith) (keep i s (omega arith) h)))
