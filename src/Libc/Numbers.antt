-- ===== src/Libc/Numbers.antt =====
-- factorial against the product that it means.
use native.Mathlib.Nat.{add-mul-mod_self_left}
use mono.Prelude.{
  ℕ, zero, suc, ◌+◌, ◌-◌, ◌*◌, ◌/◌, ◌%◌, ◌^◌, ◌<◌, ◌≤◌, ◌≡◌, refl, sym, ap, subst, ◌∙◌, true, some,
  arith, leb,
}
use mono.Libc.{factorial_from, factorial}

unfoldable pub product_to : ℕ → ℕ
product_to zero = 1
product_to (suc n) = suc n * product_to n

-- Reducing a factor changes nothing below the modulus.
mod_factor : (a b : ℕ) → a % 2 ^ 32 * b % 2 ^ 32 ≡ a * b % 2 ^ 32
mod_factor a b =
    let whole : a ≡ a % 2 ^ 32 + 2 ^ 32 * (a / 2 ^ 32) = omega arith in
    let spread : a * b ≡ a % 2 ^ 32 * b + 2 ^ 32 * (a / 2 ^ 32 * b) =
      ap (λ k. k * b) whole ∙ grind arith in
    sym (
      ap (λ k. k % 2 ^ 32) spread
      ∙ add-mul-mod_self_left (a % 2 ^ 32 * b) (2 ^ 32) (a / 2 ^ 32 * b))

-- The loop with `k` rounds left, the product of the numbers below `suc i` in hand.
factorial_from_lem :
    (f k i : ℕ) (result : ℕ)
    → i + k < 2 ^ 32 - 1
    → k < f
    → result ≡ product_to i % 2 ^ 32
    → factorial_from f (suc i) (i + k) result ≡ some (product_to (i + k) % 2 ^ 32)
unfolding factorial_from product_to
factorial_from_lem zero k i result h hf e = absurd (omega arith)
factorial_from_lem (suc f) zero i result h hf e = ground arith
factorial_from_lem (suc f) (suc k) i result h hf e =
    let next : (suc i + 1) % 2 ^ 32 ≡ suc (suc i) = omega arith in
    let same : i + suc k ≡ suc i + k = omega arith in
    let goes : leb (suc i) (suc i + k) ≡ true = ground arith in
    let product : result * suc i % 2 ^ 32 ≡ product_to (suc i) % 2 ^ 32 =
      ap (λ r. r * suc i % 2 ^ 32) e
      ∙ mod_factor (product_to i) (suc i)
      ∙ ap (λ r. r % 2 ^ 32) (grind arith) in
    rw (same, goes, next)
      (factorial_from_lem f k (suc i) (result * suc i % 2 ^ 32) (omega arith) (omega arith) product)

-- With fuel for its rounds, and below 2 ^ 32 - 1, `factorial` is the product of the numbers up to `n`,
-- in 32 bits.
pub factorial_lem :
    (fuel n : ℕ)
    → 1 ≤ n
    → n < 2 ^ 32 - 1
    → n ≤ fuel
    → factorial fuel n ≡ some (product_to n % 2 ^ 32)
unfolding factorial product_to
factorial_lem fuel n pos_n small enough =
    let all : 1 + (n - 1) ≡ n = omega arith in
    subst (λ k. factorial_from fuel 2 k 1 ≡ some (product_to k % 2 ^ 32)) all
      (factorial_from_lem fuel (n - 1) 1 1 (omega arith) (omega arith) refl)
