-- ===== src/Libc/Math/Root.antt =====
-- isqrt against the whole square root.
use native.Mathlib.Nat.{mul-le-mul}
use mono.Prelude.{
  ℕ, zero, suc, ◌+◌, ◌*◌, ◌-◌, ◌%◌, ◌^◌, ◌<◌, ◌≤◌, ◌≡◌, refl, subst, ◌∙◌, Bool, true, false, Option,
  none, some, arith, leb, Bool-cases, inl, inr, if◌then◌else◌,
}
use mono.Libc.Math.{Double, isqrt_from, isqrt}

square_le : (a b : ℕ) → a ≤ b → a * a ≤ b * b
square_le a b l = mul-le-mul l l

module _ (D : Double) where
  -- How many 32-bit whole numbers are at most a float: those up to `n`.
  abbrev pub HasFloor : D.Float → ℕ → Type 0
  HasFloor x n = (k : ℕ) → k < 2 ^ 32 → D.le (D.of_uint k) x ≡ leb k n

  abbrev pub IsRoot : ℕ → Option ℕ → Type 0
  IsRoot n o = (r : ℕ) × (o ≡ some r) × (r * r ≤ n) × (n < (r + 1) * (r + 1))

  below_root : (j n b : ℕ) → j * j ≤ n → n < b * b → j < b
  below_root j n b h k = elim (Bool-cases (leb b j)) [
    | inl over ↦ let far : b * b ≤ j * j = square_le b j (ground arith) in absurd (omega arith)
    | inr under ↦ ground arith
  ]

  IsRoot-if :
      (c : Bool) (n r : ℕ) (o : Option ℕ)
      → ((c ≡ true) → IsRoot n o)
      → ((c ≡ false) → IsRoot n (some r))
      → IsRoot n (if c then o else some r)
  IsRoot-if true n r o h k = h refl
  IsRoot-if false n r o h k = k refl

  -- One round at `suc j`, where `j` has passed the test.
  IsRoot-step :
      (f j n : ℕ) (x : D.Float)
      → HasFloor x n
      → n < 65535 * 65535
      → j * j ≤ n
      → (suc j * suc j ≤ n → IsRoot n (isqrt_from D f (suc (suc j)) x))
      → IsRoot n (isqrt_from D (suc f) (suc j) x)
  unfolding isqrt_from
  IsRoot-step f j n x floor small passed next =
      let low : j < 65535 = below_root j n 65535 passed small in
      let most : suc j * suc j ≤ 65535 * 65535 = square_le (suc j) 65535 (omega arith) in
      let fits : suc j * suc j % 2 ^ 32 ≡ suc j * suc j = omega arith in
      let again : (suc j + 1) % 2 ^ 32 ≡ suc (suc j) = omega arith in
      let back : (suc j + (2 ^ 32 - 1)) % 2 ^ 32 ≡ j = omega arith in
      let tested : D.le (D.of_uint (suc j * suc j)) x ≡ leb (suc j * suc j) n =
        floor (suc j * suc j) (omega arith) in
      rw (fits, again, back)
        (IsRoot-if (D.le (D.of_uint (suc j * suc j)) x) n j (isqrt_from D f (suc (suc j)) x)
          (λ e. next (ground arith)) (λ e. (j, refl, passed, ground arith)))

  isqrt_from-IsRoot :
      (f j n : ℕ) (x : D.Float)
      → HasFloor x n
      → n < 65535 * 65535
      → j * j ≤ n
      → n < (suc j + f) * (suc j + f)
      → IsRoot n (isqrt_from D (suc f) (suc j) x)
  isqrt_from-IsRoot zero j n x floor small passed fuel =
      IsRoot-step zero j n x floor small passed (λ p. absurd (omega arith))
  isqrt_from-IsRoot (suc f) j n x floor small passed fuel =
      IsRoot-step (suc f) j n x floor small passed (λ p.
        isqrt_from-IsRoot f (suc j) n x floor small p (subst (λ b. n < b * b) (omega arith) fuel))

  -- Where the 32-bit whole numbers up to `n` are those that are at most `number`, with n < 65535 * 65535, and
  -- fuel for the rounds: `isqrt` returns the whole square root of `n`.
  pub isqrt-IsRoot :
      (fuel n : ℕ) (x : D.Float)
      → HasFloor x n
      → n < 65535 * 65535
      → n < fuel * fuel
      → IsRoot n (isqrt D (suc fuel) x)
  unfolding isqrt isqrt_from
  isqrt-IsRoot zero n x floor small enough = absurd (omega arith)
  isqrt-IsRoot (suc f) n x floor small enough =
      let tested : D.le (D.of_uint 0) x ≡ true = floor 0 (omega arith) ∙ ground arith in
      rw tested (
        isqrt_from-IsRoot f 0 n x floor small (omega arith)
          (subst (λ b. n < b * b) (omega arith) enough))

  isqrt_from_stuck :
      (f i n : ℕ) (x : D.Float) → HasFloor x n → 2 ^ 32 - 1 ≤ n → isqrt_from D f i x ≡ none
  unfolding isqrt_from
  isqrt_from_stuck zero i n x floor large = refl
  isqrt_from_stuck (suc f) i n x floor large =
      let passes : D.le (D.of_uint (i * i % 2 ^ 32)) x ≡ true =
        floor (i * i % 2 ^ 32) (omega arith) ∙ ground arith in
      rw passes (isqrt_from_stuck f ((i + 1) % 2 ^ 32) n x floor large)

  -- For a number that all 32-bit whole numbers are at most, `isqrt` does not return, whatever the fuel.
  pub isqrt_stuck :
      (fuel n : ℕ) (x : D.Float) → HasFloor x n → 2 ^ 32 - 1 ≤ n → isqrt D fuel x ≡ none
  unfolding isqrt
  isqrt_stuck fuel n x floor large = isqrt_from_stuck fuel 0 n x floor large
