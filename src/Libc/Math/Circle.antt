-- ===== src/Libc/Math/Circle.antt =====
-- What sin and cos compute on each part of the circle.
use mono.Prelude.{
  ℕ, zero, suc, ◌+◌, ◌*◌, ◌%◌, ◌^◌, ◌<◌, ◌≤◌, ◌≡◌, refl, ap, ◌∙◌, Bool, true, false, ◌&&◌, Option,
  some, arith, Bool-cases, inl, inr, if◌then◌else◌, for_range,
}
use mono.Libc.{factorial_from, factorial}
use mono.Libc.Math.{
  Double, add_term, series_from, series, half_pi, three_halves_pi, two_pi, between, negated, sin,
  cos,
}
use mono.Libc.Numbers.{product_to, factorial_lem}

factorial_or_one :
    (fuel n : ℕ) → n < 20 → 20 ≤ fuel → factorial fuel n ≡ some (product_to n % 2 ^ 32)
unfolding factorial factorial_from product_to
factorial_or_one zero n h enough = absurd (omega arith)
factorial_or_one (suc f) zero h enough = refl
factorial_or_one (suc f) (suc n) h enough =
    factorial_lem (suc f) (suc n) (omega arith) (omega arith) (omega arith)

-- What the arithmetic of doubles promises about `M_PI`: 1 times it is exact, comparison is an order, and a
-- difference of numbers within these bounds stays within them.
pub record CircleLaws (D : Double) : Type 0 where
  pub one_mul : D.mul (D.of_uint 1) D.pi ≡ D.pi
  pub lt-not_le : (x y : D.Float) → D.lt x y ≡ true → D.le y x ≡ false
  pub beyond_half : (x : D.Float) → D.lt D.pi x ≡ true → D.lt (half_pi D) x ≡ true
  pub sub_half : (x : D.Float) → D.le x D.pi ≡ true → D.lt (half_pi D) (D.sub x (half_pi D)) ≡ false
  pub sub_pi : (x : D.Float) → D.le x (two_pi D) ≡ true → D.le (D.sub x D.pi) D.pi ≡ true

and_right : (a b : Bool) → (a && b) ≡ true → b ≡ true
and_right true b e = e
and_right false b e = cc

module _ (D : Double) where
  -- The sum of the ten terms, with the divisors in 32 bits.
  unfoldable pub series_value : (ℕ → ℕ) → D.Float → D.Float
  series_value exponent x =
      for_range 10 0 (λ i r. add_term D x i (exponent i) r (product_to (exponent i) % 2 ^ 32))
        (D.of_uint 0)

  -- The second quarter is sent to the first, and the lower half to the upper one; `second` and `lower` are
  -- the changes of sign.
  unfoldable pub upper : (D.Float → D.Float) → (ℕ → ℕ) → D.Float → D.Float
  upper second exponent x =
      if D.lt (half_pi D) x
      then second (series_value exponent (D.sub x (half_pi D)))
      else series_value exponent x

  unfoldable pub on_circle : (D.Float → D.Float) → (D.Float → D.Float) → (ℕ → ℕ) → D.Float → D.Float
  on_circle second lower exponent x =
      if between D (half_pi D) x D.pi
      then second (series_value exponent (D.sub x (half_pi D)))
      else if between D D.pi x (two_pi D)
      then lower (upper second exponent (D.sub x D.pi))
      else series_value exponent x

  series_from_lem :
      (exponent : ℕ → ℕ) (fuel k i : ℕ) (x r : D.Float)
      → ((j : ℕ) → j < i + k → exponent j < 20)
      → 20 ≤ fuel
      → series_from D exponent fuel k i x r
        ≡ some (
            for_range k i
              (λ j r'. add_term D x j (exponent j) r' (product_to (exponent j) % 2 ^ 32))
              r)
  unfolding series_from for_range
  series_from_lem exponent fuel zero i x r low enough = refl
  series_from_lem exponent fuel (suc k) i x r low enough =
      rw (factorial_or_one fuel (exponent i) (low i (omega arith)) enough)
        (series_from_lem exponent fuel k (i + 1) x _ (λ j l. low j (omega arith)) enough)

  series_lem :
      (exponent : ℕ → ℕ) (fuel : ℕ) (x : D.Float)
      → ((j : ℕ) → j < 10 → exponent j < 20)
      → 20 ≤ fuel
      → series D exponent fuel x ≡ some (series_value exponent x)
  unfolding series series_value
  series_lem exponent fuel x low enough =
      series_from_lem exponent fuel 10 0 x (D.of_uint 0) (λ j l. low j (omega arith)) enough

  -- The four ways of a call.
  abbrev ways :
      D.Float → Option D.Float → Option D.Float → Option D.Float → Option D.Float → Option D.Float
  ways x a b c d =
      if between D (half_pi D) x D.pi
      then a
      else if between D D.pi x (three_halves_pi D)
      then b
      else if between D (three_halves_pi D) x (two_pi D)
      then c
      else d

  module _ (w : CircleLaws D) where
    no_third : (x : D.Float) → between D D.pi x (three_halves_pi D) ≡ false
    no_third x = rw w.one_mul (elim (Bool-cases (D.lt D.pi x)) [
      | inl beyond ↦ rw (beyond, w.lt-not_le D.pi x beyond) refl
      | inr before ↦ rw before refl
    ])

    ways_lem :
        (x : D.Float) (a b c d : Option D.Float)
        → ways x a b c d ≡ (
            if between D (half_pi D) x D.pi
            then a
            else if between D D.pi x (two_pi D)
            then c
            else d)
    ways_lem x a b c d = rw (no_third x, w.one_mul) refl

    below : (x : D.Float) → D.lt (half_pi D) x ≡ false → D.lt D.pi x ≡ false
    below x e = elim (Bool-cases (D.lt D.pi x)) [
      | inl beyond ↦ cc (e, w.beyond_half x beyond)
      | inr before ↦ before
    ]

    ways_low :
        (x : D.Float) (a b c d : Option D.Float) → D.lt (half_pi D) x ≡ false → ways x a b c d ≡ d
    ways_low x a b c d e =
        let not_beyond : D.lt D.pi x ≡ false = below x e in
        ways_lem x a b c d ∙ (rw (e, not_beyond) refl)

    -- A call within the first quarter, within the upper half, and on the whole circle.
    sin_step :
        (depth fuel : ℕ) (x : D.Float)
        → sin D (suc depth) fuel x ≡ (
            if between D (half_pi D) x D.pi
            then (sin D depth fuel (D.sub x (half_pi D)))
            else if between D D.pi x (two_pi D)
            then (negated D (sin D depth fuel (D.sub x D.pi)))
            else series D (λ i. 2 * i + 1) fuel x)
    unfolding sin
    sin_step depth fuel x = ways_lem x _ _ _ _ ∙ rw w.one_mul refl

    sin_first :
        (depth fuel : ℕ) (x : D.Float)
        → 20 ≤ fuel
        → D.lt (half_pi D) x ≡ false
        → sin D (suc depth) fuel x ≡ some (series_value (λ i. 2 * i + 1) x)
    sin_first depth fuel x enough e =
        sin_step depth fuel x
        ∙ (rw (e, below x e) (series_lem (λ i. 2 * i + 1) fuel x (λ j l. omega arith) enough))

    sin-upper :
        (depth fuel : ℕ) (x : D.Float)
        → 20 ≤ fuel
        → D.le x D.pi ≡ true
        → sin D (suc (suc depth)) fuel x ≡ some (upper (λ y. y) (λ i. 2 * i + 1) x)
    unfolding upper
    sin-upper depth fuel x enough e = elim (Bool-cases (D.lt (half_pi D) x)) [
      | inl second ↦
          sin_step (suc depth) fuel x
          ∙ (rw (second, e) (sin_first depth fuel (D.sub x (half_pi D)) enough (w.sub_half x e)))
      | inr first ↦ rw first (sin_first (suc depth) fuel x enough first)
    ]

    cos_step :
        (depth fuel : ℕ) (x : D.Float)
        → cos D (suc depth) fuel x ≡ (
            if between D (half_pi D) x D.pi
            then (negated D (cos D depth fuel (D.sub x (half_pi D))))
            else if between D D.pi x (two_pi D)
            then (cos D depth fuel (D.sub x D.pi))
            else series D (λ i. 2 * i) fuel x)
    unfolding cos
    cos_step depth fuel x = ways_lem x _ _ _ _ ∙ rw w.one_mul refl

    cos_first :
        (depth fuel : ℕ) (x : D.Float)
        → 20 ≤ fuel
        → D.lt (half_pi D) x ≡ false
        → cos D (suc depth) fuel x ≡ some (series_value (λ i. 2 * i) x)
    cos_first depth fuel x enough e =
        cos_step depth fuel x
        ∙ (rw (e, below x e) (series_lem (λ i. 2 * i) fuel x (λ j l. omega arith) enough))

    cos-upper :
        (depth fuel : ℕ) (x : D.Float)
        → 20 ≤ fuel
        → D.le x D.pi ≡ true
        → cos D (suc (suc depth)) fuel x ≡ some (upper (λ y. D.neg y) (λ i. 2 * i) x)
    unfolding upper
    cos-upper depth fuel x enough e = elim (Bool-cases (D.lt (half_pi D) x)) [
      | inl second ↦
          cos_step (suc depth) fuel x
          ∙ (rw (second, e)
              (ap (negated D) (cos_first depth fuel (D.sub x (half_pi D)) enough (w.sub_half x e))))
      | inr first ↦ rw first (cos_first (suc depth) fuel x enough first)
    ]

    -- With laws of double arithmetic around `M_PI` and fuel for the factorials, three nested calls are enough
    -- for `sin`: it returns the series on the first quarter (and below 0 and beyond `2 * M_PI`), the series at
    -- `x - M_PI / 2` on the second, and on the lower half the negative of its value at `x - M_PI`.
    pub sin_lem :
        (depth fuel : ℕ) (x : D.Float)
        → 20 ≤ fuel
        → sin D (suc (suc (suc depth))) fuel x
          ≡ some (on_circle (λ y. y) (λ y. D.neg y) (λ i. 2 * i + 1) x)
    unfolding on_circle
    sin_lem depth fuel x enough =
        sin_step (suc (suc depth)) fuel x ∙ elim (Bool-cases (between D (half_pi D) x D.pi)) [
          | inl second ↦ rw second (
              sin_first (suc depth) fuel (D.sub x (half_pi D)) enough
                (w.sub_half x (and_right _ _ second)))
          | inr other ↦ rw other (elim (Bool-cases (between D D.pi x (two_pi D))) [
            | inl lower ↦ rw lower (
                ap (negated D)
                  (sin-upper depth fuel (D.sub x D.pi) enough (w.sub_pi x (and_right _ _ lower))))
            | inr neither ↦
                rw neither (series_lem (λ i. 2 * i + 1) fuel x (λ j l. omega arith) enough)
          ])
        ]

    -- With laws of double arithmetic around `M_PI` and fuel for the factorials, three nested calls are
    -- enough for `cos`: it returns the series on the first quarter (and below 0 and beyond `2 * M_PI`), the
    -- negative of the series at `x - M_PI / 2` on the second, and on the lower half its value at `x - M_PI`,
    -- unchanged.
    pub cos_lem :
        (depth fuel : ℕ) (x : D.Float)
        → 20 ≤ fuel
        → cos D (suc (suc (suc depth))) fuel x
          ≡ some (on_circle (λ y. D.neg y) (λ y. y) (λ i. 2 * i) x)
    unfolding on_circle
    cos_lem depth fuel x enough =
        cos_step (suc (suc depth)) fuel x ∙ elim (Bool-cases (between D (half_pi D) x D.pi)) [
          | inl second ↦ rw second (
              ap (negated D) (
                cos_first (suc depth) fuel (D.sub x (half_pi D)) enough
                  (w.sub_half x (and_right _ _ second))))
          | inr other ↦ rw other (elim (Bool-cases (between D D.pi x (two_pi D))) [
            | inl lower ↦
                rw lower
                  (cos-upper depth fuel (D.sub x D.pi) enough (w.sub_pi x (and_right _ _ lower)))
            | inr neither ↦ rw neither (series_lem (λ i. 2 * i) fuel x (λ j l. omega arith) enough)
          ])
        ]
