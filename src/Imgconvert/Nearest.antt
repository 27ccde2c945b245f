-- ===== src/Imgconvert/Nearest.antt =====
-- Which colour of the palette a pixel gets.
use mono.Prelude.{
  ℕ, suc, ◌+◌, ◌<◌, ◌≤◌, ◌≡◌, refl, sym, ap, subst, ◌∙◌, ◌⊎◌, inl, inr, Bool, true, false,
  Bool-cases, arith, for_range, for_range_upto, ℕ_discrete,
}
use mono.Imgconvert.{Numbers, closer, nearest}

-- The comparison of doubles on those that are not NaN: it orders them linearly.
pub record Ordered (N : Numbers) : Type 1 where
  pub IsNumber : N.Double → Type 0
  pub max_number : IsNumber N.dbl_max
  pub irreflexive : (x : N.Double) → IsNumber x → N.lt_double x x ≡ false
  pub transitive :
      (x y z : N.Double)
      → IsNumber x
      → IsNumber y
      → IsNumber z
      → N.lt_double x y ≡ true
      → N.lt_double y z ≡ true
      → N.lt_double x z ≡ true
  pub apart :
      (x y z : N.Double)
      → IsNumber x
      → IsNumber y
      → IsNumber z
      → N.lt_double x y ≡ false
      → N.lt_double y z ≡ false
      → N.lt_double x z ≡ false

-- One colour more.
upto :
    (N : Numbers) (d : ℕ → N.Double) (j : ℕ) (x : N.Double) (b : Bool)
    → ((q : ℕ) → q < j → N.lt_double (d q) x ≡ b)
    → N.lt_double (d j) x ≡ b
    → (q : ℕ) → q < suc j
    → N.lt_double (d q) x ≡ b
upto N d j x b h e q l = elim (ℕ_discrete q j) [
  | yes same ↦ ap (λ k. N.lt_double (d k) x) same ∙ e
  | no other ↦ h q (omega arith)
]

module _ (N : Numbers) (d : ℕ → N.Double) where
  open N use {Double, dbl_max, lt_double}

  -- The state of the loop before colour `n`, whatever the numbers are.
  abbrev Ranged : ℕ → Double × ℕ → Type 0
  Ranged n (least, best) =
      ((best ≡ 65535) × (least ≡ dbl_max) × ((j : ℕ) → j < n → lt_double (d j) dbl_max ≡ false))
      ⊎ (best < n)

  closer-Ranged : (j : ℕ) (s : Double × ℕ) → Ranged j s → Ranged (suc j) (closer N d j s)
  unfolding closer
  closer-Ranged j (least, best) h = elim (Bool-cases (lt_double (d j) least)) [
    | inl e ↦ rw e (inr (omega arith))
    | inr e ↦ rw e (farther e h)
  ]
    where
      farther :
          lt_double (d j) least ≡ false → Ranged j (least, best) → Ranged (suc j) (least, best)
      farther e (inl (b, l, none_below)) =
          inl
            (b, l, upto N d j dbl_max false none_below (subst (λ x. lt_double (d j) x ≡ false) l e))
      farther e (inr l) = inr (omega arith)

  -- Over any numbers, NaN among them, `nearest` gives the index of a colour, or 65535; and 65535 only
  -- when no distance compares below the largest double.
  pub nearest_bounds :
      (colours : ℕ)
      → ((nearest N colours d ≡ 65535) × ((j : ℕ) → j < colours → lt_double (d j) dbl_max ≡ false))
        ⊎ (nearest N colours d < colours)
  unfolding nearest
  nearest_bounds colours = ranged (for_range colours 0 (closer N d) (dbl_max, 65535)) (
      for_range_upto Ranged (closer N d) colours 0 (dbl_max, 65535) (λ j s l. closer-Ranged j s)
        (inl (refl, refl, λ j l. absurd (omega arith))))
    where
      ranged :
          (s : Double × ℕ)
          → Ranged (0 + colours) s
          → ((s.1 ≡ 65535) × ((j : ℕ) → j < colours → lt_double (d j) dbl_max ≡ false))
            ⊎ (s.1 < colours)
      ranged (least, best) (inl (b, l, h)) = inl (b, λ j u. h j (omega arith))
      ranged (least, best) (inr l) = inr (omega arith)

module _ (N : Numbers) (o : Ordered N) (d : ℕ → N.Double) where
  open N use {Double, dbl_max, lt_double}
  open o use {IsNumber, max_number, irreflexive, transitive, apart}

  -- The state of the loop before colour `n`: `least` is a number, no distance seen is below it, and it
  -- is the largest double or the distance of `best`, which those before exceed.
  record Least (n : ℕ) (s : Double × ℕ) : Type 0 where
    number : IsNumber s.0
    none_below : (j : ℕ) → j < n → lt_double (d j) s.0 ≡ false
    attained :
        (s.0 ≡ dbl_max)
        ⊎ ((s.1 < n) × (s.0 ≡ d s.1) × ((j : ℕ) → j < s.1 → lt_double s.0 (d j) ≡ true))

  -- A distance below the least one is below all seen before.
  less :
      (j n : ℕ) (least x : Double)
      → IsNumber least
      → IsNumber x
      → IsNumber (d j)
      → lt_double (d j) least ≡ false
      → lt_double x least ≡ true
      → lt_double x (d j) ≡ true
  less j n least x hl hx hj e t = elim (Bool-cases (lt_double x (d j))) [
    | inl q ↦ q
    | inr q ↦ absurd (let c : true ≡ false = sym t ∙ apart x (d j) least hx hj hl q e in cc)
  ]

  not_less : (x y : Double) → IsNumber x → IsNumber y → lt_double x y ≡ true → lt_double y x ≡ false
  not_less x y hx hy t = elim (Bool-cases (lt_double y x)) [
    | inl q ↦
        absurd (let c : true ≡ false = sym (transitive x y x hx hy hx t q) ∙ irreflexive x hx in cc)
    | inr q ↦ q
  ]

  closer-Least :
      (j : ℕ) (s : Double × ℕ)
      → IsNumber (d j)
      → ((q : ℕ) → q < j → IsNumber (d q))
      → Least j s
      → Least (suc j) (closer N d j s)
  unfolding closer
  closer-Least j (least, best) hj hq h = elim (Bool-cases (lt_double (d j) least)) [
    | inl e ↦ rw e (record {
      number = hj;
      none_below =
          upto N d j (d j) false
            (λ q l.
              not_less (d j) (d q) hj (hq q l)
                (less q j least (d j) h.number hj (hq q l) (h.none_below q l) e))
            (irreflexive (d j) hj);
      attained = inr (
        omega arith,
        refl,
        λ q l. less q j least (d j) h.number hj (hq q l) (h.none_below q l) e,
      );
    })
    | inr e ↦ rw e (record {
      number = h.number;
      none_below = upto N d j least false h.none_below e;
      attained = later h.attained;
    })
  ]
    where
      later :
          (least ≡ dbl_max)
            ⊎ ((best < j) × (least ≡ d best) × ((q : ℕ) → q < best → lt_double least (d q) ≡ true))
          → (least ≡ dbl_max)
            ⊎ ((best < suc j)
                × (least ≡ d best)
                × ((q : ℕ) → q < best → lt_double least (d q) ≡ true))
      later (inl m) = inl m
      later (inr (b, m, f)) = inr (omega arith, m, f)

  -- Where all distances are numbers and that of some colour `i` is below the largest double, `nearest`
  -- gives the first of the colours whose distance is least.
  pub nearest_first :
      (colours i : ℕ)
      → ((j : ℕ) → j < colours → IsNumber (d j))
      → i < colours
      → lt_double (d i) dbl_max ≡ true
      → (nearest N colours d < colours)
        × ((j : ℕ) → j < colours → lt_double (d j) (d (nearest N colours d)) ≡ false)
        × ((j : ℕ) → j < nearest N colours d → lt_double (d (nearest N colours d)) (d j) ≡ true)
  unfolding nearest
  nearest_first colours i numbers hi below =
      found (for_range colours 0 (closer N d) (dbl_max, 65535)) (
        for_range_upto (λ n s. n ≤ colours → Least n s) (closer N d) colours 0 (dbl_max, 65535)
          (λ j s l h u.
            closer-Least j s (numbers j (omega arith)) (λ q l'. numbers q (omega arith))
              (h (omega arith)))
          (λ u. record {
            number = max_number;
            none_below = λ j l. absurd (omega arith);
            attained = inl refl;
          })
          (omega arith))
    where
      found :
          (s : Double × ℕ)
          → Least (0 + colours) s
          → (s.1 < colours)
            × ((j : ℕ) → j < colours → lt_double (d j) (d s.1) ≡ false)
            × ((j : ℕ) → j < s.1 → lt_double (d s.1) (d j) ≡ true)
      found (least, best) h = from h.attained
        where
          from :
              (least ≡ dbl_max)
                ⊎ ((best < 0 + colours)
                    × (least ≡ d best)
                    × ((q : ℕ) → q < best → lt_double least (d q) ≡ true))
              → (best < colours)
                × ((j : ℕ) → j < colours → lt_double (d j) (d best) ≡ false)
                × ((j : ℕ) → j < best → lt_double (d best) (d j) ≡ true)
          from (inl m) = absurd (
              let c : true ≡ false =
                sym below ∙ ap (lt_double (d i)) (sym m) ∙ h.none_below i (omega arith) in
              cc)
          from (inr (b, m, f)) = (
            omega arith,
            (λ j l. ap (lt_double (d j)) (sym m) ∙ h.none_below j (omega arith)),
            λ j l. ap (λ x. lt_double x (d j)) (sym m) ∙ f j l,
          )
