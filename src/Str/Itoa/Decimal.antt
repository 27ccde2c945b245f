-- ===== src/Str/Itoa/Decimal.antt =====
-- itoa writes the decimal text of a positive number.
use native.Mathlib.Nat.{pow-suc}
use mono.Prelude.{
  ℕ, zero, suc, ◌+◌, ◌-◌, ◌*◌, ◌/◌, ◌%◌, ◌^◌, ◌≤◌, ◌<◌, ◌≡◌, refl, ap, ◌∙◌, ◌&&◌, some, List, [],
  ◌∷◌, ◌++◌, arith, ltb, leb, ◌==◌, if◌then◌else◌, Bool-cases, inl, inr, length, length-append,
  get_or, get_or-snoc,
}
use mono.Prelude.Int.{pos}
use mono.Memory.{Memory, write, HasString}
use mono.Str.Itoa.{digits_from}

-- The number that a decimal text stands for.
unfoldable pub atoi_from : ℕ → List ℕ → ℕ
atoi_from acc [] = acc
atoi_from acc (c ∷ s) = atoi_from (10 * acc + (c - 48)) s

unfoldable pub atoi : List ℕ → ℕ
unfolding atoi_from
atoi s = atoi_from 0 s

-- Nothing but the digits '0' to '9'.
abbrev pub AreDigits : List ℕ → Type 0
AreDigits [] = Unit {0}
AreDigits (c ∷ s) = (48 ≤ c) × (c < 58) × AreDigits s

atoi_from-snoc :
    (s : List ℕ) (acc c : ℕ) → atoi_from acc (s ++ c ∷ []) ≡ 10 * atoi_from acc s + (c - 48)
unfolding atoi_from
atoi_from-snoc [] acc c = refl
atoi_from-snoc (d ∷ s) acc c = atoi_from-snoc s (10 * acc + (d - 48)) c

-- The digits of a number, the last one first, as the first loop leaves them.
unfoldable pub low_first : ℕ → ℕ → List ℕ
low_first zero n = []
low_first (suc f) n = let rest = low_first f (n / 10) in if n == 0 then [] else (48 + n % 10) ∷ rest

unfoldable pub backwards : List ℕ → List ℕ
backwards [] = []
backwards (c ∷ s) = backwards s ++ c ∷ []

-- The number that digits stand for with the last one first.
value : List ℕ → ℕ
value [] = 0
value (c ∷ s) = c - 48 + 10 * value s

pub length-backwards : (s : List ℕ) → length (backwards s) ≡ length s
unfolding backwards
length-backwards [] = refl
length-backwards (c ∷ s) = omega (arith, length-append (backwards s) (c ∷ []), length-backwards s)

atoi-backwards : (s : List ℕ) → atoi (backwards s) ≡ value s
unfolding backwards value atoi
atoi-backwards [] = refl
atoi-backwards (c ∷ s) = omega (arith, atoi_from-snoc (backwards s) 0 c, atoi-backwards s)

get_or-cons_pos : (s : List ℕ) (c i : ℕ) → 0 < i → get_or (c ∷ s) i 0 ≡ get_or s (i - 1) 0
get_or-cons_pos s c zero h = absurd (omega arith)
get_or-cons_pos s c (suc i) h = ap (λ k. get_or s k 0) (omega arith)

pub get_or-backwards :
    (s : List ℕ) (i : ℕ) → i < length s → get_or (backwards s) i 0 ≡ get_or s (length s - 1 - i) 0
unfolding backwards
get_or-backwards [] i h = elim h [ ]
get_or-backwards (c ∷ s) i h = ground (
  arith,
  get_or-snoc (backwards s) c i,
  length-backwards s,
  get_or-backwards s i,
  get_or-cons_pos s c (length s - i),
)

value-low_first : (f n : ℕ) → n < 10 ^ f → value (low_first f n) ≡ n
unfolding low_first value
value-low_first zero n h = omega arith
value-low_first (suc f) n h =
    ground (arith, value-low_first f (n / 10) (omega (arith, pow-suc 10 f)))

pub length-low_first-le : (f n : ℕ) → length (low_first f n) ≤ f
unfolding low_first
length-low_first-le zero n = omega arith
length-low_first-le (suc f) n = ground (arith, length-low_first-le f (n / 10))

AreDigits-append : (s t : List ℕ) → AreDigits s → AreDigits t → AreDigits (s ++ t)
AreDigits-append [] t hs ht = ht
AreDigits-append (c ∷ s) t hs ht = (hs.0, hs.1, AreDigits-append s t hs.2 ht)

pub AreDigits-backwards : (s : List ℕ) → AreDigits s → AreDigits (backwards s)
unfolding backwards
AreDigits-backwards [] h = tt
AreDigits-backwards (c ∷ s) h =
    AreDigits-append (backwards s) (c ∷ []) (AreDigits-backwards s h.2) (h.0, h.1, tt)

pub low_first-AreDigits : (f n : ℕ) → AreDigits (low_first f n)
unfolding low_first
low_first-AreDigits zero n = tt
low_first-AreDigits (suc f) n = elim (Bool-cases (n == 0)) [
  | inl z ↦ rw z tt
  | inr p ↦ rw p (omega arith, omega arith, low_first-AreDigits f (n / 10))
]

-- What the cell at `a` holds when the bytes `s` have been put at `p`.
abbrev pub placed : List ℕ → ℕ → Memory → ℕ → ℕ
placed s p m a = if leb p a && ltb a (p + length s) then get_or s (a - p) 0 else m a

placed-cons :
    (s : List ℕ) (c p : ℕ) (m : Memory) (a : ℕ)
    → placed s (p + 1) (write m p c) a ≡ placed (c ∷ s) p m a
placed-cons s c p m a = ground (arith, get_or-cons_pos s c (a - p))

-- The loop ends with the digits of `n` put behind `output + k`.
abbrev pub Digits : ℕ → ℕ → ℕ → ℕ → Memory → Type 0
Digits f n k output m =
    (m' : Memory) × (digits_from (suc f) (pos n) k output m ≡ some (k + length (low_first f n), m'))
    × ((a : ℕ) → m' a ≡ placed (low_first f n) (output + k) m a)

low_first-suc : (f n : ℕ) → low_first (suc f) (suc n) ≡ (48 + suc n % 10) ∷ low_first f (suc n / 10)
unfolding low_first
low_first-suc f n = ground arith

Digits-step :
    (f n k output : ℕ) (m : Memory)
    → k < 255
    → Digits f (suc n / 10) (k + 1) output (write m (output + k) (48 + suc n % 10))
    → Digits (suc f) (suc n) k output m
unfolding digits_from low_first
Digits-step f n k output m hk (m', run, at) = (
  m',
  rw next_ok (run ∙ ap (λ j. some (j, m')) (omega (arith, ap length (low_first-suc f n)))),
  λ a.
      ground
        (arith, at a, placed-cons (low_first f (suc n / 10)) (48 + suc n % 10) (output + k) m a),
)
  where
    next_ok : (k + 1) % 256 ≡ k + 1
    next_ok = omega arith

pub digits_from_lem :
    (f n k output : ℕ) (m : Memory) → n < 10 ^ f → k + f < 256 → Digits f n k output m
unfolding digits_from low_first
digits_from_lem zero zero k output m h hk = (m, ground arith, λ a. ground arith)
digits_from_lem zero (suc n) k output m h hk = absurd (omega arith)
digits_from_lem (suc f) zero k output m h hk = (m, ground arith, λ a. ground arith)
digits_from_lem (suc f) (suc n) k output m h hk = Digits-step f n k output m (omega arith) (
    digits_from_lem f (suc n / 10) (k + 1) output (write m (output + k) (48 + suc n % 10))
      (omega (arith, pow-suc 10 f)) (omega arith))

-- Bytes that are digits, put at `p` with a zero behind them, are a string.
pub placed-HasString :
    (s : List ℕ) (p : ℕ) (m : Memory)
    → AreDigits s
    → ((i : ℕ) → i < length s → m (p + i) ≡ get_or s i 0)
    → m (p + length s) ≡ 0
    → HasString m p s
placed-HasString [] p m d at end = ground arith
placed-HasString (c ∷ s) p m d at end = (
  ground (arith, at 0),
  omega arith,
  placed-HasString s (p + 1) m d.2 (λ i h. ap m (omega arith) ∙ at (suc i) (omega arith))
      (ap m (omega arith) ∙ end),
)

-- The text that itoa writes for `n`, which is at most ten digits long.
unfoldable pub decimal : ℕ → List ℕ
unfolding backwards low_first
decimal n = backwards (low_first 10 n)

pub length-decimal-le : (n : ℕ) → length (decimal n) ≤ 10
unfolding decimal
length-decimal-le n = omega (arith, length-backwards (low_first 10 n), length-low_first-le 10 n)

pub decimal-AreDigits : (n : ℕ) → AreDigits (decimal n)
unfolding decimal
decimal-AreDigits n = AreDigits-backwards (low_first 10 n) (low_first-AreDigits 10 n)

pub atoi-decimal : (n : ℕ) → n < 10 ^ 10 → atoi (decimal n) ≡ n
unfolding decimal
atoi-decimal n h = atoi-backwards (low_first 10 n) ∙ value-low_first 10 n h
