-- ===== src/Str/Itoa/Text.antt =====
-- What itoa leaves in memory, for a positive number and for zero.
use mono.Prelude.{
  ℕ, suc, ◌+◌, ◌-◌, ◌%◌, ◌^◌, ◌≤◌, ◌<◌, ◌≡◌, ◌⊎◌, refl, ap, ◌∙◌, some, List, arith, ◌==◌,
  if◌then◌else◌, length,
}
use mono.Prelude.Int.{pos}
use mono.Memory.{Memory, write, HasString}
use mono.Str.Itoa.{digits_from, reverse_digits, itoa}
use mono.Str.Itoa.Reverse.{mirrored, Reverses, reverse_from_lem}
use mono.Str.Itoa.Decimal

abbrev Finishes : List ℕ → ℕ → Memory → Memory → Type 0
Finishes ds output m m1 =
    (m' : Memory) × (reverse_digits output (some (length ds, m1)) ≡ some m')
    × HasString m' output (Decimal.backwards ds)
    × ((a : ℕ) → (a < output) ⊎ (output + length ds < a) → m' a ≡ m a)

finish_step :
    (ds : List ℕ) (output : ℕ) (m m1 : Memory)
    → Decimal.AreDigits ds
    → 0 < length ds
    → length ds ≤ 10
    → ((a : ℕ) → m1 a ≡ Decimal.placed ds output m a)
    → Reverses 129 0 (length ds - 1) output m1
    → Finishes ds output m m1
finish_step ds output m m1 d hp hl at1 (m2, run, at2) = (
  write m2 (output + length ds) 0,
  rw right_ok (rw run),
  Decimal.placed-HasString (Decimal.backwards ds) output (write m2 (output + length ds) 0)
      (Decimal.AreDigits-backwards ds d)
      (λ i h. ground (
        arith,
        Decimal.length-backwards ds,
        at2 (output + i),
        at1 (output + (length ds - 1) - i),
        Decimal.get_or-backwards ds i,
      ))
      (ground (arith, Decimal.length-backwards ds)),
  λ a h. ground (arith, at2 a, at1 a),
)
  where
    right_ok : (length ds + 255) % 256 ≡ length ds - 1
    right_ok = omega arith

digits_zero : (output : ℕ) (m : Memory) → digits_from 11 (pos 0) 0 output m ≡ some (0, m)
unfolding digits_from
digits_zero output m = refl

zero_step :
    (output : ℕ) (m : Memory)
    → Reverses 129 0 255 output m
    → (m' : Memory) × (itoa (pos 0) output m ≡ some m')
      × ((a : ℕ) → m' a ≡ (if a == output then 0 else mirrored 0 255 output m a))
unfolding itoa
zero_step output m (m2, run, at) =
    (write m2 (output + 0) 0, rw (digits_zero output m) (rw run), λ a. ground (arith, at a))

length-low_first-pos : (f n : ℕ) → 0 < n → 0 < length (Decimal.low_first (suc f) n)
unfolding Decimal.low_first
length-low_first-pos f n h = ground arith

abbrev pub Writes : ℕ → ℕ → Memory → Type 0
Writes n output m =
    (m' : Memory) × (itoa (pos n) output m ≡ some m')
    × HasString m' output (Decimal.decimal n)
    × (Decimal.atoi (Decimal.decimal n) ≡ n)
    × Decimal.AreDigits (Decimal.decimal n)
    × ((a : ℕ) → (a < output) ⊎ (output + 10 < a) → m' a ≡ m a)

positive_step :
    (n output : ℕ) (m : Memory)
    → 0 < n
    → n < 2 ^ 31
    → Decimal.Digits 10 n 0 output m
    → Writes n output m
unfolding itoa Decimal.decimal
positive_step n output m hp h (m1, run, at1) =
    wrap (finish_step ds output m m1 digits pos_len bound placed_at reversed)
  where
    ds : List ℕ
    ds = Decimal.low_first 10 n

    pos_len : 0 < length (Decimal.low_first 10 n)
    pos_len = length-low_first-pos 9 n hp

    bound : length (Decimal.low_first 10 n) ≤ 10
    bound = Decimal.length-low_first-le 10 n

    digits : Decimal.AreDigits (Decimal.low_first 10 n)
    digits = Decimal.low_first-AreDigits 10 n

    placed_at : (a : ℕ) → m1 a ≡ Decimal.placed (Decimal.low_first 10 n) output m a
    placed_at a = at1 a ∙ ap (λ p. Decimal.placed ds p m a) (omega arith)

    reversed : Reverses 129 0 (length (Decimal.low_first 10 n) - 1) output m1
    reversed =
        reverse_from_lem 129 0 (length ds - 1) output m1 (omega (arith, bound))
          (omega (arith, bound)) (omega arith)

    wrap : Finishes ds output m m1 → Writes n output m
    wrap (m', done, text, same) = (
      m',
      rw run (ap (λ k. reverse_digits output (some (k, m1))) (omega arith) ∙ done),
      text,
      Decimal.atoi-decimal n (omega arith),
      Decimal.decimal-AreDigits n,
      λ a out. same a (ground (arith, bound)),
    )

-- For a positive `int`, itoa ends, leaves at `output` the zero-terminated decimal text of the number,
-- which is digits that read back as the number, and changes at most eleven bytes.
pub itoa_lem : (n output : ℕ) (m : Memory) → 0 < n → n < 2 ^ 31 → Writes n output m
itoa_lem n output m hp h =
    positive_step n output m hp h
      (Decimal.digits_from_lem 10 n 0 output m (omega arith) (omega arith))

-- Of zero itoa makes the empty text, and on the way the 8-bit index `length - 1` wraps to 255: the
-- 256 bytes from `output` on are reversed before the first becomes zero.
pub itoa_zero :
    (output : ℕ) (m : Memory)
    → (m' : Memory) × (itoa (pos 0) output m ≡ some m')
      × ((a : ℕ) → m' a ≡ (if a == output then 0 else mirrored 0 255 output m a))
unfolding itoa
itoa_zero output m =
    zero_step output m
      (reverse_from_lem 129 0 255 output m (omega arith) (omega arith) (omega arith))
