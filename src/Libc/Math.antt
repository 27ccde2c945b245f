-- ===== src/Libc/Math.antt =====
-- libc/math.c: square root, power, sine and cosine. `float32_t` is a double; its arithmetic belongs to
-- the compiler and the processor, and is a parameter.
use mono.Prelude.{
  ℕ, zero, suc, ◌+◌, ◌*◌, ◌-◌, ◌/◌, ◌%◌, ◌^◌, Bool, Option, none, some, ◌==◌, ◌&&◌, if◌then◌else◌,
  for_range,
}
use mono.Libc.{factorial}
pub mod Root
pub mod Circle

-- The operations of a `double` that the functions use, the conversion of a `uint32_t`, and `M_PI`.
pub record Double : Type 1 where
  pub Float : Type 0
  pub of_uint : ℕ → Float
  pub add : Float → Float → Float
  pub sub : Float → Float → Float
  pub mul : Float → Float → Float
  pub div : Float → Float → Float
  pub neg : Float → Float
  pub lt : Float → Float → Bool
  pub le : Float → Float → Bool
  pub pi : Float

module _ (D : Double) where
  -- `while ((float32_t)(i * i) <= number) i++; return i - 1;`, on fuel.
  unfoldable pub isqrt_from : ℕ → ℕ → D.Float → Option ℕ
  isqrt_from zero i number = none
  isqrt_from (suc f) i number =
      let rest = isqrt_from f ((i + 1) % 2 ^ 32) number in
      if D.le (D.of_uint (i * i % 2 ^ 32)) number then rest else some ((i + (2 ^ 32 - 1)) % 2 ^ 32)

  unfoldable pub isqrt : ℕ → D.Float → Option ℕ
  isqrt fuel number = isqrt_from fuel 0 number

  -- `guess -= ((guess * guess - number) / (2 * guess))`
  abbrev pub better_guess : D.Float → D.Float → D.Float
  better_guess number guess =
      D.sub guess (D.div (D.sub (D.mul guess guess) number) (D.mul (D.of_uint 2) guess))

  abbrev pub improved : D.Float → Option ℕ → Option D.Float
  improved number none = none
  improved number (some root) =
      some (for_range 3 0 (λ i guess. better_guess number guess) (D.of_uint root))

  unfoldable pub sqrt : ℕ → D.Float → Option D.Float
  sqrt fuel number = improved number (isqrt fuel number)

  unfoldable pub pow : D.Float → ℕ → D.Float
  pow x n = for_range n 0 (λ i result. D.mul result x) (D.of_uint 1)

  -- `i % 2 == 0 ? 1 : -1`
  abbrev pub sign : ℕ → D.Float
  sign i = if i % 2 == 0 then D.of_uint 1 else D.neg (D.of_uint 1)

  -- `result += (...) * (pow(x, n) / factorial(n))`
  abbrev pub add_term : D.Float → ℕ → ℕ → D.Float → ℕ → D.Float
  add_term x i n result divisor =
      D.add result (D.mul (sign i) (D.div (pow x n) (D.of_uint divisor)))

  abbrev pub with_divisor : Option ℕ → (ℕ → Option D.Float) → Option D.Float
  with_divisor none next = none
  with_divisor (some divisor) next = next divisor

  -- The loop over the `k` terms from term `i` on, where term `i` has the exponent `exponent i`; `fuel` is for
  -- `factorial`.
  unfoldable pub series_from : (ℕ → ℕ) → ℕ → ℕ → ℕ → D.Float → D.Float → Option D.Float
  series_from exponent fuel zero i x result = some result
  series_from exponent fuel (suc k) i x result =
      with_divisor (factorial fuel (exponent i)) (λ divisor.
        series_from exponent fuel k (i + 1) x (add_term x i (exponent i) result divisor))

  unfoldable pub series : (ℕ → ℕ) → ℕ → D.Float → Option D.Float
  series exponent fuel x = series_from exponent fuel 10 0 x (D.of_uint 0)

  -- `M_PI / 2`
  abbrev pub half_pi : D.Float
  half_pi = D.div D.pi (D.of_uint 2)

  -- `(3/2)*M_PI`, where `3/2` is a division of whole numbers
  abbrev pub three_halves_pi : D.Float
  three_halves_pi = D.mul (D.of_uint (3 / 2)) D.pi

  abbrev pub two_pi : D.Float
  two_pi = D.mul (D.of_uint 2) D.pi

  abbrev pub between : D.Float → D.Float → D.Float → Bool
  between a x b = D.lt a x && D.le x b

  abbrev pub negated : Option D.Float → Option D.Float
  negated none = none
  negated (some y) = some (D.neg y)

  -- The first argument bounds the depth of the calls.
  unfoldable pub sin : ℕ → ℕ → D.Float → Option D.Float
  sin zero fuel x = none
  sin (suc depth) fuel x =
      let second = sin depth fuel (D.sub x half_pi) in
      let third = sin depth fuel (D.sub x D.pi) in
      let fourth = sin depth fuel (D.sub x three_halves_pi) in
      if between half_pi x D.pi
      then second
      else if between D.pi x three_halves_pi
      then negated third
      else if between three_halves_pi x two_pi
      then negated fourth
      else series (λ i. 2 * i + 1) fuel x

  unfoldable pub cos : ℕ → ℕ → D.Float → Option D.Float
  cos zero fuel x = none
  cos (suc depth) fuel x =
      let second = cos depth fuel (D.sub x half_pi) in
      let third = cos depth fuel (D.sub x D.pi) in
      let fourth = cos depth fuel (D.sub x three_halves_pi) in
      if between half_pi x D.pi
      then negated second
      else if between D.pi x three_halves_pi
      then negated third
      else if between three_halves_pi x two_pi
      then fourth
      else series (λ i. 2 * i) fuel x
