-- ===== src/Str/Itoa.antt =====
-- itoa of src/std/string.c. A negative number leaves its digits as `'0' - d`, as the C remainder
-- does. Both loops run on fuel: a 32-bit `int` has at most ten digits, and the 8-bit indices of the
-- second loop meet after at most 128 rounds.
use mono.Prelude.{
  ℕ, zero, suc, ◌+◌, ◌-◌, ◌/◌, ◌%◌, Bool, true, false, Option, none, some, ltb, if◌then◌else◌,
}
use mono.Prelude.Int.{ℤ, pos, negsuc, neg_ℕ}
use mono.Memory.{Memory, write}
pub mod Reverse
pub mod Decimal
pub mod Text

-- `while (number)`
abbrev pub is_zero : ℤ → Bool
is_zero (pos zero) = true
is_zero (pos (suc n)) = false
is_zero (negsuc n) = false

-- `number / 10`, which rounds towards zero.
abbrev pub quot_ten : ℤ → ℤ
quot_ten (pos n) = pos (n / 10)
quot_ten (negsuc n) = neg_ℕ (suc n / 10)

-- `'0' + number % 10`: the remainder has the sign of the number.
abbrev pub digit_char : ℤ → ℕ
digit_char (pos n) = 48 + n % 10
digit_char (negsuc n) = 48 - suc n % 10

unfoldable pub digits_from : ℕ → ℤ → ℕ → ℕ → Memory → Option (ℕ × Memory)
digits_from zero number length output m = none
digits_from (suc f) number length output m =
    let rest =
      digits_from f (quot_ten number) ((length + 1) % 256) output
        (write m (output + length) (digit_char number)) in
    if is_zero number then some (length, m) else rest

unfoldable pub reverse_from : ℕ → ℕ → ℕ → ℕ → Memory → Option Memory
reverse_from zero left right output m = none
reverse_from (suc f) left right output m =
    let tmp = m (output + right) in
    let swapped = write (write m (output + right) (m (output + left))) (output + left) tmp in
    let rest = reverse_from f ((left + 1) % 256) ((right + 255) % 256) output swapped in
    if ltb left right then rest else some m

-- `right = length - 1` wraps at length 0.
abbrev pub first_right : ℕ → ℕ
first_right length = (length + 255) % 256

-- `result[length] = '\0'`
abbrev pub terminate : ℕ → ℕ → Option Memory → Option Memory
terminate output length none = none
terminate output length (some m) = some (write m (output + length) 0)

abbrev pub reverse_digits : ℕ → Option (ℕ × Memory) → Option Memory
reverse_digits output none = none
reverse_digits output (some (length, m)) =
    terminate output length (reverse_from 129 0 (first_right length) output m)

unfoldable pub itoa : ℤ → ℕ → Memory → Option Memory
itoa number output m = reverse_digits output (digits_from 11 number 0 output m)
