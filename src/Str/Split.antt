-- ===== src/Str/Split.antt =====
-- `split_string` of src/std/string.c.
use mono.Prelude.{
  ℕ, zero, suc, ◌+◌, ◌-◌, ◌*◌, ◌%◌, ◌^◌, Bool, true, false, ◌&&◌, Option, none, some, ◌==◌,
  if◌then◌else◌,
}
use mono.Memory.{Memory, write, read32}
use mono.Str.{strlen}
pub mod Tokens
pub mod Steps
pub mod Loop
pub mod Result

abbrev pub not : Bool → Bool
not true = false
not false = true

-- `out[i][k] = c`; `k` is a 32-bit word, -1 being 2 ^ 32 - 1.
unfoldable pub put : ℕ → ℕ → ℕ → ℕ → Memory → Memory
put out i k c m = write m ((read32 m (out + 4 * i) + k) % 2 ^ 32) c

abbrev pub dec32 : ℕ → ℕ
dec32 k = (k + (2 ^ 32 - 1)) % 2 ^ 32

abbrev pub inc32 : ℕ → ℕ
inc32 k = (k + 1) % 2 ^ 32

-- The loop, on fuel, from `j`, `k`, `i` and `escaped`; `none` means that the fuel is spent.
unfoldable pub split_from : ℕ → ℕ → ℕ → ℕ → ℕ → ℕ → ℕ → ℕ → Bool → Memory → Option (ℕ × Memory)
split_from zero str delimiter escape out j k i escaped m = none
split_from (suc fuel) str delimiter escape out j k i escaped m =
    let c = m (str + j) in
    let escaped' = if c == escape then not escaped else escaped in
    let k' = if c == escape then dec32 k else k in
    let m' = if c == escape then m else put out i k' c m in
    let next_word =
      split_from fuel str delimiter escape out (inc32 j) 0 ((i + 1) % 2 ^ 16) escaped'
        (put out i k' 0 m) in
    let next = split_from fuel str delimiter escape out (inc32 j) (inc32 k') i escaped' m' in
    if c == 0 then some (i, m) else if c == delimiter && not escaped' then next_word else next

abbrev pub counted : ℕ → ℕ → ℕ → ℕ × Memory → ℕ × Memory
counted str delimiter len (i, m) =
    (if m (str + dec32 len) == delimiter then i else (i + 1) % 2 ^ 16, m)

abbrev pub with_count : ℕ → ℕ → Option ℕ → ℕ × Memory → Option (ℕ × Memory)
with_count str delimiter none r = none
with_count str delimiter (some len) r = some (counted str delimiter len r)

abbrev pub count_words : ℕ → ℕ → ℕ → Option (ℕ × Memory) → Option (ℕ × Memory)
count_words fuel str delimiter none = none
count_words fuel str delimiter (some (i, m)) = with_count str delimiter (strlen fuel str m) (i, m)

-- The code does not initialise `j`: `start` is what it happens to hold.
unfoldable pub split_string : ℕ → ℕ → ℕ → ℕ → ℕ → ℕ → Memory → Option (ℕ × Memory)
split_string fuel start str delimiter escape out m =
    count_words fuel str delimiter (split_from fuel str delimiter escape out start 0 0 false m)
