-- ===== src/Str.antt =====
-- src/std/string.c over the flat memory.
use mono.Prelude.{
  ℕ, zero, suc, ◌+◌, ◌-◌, ◌*◌, ◌/◌, ◌%◌, ◌^◌, ◌≡◌, Bool, true, false, ◌&&◌, Option, none, some, ltb,
  ◌==◌, if◌then◌else◌,
}
use mono.Prelude.Int.{ℤ, pos, negsuc, ◌-ℤ◌, sub_ℕ}
use mono.Memory.{Memory, write}
pub mod Blocks
pub mod Compare
pub mod Itoa
pub mod Split
mod Tests

-- `for (i = 0; i < len; i++)` runs `len` rounds, so `i` stays below the 32-bit `len` and cannot
-- wrap: the first argument counts the rounds left, the second is `i`.
unfoldable pub memcmp_from : ℕ → ℕ → ℕ → ℕ → Memory → ℤ
memcmp_from zero i p q m = pos 0
memcmp_from (suc n) i p q m =
    let rest = memcmp_from n (i + 1) p q m in
    if m (p + i) == m (q + i) then rest else sub_ℕ (m (p + i)) (m (q + i))

-- The difference of two bytes fits the `int16_t` result.
unfoldable pub memcmp : ℕ → ℕ → ℕ → Memory → ℤ
unfolding memcmp_from
memcmp p q len m = memcmp_from len 0 p q m

unfoldable pub memset_from : ℕ → ℕ → ℕ → ℕ → Memory → Memory
memset_from zero i p c m = m
memset_from (suc n) i p c m = memset_from n (i + 1) p c (write m (p + i) c)

unfoldable pub memset : ℕ → ℕ → ℕ → Memory → Memory
unfolding memset_from
memset p c len m = memset_from len 0 p c m

unfoldable pub memcpy_from : ℕ → ℕ → ℕ → ℕ → Memory → Memory
memcpy_from zero i p q m = m
memcpy_from (suc n) i p q m = memcpy_from n (i + 1) p q (write m (p + i) (m (q + i)))

unfoldable pub memcpy : ℕ → ℕ → ℕ → Memory → Memory
unfolding memcpy_from
memcpy p q len m = memcpy_from len 0 p q m

-- A plain `char` is signed on this target.
unfoldable pub signed8 : ℕ → ℤ
signed8 b = if ltb b 128 then pos b else negsuc (255 - b)

unfoldable pub char_diff : ℕ → ℕ → ℤ
unfolding signed8 ◌-ℤ◌
char_diff a b = signed8 a -ℤ signed8 b

-- The loop runs on fuel, `none` meaning that it has not ended; `i` is a `uint32_t`.
unfoldable pub strcmp_from : ℕ → ℕ → ℕ → ℕ → Memory → Option ℤ
strcmp_from zero i p q m = none
strcmp_from (suc f) i p q m =
    let rest = strcmp_from f ((i + 1) % 2 ^ 32) p q m in
    if m (p + i) == 0
    then (if m (q + i) == 0 then some (pos 0) else some (char_diff (m (p + i)) (m (q + i))))
    else if m (p + i) == m (q + i)
    then rest
    else some (char_diff (m (p + i)) (m (q + i)))

unfoldable pub strcmp : ℕ → ℕ → ℕ → Memory → Option ℤ
unfolding strcmp_from
strcmp fuel p q m = strcmp_from fuel 0 p q m

-- `while (ptr[++result]);`
unfoldable pub strlen_from : ℕ → ℕ → ℕ → Memory → Option ℕ
strlen_from zero result p m = none
strlen_from (suc f) result p m =
    let next = (result + 1) % 2 ^ 32 in
    let rest = strlen_from f next p m in if m (p + next) == 0 then some next else rest

unfoldable pub strlen : ℕ → ℕ → Memory → Option ℕ
unfolding strlen_from
strlen fuel p m = strlen_from fuel 0 p m
