-- ===== src/Str/Tests.antt =====
-- Runs of the functions of src/std/string.c, and the theorems about them at concrete memories.
use mono.Prelude.{ℕ, List, [], ◌∷◌, arith}
use mono.Memory.{Memory, write, IsBytes, HasString}
use mono.Str.Itoa.Text.{Writes, itoa_lem}

-- "AB" at 10 and "AC" at 20.
abbrev two_words : Memory
two_words = write (write (write (write (λ _. 0) 10 65) 11 66) 20 65) 21 67

abbrev ab : List ℕ
ab = 65 ∷ 66 ∷ []

abbrev ac : List ℕ
ac = 65 ∷ 67 ∷ []

two_words-IsBytes : IsBytes two_words
two_words-IsBytes a = ground arith

ab_at_10 : HasString two_words 10 ab
ab_at_10 = ground arith

ac_at_20 : HasString two_words 20 ac
ac_at_20 = ground arith

-- `strlen("")`, with "B" behind its zero, is 2.
abbrev empty_then_b : Memory
empty_then_b = write (λ _. 0) 11 66

b_at_11 : HasString empty_then_b 11 (66 ∷ [])
b_at_11 = ground arith

itoa_lem_example : Writes 1998 10 two_words
itoa_lem_example = itoa_lem 1998 10 two_words (omega arith) (omega arith)
