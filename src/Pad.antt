-- ===== src/Pad.antt =====
-- utils/pad.c, which appends zeros to a file. `atoi`, the outcome of `stat` and of `fopen`, and the `ceil` of
-- the size divided by 512.00 are parameters; a file is the list of its bytes.
use mono.Prelude.{
  ℕ, zero, suc, ◌*◌, ◌-◌, ◌%◌, ◌^◌, Bool, true, false, Option, none, some, List, [], ◌∷◌, ◌++◌,
  length, if◌then◌else◌,
}
use mono.Prelude.Int.{ℤ, pos, negsuc, ◌-ℤ◌, signed32}
pub mod Size
mod Tests

-- A wider integer as an `int`.
abbrev pub to_int : ℤ → ℤ
to_int (pos n) = signed32 (n % 2 ^ 32)
to_int (negsuc n) = signed32 (2 ^ 32 - 1 - n % 2 ^ 32)

abbrev pub is_minus_one : ℤ → Bool
is_minus_one (negsuc zero) = true
is_minus_one z = false

-- `bytes_required`, from the padding size and the file's; `blocks` is the `ceil`.
unfoldable pub bytes_required : (ℕ → ℕ) → ℤ → ℕ → ℤ
bytes_required blocks padding_size st_size =
    if is_minus_one padding_size
    then to_int (pos (512 * blocks st_size) -ℤ pos st_size)
    else to_int (padding_size -ℤ pos st_size)

-- How often the loop `for (i = 0; i < n; i++)` runs.
abbrev pub loop_rounds : ℤ → ℕ
loop_rounds (pos n) = n
loop_rounds (negsuc n) = 0

-- `fputc(0x00, fp)` on a file that is opened for appending.
unfoldable pub put_zeros : ℕ → List ℕ → List ℕ
put_zeros zero file = file
put_zeros (suc n) file = put_zeros n (file ++ 0 ∷ [])

-- The exit code and the file after the program, or a write through the null pointer that `fopen` gave.
pub data Padding : Type 0 where
  ended : ℤ → List ℕ → Padding
  crashed : Padding

-- With the file missing, `stat` fails.
unfoldable pub main : (ℕ → ℕ) → ℤ → Option (List ℕ) → Bool → Padding
main blocks padding_size none opens = ended (negsuc 0) []
main blocks padding_size (some file) opens =
    if opens
    then ended (pos 0)
        (put_zeros (loop_rounds (bytes_required blocks padding_size (length file))) file)
    else crashed
