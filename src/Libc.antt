-- ===== src/Libc.antt =====
-- libc/: the whole-number part of the library that programs link, over the kernel's system calls.
-- The programs reach `syscall` through its address in memory, which the model leaves out.
use mono.Prelude.{
  ℕ, zero, suc, ◌+◌, ◌*◌, ◌%◌, ◌^◌, Option, none, some, leb, if◌then◌else◌, for_range,
}
use mono.Memory.{Memory, write}
use mono.Process.{Machine, in_memory, syscall}
pub mod Alloc
pub mod Numbers
pub mod Files
pub mod Math
mod Tests

unfoldable pub malloc : (ℕ → ℕ) → ℕ → Machine → Option (ℕ × Machine)
malloc past len s = syscall 0 past 3 len 0 0 s

-- The loop of `calloc` over the `n` bytes of its block.
abbrev pub zero_bytes : ℕ → ℕ → Machine → Machine
zero_bytes n result s = in_memory (λ m. for_range n 0 (λ i m'. write m' (result + i) 0) m) s

abbrev pub zeroed : ℕ → Option (ℕ × Machine) → Option (ℕ × Machine)
zeroed n none = none
zeroed n (some (result, s)) = some (result, zero_bytes n result s)

unfoldable pub calloc : (ℕ → ℕ) → ℕ → ℕ → Machine → Option (ℕ × Machine)
calloc past num size s = zeroed (num * size % 2 ^ 32) (malloc past (num * size % 2 ^ 32) s)

-- `__rand_seed` before and after, and the result; `& 0x7FFFFFFF` keeps the low 31 bits.
unfoldable pub rand : ℕ → ℕ × ℕ
rand seed = let next = (1664525 * seed + 1013904223) % 2 ^ 32 % 0xFFFFFFFF in (next % 2 ^ 31, next)

-- `for (i = 2; i <= n; i++) result *= i`, on fuel.
unfoldable pub factorial_from : ℕ → ℕ → ℕ → ℕ → Option ℕ
factorial_from zero i n result = none
factorial_from (suc f) i n result =
    let rest = factorial_from f ((i + 1) % 2 ^ 32) n (result * i % 2 ^ 32) in
    if leb i n then rest else some result

unfoldable pub factorial : ℕ → ℕ → Option ℕ
factorial fuel n = factorial_from fuel 2 n 1

unfoldable pub entropy : (ℕ → ℕ) → Machine → Option (ℕ × Machine)
entropy past s = syscall 0 past 6 0 0 0 s

-- `__rand_seed` after `srand(seed)`
unfoldable pub srand : ℕ → ℕ
srand seed = seed

-- `main` is the program's.
unfoldable pub entry : (ℕ → ℕ → Machine → ℕ × Machine) → ℕ → ℕ → Machine → ℕ × Machine
entry main argc argv s = main (argc % 256) argv s
