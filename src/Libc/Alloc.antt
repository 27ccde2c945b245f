-- ===== src/Libc/Alloc.antt =====
-- calloc gives a zeroed block of its own.
use mono.Prelude.{ℕ, ◌+◌, ◌*◌, ◌%◌, ◌^◌, ◌<◌, ◌≡◌, refl, Option, some, arith, for_range_hit}
use mono.Libc.{malloc, calloc}
use mono.Memory.{write}
use mono.Process.{Machine, set_errno, sys_malloc, syscall}

-- The block starts at the old `MALLOC_START`, ends at the new one, and is zero.
abbrev pub Zeroed : ℕ → Machine → Option (ℕ × Machine) → Type 0
Zeroed n s o =
    (s' : Machine) × (o ≡ some (s.malloc_start, s'))
    × (s'.malloc_start ≡ s.malloc_start + n)
    × ((i : ℕ) → i < n → s'.display.memory (s.malloc_start + i) ≡ 0)

-- A request whose size and whose block stay below 2 ^ 32: `calloc` returns, and all bytes of the block
-- that `MALLOC_START` then has passed are zero.
pub calloc-Zeroed :
    (past : ℕ → ℕ) (num size : ℕ) (s : Machine)
    → s.malloc_start + num * size < 2 ^ 32
    → Zeroed (num * size) s (calloc past num size s)
unfolding calloc malloc syscall sys_malloc set_errno
calloc-Zeroed past num size s h = rw fits (
  _,
  refl,
  omega arith,
  λ i l.
      for_range_hit (num * size) 0 (λ j m'. write m' (s.malloc_start + j) 0) _ (s.malloc_start + i)
        i (λ c. 0) (omega arith) (omega arith) (λ m'. ground arith)
        (λ k m' ne low high. ground arith),
)
  where
    fits : num * size % 2 ^ 32 ≡ num * size
    fits = omega arith
