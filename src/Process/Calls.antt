-- ===== src/Process/Calls.antt =====
-- What system calls report, and what they do to memory.
use mono.Prelude.{
  ℕ, ◌-◌, ◌%◌, ◌^◌, ◌<◌, ◌≡◌, ◌≢◌, refl, inl, inr, Option, some, arith, ◌==◌, if◌then◌else◌,
  Bool-cases, ==_of_ne,
}
use mono.Memory.{read32, write32}
use mono.Process.{Machine, errno_address, set_errno, fail, succeed, sys_read, sys_malloc, syscall}

-- `errno`, as a program reads it.
abbrev pub errno : Machine → ℕ
errno s = read32 s.display.memory errno_address

pub errno-set_errno : (e : ℕ) (s : Machine) → e < 2 ^ 32 → errno (set_errno e s) ≡ e
unfolding set_errno write32 read32
errno-set_errno e s h = omega arith

-- The code that the call should leave: 2 for a wrong file, 1 for a number with no call, else 0.
abbrev pub expected_errno : ℕ → ℕ → ℕ
expected_errno syscall_no fd =
    if syscall_no == 1
    then (if fd == 0 then 0 else 2)
    else if syscall_no == 2
    then (if fd == 1 then 0 else 2)
    else if syscall_no == 3
    then 0
    else 1

-- The call returns, and `errno` is then `e`.
abbrev pub Reports : ℕ → Option (ℕ × Machine) → Type 0
Reports e o = (r : ℕ) × (s' : Machine) × (o ≡ some (r, s')) × (errno s' ≡ e)

fail-Reports : (e : ℕ) (s : Machine) → e < 2 ^ 32 → Reports e (fail e s)
fail-Reports e s h = (2 ^ 32 - 1, set_errno e s, refl, errno-set_errno e s h)

succeed-Reports : (s : Machine) → Reports 0 (succeed s)
succeed-Reports s = (0, set_errno 0 s, refl, errno-set_errno 0 s (omega arith))

sys_read-Reports :
    (fd buf len : ℕ) (past : ℕ → ℕ) (s : Machine)
    → Reports (if fd % 256 == 0 then 0 else 2) (sys_read fd buf len past s)
unfolding sys_read
sys_read-Reports fd buf len past s = elim (Bool-cases (fd % 256 == 0)) [
  | inl ok ↦ rw ok (succeed-Reports _)
  | inr wrong ↦ rw wrong (fail-Reports 2 s (omega arith))
]

-- Every system call but SYS_WRITE and SYS_ENTROPY returns for all arguments, with `errno` 0 for a
-- read of file 0 and for an allocation, 2 for a read of another file, and 1 for an unknown number.
pub syscall-Reports :
    (fuel : ℕ) (past : ℕ → ℕ) (syscall_no arg1 arg2 arg3 : ℕ) (s : Machine)
    → syscall_no < 256
    → syscall_no ≢ 2
    → syscall_no ≢ 6
    → Reports
        (expected_errno syscall_no (arg1 % 256))
        (syscall fuel past syscall_no arg1 arg2 arg3 s)
unfolding syscall sys_malloc
syscall-Reports fuel past number arg1 arg2 arg3 s h not_write not_entropy =
    rw (small, ==_of_ne number 2 not_write, ==_of_ne number 6 not_entropy)
      (elim (Bool-cases (number == 1)) [
        | inl read ↦ rw read (sys_read-Reports arg1 arg2 arg3 past s)
        | inr other ↦ rw other (elim (Bool-cases (number == 3)) [
          | inl malloc ↦
              rw malloc (s.malloc_start, set_errno 0 _, refl, errno-set_errno 0 _ (omega arith))
          | inr unknown ↦ rw unknown (fail-Reports 1 s (omega arith))
        ])
      ])
  where
    small : number % 256 ≡ number
    small = omega arith
