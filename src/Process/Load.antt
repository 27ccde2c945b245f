-- ===== src/Process/Load.antt =====
-- Loading a program.
use mono.Prelude.{
  ℕ, zero, suc, ◌+◌, ◌-◌, ◌*◌, ◌≤◌, ◌<◌, ◌≡◌, refl, ap, sym, Bool-cases, ◌∙◌, ◌⊎◌, inl, inr, arith,
}
use mono.Prelude.Int.{pos}
use mono.Memory.{Memory, read32, write32}
use mono.Process.{
  Machine, loaded, load_program, errno_address, program_injection_address, default_malloc_location,
  in_memory, with_magic,
}
use mono.Process.Calls.{errno}
use mono.Romdisk.{int_is_zero}
use mono.Romdisk.Find.{int_is_zero-eq}
use mono.Str.{memcmp, memcpy}
use mono.Str.Blocks.{memcpy_at, memcmp_zero_iff}

-- No byte of the `n` at `p` is one of the `k` at `q`.
abbrev pub Clear : ℕ → ℕ → ℕ → ℕ → Type 0
Clear p n q k = (p + n ≤ q) ⊎ (q + k ≤ p)

-- The first three bytes of a program.
abbrev pub HasMagic : Memory → ℕ → Type 0
HasMagic m p = (m p ≡ 0x50) × (m (p + 1) ≡ 0x5C) × (m (p + 2) ≡ 0xDE)

loaded_at :
    (p len : ℕ) (s : Machine) (a : ℕ)
    → (program_injection_address ≤ p) ⊎ (p + len ≤ errno_address)
    → a < len
    → (loaded p len s).display.memory (program_injection_address + a) ≡ s.display.memory (p + a)
unfolding loaded write32
loaded_at p len s a apart h =
    memcpy_at program_injection_address p len
      (write32 s.display.memory (program_injection_address - 2 * 4) 0)
      (program_injection_address + a) (omega arith)
    ∙ ground arith

-- The loaded machine has the program in its place, and `errno` 0.
errno-loaded :
    (p len : ℕ) (s : Machine)
    → (program_injection_address ≤ p) ⊎ (p + len ≤ errno_address)
    → errno (loaded p len s) ≡ 0
unfolding loaded write32 read32
errno-loaded p len s apart = ground (
  arith,
  kept errno_address,
  kept (errno_address + 1),
  kept (errno_address + 2),
  kept (errno_address + 3),
)
  where
    m : Memory
    m = write32 s.display.memory (program_injection_address - 2 * 4) 0

    kept :
        (a : ℕ) → a < program_injection_address → memcpy program_injection_address p len m a ≡ m a
    kept a h = memcpy_at program_injection_address p len m a (omega arith) ∙ ground arith

-- The program's first bytes, and the magic beside them.
beside :
    (stack p : ℕ) (m : Memory) (k : ℕ)
    → Clear stack 3 p 3
    → k < 3
    → with_magic stack m (p + k) ≡ m (p + k)
beside stack p m k apart h = ground arith

magic_at :
    (stack : ℕ) (m : Memory)
    → (with_magic stack m (stack + 0) ≡ 0x50)
      × (with_magic stack m (stack + 1) ≡ 0x5C)
      × (with_magic stack m (stack + 2) ≡ 0xDE)
magic_at stack m = (ground arith, ground arith, ground arith)

magic_bytes :
    (stack p : ℕ) (m : Memory) (k : ℕ)
    → Clear stack 3 p 3
    → HasMagic m p
    → k < 3
    → with_magic stack m (p + k) ≡ with_magic stack m (stack + k)
magic_bytes stack p m zero apart h l =
    beside stack p m 0 apart l ∙ ap m (omega arith) ∙ h.0 ∙ sym (magic_at stack m).0
magic_bytes stack p m (suc zero) apart h l =
    beside stack p m 1 apart l ∙ h.1 ∙ sym (magic_at stack m).1
magic_bytes stack p m (suc (suc zero)) apart h l =
    beside stack p m 2 apart l ∙ h.2 ∙ sym (magic_at stack m).2
magic_bytes stack p m (suc (suc (suc k))) apart h l = absurd (omega arith)

magic_there :
    (stack p : ℕ) (m : Memory)
    → Clear stack 3 p 3
    → memcmp p stack 3 (with_magic stack m) ≡ pos 0
    → HasMagic m p
magic_there stack p m apart e = (
  ap m (omega arith)
      ∙ sym (beside stack p m 0 apart (omega arith))
      ∙ same 0 (omega arith)
      ∙ (magic_at stack m).0,
  sym (beside stack p m 1 apart (omega arith)) ∙ same 1 (omega arith) ∙ (magic_at stack m).1,
  sym (beside stack p m 2 apart (omega arith)) ∙ same 2 (omega arith) ∙ (magic_at stack m).2,
)
  where
    same : (k : ℕ) → k < 3 → with_magic stack m (p + k) ≡ with_magic stack m (stack + k)
    same = (memcmp_zero_iff p stack 3 (with_magic stack m)).0 e

magic_seen :
    (stack p : ℕ) (m : Memory)
    → Clear stack 3 p 3
    → HasMagic m p
    → memcmp p stack 3 (with_magic stack m) ≡ pos 0
magic_seen stack p m apart h =
    (memcmp_zero_iff p stack 3 (with_magic stack m)).1 (λ k l. magic_bytes stack p m k apart h l)

-- A program that runs from its place, with its bytes copied there and `errno` 0 before it starts.
abbrev pub Starts : (Machine → Machine) → Machine → ℕ → ℕ → ℕ × Machine → Type 0
Starts run s p len o =
    (s' : Machine) × (o ≡ (0, record (run s') { malloc_start = default_malloc_location }))
    × (errno s' ≡ 0)
    × ((a : ℕ)
        → a < len
        → s'.display.memory (program_injection_address + a) ≡ s.display.memory (p + a))

-- A program with the magic bytes, which ends below `errno` or starts at the place it is copied to or
-- above, and is clear of the stack: `load_program` copies all of it to its place, sets `errno` to 0,
-- runs it on that machine, resets the allocator, and returns 0.
pub load_program-Starts :
    (stack p len : ℕ) (run : Machine → Machine) (s : Machine)
    → (program_injection_address ≤ p) ⊎ (p + len ≤ errno_address)
    → 3 ≤ len
    → Clear stack 3 p len
    → HasMagic s.display.memory p
    → Starts run s p len (load_program stack run p len s)
unfolding load_program
load_program-Starts stack p len run s apart long clear h =
    rw (magic_seen stack p s.display.memory (omega arith) h) (
      loaded p len (in_memory (with_magic stack) s),
      refl,
      errno-loaded p len (in_memory (with_magic stack) s) apart,
      λ a l. loaded_at p len (in_memory (with_magic stack) s) a apart l ∙ ground arith,
    )

-- Data without the magic bytes, clear of the stack: `load_program` returns 1, and nothing is copied or
-- run.
pub load_program_refuses :
    (stack p len : ℕ) (run : Machine → Machine) (s : Machine)
    → Clear stack 3 p 3
    → ¬ HasMagic s.display.memory p
    → load_program stack run p len s ≡ (1, in_memory (with_magic stack) s)
unfolding load_program
load_program_refuses stack p len run s clear h =
    elim (Bool-cases (int_is_zero (memcmp p stack 3 (with_magic stack s.display.memory)))) [
      | inl seen ↦ absurd (h (magic_there stack p s.display.memory clear (int_is_zero-eq _ seen)))
      | inr missing ↦ rw missing refl
    ]
