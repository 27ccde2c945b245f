-- ===== src/Process/Tests.antt =====
-- System calls on a small terminal, and a small program.
use mono.Prelude.{ℕ, refl, [], ◌∷◌, arith}
use mono.Memory.{write}
use mono.Process.{Machine, syscall, load_program, in_memory}
use mono.Process.Calls.{Reports, syscall-Reports}
use mono.Process.Heap.{mallocs, Allocates, mallocs-Allocates}
use mono.Process.Load.{Starts, HasMagic, load_program-Starts}
use mono.Terminal.Tests.{small}

abbrev pub nothing_past : ℕ → ℕ
nothing_past i = 0

abbrev pub machine : Machine
machine = record {
  display = small;
  keyboard = record { buffer = λ i. 0; bufempty = 1; read = 0; write = 0; shift = 0; ctrl = 0 };
  malloc_start = 0x2800000;
}

-- SYS_READ of file 3.
syscall-Reports_example : Reports 2 (syscall 0 nothing_past 1 3 500 10 machine)
syscall-Reports_example =
    syscall-Reports 0 nothing_past 1 3 500 10 machine (omega arith) (omega arith) (omega arith)

mallocs-Allocates_example :
    Allocates (10 ∷ 20 ∷ []) 0x2800000 (mallocs 0 nothing_past (10 ∷ 20 ∷ []) machine)
mallocs-Allocates_example = mallocs-Allocates 0 nothing_past (10 ∷ 20 ∷ []) machine (omega arith)

-- A program of three bytes at 0x1000, and the stack at 0x2000.
abbrev with_program : Machine
with_program = in_memory (λ m. write (write (write m 0x1000 0x50) 0x1001 0x5C) 0x1002 0xDE) machine

with_program-HasMagic : HasMagic with_program.display.memory 0x1000
with_program-HasMagic = (refl, refl, refl)

load_program-Starts_example :
    Starts (λ s. s) with_program 0x1000 3 (load_program 0x2000 (λ s. s) 0x1000 3 with_program)
load_program-Starts_example =
    load_program-Starts 0x2000 0x1000 3 (λ s. s) with_program (omega arith) (omega arith)
      (omega arith) with_program-HasMagic

no_magic : ¬ HasMagic with_program.display.memory 0x3000
no_magic h = omega (arith, h.0)
