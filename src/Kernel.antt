-- ===== src/Kernel.antt =====
-- src/kernel.c: `kmain`, and `shell` up to its loop. Interrupts that arrive meanwhile are left out: of
-- what they store, the first `kgetline` drops all but the state of shift and ctrl.
use mono.Delay.{asleep, beep_then, initialize_keyboard}
use mono.Interrupts.{Cpu, Handlers, init_idt}
use mono.Line.{reset_ring}
use mono.Memory.{write32}
use mono.Ports.{Io, ◌>>=◌, ◌>>◌, pure}
use mono.Prelude.{
  ℕ, zero, suc, ◌+◌, ◌-◌, ◌*◌, ◌%◌, true, Option, none, some, List, [], ◌∷◌, ◌==◌, if◌then◌else◌,
}
use mono.Process.{Machine, in_memory, program_injection_address}
use mono.Romdisk.{RomdiskFile, get_romdisk_file}
use mono.Shell.{Image, Act, shown, kputc, display_romdisk, setup_args}
use mono.Terminal.Init.{init_terminal}
use mono.Terminal.{refresh_terminal}
pub mod Jingle
pub mod Welcome
pub mod Steps
pub mod Stages
pub mod Start
mod Tests

-- What the start works on: `kmalloc_start` is KMALLOC_START.
pub record Kernel : Type 0 where
  pub machine : Machine
  pub kmalloc_start : ℕ
  pub program_args : ℕ
  pub cpu : Cpu

-- The addresses that the linker gives.
pub record Boot : Type 0 where
  pub image : Image
  pub handlers : Handlers
  pub idt : ℕ
  pub syscall : ℕ
  pub background : ℕ

-- `none` is a fault, or too little fuel.
abbrev pub Step : Type 0
Step = Kernel → Io (Option Kernel)

abbrev pub next : Option Kernel → Step → Io (Option Kernel)
next none g = pure none
next (some k) g = g k

infixl 5 ◌>=>◌
abbrev pub ◌>=>◌ : Step → Step → Step
◌>=>◌ f g k = do r ← f k; next r g

abbrev pub with_machine : Kernel → Option Machine → Option Kernel
with_machine k none = none
with_machine k (some s) = some (record k { machine = s })

abbrev pub on_machine : Act → Step
on_machine f k = pure (with_machine k (f k.machine))

abbrev pub on_ports : Io (Unit {0}) → Step
on_ports io k = do io; pure (some k)

abbrev pub unless_silent : Kernel → Option (Unit {0}) → Option Kernel
unless_silent k none = none
unless_silent k (some _) = some k

abbrev pub on_speaker : Io (Option (Unit {0})) → Step
on_speaker io k = do r ← io; pure (unless_silent k r)

-- `frequency + 5 * ((i & 1) ? -1 : 1)`
abbrev pub tone : ℕ → ℕ → ℕ
tone frequency i = if i % 2 == 1 then frequency - 5 else frequency + 5

-- The loop of the start up jingle, with `n` rounds left.
unfoldable pub jingle_from : ℕ → ℕ → Io (Option (Unit {0}))
jingle_from zero i = pure (some tt)
jingle_from (suc n) i =
    beep_then (tone 2500 i) 350
      (beep_then (tone 1000 i) 350 (beep_then (tone 2500 i) 350 (jingle_from n (i + 1))))

unfoldable pub jingle : Io (Option (Unit {0}))
jingle = jingle_from 4 0

-- "WELCOME TO MONO98!\n\n"
abbrev pub kernel_motd : List ℕ
kernel_motd =
    87 ∷ 69 ∷ 76 ∷ 67 ∷ 79 ∷ 77 ∷ 69 ∷ 32 ∷ 84 ∷ 79 ∷ 32 ∷ 77 ∷ 79 ∷ 78 ∷ 79 ∷ 57 ∷ 56 ∷ 33 ∷ 10
    ∷ 10 ∷ []

-- `for (i = 0; KERNEL_MOTD[i]; i++) { kputc(KERNEL_MOTD[i]); __asleep(500); }`
unfoldable pub welcome : ℕ → List ℕ → Step
welcome stack [] = λ k. pure (some k)
welcome stack (c ∷ cs) = on_machine (kputc stack c) >=> on_ports (asleep 500) >=> welcome stack cs

-- `memset(scancode_buffer, 0x00, sizeof(scancode_buffer))`
abbrev pub clear_ring : Step
clear_ring k = pure (
    some (record k {
      machine = record k.machine { keyboard = record k.machine.keyboard { buffer = λ i. 0 } };
    }))

-- `init_terminal(&kernel_terminal, 16, 32, file, VGA_COLOR_BLACK)`
abbrev pub terminal_on : Kernel → Option RomdiskFile → Option Kernel
terminal_on k none = none
terminal_on k (some file) =
    let r = init_terminal 16 32 file.file 0 (k.machine.display, k.kmalloc_start) in
    some (record k { machine = record k.machine { display = r.0 }; kmalloc_start = r.1 })

unfoldable pub start_terminal : ℕ → Boot → Step
start_terminal fuel boot k = pure (
    terminal_on k
      (get_romdisk_file fuel boot.image.main_romdisk boot.background k.machine.display.memory))

abbrev pub start_interrupts : Boot → Step
start_interrupts boot k = do
  cpu ← init_idt boot.handlers boot.idt k.cpu
  pure (some (record k { cpu = cpu }))

-- `*(uint32_t*)(PROGRAM_INJECTION_ADDRESS - sizeof(uint32_t)) = &syscall`
abbrev pub store_syscall : Boot → Act
store_syscall boot s =
    some (in_memory (λ m. write32 m (program_injection_address - 4) boot.syscall) s)

-- The buffers of the arguments.
unfoldable pub allocate_args : Step
allocate_args k =
    let r = setup_args k.kmalloc_start k.machine.display.memory in
    pure (
      some (record k {
        machine = in_memory (λ _. r.2) k.machine;
        kmalloc_start = r.1;
        program_args = r.0;
      }))

-- `shell` up to the listing, and up to its loop.
unfoldable pub greet : Boot → Step
greet boot =
    allocate_args
    >=> on_machine (λ s. shown s (refresh_terminal true s.display))
    >=> welcome boot.image.stack kernel_motd

unfoldable pub shell_start : ℕ → Boot → Step
shell_start fuel boot =
    greet boot
    >=> on_machine (display_romdisk fuel boot.image)
    >=> on_machine (kputc boot.image.stack 10)

-- `kmain` up to the call of `shell`, and up to the loop of `shell`.
unfoldable pub start_devices : ℕ → Boot → Step
start_devices fuel boot =
    clear_ring
    >=> start_terminal fuel boot
    >=> start_interrupts boot
    >=> on_machine (store_syscall boot)
    >=> on_ports initialize_keyboard
    >=> on_speaker jingle

unfoldable pub kmain : ℕ → Boot → Step
kmain fuel boot = start_devices fuel boot >=> shell_start fuel boot
