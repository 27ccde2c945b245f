-- ===== src/Kernel/Stages.antt =====
-- What the start of the kernel, kernel.c, relies on and what holds between its steps.
use mono.Graphics.Frame.{IsSaved, OutFrame}
use mono.Interrupts.{Cpu}
use mono.Interrupts.Vectors.{Opens}
use mono.Romdisk.Table.{Entry, HasTable}
use mono.Kernel.{Kernel, Boot, kernel_motd}
use mono.Line.Echo.{Console}
use mono.Memory.{Memory, HasString, IsBytes}
use mono.Prelude.{ℕ, ◌+◌, ◌-◌, ◌*◌, ◌^◌, ◌≤◌, ◌<◌, ◌⊎◌, ◌≡◌, true, List, length}
use mono.Process.{program_injection_address}
use mono.Romdisk.{entries}
use mono.Terminal.Char.{put_all_on_sheet}
use mono.Terminal.Init.Links.{new_sheet}
use mono.Terminal.Sheet.{Shows}

-- What the start relies on: an image with a table in memory, the name of its background, room for the
-- allocator, and no saved square or one on the screen.
pub record Loaded (boot : Boot) (key : List ℕ) (es : List Entry) (k : Kernel) : Type 0 where
  pub bytes : IsBytes k.machine.display.memory
  pub name : HasString k.machine.display.memory boot.background key
  pub count : entries boot.image.main_romdisk k.machine.display.memory ≡ length es
  pub table : HasTable k.machine.display.memory (boot.image.main_romdisk + 9) es
  pub saved : IsSaved k.machine.display.area
  pub room : k.kmalloc_start + 8 * 16 + 4 * 32 * 16 < 2 ^ 32

-- An address that the start does not write to: outside the frame buffer, the arrays on the stack, the
-- pointer to `syscall`, and what `kmalloc` gave out: the terminal's 2176 bytes of pool and rows, and behind
-- them the 128 of the table of the arguments.
abbrev pub Untouched : Boot → ℕ → ℕ → Type 0
Untouched boot start a =
    OutFrame a
    × ((a < boot.image.stack) ⊎ (boot.image.stack + 13 ≤ a))
    × ((a < program_injection_address - 4) ⊎ (program_injection_address ≤ a))
    × ((a < start) ⊎ (start + 2304 ≤ a))

abbrev pub Same : Boot → ℕ → Memory → Kernel → Type 0
Same boot start m k = (a : ℕ) → Untouched boot start a → k.machine.display.memory a ≡ m a

-- The terminal of 16 rows of 32 cells is empty.
abbrev pub Blank : Kernel → Type 0
Blank k =
    (ns : List ℕ) × Shows 16 32 ns k.machine.display (new_sheet 0) × IsSaved k.machine.display.area

-- Memory is as it was, and the allocator has advanced.
abbrev pub Moved : Boot → ℕ → Memory → ℕ → Kernel → Type 0
Moved boot start m n k = Same boot start m k × (k.kmalloc_start ≡ start + n)

-- The vectors of the timer, the keyboard and the system call lead to their handlers, and interrupts are on.
abbrev pub Armed : Boot → Cpu → Type 0
Armed boot cpu =
    Opens (cpu.idt 0x20) boot.handlers.timer
    × Opens (cpu.idt 0x21) boot.handlers.keyboard
    × Opens (cpu.idt 0x33) boot.handlers.syscall
    × (cpu.base ≡ boot.idt)
    × (cpu.enabled ≡ true)

abbrev pub BlankArmed : Boot → Kernel → Type 0
BlankArmed boot k = Blank k × Armed boot k.cpu

-- The terminal shows the message of the day, and memory that the start does not write to is as it was.
abbrev pub Welcomed : Boot → ℕ → Memory → Kernel → Type 0
Welcomed boot start m k =
    ((ns : List ℕ) × Console 16 32 ns k.machine.display
        (put_all_on_sheet 16 32 kernel_motd (new_sheet 0)))
    × Armed boot k.cpu
    × Same boot start m k

-- The same of the states before: the terminal is empty, and redrawn.
abbrev pub Allocated : Boot → ℕ → Memory → Kernel → Type 0
Allocated boot start m k = BlankArmed boot k × Same boot start m k

abbrev pub Redrawn : Boot → ℕ → Memory → Kernel → Type 0
Redrawn boot start m k =
    ((ns : List ℕ) × Console 16 32 ns k.machine.display (new_sheet 0))
    × Armed boot k.cpu
    × Same boot start m k
