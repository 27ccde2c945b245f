-- ===== src/Process.antt =====
-- src/process.c: the system calls of programs, and the loading of a program.
use mono.Prelude.{
  ℕ, zero, suc, ◌+◌, ◌-◌, ◌*◌, ◌%◌, ◌^◌, Bool, Option, none, some, ltb, leb, ◌==◌, if◌then◌else◌,
  for_range,
}
use mono.Prelude.Int.{ℤ, pos, negsuc}
use mono.Memory.{Memory, write, write32}
use mono.Str.{memcmp, memcpy}
use mono.Keyboard.{Keyboard}
use mono.Terminal.{Display, tputs}
use mono.Romdisk.{int_is_zero}
pub mod Calls
pub mod Heap
pub mod Files
pub mod Load
pub mod Tests

-- What a system call works on: the kernel's terminal, the keyboard driver and `MALLOC_START`. `errno`
-- is a cell of the memory.
pub record Machine : Type 0 where
  pub display : Display
  pub keyboard : Keyboard
  pub malloc_start : ℕ

abbrev pub errno_address : ℕ
errno_address = 0x333999 - 2 * 4

abbrev pub default_malloc_location : ℕ
default_malloc_location = 0x2800000

abbrev pub program_injection_address : ℕ
program_injection_address = 0x333999

-- `enum ErrnoCode`
abbrev pub eokay : ℕ
eokay = 0

abbrev pub esyscallnoent : ℕ
esyscallnoent = 1

abbrev pub einvalidoperation : ℕ
einvalidoperation = 2

abbrev pub in_memory : (Memory → Memory) → Machine → Machine
in_memory f s = record s { display = record s.display { memory = f s.display.memory } }

unfoldable pub set_errno : ℕ → Machine → Machine
set_errno e s = in_memory (λ m. write32 m errno_address e) s

-- `errno = e; return -1;`
abbrev pub fail : ℕ → Machine → Option (ℕ × Machine)
fail e s = some (2 ^ 32 - 1, set_errno e s)

-- After the `switch`: `errno = EOKAY; return 0;`
abbrev pub succeed : Machine → Option (ℕ × Machine)
succeed s = some (0, set_errno eokay s)

abbrev pub written : Machine → Option Display → Option (ℕ × Machine)
written s none = none
written s (some d) = succeed (record s { display = d })

-- The case of SYS_WRITE; `fuel` is for `tputs`, and `none` is a fault or too little of it.
unfoldable pub sys_write : ℕ → ℕ → ℕ → Machine → Option (ℕ × Machine)
sys_write fuel arg1 arg2 s =
    if arg1 % 256 == 1 then written s (tputs fuel arg2 s.display) else fail einvalidoperation s

-- `safe_len`: up to the end of the text that is there.
abbrev pub safe_len : ℕ → ℕ → ℕ → ℕ
safe_len len text_offset text_buflen =
    if leb text_buflen ((text_offset + len) % 2 ^ 32)
    then (text_buflen + 2 ^ 32 - text_offset) % 2 ^ 32
    else len

-- `memcpy(buf, kernel_terminal.text_buffer, len)`, where the text buffer is a field of the terminal:
-- `past` stands for what lies behind it in memory.
abbrev pub copy_text : ℕ → ℕ → (ℕ → ℕ) → (ℕ → ℕ) → Memory → Memory
copy_text buf len text past m =
    for_range len 0 (λ i m'. write m' (buf + i) (if ltb i 256 then text i else past i)) m

-- The text is given up when all of it is read.
abbrev pub after_read : ℕ → Display → Display
after_read offset d =
    if offset == d.term.text_buflen
    then record d {
      term = record d.term {
        text_buflen = 0;
        text_offset = 0;
        text_buffer = λ i. if ltb i 256 then 0 else d.term.text_buffer i;
      };
    }
    else record d { term = record d.term { text_offset = offset } }

unfoldable pub sys_read : ℕ → ℕ → ℕ → (ℕ → ℕ) → Machine → Option (ℕ × Machine)
sys_read arg1 buf len past s =
    if arg1 % 256 == 0
    then (let d = s.display in
        let moved = safe_len len d.term.text_offset d.term.text_buflen in
        succeed (record s {
          display =
              after_read ((d.term.text_offset + moved) % 256)
                (record d { memory = copy_text buf len d.term.text_buffer past d.memory });
        }))
    else fail einvalidoperation s

unfoldable pub sys_malloc : ℕ → Machine → Option (ℕ × Machine)
sys_malloc len s =
    some (
      s.malloc_start,
      set_errno eokay (record s { malloc_start = (s.malloc_start + len) % 2 ^ 32 }),
    )

-- `for (...) result += ...` over `n` cells from `first` on.
unfoldable pub sum_cells : ℕ → ℕ → (ℕ → ℕ) → ℕ → ℕ
sum_cells n first cells result = for_range n first (λ i r. (r + cells i) % 2 ^ 32) result

-- The case of SYS_ENTROPY. The first loop runs to `sizeof(scancode_buffer)`, which is 512: `buffer`
-- stands also for the cells behind the 256 of the array.
unfoldable pub sys_entropy : Machine → Option (ℕ × Machine)
sys_entropy s =
    let keys = sum_cells 512 0 s.keyboard.buffer 0 in
    let screen = sum_cells 0x10000 0xA0000 s.display.memory keys in
    some (sum_cells 0x100000 0xA00000 s.display.memory screen, s)

unfoldable pub syscall : ℕ → (ℕ → ℕ) → ℕ → ℕ → ℕ → ℕ → Machine → Option (ℕ × Machine)
syscall fuel past syscall_no arg1 arg2 arg3 s =
    if syscall_no % 256 == 2
    then sys_write fuel arg1 arg2 s
    else if syscall_no % 256 == 1
    then sys_read arg1 arg2 arg3 past s
    else if syscall_no % 256 == 3
    then sys_malloc arg1 s
    else if syscall_no % 256 == 6
    then sys_entropy s
    else fail esyscallnoent s

-- The local array `magic`, at `stack`.
abbrev pub with_magic : ℕ → Memory → Memory
with_magic stack m = write (write (write m stack 0x50) (stack + 1) 0x5C) (stack + 2) 0xDE

-- The program in its place, with its `errno` zero.
unfoldable pub loaded : ℕ → ℕ → Machine → Machine
loaded program_data program_len s =
    in_memory
      (λ m.
        memcpy program_injection_address program_data program_len
          (write32 m (program_injection_address - 2 * 4) 0))
      s

-- `run` stands for the program that is called.
unfoldable pub load_program : ℕ → (Machine → Machine) → ℕ → ℕ → Machine → ℕ × Machine
load_program stack run program_data program_len s =
    let s' = in_memory (with_magic stack) s in
    if int_is_zero (memcmp program_data stack 3 s'.display.memory)
    then (
      0,
      record (run (loaded program_data program_len s')) { malloc_start = default_malloc_location },
    )
    else (1, s')
