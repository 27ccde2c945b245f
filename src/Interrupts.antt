-- ===== src/Interrupts.antt =====
-- src/interrupts.c: the interrupt controllers, the descriptor table, and the handlers.
use Prim.Native.Nat.{bit_and, bit_or}
use mono.Prelude.{
  ℕ, zero, suc, ◌+◌, ◌-◌, ◌*◌, ◌/◌, ◌%◌, ◌^◌, Bool, true, false, List, ◌∷◌, leb, ◌==◌,
  if◌then◌else◌, for_range,
}
use mono.Graphics.{video_memory}
use mono.Keyboard.{Keyboard, process_scancode}
use mono.Memory.{Memory, write}
use mono.Ports.{Io, ◌>>=◌, ◌>>◌, pure, inb, outb, io_wait}
pub mod Controller
pub mod Vectors
pub mod Screen
mod Tests

abbrev pub pic1_command : ℕ
pic1_command = 0x20

abbrev pub pic1_data : ℕ
pic1_data = 0x21

abbrev pub pic2_command : ℕ
pic2_command = 0xA0

abbrev pub pic2_data : ℕ
pic2_data = 0xA1

-- `ICW1_INIT | ICW1_ICW4`
abbrev pub icw1 : ℕ
icw1 = bit_or 0x10 0x01

abbrev pub icw4_8086 : ℕ
icw4_8086 = 0x01

abbrev pub pic_eoi : ℕ
pic_eoi = 0x20

unfoldable pub pic_remap : ℕ → ℕ → Io (Unit {0})
pic_remap offset1 offset2 = do
  a1 ← inb pic1_data
  a2 ← inb pic2_data
  outb pic1_command icw1
  io_wait
  outb pic2_command icw1
  io_wait
  outb pic1_data offset1
  io_wait
  outb pic2_data offset2
  io_wait
  outb pic1_data 4
  io_wait
  outb pic2_data 2
  io_wait
  outb pic1_data icw4_8086
  io_wait
  outb pic2_data icw4_8086
  io_wait
  outb pic1_data a1
  outb pic2_data a2

-- `if (irq >= 8)`
abbrev pub slave_eoi : ℕ → Io (Unit {0})
slave_eoi irq = if leb 8 irq then outb pic2_command pic_eoi else pure tt

unfoldable pub pic_send_eoi : ℕ → Io (Unit {0})
pic_send_eoi irq = do slave_eoi irq; outb pic1_command pic_eoi

unfoldable pub interrupt_timer_handler : Io (Unit {0})
interrupt_timer_handler = pic_send_eoi 0

-- `interrupt_keyboard_handler` of src/keyboard.c.
unfoldable pub interrupt_keyboard_handler : Keyboard → Io Keyboard
interrupt_keyboard_handler k = do
  key_scancode ← inb 0x60
  pic_send_eoi 1
  pure (process_scancode key_scancode k).1

-- Both loops stop below 255.
unfoldable pub interrupt_test : Memory → Memory
interrupt_test m =
    for_range 255 0 (λ i. for_range 255 0 (λ j m'. write m' (video_memory + (i * 320 + j)) 0)) m

abbrev pub interrupt_syscall_handler : Memory → Memory
interrupt_syscall_handler m = interrupt_test m

pub record IdtEntry : Type 0 where
  pub offset_low : ℕ
  pub selector : ℕ
  pub zero_byte : ℕ
  pub type_attr : ℕ
  pub offset_high : ℕ

-- The table, the operand of `lidt` when it ran, and whether `sti` ran.
pub record Cpu : Type 0 where
  pub idt : ℕ → IdtEntry
  pub limit : ℕ
  pub base : ℕ
  pub enabled : Bool

abbrev pub idt_entry : ℕ → IdtEntry
idt_entry handler = record {
  offset_low = handler % 2 ^ 16;
  selector = 0x08;
  zero_byte = 0;
  type_attr = 0x8E;
  offset_high = handler / 2 ^ 16 % 2 ^ 16;
}

unfoldable pub set_idt_entry : ℕ → ℕ → Cpu → Cpu
set_idt_entry num handler cpu = record cpu {
  idt = λ n. if n == num then idt_entry handler else cpu.idt n;
}

-- `address` is that of `idt`; an entry is 8 bytes.
unfoldable pub load_idt : ℕ → Cpu → Cpu
load_idt address cpu = record cpu { limit = 8 * 256 - 1; base = address }

-- The addresses of the assembly handlers.
pub record Handlers : Type 0 where
  pub timer : ℕ
  pub keyboard : ℕ
  pub syscall : ℕ

abbrev pub with_entries : Handlers → ℕ → Cpu → Cpu
with_entries h address cpu =
    load_idt address (
      set_idt_entry 0x33 h.syscall (set_idt_entry 0x21 h.keyboard (set_idt_entry 0x20 h.timer cpu)))

unfoldable pub init_idt : Handlers → ℕ → Cpu → Io Cpu
init_idt h address cpu = do
  pic_remap 0x20 0x28
  outb 0x21 0b11111100
  outb 0xA1 0b11111111
  pure (record (with_entries h address cpu) { enabled = true })
