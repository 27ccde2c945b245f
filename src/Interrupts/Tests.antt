-- ===== src/Interrupts/Tests.antt =====
-- A controller that counts the words of its initialisation.
use mono.Prelude.{ℕ, zero, suc, ◌≡◌, refl, arith, [], ◌==◌, if◌then◌else◌, false}
use mono.Memory.{Memory}
use mono.Interrupts.{
  Cpu, Handlers, pic1_command, pic1_data, pic2_command, pic2_data, init_idt,
  interrupt_keyboard_handler,
}
use mono.Interrupts.Controller.{Controller, fed, init_idt-IsReady}
use mono.Interrupts.Vectors.{interrupt_keyboard_handler-press}
use mono.Ports.{Device}
use mono.Keyboard.Ring.{IsValid}
use mono.Keyboard.Queue.{queue_of, press}
use mono.Line.Tests.{keyboard}

-- The number of words of the initialisation still to come, the offset and the mask.
data Chip : Type 0 where
  chip : (left offset mask : ℕ) → Chip

unfoldable command : ℕ → Chip → Chip
command v (chip left offset mask) = if v == 0x11 then chip 3 offset mask else chip left offset mask

unfoldable data_word : ℕ → Chip → Chip
data_word v (chip zero offset mask) = chip zero offset v
data_word v (chip (suc zero) offset mask) = chip zero offset mask
data_word v (chip (suc (suc zero)) offset mask) = chip (suc zero) offset mask
data_word v (chip (suc (suc (suc n))) offset mask) = chip (suc (suc n)) v mask

unfoldable IsReady : ℕ → ℕ → Chip → Type 0
IsReady o k s = s ≡ chip zero o k

initialised :
    (offset wiring mask : ℕ) (s : Chip)
    → IsReady offset mask
        (data_word mask (data_word 1 (data_word wiring (data_word offset (command 0x11 s)))))
unfolding IsReady data_word command
initialised offset wiring mask (chip l o k) = refl

masked :
    (offset mask mask' : ℕ) (s : Chip)
    → IsReady offset mask s
    → IsReady offset mask' (data_word mask' s)
unfolding IsReady data_word
masked offset mask mask' s r = rw r refl

eoi_kept :
    (offset mask : ℕ) (s : Chip) → IsReady offset mask s → IsReady offset mask (command 0x20 s)
unfolding IsReady command
eoi_kept offset mask s r = rw r refl

abbrev counting : Controller
counting = record {
  State = Chip;
  command = command;
  data_word = data_word;
  IsReady = IsReady;
  initialised = initialised;
  masked = masked;
  eoi_kept = eoi_kept;
}

-- Every port answers 30.
abbrev device : Device
device log port = 30

abbrev blank_memory : Memory
blank_memory a = 7

abbrev cpu : Cpu
cpu = record {
  idt = λ _. record { offset_low = 0; selector = 0; zero_byte = 0; type_attr = 0; offset_high = 0 };
  limit = 0;
  base = 0;
  enabled = false;
}

abbrev handlers : Handlers
handlers = record { timer = 0x12000; keyboard = 0x12010; syscall = 0x12020 }

init_idt-IsReady_example :
    counting.IsReady 0x20 0xFC
      (fed counting pic1_command pic1_data (init_idt handlers 0x13000 cpu device []).1 (chip 7 1 2))
    × counting.IsReady 0x28 0xFF (
        fed counting pic2_command pic2_data
          (init_idt handlers 0x13000 cpu device []).1
          (chip 0 1 2))
init_idt-IsReady_example =
    init_idt-IsReady counting handlers 0x13000 cpu device [] (chip 7 1 2) (chip 0 1 2)

keyboard_IsValid : IsValid keyboard
keyboard_IsValid = record {
  read_byte = omega arith;
  write_byte = omega arith;
  shift_flag = omega arith;
  ctrl_flag = omega arith;
}

interrupt_keyboard_handler-press_example :
    IsValid (interrupt_keyboard_handler keyboard device []).0
    × (queue_of (interrupt_keyboard_handler keyboard device []).0 ≡ press 30 (queue_of keyboard))
interrupt_keyboard_handler-press_example =
    interrupt_keyboard_handler-press device [] keyboard_IsValid (omega arith)
