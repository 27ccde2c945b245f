-- ===== src/Bootloader/Tests.antt =====
-- "Ok" in row 3.
use mono.Prelude.{◌+◌, ◌*◌, refl, [], ◌∷◌, arith, ◌==◌, if◌then◌else◌}
use mono.Bootloader.{print_msg}
use mono.Bootloader.Message.{Prints, print_msg-Prints}
use mono.Memory.{Memory, HasString}
use mono.Ports.{Device}

abbrev loaded : Memory
loaded a = if a == 0x7D00 then 79 else if a == 0x7D01 then 107 else 0

abbrev silent : Device
silent log port = 0

message : HasString loaded 0x7D00 (79 ∷ 107 ∷ [])
message = (refl, omega arith, (refl, omega arith, refl))

print_msg-Prints_example :
    Prints (0xB8000 + 160 * 3) (79 ∷ 107 ∷ []) loaded (print_msg 3 3 0x7D00 loaded silent []).0
print_msg-Prints_example =
    print_msg-Prints 3 3 0x7D00 (79 ∷ 107 ∷ []) loaded silent [] message
      (omega arith, (omega arith, tt)) (omega arith) (omega arith) (omega arith)
