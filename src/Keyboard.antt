-- ===== src/Keyboard.antt =====
-- src/keyboard.c: the scancode ring that the keyboard interrupt fills and `kgetline` empties.
use Prim.Native.Nat.{bit_or}
use mono.Prelude.{
  ℕ, zero, suc, ◌+◌, ◌*◌, ◌%◌, ◌^◌, ◌<◌, Bool, ◌||◌, Option, none, some, ◌==◌, if◌then◌else◌,
}
pub mod Tables
pub mod Ring
pub mod Queue
pub mod Layout
mod Tests

-- The globals of the driver. `buffer` is `scancode_buffer`, `read` and `write` are its 8-bit indices.
pub record Keyboard : Type 0 where
  pub buffer : ℕ → ℕ
  pub bufempty : ℕ
  pub read : ℕ
  pub write : ℕ
  pub shift : ℕ
  pub ctrl : ℕ

-- `(i + 1) % sizeof(scancode_buffer)` stored in a `uint8_t`: the size is 512 bytes, for 256 entries.
abbrev pub next_index : ℕ → ℕ
next_index i = (i + 1) % 512 % 256

-- The scancode with the modifiers in its top bits, in a `uint16_t`.
abbrev pub with_modifiers : ℕ → ℕ → ℕ → ℕ
with_modifiers scancode shift ctrl =
    bit_or (bit_or scancode (shift * 2 ^ 15)) (ctrl * 2 ^ 14) % 2 ^ 16

-- The `default` case.
abbrev pub store_scancode : ℕ → Keyboard → Keyboard
store_scancode scancode k = record k {
  bufempty = 0;
  buffer = λ i. if i == k.write then with_modifiers scancode k.shift k.ctrl else k.buffer i;
  write = next_index k.write;
}

unfoldable pub process_scancode : ℕ → Keyboard → ℕ × Keyboard
process_scancode scancode k =
    if scancode == 0x36 || scancode == 0x2A
    then (0, record k { shift = 1 })
    else if scancode == 0xAA || scancode == 0xB6
    then (0, record k { shift = 0 })
    else if scancode == 0x1D
    then (0, record k { ctrl = 1 })
    else if scancode == 0x9D
    then (0, record k { ctrl = 0 })
    else (1, store_scancode scancode k)

-- One round of the reading loop of `kgetline`: the loop's index and `scancode_read` run together.
unfoldable pub take_scancode : Keyboard → Option (ℕ × Keyboard)
take_scancode k =
    if k.read == k.write
    then none
    else some (k.buffer k.read, record k { read = next_index k.read })
