-- ===== src/Delay.antt =====
-- Delays by the interval timer (src/std/stdlib.c, in the default build without REAL_HARDWARE), the
-- speaker (src/audio.c), and the start of the keyboard controller (src/keyboard.c).
use Prim.Native.Nat.{bit_and, bit_or}
use mono.Prelude.{
  ℕ, zero, suc, ◌+◌, ◌*◌, ◌/◌, ◌%◌, ◌^◌, Option, none, some, List, ◌∷◌, ltb, ◌==◌, if◌then◌else◌,
}
use mono.Memory.{Memory, read16}
use mono.Ports.{Io, ◌>>=◌, ◌>>◌, pure, inb, outb, io_wait, times}
pub mod Timer
pub mod Speaker
pub mod Controller
mod Tests

unfoldable pub set_pit_frequency : ℕ → Io (Unit {0})
set_pit_frequency divisor = do
  outb 0x43 0x36
  outb 0x40 (divisor % 256)
  io_wait
  outb 0x40 (divisor / 256 % 256)
  io_wait

-- What `__asleep` does after `milliseconds *= 18`.
unfoldable pub wait_scaled : ℕ → Io (Unit {0})
wait_scaled milliseconds = do
  set_pit_frequency (1193182 / 1000 * milliseconds % 2 ^ 16)
  times (milliseconds * 100 % 2 ^ 32) io_wait
  set_pit_frequency 0xFFFF

unfoldable pub asleep : ℕ → Io (Unit {0})
asleep milliseconds = wait_scaled (milliseconds * 18 % 2 ^ 32)

abbrev pub speaker_on : ℕ → Io (Unit {0})
speaker_on tmp = if tmp == bit_or tmp 3 then pure tt else outb 0x61 (bit_or tmp 3)

-- `none` is the processor's division fault.
unfoldable pub play_sound : ℕ → Io (Option (Unit {0}))
play_sound zero = pure none
play_sound (suc f) = do
  outb 0x43 0xb6
  outb 0x42 (1193180 / suc f % 256)
  outb 0x42 (1193180 / suc f / 256 % 256)
  tmp ← inb 0x61
  speaker_on tmp
  pure (some tt)

unfoldable pub nosound : Io (Unit {0})
nosound = do tmp ← inb 0x61; outb 0x61 (bit_and tmp 0xFC)

-- The rest of a function that stops at a fault.
unfoldable pub unless_fault : Option (Unit {0}) → Io (Option (Unit {0})) → Io (Option (Unit {0}))
unless_fault none rest = pure none
unless_fault (some _) rest = rest

unfoldable pub hold : ℕ → Io (Option (Unit {0}))
hold milliseconds = do asleep milliseconds; nosound; pure (some tt)

unfoldable pub beep : ℕ → ℕ → Io (Option (Unit {0}))
beep frequency milliseconds = do r ← play_sound frequency; unless_fault r (hold milliseconds)

abbrev pub beep_then : ℕ → ℕ → Io (Option (Unit {0})) → Io (Option (Unit {0}))
beep_then frequency milliseconds rest = do r ← beep frequency milliseconds; unless_fault r rest

-- `for (i = ..; i < length; i += 2)`, a fuel unit for a round; `data_address` is where the parameter
-- `data` itself is stored, since the code reads from `&data`. `none` is a fault or no fuel left.
unfoldable pub play_from : ℕ → ℕ → ℕ → ℕ → Memory → Io (Option (Unit {0}))
play_from zero i length data_address m = pure none
play_from (suc fuel) i length data_address m =
    let rest = play_from fuel ((i + 2) % 2 ^ 32) length data_address m in
    if ltb i length
    then beep_then (read16 m (data_address + 2 * i)) (read16 m (data_address + 2 * (i + 1))) rest
    else pure (some tt)

-- A round for each of the `length / 2` pairs, and the last test.
unfoldable pub play_fdfile : ℕ → ℕ → Memory → Io (Option (Unit {0}))
play_fdfile data_address length m = play_from (length + 1) 0 length data_address m

unfoldable pub initialize_keyboard : Io (Unit {0})
initialize_keyboard = do
  outb 0x64 0xAD
  asleep 250
  outb 0x64 0xA7
  asleep 250
  _ ← inb 0x60
  asleep 250
  outb 0x60 0xFF
  asleep 250
  outb 0x60 0xF4
  asleep 250
  outb 0x60 0xF0
  asleep 250
  outb 0x60 0x02
  asleep 250
  outb 0x60 0xED
  asleep 250
  outb 0x60 0b00000111
