-- ===== src/Bootloader.antt =====
-- `print_msg` of bootloader/load.c in the default build, on the text screen at 0xB8000.
use mono.Prelude.{ℕ, zero, suc, ◌+◌, ◌*◌, ◌%◌, Option, none, some, ltb, ◌==◌, if◌then◌else◌}
use mono.Memory.{Memory, write}
use mono.Ports.{Io, ◌>>=◌, ◌>>◌, pure, outb, times}
pub mod Message
mod Tests

-- `out %al, %dx` with 0x80 in `al` and 0 in `dx`, 4 times 65535 times.
unfoldable pub wait_char : Io (Unit {0})
wait_char = times 4 (times 65535 (outb 0 0x80))

abbrev pub cell_at : ℕ → ℕ → ℕ
cell_at row i = 0xB8000 + 2 * (row * 80 + i)

-- `(0x0F << 8) | msg[i]`, where a `char` is signed.
abbrev pub put_cell : ℕ → ℕ → ℕ → Memory → Memory
put_cell row i c m =
    write (write m (cell_at row i) c) (cell_at row i + 1) (if ltb c 128 then 0x0F else 0xFF)

-- The loop from `i` on, on fuel; `none` means that it is spent.
unfoldable pub print_from : ℕ → ℕ → ℕ → ℕ → Memory → Io (Option Memory)
print_from zero row msg i m = pure none
print_from (suc fuel) row msg i m =
    let c = m (msg + i) in
    let rest : Io (Option Memory) = (do
      wait_char
      print_from fuel row msg ((i + 1) % 256) (put_cell row i c m)) in
    if c == 0 then pure (some m) else rest

unfoldable pub print_msg : ℕ → ℕ → ℕ → Memory → Io (Option Memory)
print_msg fuel row msg m = print_from fuel row msg 0 m
