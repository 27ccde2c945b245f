-- ===== src/Graphics.antt =====
-- src/graphics.c on the flat memory: the frame buffer is the 64000 bytes from VIDEO_MEMORY on.
use Prim.Native.Nat.{bit_and}
use mono.Prelude.{
  ℕ, zero, suc, Option, none, some, ◌+◌, ◌-◌, ◌*◌, ◌%◌, ◌^◌, Bool, ◌&&◌, ltb, ◌==◌, if◌then◌else◌,
  for_range,
}
use mono.Memory.{Memory, write}
pub mod Font
mod Glyphs
pub mod Grid
pub mod Cursor
pub mod Frame
mod Tests

abbrev pub video_memory : ℕ
video_memory = 0xA0000

-- The loop of `draw_background`, whose 16-bit counter ends at 64000.
unfoldable pub draw_background : ℕ → Memory → Memory
draw_background img m =
    for_range (320 * 200) 0 (λ i m'. write m' (video_memory + i) (m' (img + i))) m

-- The address of the pixel `320 * yi + xi` with `yi = y - 2 + row` and `xi = x - 2 + column`. The
-- source computes it in `int`; 642 is `320 * 2 + 2`.
abbrev pub pixel : ℕ → ℕ → ℕ → ℕ → ℕ
pixel x y row column = video_memory + 320 * (y + row) + (x + column) - 642

-- `code & (1 << (31 - bitrow * 5 - bitcolumn))`
abbrev pub clear_bit : ℕ → ℕ → ℕ → Bool
clear_bit code row column = bit_and code (2 ^ (31 - row * 5 - column)) == 0

-- `(uint8_t)code & 0b00001111`
abbrev pub colour_of : ℕ → ℕ
colour_of code = code % 256 % 16

unfoldable pub display_bitmap : ℕ → ℕ → ℕ → Memory → Memory
display_bitmap code x y m =
    for_range 5 0
      (λ row. for_range 5 0 (λ column m'.
        if clear_bit code row column then m' else write m' (pixel x y row column) (colour_of code)))
      m

-- The saved square: `area`, `area_x` and `area_y`.
pub record Area : Type 0 where
  pub cells : ℕ → ℕ
  pub x : ℕ
  pub y : ℕ

abbrev pub no_area : Area
no_area = record { cells = λ _. 0; x = 65535; y = 65535 }

-- How many rounds `for (uint16_t i = y - 2; i <= y + 2; i++)` runs: five, but none if `y - 2` is negative,
-- since the counter then starts near 65535. From 65534 on it has no end, since a 16-bit counter does not
-- exceed `y + 2`.
abbrev pub rounds : ℕ → Option ℕ
rounds y = if ltb y 2 then some 0 else if ltb y 65534 then some 5 else none

-- The two loops of `save_area` and `restore_area`; `none` is a run with no end.
abbrev pub on_square : Option ℕ → Option ℕ → (ℕ → ℕ → (ℕ → ℕ) → ℕ → ℕ) → (ℕ → ℕ) → Option (ℕ → ℕ)
on_square none columns body m = none
on_square (some zero) columns body m = some m
on_square (some (suc n)) none body m = none
on_square (some (suc n)) (some k) body m =
    some (for_range (suc n) 0 (λ row. for_range k 0 (body row)) m)

abbrev pub saved_at : ℕ → ℕ → Option (ℕ → ℕ) → Option Area
saved_at x y none = none
saved_at x y (some cells) = some (record { cells = cells; x = x; y = y })

unfoldable pub save_area : ℕ → ℕ → Memory → Area → Option Area
save_area x y m s = saved_at x y (
    on_square (rounds y) (rounds x)
      (λ row column cells. write cells (row * 5 + column) (m (pixel x y row column))) s.cells)

unfoldable pub restore_area : Area → Memory → Option Memory
restore_area s m =
    if s.x == 65535 && s.y == 65535
    then some m
    else on_square (rounds s.y) (rounds s.x)
        (λ row column m'. write m' (pixel s.x s.y row column) (s.cells (row * 5 + column))) m
