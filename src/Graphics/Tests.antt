-- ===== src/Graphics/Tests.antt =====
-- The graphics theorems at concrete places.
use mono.Prelude.{ℕ, ◌+◌, ◌<◌, ◌≡◌, if◌then◌else◌}
use mono.Memory.{Memory}
use mono.Graphics.{pixel, clear_bit, colour_of, display_bitmap}
use mono.Graphics.Cursor.{Outside, display_bitmap-pixel}

abbrev ramp : Memory
ramp a = a + 1

-- The top left pixel of "!" is not set.
display_bitmap-pixel_example :
    ((r c : ℕ)
      → r < 5
      → c < 5
      → display_bitmap 0b00100001000010000000001000000011 30 30 ramp (pixel 30 30 r c) ≡ (
          if clear_bit 0b00100001000010000000001000000011 r c
          then ramp (pixel 30 30 r c)
          else colour_of 0b00100001000010000000001000000011))
    × ((a : ℕ)
        → Outside 30 30 a
        → display_bitmap 0b00100001000010000000001000000011 30 30 ramp a ≡ ramp a)
display_bitmap-pixel_example = display_bitmap-pixel 0b00100001000010000000001000000011 30 30 ramp
