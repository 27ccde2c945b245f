-- ===== src/Graphics/Cursor.antt =====
-- Drawing a character, and saving and restoring the square under it.
use mono.Prelude.{ℕ, ◌+◌, ◌-◌, ◌*◌, ◌≤◌, ◌<◌, ◌≡◌, ◌≢◌, arith, if◌then◌else◌, ==_of_ne, some, refl}
use mono.Memory.{Memory, write}
use mono.Graphics.{
  pixel, clear_bit, colour_of, display_bitmap, Area, rounds, save_area, restore_area,
}
use mono.Graphics.Grid.{over_grid, over_grid_skip, over_grid_hit}

-- Two cells of one square stand at two addresses.
pixel-ne :
    (x y r c r' c' : ℕ)
    → r < 5
    → c < 5
    → r' < 5
    → c' < 5
    → (r' ≡ r → c' ≢ c)
    → pixel x y r' c' ≢ pixel x y r c
pixel-ne x y r c r' c' hr hc hr' hc' ne e = ne (omega arith) (omega arith)

-- An address outside the square that `display_bitmap` draws at `x`, `y`.
abbrev pub Outside : ℕ → ℕ → ℕ → Type 0
Outside x y a = (r c : ℕ) → r < 5 → c < 5 → pixel x y r c ≢ a

-- A pixel of the square takes the colour if its bit is set, and is left as it is if not.
square-pixel :
    (code x y r c : ℕ) (m : Memory)
    → r < 5
    → c < 5
    → display_bitmap code x y m (pixel x y r c)
      ≡ (if clear_bit code r c then m (pixel x y r c) else colour_of code)
unfolding display_bitmap
square-pixel code x y r c m hr hc =
    over_grid_hit _ m (pixel x y r c) r c
      (λ old. if clear_bit code r c then old else colour_of code) hr hc (λ m'. ground arith)
      (λ r' c' m' hr' hc' ne. ground (arith, pixel-ne x y r c r' c' hr hc hr' hc' ne))

-- No other byte changes.
pub display_bitmap-Outside :
    (code x y a : ℕ) (m : Memory) → Outside x y a → display_bitmap code x y m a ≡ m a
unfolding display_bitmap
display_bitmap-Outside code x y a m out =
    over_grid_skip _ m a (λ r c m' hr hc. ground (arith, out r c hr hc))

-- A pixel of the five by five square takes the colour if its bit is set, and is left as it is if not; no
-- byte outside the square changes.
pub display_bitmap-pixel :
    (code x y : ℕ) (m : Memory)
    → ((r c : ℕ)
        → r < 5
        → c < 5
        → display_bitmap code x y m (pixel x y r c)
          ≡ (if clear_bit code r c then m (pixel x y r c) else colour_of code))
      × ((a : ℕ) → Outside x y a → display_bitmap code x y m a ≡ m a)
display_bitmap-pixel code x y m = (
  λ r c hr hc. square-pixel code x y r c m hr hc,
  λ a out. display_bitmap-Outside code x y a m out,
)

rounds_five : (y : ℕ) → 2 ≤ y → y < 65534 → rounds y ≡ some 5
rounds_five y h l = ground arith

-- What `save_area` leaves in the array, and `restore_area` in memory.
abbrev pub saved_cells : ℕ → ℕ → Memory → (ℕ → ℕ) → ℕ → ℕ
saved_cells x y m cells =
    over_grid (λ r c cells'. write cells' (r * 5 + c) (m (pixel x y r c))) cells

abbrev pub restored_by : Area → Memory → Memory
restored_by s m = over_grid (λ r c m'. write m' (pixel s.x s.y r c) (s.cells (r * 5 + c))) m

pub save_area-ends :
    (x y : ℕ) (m : Memory) (s : Area)
    → 2 ≤ x
    → x < 65534
    → 2 ≤ y
    → y < 65534
    → save_area x y m s ≡ some (record { cells = saved_cells x y m s.cells; x = x; y = y })
unfolding save_area
save_area-ends x y m s hx lx hy ly = rw (rounds_five y hy ly, rounds_five x hx lx) refl

pub restore_area-ends :
    (s : Area) (m : Memory)
    → 2 ≤ s.x
    → s.x < 65534
    → 2 ≤ s.y
    → s.y < 65534
    → restore_area s m ≡ some (restored_by s m)
unfolding restore_area
restore_area-ends s m hx lx hy ly =
    rw (==_of_ne s.x 65535 (omega arith), rounds_five s.y hy ly, rounds_five s.x hx lx) refl

-- The distance of `a` from the first pixel.
abbrev offset : ℕ → ℕ → ℕ → ℕ
offset x y a = a - pixel x y 0 0

pub restored_by-Outside :
    (s : Area) (m : Memory) (a : ℕ) → Outside s.x s.y a → restored_by s m a ≡ m a
restored_by-Outside s m a out =
    over_grid_skip (λ r' c' m'. write m' (pixel s.x s.y r' c') (s.cells (r' * 5 + c'))) m a
      (λ r c m' hr hc. ground (arith, out r c hr hc))
