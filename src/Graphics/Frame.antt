-- ===== src/Graphics/Frame.antt =====
-- The graphics routines write the frame buffer only.
use mathlib.Core.Option.{some-injective}
use mono.Prelude.{
  ℕ, ◌+◌, ◌-◌, ◌≤◌, ◌<◌, ◌≡◌, refl, sym, some, ◌∙◌, ◌⊎◌, inl, inr, ◌&&◌, arith, ltb, if◌then◌else◌,
  for_range, for_range_skip, leb, ap, zero, suc, ==_of_eq,
}
use mono.Memory.{Memory, write}
use mono.Graphics.{video_memory, draw_background, display_bitmap, Area, restore_area}
use mono.Graphics.Cursor.{
  display_bitmap-Outside, restore_area-ends, restored_by, restored_by-Outside,
}
use mono.Str.{memcpy_from}
use mono.Str.Blocks.{memcpy_from_at}

-- An address outside the 64000 bytes of the frame buffer.
abbrev pub OutFrame : ℕ → Type 0
OutFrame a = (a < video_memory) ⊎ (video_memory + 64000 ≤ a)

-- A place whose square of five by five lies on the screen.
abbrev pub OnScreen : ℕ → ℕ → Type 0
OnScreen x y = (2 ≤ x) × (x < 318) × (2 ≤ y) × (y < 198)

-- Nothing is saved, or a square of the screen.
abbrev pub IsSaved : Area → Type 0
IsSaved s = ((s.x ≡ 65535) × (s.y ≡ 65535)) ⊎ OnScreen s.x s.y

-- `draw_background` fills the frame buffer with the image, and writes nothing else.
pub draw_background-outside : (img a : ℕ) (m : Memory) → OutFrame a → draw_background img m a ≡ m a
unfolding draw_background
draw_background-outside img a m out =
    for_range_skip 64000 0 (λ i m'. write m' (video_memory + i) (m' (img + i))) m a
      (λ j m' _ h. ground arith)

pub display_bitmap-frame :
    (code x y a : ℕ) (m : Memory) → OnScreen x y → OutFrame a → display_bitmap code x y m a ≡ m a
display_bitmap-frame code x y a m on out =
    display_bitmap-Outside code x y a m (λ r c hr hc e. omega arith)

restore_nothing : (s : Area) (m : Memory) → s.x ≡ 65535 → s.y ≡ 65535 → restore_area s m ≡ some m
unfolding restore_area
restore_nothing s m hx hy = rw (==_of_eq s.x 65535 hx, ==_of_eq s.y 65535 hy)

pub restore_area-frame :
    (s : Area) (a : ℕ) (m m' : Memory)
    → IsSaved s
    → OutFrame a
    → restore_area s m ≡ some m'
    → m' a ≡ m a
restore_area-frame s a m m' (inl none_saved) out e =
    ap (λ (m1 : Memory). m1 a)
      (some-injective m' m (sym e ∙ restore_nothing s m none_saved.0 none_saved.1))
restore_area-frame s a m m' (inr on) out e =
    ap (λ (m1 : Memory). m1 a)
      (some-injective m' (restored_by s m)
        (sym e ∙ restore_area-ends s m on.0 (omega arith) on.2 (omega arith)))
    ∙ restored_by-Outside s m a (λ r c hr hc e'. omega arith)

draw-memcpy :
    (n i img : ℕ) (m : Memory)
    → for_range n i (λ j m'. write m' (video_memory + j) (m' (img + j))) m
      ≡ memcpy_from n i video_memory img m
unfolding for_range memcpy_from
draw-memcpy zero i img m = refl
draw-memcpy (suc n) i img m = draw-memcpy n (i + 1) img (write m (video_memory + i) (m (img + i)))

-- `draw_background` copies the 64000 bytes of the image to the frame buffer and writes nothing else,
-- if the image lies above the start of the frame buffer, or ends below it.
pub draw_background_at :
    (img a : ℕ) (m : Memory)
    → (video_memory ≤ img) ⊎ (img + 64000 ≤ video_memory)
    → draw_background img m a ≡ (
        if leb video_memory a && ltb a (video_memory + 64000)
        then m (img + (a - video_memory))
        else m a)
unfolding draw_background
draw_background_at img a m apart =
    ap (λ (m' : Memory). m' a) (draw-memcpy 64000 0 img m)
    ∙ memcpy_from_at 64000 0 video_memory img m a (ground arith)
