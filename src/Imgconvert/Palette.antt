-- ===== src/Imgconvert/Palette.antt =====
-- The table of colours of utils/imgconvert.c. The initialiser has 168 entries; the others are zero.
use mono.Prelude.{ℕ, zero, suc, List, [], ◌∷◌}

unfoldable pub vga_table : List (ℕ × ℕ × ℕ)
vga_table =
    (0, 0, 0)
    ∷ (0, 0, 170)
    ∷ (0, 170, 0)
    ∷ (0, 170, 170)
    ∷ (170, 0, 0)
    ∷ (170, 0, 170)
    ∷ (170, 85, 0)
    ∷ (170, 170, 170)
    ∷ (85, 85, 85)
    ∷ (85, 85, 255)
    ∷ (85, 255, 85)
    ∷ (85, 255, 255)
    ∷ (255, 85, 85)
    ∷ (255, 85, 255)
    ∷ (255, 255, 85)
    ∷ (255, 255, 255)
    ∷ (0, 0, 0)
    ∷ (20, 20, 20)
    ∷ (32, 32, 32)
    ∷ (44, 44, 44)
    ∷ (56, 56, 56)
    ∷ (68, 68, 68)
    ∷ (80, 80, 80)
    ∷ (96, 96, 96)
    ∷ (112, 112, 112)
    ∷ (128, 128, 128)
    ∷ (144, 144, 144)
    ∷ (160, 160, 160)
    ∷ (180, 180, 180)
    ∷ (200, 200, 200)
    ∷ (224, 224, 224)
    ∷ (252, 252, 252)
    ∷ (0, 0, 252)
    ∷ (64, 0, 252)
    ∷ (124, 0, 252)
    ∷ (188, 0, 252)
    ∷ (252, 0, 252)
    ∷ (252, 0, 188)
    ∷ (252, 0, 124)
    ∷ (252, 0, 64)
    ∷ (252, 0, 0)
    ∷ (252, 64, 0)
    ∷ (252, 124, 0)
    ∷ (252, 188, 0)
    ∷ (252, 252, 0)
    ∷ (188, 252, 0)
    ∷ (124, 252, 0)
    ∷ (64, 252, 0)
    ∷ (0, 252, 0)
    ∷ (0, 252, 64)
    ∷ (0, 252, 124)
    ∷ (0, 252, 188)
    ∷ (0, 252, 252)
    ∷ (0, 188, 252)
    ∷ (0, 124, 252)
    ∷ (0, 64, 252)
    ∷ (124, 124, 252)
    ∷ (156, 124, 252)
    ∷ (188, 124, 252)
    ∷ (220, 124, 252)
    ∷ (252, 124, 252)
    ∷ (252, 124, 220)
    ∷ (252, 124, 188)
    ∷ (252, 124, 156)
    ∷ (252, 124, 124)
    ∷ (252, 156, 124)
    ∷ (252, 188, 124)
    ∷ (252, 220, 124)
    ∷ (252, 252, 124)
    ∷ (220, 252, 124)
    ∷ (188, 252, 124)
    ∷ (156, 252, 124)
    ∷ (124, 252, 124)
    ∷ (124, 252, 156)
    ∷ (124, 252, 188)
    ∷ (124, 252, 220)
    ∷ (124, 252, 252)
    ∷ (124, 220, 252)
    ∷ (124, 188, 252)
    ∷ (124, 156, 252)
    ∷ (180, 180, 252)
    ∷ (196, 180, 252)
    ∷ (220, 180, 252)
    ∷ (236, 180, 252)
    ∷ (252, 180, 252)
    ∷ (252, 180, 236)
    ∷ (252, 180, 220)
    ∷ (252, 180, 196)
    ∷ (252, 180, 180)
    ∷ (252, 196, 180)
    ∷ (252, 220, 180)
    ∷ (252, 236, 180)
    ∷ (252, 252, 180)
    ∷ (236, 252, 180)
    ∷ (220, 252, 180)
    ∷ (196, 252, 180)
    ∷ (180, 252, 180)
    ∷ (180, 252, 196)
    ∷ (180, 252, 220)
    ∷ (180, 252, 236)
    ∷ (180, 252, 252)
    ∷ (180, 236, 252)
    ∷ (180, 220, 252)
    ∷ (180, 196, 252)
    ∷ (0, 0, 112)
    ∷ (28, 0, 112)
    ∷ (56, 0, 112)
    ∷ (84, 0, 112)
    ∷ (112, 0, 112)
    ∷ (112, 0, 84)
    ∷ (112, 0, 56)
    ∷ (112, 0, 28)
    ∷ (112, 0, 0)
    ∷ (112, 28, 0)
    ∷ (112, 56, 0)
    ∷ (112, 84, 0)
    ∷ (112, 112, 0)
    ∷ (84, 112, 0)
    ∷ (56, 112, 0)
    ∷ (28, 112, 0)
    ∷ (0, 112, 0)
    ∷ (0, 112, 28)
    ∷ (0, 112, 56)
    ∷ (0, 112, 84)
    ∷ (0, 112, 112)
    ∷ (0, 84, 112)
    ∷ (0, 56, 112)
    ∷ (0, 28, 112)
    ∷ (56, 56, 112)
    ∷ (68, 56, 112)
    ∷ (84, 56, 112)
    ∷ (96, 56, 112)
    ∷ (112, 56, 112)
    ∷ (112, 56, 96)
    ∷ (112, 56, 84)
    ∷ (112, 56, 68)
    ∷ (112, 56, 56)
    ∷ (112, 68, 56)
    ∷ (112, 84, 56)
    ∷ (112, 96, 56)
    ∷ (112, 112, 56)
    ∷ (96, 112, 56)
    ∷ (84, 112, 56)
    ∷ (68, 112, 56)
    ∷ (56, 112, 56)
    ∷ (56, 112, 68)
    ∷ (56, 112, 84)
    ∷ (56, 112, 96)
    ∷ (56, 112, 112)
    ∷ (56, 96, 112)
    ∷ (56, 84, 112)
    ∷ (56, 68, 112)
    ∷ (0, 0, 0)
    ∷ (16, 16, 16)
    ∷ (32, 32, 32)
    ∷ (48, 48, 48)
    ∷ (64, 64, 64)
    ∷ (80, 80, 80)
    ∷ (96, 96, 96)
    ∷ (112, 112, 112)
    ∷ (128, 128, 128)
    ∷ (144, 144, 144)
    ∷ (160, 160, 160)
    ∷ (176, 176, 176)
    ∷ (192, 192, 192)
    ∷ (208, 208, 208)
    ∷ (224, 224, 224)
    ∷ (240, 240, 240)
    ∷ []

pub entry_or_zero : List (ℕ × ℕ × ℕ) → ℕ → ℕ × ℕ × ℕ
entry_or_zero [] n = (0, 0, 0)
entry_or_zero (c ∷ cs) zero = c
entry_or_zero (c ∷ cs) (suc n) = entry_or_zero cs n
