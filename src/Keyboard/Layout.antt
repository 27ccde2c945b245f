-- ===== src/Keyboard/Layout.antt =====
-- Facts about the two tables and the packing of modifiers, checked over all bytes.
use Prim.Native.Nat.{bit_and}
use mathlib.Core.Bool.{not}
use mono.Prelude.{
  ℕ, zero, suc, ◌*◌, ◌%◌, ◌<◌, ◌≡◌, ◌↔◌, refl, Bool, true, ◌&&◌, arith, ltb, ◌==◌, all_below,
  all_below_sound,
}
use mono.Keyboard.{with_modifiers}
use mono.Keyboard.Tables.{kbdus, shift_kbdus}

bool_eq : Bool → Bool → Bool
bool_eq true b = b
bool_eq _ b = not b

layout_ok : ℕ → Bool
layout_ok c =
    (ltb (kbdus c) 128 && ltb (shift_kbdus c) 128)
    && (bool_eq (kbdus c == 0) (shift_kbdus c == 0)
        && (bool_eq (kbdus c == 10) (shift_kbdus c == 10)
            && bool_eq (kbdus c == 8) (shift_kbdus c == 8)))

layout_table : all_below 256 layout_ok ≡ true
unfolding layout_ok bool_eq kbdus shift_kbdus all_below
layout_table = refl

-- No character, the newline and the backspace stand at the same places of both tables.
abbrev pub Layout : ℕ → Type 0
Layout c =
    (kbdus c < 128)
    × (shift_kbdus c < 128)
    × ((kbdus c ≡ 0) ↔ (shift_kbdus c ≡ 0))
    × ((kbdus c ≡ 10) ↔ (shift_kbdus c ≡ 10))
    × ((kbdus c ≡ 8) ↔ (shift_kbdus c ≡ 8))

Layout-parts : (c : ℕ) → layout_ok c ≡ true → Layout c
unfolding layout_ok bool_eq
Layout-parts c h = ground arith

-- For every byte, both tables give a 7-bit character, and they give no character, the newline or
-- the backspace together.
pub layout_lem : (c : ℕ) → c < 256 → Layout c
layout_lem c h = Layout-parts c (all_below_sound 256 layout_ok c layout_table h)

packs : ℕ → ℕ → ℕ → Bool
packs shift ctrl c =
    (with_modifiers c shift ctrl % 256 == c)
    && (bit_and (with_modifiers c shift ctrl) 32768 == shift * 32768)

packs_table :
    (all_below 256 (packs 0 0) ≡ true)
    × (all_below 256 (packs 0 1) ≡ true)
    × (all_below 256 (packs 1 0) ≡ true)
    × (all_below 256 (packs 1 1) ≡ true)
unfolding packs all_below
packs_table = (refl, refl, refl, refl)

packs_parts :
    (c shift ctrl : ℕ)
    → packs shift ctrl c ≡ true
    → (with_modifiers c shift ctrl % 256 ≡ c)
      × (bit_and (with_modifiers c shift ctrl) 32768 ≡ shift * 32768)
unfolding packs
packs_parts c shift ctrl h = ground arith

-- A stored scancode keeps its own byte, and its bit 15 is set exactly when shift was held.
pub with_modifiers_lem :
    (c shift ctrl : ℕ)
    → c < 256
    → shift < 2
    → ctrl < 2
    → (with_modifiers c shift ctrl % 256 ≡ c)
      × (bit_and (with_modifiers c shift ctrl) 32768 ≡ shift * 32768)
with_modifiers_lem c zero zero h hs hc =
    packs_parts c 0 0 (all_below_sound 256 (packs 0 0) c packs_table.0 h)
with_modifiers_lem c zero (suc zero) h hs hc =
    packs_parts c 0 1 (all_below_sound 256 (packs 0 1) c packs_table.1 h)
with_modifiers_lem c (suc zero) zero h hs hc =
    packs_parts c 1 0 (all_below_sound 256 (packs 1 0) c packs_table.2 h)
with_modifiers_lem c (suc zero) (suc zero) h hs hc =
    packs_parts c 1 1 (all_below_sound 256 (packs 1 1) c packs_table.3 h)
with_modifiers_lem c zero (suc (suc n)) h hs hc = absurd (omega arith)
with_modifiers_lem c (suc zero) (suc (suc n)) h hs hc = absurd (omega arith)
with_modifiers_lem c (suc (suc n)) ctrl h hs hc = absurd (omega arith)
