-- ===== src/Graphics/Font.antt =====
-- `default_font` of src/graphics.c with the letters and digits of src/graphics.h: a bitmap of 25
-- pixels in the high bits for each 7-bit character.
use Prim.Native.Nat.{bit_or}
use mono.Graphics.Glyphs.{
  n_0, n_1, n_2, n_3, n_4, n_5, n_6, n_7, n_8, n_9, l_a, l_b, l_c, l_d, l_e, l_f, l_g, l_h, l_i,
  l_j, l_k, l_l, l_m, l_n, l_o, l_p, l_q, l_r, l_s, l_t, l_u, l_v, l_w, l_y, l_x, l_z,
}
use mono.Graphics.{colour_of, clear_bit}
use mathlib.Core.Bool.{not}
use mono.Prelude.{
  ℕ, ◌<◌, ◌≡◌, refl, Bool, true, false, ◌&&◌, Option, List, [], ◌∷◌, ◌++◌, arith, ◌==◌, get_elem?,
  get_or, get_elem?-eq-get_or, some, replicate, length, all_below, all_below_sound,
}

unfoldable pub font_table : List ℕ
font_table =
    replicate 33 0
    ++ (0x21080200 ∷ 0xdec00000 ∷ 0x57d5f500 ∷ 0xfd3e5f80 ∷ 0x88888880 ∷ 0x52bea500 ∷ 0x84000000
        ∷ 0x7c210780 ∷ 0xf0421f00 ∷ 0xabbeea80 ∷ 0x213e4200 ∷ 0x00008800 ∷ 0x003e0000 ∷ 0x00018c00
        ∷ 0x08888800 ∷ n_0 ∷ n_1 ∷ n_2 ∷ n_3 ∷ n_4 ∷ n_5 ∷ n_6 ∷ n_7 ∷ n_8 ∷ n_9 ∷ 0x21004200
        ∷ 0x21004400 ∷ 0x22208200 ∷ 0x07c1f000 ∷ 0x82088800 ∷ 0xfc4c0200 ∷ 0x3eadeb00 ∷ l_a ∷ l_b
        ∷ l_c ∷ l_d ∷ l_e ∷ l_f ∷ l_g ∷ l_h ∷ l_i ∷ l_j ∷ l_k ∷ l_l ∷ l_m ∷ l_n ∷ l_o ∷ l_p ∷ l_q
        ∷ l_r ∷ l_s ∷ l_t ∷ l_u ∷ l_v ∷ l_w ∷ l_x ∷ l_y ∷ l_z ∷ 0xfc210f80 ∷ 0x82082080 ∷ 0xf8421f80
        ∷ 0x22a20000 ∷ 0x00000f80 ∷ 0xad40e700 ∷ l_a ∷ l_b ∷ l_c ∷ l_d ∷ l_e ∷ l_f ∷ l_g ∷ l_h ∷ l_i
        ∷ l_j ∷ l_k ∷ l_l ∷ l_m ∷ l_n ∷ l_o ∷ l_p ∷ l_q ∷ l_r ∷ l_s ∷ l_t ∷ l_u ∷ l_v ∷ l_w ∷ l_x
        ∷ l_y ∷ l_z ∷ 0x64110600 ∷ 0xfff7ff80 ∷ 0x30441300 ∷ 0x08ca9f80 ∷ 0x00000000 ∷ [])

-- `default_font[c]`, with none for an index outside the table.
unfoldable pub default_font : ℕ → Option ℕ
unfolding font_table
default_font c = get_elem? font_table c

bool_eq : Bool → Bool → Bool
bool_eq true b = b
bool_eq false b = not b

-- With a colour in its low bits, a glyph keeps its 25 pixels and shows in that colour.
shows : ℕ → ℕ → Bool
shows c colour =
    let code = bit_or (get_or font_table c 0) colour in
    (colour_of code == colour)
    && all_below 5 (λ r.
      all_below 5 (λ k. bool_eq (clear_bit code r k) (clear_bit (get_or font_table c 0) r k)))

shows_table : all_below 128 (λ c. all_below 16 (shows c)) ≡ true
unfolding all_below shows font_table bool_eq
shows_table = refl

shows_parts :
    (c colour : ℕ)
    → shows c colour ≡ true
    → (colour_of (bit_or (get_or font_table c 0) colour) ≡ colour)
      × (all_below 5 (λ r. all_below 5 (λ k.
            bool_eq
              (clear_bit (bit_or (get_or font_table c 0) colour) r k)
              (clear_bit (get_or font_table c 0) r k)))
          ≡ true)
unfolding shows
shows_parts c colour h = ground arith

bool_eq-eq : (a b : Bool) → bool_eq a b ≡ true → a ≡ b
unfolding bool_eq
bool_eq-eq a b h = ground arith

length-font_table : length font_table ≡ 128
unfolding font_table
length-font_table = refl

-- Every 7-bit character has a glyph. With a colour in its low four bits, the glyph keeps its 25
-- pixels, and shows in that colour.
pub default_font_lem :
    (c colour : ℕ)
    → c < 128
    → colour < 16
    → (g : ℕ) × (default_font c ≡ some g)
      × (colour_of (bit_or g colour) ≡ colour)
      × ((r k : ℕ) → r < 5 → k < 5 → clear_bit (bit_or g colour) r k ≡ clear_bit g r k)
unfolding default_font
default_font_lem c colour hc hk =
    let row = all_below_sound 128 (λ d. all_below 16 (shows d)) c shows_table hc in
    let parts = shows_parts c colour (all_below_sound 16 (shows c) colour row hk) in
    (
      get_or font_table c 0,
      get_elem?-eq-get_or font_table c 0 (rw length-font_table hc),
      parts.0,
      λ r k hr hk'. bool_eq-eq _ _ (all_below_sound 5 _ k (all_below_sound 5 _ r parts.1 hr) hk'),
    )
