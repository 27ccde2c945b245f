-- ===== src/Imgconvert.antt =====
-- utils/imgconvert.c, which turns a picture into palette indices. The arithmetic of `float` and
-- `double`, and the JPEG library, are parameters.
use mono.Prelude.{
  ℕ, zero, suc, ◌+◌, ◌*◌, ◌%◌, ◌^◌, Bool, true, false, Option, none, some, List, [], ◌∷◌, ltb, ◌==◌,
  if◌then◌else◌, for_range,
}
pub mod Palette
pub mod Options
pub mod Sound
pub mod Nearest
pub mod Rows
pub mod Main
mod Tests
use mono.Imgconvert.Palette.{vga_table, entry_or_zero}

-- The machine's numbers: `float_literal n k` is n / 10 ^ k.
pub record Numbers : Type 1 where
  pub Float : Type 0
  pub Double : Type 0
  pub of_int : ℕ → Float
  pub to_int : Float → ℕ
  pub to_byte : Float → ℕ
  pub float_literal : ℕ → ℕ → Float
  pub add : Float → Float → Float
  pub sub : Float → Float → Float
  pub mul : Float → Float → Float
  pub div : Float → Float → Float
  pub powf : Float → Float → Float
  pub le : Float → Float → Bool
  pub gt : Float → Float → Bool
  pub widen : Float → Double
  pub double_of_int : ℕ → Double
  pub add_double : Double → Double → Double
  pub sub_double : Double → Double → Double
  pub mul_double : Double → Double → Double
  pub div_double : Double → Double → Double
  pub sqrt : Double → Double
  pub pow : Double → Double → Double
  pub dbl_max : Double
  pub lt_double : Double → Double → Bool

module _ (N : Numbers) where
  open N use {
    Float, Double, of_int, to_int, to_byte, float_literal, add, sub, mul, div, powf, le, gt, widen,
    double_of_int, add_double, sub_double, mul_double, div_double, sqrt, pow, dbl_max, lt_double,
  }

  pub record RgbColor : Type 0 where
    pub r : Float
    pub g : Float
    pub b : Float

  unfoldable pub vga_palette : ℕ → RgbColor
  vga_palette n =
      let c = entry_or_zero vga_table n in record { r = of_int c.0; g = of_int c.1; b = of_int c.2 }

  unfoldable pub gamma_correct : Float → Float
  gamma_correct c =
      if le c (float_literal 4045 5)
      then div c (float_literal 1292 2)
      else powf (div (add c (float_literal 55 3)) (float_literal 1055 3)) (float_literal 24 1)

  -- `0.4124564f * r + 0.3575761f * g + 0.1804375f * b`, with the literals as ten-millionths.
  unfoldable pub weighed : ℕ → ℕ → ℕ → Float → Float → Float → Float
  weighed u v w r g b =
      add (add (mul (float_literal u 7) r) (mul (float_literal v 7) g)) (mul (float_literal w 7) b)

  unfoldable pub lab_root : Float → Float
  lab_root t =
      if gt t (float_literal 8856 6)
      then powf t (div (float_literal 1 0) (float_literal 3 0))
      else add (div t (float_literal 9033 1)) (div (float_literal 16 0) (float_literal 116 0))

  -- The three results in place of the three colours.
  unfoldable pub rgb_to_lab : ℕ → ℕ → ℕ → RgbColor
  rgb_to_lab R G B =
      let r = gamma_correct (div (of_int R) (float_literal 255 0)) in
      let g = gamma_correct (div (of_int G) (float_literal 255 0)) in
      let b = gamma_correct (div (of_int B) (float_literal 255 0)) in
      let fx = lab_root (div (weighed 4124564 3575761 1804375 r g b) (float_literal 95047 5)) in
      let fy = lab_root (weighed 2126729 7151522 721750 r g b) in
      let fz = lab_root (div (weighed 193339 1191920 9503041 r g b) (float_literal 108883 5)) in
      record {
        r = sub (mul (float_literal 116 0) fy) (float_literal 16 0);
        g = mul (float_literal 500 0) (sub fx fy);
        b = mul (float_literal 200 0) (sub fy fz);
      }

  abbrev pub in_lab : RgbColor → RgbColor
  in_lab c = rgb_to_lab (to_int c.r) (to_int c.g) (to_int c.b)

  -- `if (lab)` before the picture is read.
  unfoldable pub used_palette : Bool → ℕ → ℕ → RgbColor
  used_palette lab colours n =
      if lab
      then (if ltb n colours then in_lab (vga_palette n) else vga_palette n)
      else vga_palette n

  unfoldable pub cosine_distance : RgbColor → RgbColor → Double
  cosine_distance c p =
      let dot =
        add_double
          (add_double (add_double (double_of_int 0) (widen (mul c.r p.r))) (widen (mul c.g p.g)))
          (widen (mul c.b p.b)) in
      let mag1 = sqrt (widen (add (add (mul c.r c.r) (mul c.g c.g)) (mul c.b c.b))) in
      let two = double_of_int 2 in
      let mag2 = sqrt (
        add_double (add_double (pow (widen p.r) two) (pow (widen p.g) two))
          (pow (widen p.b) two)) in
      sub_double (double_of_int 1) (div_double dot (mul_double mag1 mag2))

  unfoldable pub euclid_distance : RgbColor → RgbColor → Double
  euclid_distance c p =
      let two = double_of_int 2 in
      sqrt (
        add_double (add_double (pow (widen (sub c.r p.r)) two) (pow (widen (sub c.g p.g)) two))
          (pow (widen (sub c.b p.b)) two))

  abbrev pub distance : Bool → RgbColor → RgbColor → Double
  distance cosine c p = if cosine then cosine_distance c p else euclid_distance c p

  -- One round of the loop over the colours, on `minimum_distance` and `minimum_palette`.
  unfoldable pub closer : (ℕ → Double) → ℕ → Double × ℕ → Double × ℕ
  closer tmp_distance j (least, best) =
      if lt_double (tmp_distance j) least then (tmp_distance j, j) else (least, best)

  unfoldable pub nearest : ℕ → (ℕ → Double) → ℕ
  nearest colours tmp_distance = (for_range colours 0 (closer tmp_distance) (dbl_max, 65535)).1

  unfoldable pub pixel_index : Bool → Bool → ℕ → RgbColor → ℕ
  pixel_index lab cosine colours c =
      nearest colours
        (λ j. distance cosine (if lab then in_lab c else c) (used_palette lab colours j))

  -- `vga_palette[minimum_palette]`, which has 256 entries.
  abbrev pub demo_colour : Bool → ℕ → ℕ → Option (ℕ × ℕ × ℕ)
  demo_colour lab colours n =
      if ltb n 256
      then some (
        to_byte (used_palette lab colours n).r,
        to_byte (used_palette lab colours n).g,
        to_byte (used_palette lab colours n).b,
      )
      else none

  abbrev pub row_step : ℕ → Option (ℕ × ℕ × ℕ) → Option (List ℕ × List ℕ) → Option (List ℕ × List ℕ)
  row_step n none rest = none
  row_step n (some c) none = none
  row_step n (some (r, g, b)) (some (out, demo)) = some (n % 256 ∷ out, r ∷ g ∷ b ∷ demo)

  abbrev pub pixel_at : (ℕ → ℕ) → ℕ → RgbColor
  pixel_at scanline i = record {
    r = of_int (scanline (i * 3));
    g = of_int (scanline (i * 3 + 1));
    b = of_int (scanline (i * 3 + 2));
  }

  -- The loop over a row: `n` pixels from number `i` on; the bytes for the output file and those of
  -- the demonstration row, `none` at a read behind the palette.
  unfoldable pub convert_row : ℕ → ℕ → Bool → Bool → ℕ → (ℕ → ℕ) → Option (List ℕ × List ℕ)
  convert_row zero i lab cosine colours scanline = some ([], [])
  convert_row (suc n) i lab cosine colours scanline =
      let k = pixel_index lab cosine colours (pixel_at scanline i) in
      row_step k (demo_colour lab colours k) (convert_row n (i + 1) lab cosine colours scanline)
