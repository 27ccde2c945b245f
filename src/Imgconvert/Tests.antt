-- ===== src/Imgconvert/Tests.antt =====
-- Natural numbers in place of the machine's, with every square root 7.
use mono.Prelude.{
  ℕ, suc, List, ◌+◌, ◌-◌, ◌*◌, ◌<◌, ◌≡◌, refl, true, false, [], ◌∷◌, arith, ltb, leb, if◌then◌else◌,
}
use mono.Prelude.Int.{pos}
use mono.Imgconvert.{Numbers, nearest, euclid_distance, pixel_at}
use mono.Imgconvert.Nearest.{Ordered, nearest_first}
use mono.Imgconvert.Main.{Jpeg, Written, exited, unended, main}
use mono.Imgconvert.Main.Picture.{ReadsRows, Picture, main-Picture, main_stuck}
use mono.Imgconvert.Options.{parse_options, parse_from, c_word, default_options, parsed}
use mono.Imgconvert.Sound.{IsSound, parse_options-IsSound}
use mono.Imgconvert.Rows.{Near}

abbrev naturals : Numbers
naturals = record {
  Float = ℕ;
  Double = ℕ;
  of_int = λ n. n;
  to_int = λ n. n;
  to_byte = λ n. n;
  float_literal = λ n k. n;
  add = λ x y. x + y;
  sub = λ x y. x - y;
  mul = λ x y. x * y;
  div = λ x y. x;
  powf = λ x y. x;
  le = leb;
  gt = λ x y. ltb y x;
  widen = λ x. x;
  double_of_int = λ n. n;
  add_double = λ x y. x + y;
  sub_double = λ x y. x - y;
  mul_double = λ x y. x * y;
  div_double = λ x y. x;
  sqrt = λ x. 7;
  pow = λ x y. x * x;
  dbl_max = 1000000;
  lt_double = ltb;
}

abbrev ordered : Ordered naturals
ordered = record {
  IsNumber = λ x. Unit {0};
  max_number = tt;
  irreflexive = λ x _. ground arith;
  transitive = λ x y z _ _ _ p q. ground arith;
  apart = λ x y z _ _ _ p q. ground arith;
}

-- The fifth of the colours is the nearest.
abbrev from_five : ℕ → ℕ
from_five j = if ltb j 5 then 5 - j else j - 5

nearest_first_example :
    (nearest naturals 16 from_five < 16)
    × ((j : ℕ) → j < 16 → ltb (from_five j) (from_five (nearest naturals 16 from_five)) ≡ false)
    × ((j : ℕ)
        → j < nearest naturals 16 from_five
        → ltb (from_five (nearest naturals 16 from_five)) (from_five j) ≡ true)
nearest_first_example = nearest_first naturals ordered from_five 16 3 (λ j l. tt) (omega arith) refl

near : (q : ℕ) → Near naturals false false 16 (omega arith) (pixel_at naturals (λ _. 170) q)
unfolding euclid_distance
near q = (0, omega arith, refl)

-- `imgconvert in out -c 16`, and an `atoi` that always gives 16.
parse_options-IsSound_example : IsSound (
    parse_options 6
      (λ _. pos 16)
      ((105 ∷ []) ∷ (97 ∷ []) ∷ (98 ∷ []) ∷ c_word ∷ (49 ∷ 54 ∷ []) ∷ []))
parse_options-IsSound_example =
    parse_options-IsSound 6 (λ _. pos 16)
      ((105 ∷ []) ∷ (97 ∷ []) ∷ (98 ∷ []) ∷ c_word ∷ (49 ∷ 54 ∷ []) ∷ []) (omega arith)
      (omega arith)

-- `imgconvert in out`, which asks for the default of 200 rows of 320 pixels.
abbrev two_files : List (List ℕ)
two_files = (105 ∷ []) ∷ (97 ∷ []) ∷ (98 ∷ []) ∷ []

two_files_accepted : parse_options 201 (λ _. pos 3) two_files ≡ parsed default_options
unfolding parse_options parse_from
two_files_accepted = refl

-- A picture of `height` grey rows of 320 pixels.
abbrev grey : ℕ → Jpeg
grey height = record {
  header_ok = true;
  read_scanlines = λ n b. if ltb n height then (suc n, (λ _. 170)) else (n, (λ _. 170));
  row_bytes = 960;
  finish_compress = leb;
  finish_decompress = leb height;
}

grey-ReadsRows : (height : ℕ) → ReadsRows height (grey height)
grey-ReadsRows height = record {
  advances = λ n b l. ground arith;
  stays = λ n b l. ground arith;
  compresses = λ h n. refl;
  decompresses = λ n. refl;
}

Near-grey :
    (height i : ℕ) (b : ℕ → ℕ) (q : ℕ)
    → Near naturals false false 256
        (omega arith)
        (pixel_at naturals ((grey height).read_scanlines i b).1 q)
unfolding euclid_distance
Near-grey height i b q = (0, omega arith, ground arith)

main-Picture_example :
    (w : Written) × (main naturals 201 (λ _. pos 3) two_files true true true (grey 200) (λ _. 0)
      ≡ exited (pos 0) w)
    × Picture 200 default_options w
main-Picture_example =
    main-Picture naturals 201 200 (λ _. pos 3) two_files (grey 200) (λ _. 0) default_options
      (omega arith) two_files_accepted refl (grey-ReadsRows 200) refl (omega arith) (omega arith)
      (Near-grey 200)

main_stuck_example :
    main naturals 201 (λ _. pos 3) two_files true true true (grey 2) (λ _. 0) ≡ unended
main_stuck_example =
    main_stuck naturals 201 2 (λ _. pos 3) two_files (grey 2) (λ _. 0) default_options (omega arith)
      two_files_accepted refl (grey-ReadsRows 2) refl (omega arith) (Near-grey 2)
