-- ===== src/Libc/Tests.antt =====
-- The program library at concrete arguments. 13! is the first factorial that does not fit.
use mono.Prelude.{ℕ, ◌+◌, ◌-◌, ◌/◌, ◌%◌, ◌*◌, ◌^◌, ◌≡◌, refl, none, some, [], ◌∷◌, arith, ltb, leb}
use mono.Libc.Math.{Double, isqrt, sin, cos}
use mono.Libc.Math.Root.{IsRoot, isqrt-IsRoot, isqrt_stuck}
use mono.Libc.Math.Circle.{CircleLaws, on_circle, sin_lem, cos_lem}
use mono.Libc.{calloc}
use mono.Libc.Files.{stdin, stdout, fread, fwrite}
use mono.Libc.Files.Streams.{Writes, fwrite-Writes, ReadsInto, fread-ReadsInto}
use mono.Terminal.Char.{put_all_on_sheet}
use mono.Terminal.Tests.{blank, sized, placed, shown}
use mono.Libc.Alloc.{Zeroed, calloc-Zeroed}
use mono.Libc.Numbers.{product_to}
use mono.Process.Tests.{nothing_past, machine}

calloc-Zeroed_example : Zeroed (5 * 8) machine (calloc nothing_past 5 8 machine)
calloc-Zeroed_example = calloc-Zeroed nothing_past 5 8 machine (omega arith)

factorial_wraps : product_to 13 % 2 ^ 32 ≡ 1932053504
unfolding product_to
factorial_wraps = refl

-- Whole numbers in place of doubles, with 4 for `M_PI`.
abbrev whole : Double
whole = record {
  Float = ℕ;
  of_uint = λ k. k;
  add = ◌+◌;
  sub = ◌-◌;
  mul = ◌*◌;
  div = ◌/◌;
  neg = λ x. x;
  lt = ltb;
  le = leb;
  pi = 4;
}

isqrt-IsRoot_example : IsRoot whole 10 (isqrt whole 5 10)
isqrt-IsRoot_example = isqrt-IsRoot whole 4 10 10 (λ k h. refl) (omega arith) (omega arith)

isqrt_stuck_example : isqrt whole 100 (2 ^ 32) ≡ none
isqrt_stuck_example = isqrt_stuck whole 100 (2 ^ 32) (2 ^ 32) (λ k h. refl) (omega arith)

whole_circle : CircleLaws whole
whole_circle = record {
  one_mul = refl;
  lt-not_le = λ x y h. ground arith;
  beyond_half = λ x h. ground arith;
  sub_half = λ x h. ground arith;
  sub_pi = λ x h. ground arith;
}

sin_lem_example : sin whole 3 20 7 ≡ some (on_circle whole (λ y. y) (λ y. y) (λ i. 2 * i + 1) 7)
sin_lem_example = sin_lem whole whole_circle 0 20 7 (omega arith)

cos_lem_example : cos whole 3 20 7 ≡ some (on_circle whole (λ y. y) (λ y. y) (λ i. 2 * i) 7)
cos_lem_example = cos_lem whole whole_circle 0 20 7 (omega arith)

fwrite-Writes_example :
    Writes 2 3
      (fwrite 9 nothing_past 100 1 2 stdout machine)
      (put_all_on_sheet 2 3 (65 ∷ 10 ∷ 10 ∷ []) blank)
fwrite-Writes_example =
    fwrite-Writes 2 3 sized (omega arith) 9 100 1 2 nothing_past stdout (65 ∷ 10 ∷ 10 ∷ [])
      (4 ∷ 7 ∷ []) machine blank refl (ground arith) (omega arith) (omega arith) (omega arith)
      (omega arith) placed shown (omega arith)

fread-ReadsInto_example : ReadsInto machine 500 (2 * 5) (fread nothing_past 500 2 5 stdin machine)
fread-ReadsInto_example =
    fread-ReadsInto nothing_past 500 2 5 stdin machine refl (omega arith) (omega arith)
