-- ===== src/Imgconvert/Sound.antt =====
-- The parsing of the arguments ends, and accepts what the rest of the program works with.
use mono.Prelude.{
  ℕ, zero, suc, ◌+◌, ◌%◌, ◌^◌, ◌<◌, ◌≤◌, refl, inl, inr, Bool, true, false, Bool-cases, ◌||◌,
  Option, none, some, List, length, arith, ltb, ◌==◌, if◌then◌else◌,
}
use mono.Prelude.Int.{ℤ, pos, negsuc}
use mono.Romdisk.Table.{same_name}
use mono.Imgconvert.Options.{
  Allowed, Options, Parsed, arg_at, c_word, colours_word, cosine_word, default_options, demo_word,
  first_char, lab_word, one_option, parse_from, parse_options, res_x_word, res_y_word, set_colours,
  to_uint16, with_value, crashed, refused, parsed,
}

-- The parsing ends, and what it accepts is allowed.
pub data IsSound : Parsed → Type 0 where
  on_crash : IsSound crashed
  on_refusal : IsSound refused
  on_success : (o : Options) → Allowed o → IsSound (parsed o)

IsSound-if : (x : Bool) (p q : Parsed) → IsSound p → IsSound q → IsSound (if x then p else q)
IsSound-if true p q h h' = h
IsSound-if false p q h h' = h'

IsSound-value :
    (v : Option (List ℕ)) (f : List ℕ → Parsed)
    → ((a : List ℕ) → IsSound (f a))
    → IsSound (with_value v f)
IsSound-value none f h = on_crash
IsSound-value (some a) f h = h a

to_uint16_bound : (z : ℤ) → to_uint16 z < 2 ^ 16
to_uint16_bound (pos n) = omega arith
to_uint16_bound (negsuc n) = omega arith

module _ (o : Options) (allowed : Allowed o) (rest : Options → Parsed)
    (sound : (o' : Options) → Allowed o' → IsSound (rest o')) where
  set_colours-IsSound : (n : ℕ) → IsSound (set_colours n o rest)
  unfolding set_colours
  set_colours-IsSound n = elim (Bool-cases (n == 16 || n == 256)) [
    | inl e ↦ rw e (sound (record o { colours = n }) (ground arith, allowed.1, allowed.2))
    | inr e ↦ rw e on_refusal
  ]

  one_option-IsSound :
      (atoi : List ℕ → ℤ) (a : List ℕ) (value : Option (List ℕ)) (i : ℕ)
      → IsSound (one_option atoi a value i o rest)
  unfolding one_option
  one_option-IsSound atoi a value i =
      IsSound-if (first_char a == 45) _ _
        (IsSound-if (same_name a colours_word || same_name a c_word) _ _
          (IsSound-value value _ (λ v. set_colours-IsSound (to_uint16 (atoi v))))
          (IsSound-if (same_name a res_x_word) _ _
            (IsSound-value value _ (λ v.
              sound (record o { res_x = to_uint16 (atoi v) })
                (allowed.0, to_uint16_bound (atoi v), allowed.2)))
            (IsSound-if (same_name a res_y_word) _ _
              (IsSound-value value _ (λ v.
                sound (record o { res_y = to_uint16 (atoi v) })
                  (allowed.0, allowed.1, to_uint16_bound (atoi v))))
              (IsSound-if (same_name a demo_word) _ _
                (sound (record o { demo_filename = some (i + 1) }) allowed)
                (IsSound-if (same_name a lab_word) _ _ (sound (record o { lab = true }) allowed) (
                  IsSound-if (same_name a cosine_word) _ _
                    (sound (record o { cosine = true }) allowed) on_refusal))))))
        (sound o allowed)

parse_from-IsSound :
    (fuel : ℕ) (atoi : List ℕ → ℤ) (argv : List (List ℕ)) (i : ℕ) (o : Options)
    → length argv < 256
    → length argv < fuel + i
    → i ≤ length argv
    → Allowed o
    → IsSound (parse_from fuel atoi argv i o)
unfolding parse_from
parse_from-IsSound zero atoi argv i o h f l allowed = absurd (omega arith)
parse_from-IsSound (suc fuel) atoi argv i o h f l allowed =
    elim (Bool-cases (ltb i (length argv))) [
      | inl e ↦ rw e (
          IsSound-value (arg_at argv i) _ (λ a.
            one_option-IsSound o allowed (parse_from fuel atoi argv ((i + 1) % 256))
              (λ o'.
                parse_from-IsSound fuel atoi argv ((i + 1) % 256) o' h (ground arith)
                  (ground arith))
              atoi a (arg_at argv (i + 1)) i))
      | inr e ↦ rw e (on_success o allowed)
    ]

-- With at most 255 arguments, and fuel for them, the parsing ends: at a null pointer, with an error, or
-- with 16 or 256 colours and a 16-bit width and height.
pub parse_options-IsSound :
    (fuel : ℕ) (atoi : List ℕ → ℤ) (argv : List (List ℕ))
    → length argv < 256
    → length argv ≤ fuel
    → IsSound (parse_options fuel atoi argv)
unfolding parse_options
parse_options-IsSound fuel atoi argv h f =
    IsSound-if (ltb (length argv) 2) _ _ on_refusal (elim (Bool-cases (ltb (length argv) 3)) [
      | inl e ↦ rw e on_refusal
      | inr e ↦ rw e (
          parse_from-IsSound fuel atoi argv 3 default_options h (omega arith) (ground arith)
            (inr refl, omega arith, omega arith))
    ])
