-- ===== src/Imgconvert/Options.antt =====
-- The arguments of utils/imgconvert.c. A string is the list of its characters, and `atoi` is the C
-- library's.
use mono.Prelude.{
  ℕ, zero, suc, ◌+◌, ◌-◌, ◌%◌, ◌^◌, ◌<◌, ◌≡◌, ◌⊎◌, Bool, true, false, ◌||◌, Option, none, some,
  List, [], ◌∷◌, length, ltb, ◌==◌, if◌then◌else◌,
}
use mono.Prelude.Int.{ℤ, pos, negsuc}
use mono.Romdisk.Table.{same_name}

-- `lab`, `cosine`, `res_x`, `res_y`, `colours`, and the index of the demonstration file's name.
pub record Options : Type 0 where
  pub lab : Bool
  pub cosine : Bool
  pub res_x : ℕ
  pub res_y : ℕ
  pub colours : ℕ
  pub demo_filename : Option ℕ

-- A read through the null pointer behind the arguments, an error message, the options, or no end
-- within the fuel.
pub data Parsed : Type 0 where
  crashed : Parsed
  refused : Parsed
  parsed : Options → Parsed
  unending : Parsed

-- `argv[i]`, with the null pointer behind the last.
unfoldable pub arg_at : List (List ℕ) → ℕ → Option (List ℕ)
arg_at [] i = none
arg_at (a ∷ argv) zero = some a
arg_at (a ∷ argv) (suc i) = arg_at argv i

abbrev pub first_char : List ℕ → ℕ
first_char [] = 0
first_char (c ∷ s) = c

-- A `uint16_t` of an `int`.
abbrev pub to_uint16 : ℤ → ℕ
to_uint16 (pos n) = n % 2 ^ 16
to_uint16 (negsuc n) = 2 ^ 16 - 1 - n % 2 ^ 16

-- `--colours`, `-c`, `--res-x`, `--res-y`, `--demo`, `--lab`, `--cosine-distance`
abbrev pub colours_word : List ℕ
colours_word = 45 ∷ 45 ∷ 99 ∷ 111 ∷ 108 ∷ 111 ∷ 117 ∷ 114 ∷ 115 ∷ []

abbrev pub c_word : List ℕ
c_word = 45 ∷ 99 ∷ []

abbrev pub res_x_word : List ℕ
res_x_word = 45 ∷ 45 ∷ 114 ∷ 101 ∷ 115 ∷ 45 ∷ 120 ∷ []

abbrev pub res_y_word : List ℕ
res_y_word = 45 ∷ 45 ∷ 114 ∷ 101 ∷ 115 ∷ 45 ∷ 121 ∷ []

abbrev pub demo_word : List ℕ
demo_word = 45 ∷ 45 ∷ 100 ∷ 101 ∷ 109 ∷ 111 ∷ []

abbrev pub lab_word : List ℕ
lab_word = 45 ∷ 45 ∷ 108 ∷ 97 ∷ 98 ∷ []

abbrev pub cosine_word : List ℕ
cosine_word =
    45 ∷ 45 ∷ 99 ∷ 111 ∷ 115 ∷ 105 ∷ 110 ∷ 101 ∷ 45 ∷ 100 ∷ 105 ∷ 115 ∷ 116 ∷ 97 ∷ 110 ∷ 99 ∷ 101
    ∷ []

abbrev pub with_value : Option (List ℕ) → (List ℕ → Parsed) → Parsed
with_value none f = crashed
with_value (some v) f = f v

unfoldable pub set_colours : ℕ → Options → (Options → Parsed) → Parsed
set_colours n o rest = if n == 16 || n == 256 then rest (record o { colours = n }) else refused

-- The body of the loop for the argument `a` with `value` behind it, and `rest` for the rounds to come.
unfoldable pub one_option :
    (List ℕ → ℤ) → List ℕ → Option (List ℕ) → ℕ → Options → (Options → Parsed) → Parsed
one_option atoi a value i o rest =
    if first_char a == 45
    then (if same_name a colours_word || same_name a c_word
        then with_value value (λ v. set_colours (to_uint16 (atoi v)) o rest)
        else if same_name a res_x_word
        then with_value value (λ v. rest (record o { res_x = to_uint16 (atoi v) }))
        else if same_name a res_y_word
        then with_value value (λ v. rest (record o { res_y = to_uint16 (atoi v) }))
        else if same_name a demo_word
        then rest (record o { demo_filename = some (i + 1) })
        else if same_name a lab_word
        then rest (record o { lab = true })
        else if same_name a cosine_word
        then rest (record o { cosine = true })
        else refused)
    else rest o

-- The loop, on fuel; `i` is a `uint8_t`.
unfoldable pub parse_from : ℕ → (List ℕ → ℤ) → List (List ℕ) → ℕ → Options → Parsed
parse_from zero atoi argv i o = unending
parse_from (suc fuel) atoi argv i o =
    if ltb i (length argv)
    then with_value (arg_at argv i) (λ a.
      one_option atoi a (arg_at argv (i + 1)) i o (parse_from fuel atoi argv ((i + 1) % 256)))
    else parsed o

abbrev pub default_options : Options
default_options = record {
  lab = false;
  cosine = false;
  res_x = 320;
  res_y = 200;
  colours = 256;
  demo_filename = none;
}

unfoldable pub parse_options : ℕ → (List ℕ → ℤ) → List (List ℕ) → Parsed
parse_options fuel atoi argv =
    if ltb (length argv) 2
    then refused
    else if ltb (length argv) 3
    then refused
    else parse_from fuel atoi argv 3 default_options

abbrev pub Allowed : Options → Type 0
Allowed o = ((o.colours ≡ 16) ⊎ (o.colours ≡ 256)) × (o.res_x < 2 ^ 16) × (o.res_y < 2 ^ 16)
