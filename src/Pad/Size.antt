-- ===== src/Pad/Size.antt =====
-- The size of a padded file.
use mono.Prelude.{
  ℕ, zero, suc, ◌+◌, ◌*◌, ◌-◌, ◌/◌, ◌^◌, ◌<◌, ◌≤◌, ◌≡◌, refl, sym, ap, ◌∙◌, true, some, List, [],
  ◌∷◌, ◌++◌, length, length-append, arith,
}
use mathlib.Core.List.{append_assoc}
use mono.Prelude.Int.{ℤ, pos, negsuc, ◌-ℤ◌}
use mono.Pad.{bytes_required, to_int, loop_rounds, put_zeros, Padding, ended, main}

-- `n` zeros.
unfoldable pub zeros : ℕ → List ℕ
zeros zero = []
zeros (suc n) = 0 ∷ zeros n

length-zeros : (n : ℕ) → length (zeros n) ≡ n
unfolding zeros
length-zeros zero = refl
length-zeros (suc n) = ap suc (length-zeros n)

append-nil : (xs : List ℕ) → xs ++ [] ≡ xs
append-nil [] = refl
append-nil (x ∷ xs) = ap (λ ys. x ∷ ys) (append-nil xs)

put_zeros_lem : (n : ℕ) (file : List ℕ) → put_zeros n file ≡ file ++ zeros n
unfolding put_zeros zeros
put_zeros_lem zero file = sym (append-nil file)
put_zeros_lem (suc n) file = put_zeros_lem n (file ++ 0 ∷ []) ∙ simp append_assoc

-- What `ceil` of a quotient by 512 promises.
abbrev pub RoundsUp : (ℕ → ℕ) → Type 0
RoundsUp blocks = (n : ℕ) → (n ≤ 512 * blocks n) × (512 * blocks n < n + 512)

-- The program exits with 0, having put only zeros behind the file, up to the given size.
abbrev pub PaddedTo : ℕ → List ℕ → Padding → Type 0
PaddedTo size file p =
    (k : ℕ) × (p ≡ ended (pos 0) (file ++ zeros k)) × (length (file ++ zeros k) ≡ size)

sub_rounds : (a b : ℕ) → a < 2 ^ 31 → b < 2 ^ 31 → loop_rounds (to_int (pos a -ℤ pos b)) ≡ a - b
unfolding ◌-ℤ◌
sub_rounds a b ha hb = ground arith

padded :
    (blocks : ℕ → ℕ) (padding_size : ℤ) (file : List ℕ) (size : ℕ)
    → loop_rounds (bytes_required blocks padding_size (length file)) ≡ size - length file
    → length file ≤ size
    → PaddedTo size file (main blocks padding_size (some file) true)
unfolding main
padded blocks padding_size file size e l = (
  size - length file,
  ap (ended (pos 0)) (put_zeros_lem _ file ∙ ap (λ k. file ++ zeros k) e),
  omega (arith, length-append file (zeros (size - length file)), length-zeros (size - length file)),
)

-- For a file below 1 GiB that opens: with a padding size below 2 ^ 31 that is not smaller than the file,
-- the file has that size afterwards; with a smaller one it is unchanged; and with -1, where `ceil`
-- loop_rounds up, its size is the next multiple of 512. All that is appended are zeros.
pub main-PaddedTo :
    (blocks : ℕ → ℕ) (file : List ℕ) (n : ℕ)
    → RoundsUp blocks
    → length file < 2 ^ 30
    → n < 2 ^ 31
    → (length file ≤ n → PaddedTo n file (main blocks (pos n) (some file) true))
      × (n ≤ length file → PaddedTo (length file) file (main blocks (pos n) (some file) true))
      × PaddedTo (512 * ((length file + 511) / 512)) file (main blocks (negsuc 0) (some file) true)
unfolding bytes_required
main-PaddedTo blocks file n up small below =
    let r = up (length file) in
    (
      λ l. padded blocks (pos n) file n (sub_rounds n (length file) below (omega arith)) l,
      λ l.
          padded blocks (pos n) file (length file)
            (sub_rounds n (length file) below (omega arith) ∙ omega arith) (omega arith),
      padded blocks (negsuc 0) file (512 * ((length file + 511) / 512))
          (sub_rounds (512 * blocks (length file)) (length file) (omega (arith, r.1)) (omega arith)
            ∙ omega (arith, r.0, r.1))
          (omega arith),
    )
