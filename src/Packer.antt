-- ===== src/Packer.antt =====
-- romdisk/packer.c: the program that writes a ROMDISK image. The command line is the list of its
-- input files, and the image is the list of bytes written.
use mono.Prelude.{
  ℕ, zero, suc, ◌+◌, ◌-◌, ◌*◌, ◌/◌, ◌%◌, ◌^◌, Bool, true, false, ◌&&◌, Option, none, some, List, [],
  ◌∷◌, ◌++◌, leb, ◌==◌, if◌then◌else◌, length,
}
pub mod Basename
pub mod Image
pub mod Roundtrip
pub mod Load
mod Tests

-- How a run ends: with a value, with `return -1`, by following a null pointer, or not within the
-- fuel.
pub data Run {ℓ} (A : Type ℓ) : Type ℓ where
  ok : A → Run A
  refused crashed unfinished : Run A

infixl 5 ◌>>=◌
abbrev pub ◌>>=◌ {ℓ κ} : {A : Type ℓ} {B : Type κ} → Run A → (A → Run B) → Run B
ok a >>= f = f a
refused >>= f = refused
crashed >>= f = crashed
unfinished >>= f = unfinished

-- The C library's `strchr`, for a character other than zero: the rest of the string from the
-- character on.
unfoldable pub strchr : List ℕ → ℕ → Option (List ℕ)
strchr [] c = none
strchr (d ∷ s) c = if d == c then some (d ∷ s) else strchr s c

-- The loop of `basename`: `second` is searched again from where the last search ended.
abbrev pub search_on : List ℕ → Option (List ℕ) → (List ℕ → Run (List ℕ)) → Run (List ℕ)
search_on first none again = ok first
search_on first (some second) again = again second

unfoldable pub basename_from : ℕ → List ℕ → ℕ → Run (List ℕ)
basename_from zero second c = unfinished
basename_from (suc f) second c = search_on second (strchr second c) (λ s. basename_from f s c)

-- `strchr(filename, c) + 1`, which is no pointer if the character does not occur.
abbrev pub basename_start : ℕ → Option (List ℕ) → ℕ → Run (List ℕ)
basename_start fuel none c = crashed
basename_start fuel (some []) c = crashed
basename_start fuel (some (d ∷ s)) c = basename_from fuel s c

unfoldable pub basename : ℕ → List ℕ → ℕ → Run (List ℕ)
basename fuel filename c = basename_start fuel (strchr filename c) c

-- Nothing but 'A' to 'Z'.
unfoldable pub basename_sanity : List ℕ → Bool
basename_sanity [] = true
basename_sanity (c ∷ s) = if leb b'A' c && leb c b'Z' then basename_sanity s else false

-- The C library's `strncpy`: cut at `n`, filled up with zeros.
unfoldable pub strncpy : ℕ → List ℕ → List ℕ
strncpy zero s = []
strncpy (suc n) [] = 0 ∷ strncpy n []
strncpy (suc n) (c ∷ s) = c ∷ strncpy n s

unfoldable pub bytes16 : ℕ → List ℕ
bytes16 v = v % 256 ∷ v / 256 % 256 ∷ []

unfoldable pub bytes32 : ℕ → List ℕ
bytes32 v = v % 256 ∷ v / 256 % 256 ∷ v / 65536 % 256 ∷ v / 16777216 % 256 ∷ []

-- A file named on the command line: `stat` is its size, if `stat` succeeds, and `content` is what
-- the copying loop reads.
pub record HostFile : Type 0 where
  pub path : List ℕ
  pub stat : Option ℕ
  pub content : List ℕ

abbrev pub magic : List ℕ
magic = b'R' ∷ b'O' ∷ b'M' ∷ b'D' ∷ b'I' ∷ b'S' ∷ b'K' ∷ []

unfoldable pub entry_bytes : List ℕ → ℕ → ℕ → List ℕ
entry_bytes name offset size = strncpy 64 name ++ (bytes32 offset ++ bytes32 size)

-- `if (stat(argv[i], &s) < 0) return -1;`
abbrev pub sized : Option ℕ → Run ℕ
sized none = refused
sized (some n) = ok n

-- `if (!basename_sanity(file_basename)) return -1;`
abbrev pub sane : List ℕ → Run (List ℕ)
sane name = if basename_sanity name then ok name else refused

-- The loop that writes the entries; `offset` is a `uint32_t`.
unfoldable pub entries_from : ℕ → ℕ → List HostFile → Run (List ℕ)
entries_from fuel offset [] = ok []
entries_from fuel offset (f ∷ fs) = do
  size ← sized f.stat
  base ← basename fuel f.path b'/'
  name ← sane base
  rest ← entries_from fuel ((offset + size) % 2 ^ 32) fs
  ok (entry_bytes name offset (size % 2 ^ 32) ++ rest)

-- The loop that copies the contents.
unfoldable pub contents : List HostFile → List ℕ
contents [] = []
contents (f ∷ fs) = f.content ++ contents fs

-- `main` for an output file and input files, but not `--read`.
unfoldable pub pack : ℕ → List HostFile → Run (List ℕ)
pack fuel [] = refused
pack fuel (f ∷ fs) = do
  let count = length (f ∷ fs) % 2 ^ 16
  table ← entries_from fuel ((9 + 72 * count) % 2 ^ 32) (f ∷ fs)
  ok (magic ++ (bytes16 count ++ (table ++ contents (f ∷ fs))))
