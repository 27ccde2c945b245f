-- ===== src/Packer/Tests.antt =====
-- A run of the packer on two files, and the reader on the image that it writes.
use mono.Prelude.{
  ℕ, zero, suc, ◌+◌, ◌<◌, ◌≡◌, refl, Bool, true, ◌&&◌, some, List, [], ◌∷◌, arith, ◌==◌, ltb,
  get_or, Bool-cases, inl, inr,
}
use mono.Memory.{Memory, write, IsBytes, HasString, HasBytes}
use mono.Packer.{
  ok, HostFile, basename_sanity, strncpy, bytes16, bytes32, entry_bytes, pack, contents,
}
use mono.Packer.Basename.{basename_one}
use mono.Packer.Roundtrip.{table_of, table_bytes, AllPackable, first_content, Fetches}
use mono.Packer.Load.{image, Fits, pack-image, get_romdisk_file-pack}
use mono.Romdisk.{RomdiskFile, get_romdisk_file}

-- "d/A" and "d/B".
abbrev files : List HostFile
files =
    record { path = 100 ∷ 47 ∷ 65 ∷ []; stat = some 3; content = 1 ∷ 2 ∷ 3 ∷ [] }
    ∷ record { path = 100 ∷ 47 ∷ 66 ∷ []; stat = some 1; content = 9 ∷ [] }
    ∷ []

abbrev names : List (List ℕ)
names = (65 ∷ []) ∷ (66 ∷ []) ∷ []

files-AllPackable : AllPackable 1 files names
unfolding basename_sanity
files-AllPackable = (
  record {
    stat_is = refl;
    base_is = basename_one 0 47 (100 ∷ []) (65 ∷ []) (omega arith, tt) (omega arith, tt);
    is_sane = refl;
    is_short = omega arith;
  },
  (
    record {
      stat_is = refl;
      base_is = basename_one 0 47 (100 ∷ []) (66 ∷ []) (omega arith, tt) (omega arith, tt);
      is_sane = refl;
      is_short = omega arith;
    },
    tt,
  ),
)

files-Fits : Fits files
unfolding contents
files-Fits = record { some_file = omega arith; few_files = omega arith; small = omega arith }

files_packed : pack 1 files ≡ ok (image files names)
files_packed = pack-image 1 files names files-AllPackable files-Fits

has_bytes : Memory → ℕ → List ℕ → Bool
has_bytes m p [] = true
has_bytes m p (c ∷ s) = m p == c && has_bytes m (p + 1) s

has_bytes-HasBytes : (m : Memory) (p : ℕ) (s : List ℕ) → has_bytes m p s ≡ true → HasBytes m p s
unfolding has_bytes
has_bytes-HasBytes m p [] h = tt
has_bytes-HasBytes m p (c ∷ s) h = (ground arith, has_bytes-HasBytes m (p + 1) s (ground arith))

bytes_only : List ℕ → Bool
bytes_only [] = true
bytes_only (c ∷ s) = ltb c 256 && bytes_only s

get_or_byte : (s : List ℕ) (a : ℕ) → bytes_only s ≡ true → get_or s a 0 < 256
unfolding bytes_only
get_or_byte [] a h = omega arith
get_or_byte (c ∷ s) zero h = ground arith
get_or_byte (c ∷ s) (suc a) h = get_or_byte s a (ground arith)

write-IsBytes : (m : Memory) (p v : ℕ) → IsBytes m → v < 256 → IsBytes (write m p v)
write-IsBytes m p v b h a = elim (Bool-cases (p == a)) [
  | inl here ↦ rw here h
  | inr away ↦ rw away (b a)
]

-- The image at address 0, and the name "B" at 200.
abbrev loaded : Memory
loaded = write (λ a. get_or (image files names) a 0) 200 66

loaded-HasBytes : HasBytes loaded 0 (image files names)
unfolding contents table_of table_bytes entry_bytes strncpy bytes16 bytes32 has_bytes
loaded-HasBytes = has_bytes-HasBytes loaded 0 (image files names) refl

loaded-IsBytes : IsBytes loaded
unfolding contents table_of table_bytes entry_bytes strncpy bytes16 bytes32 bytes_only
loaded-IsBytes =
    write-IsBytes (λ a. get_or (image files names) a 0) 200 66
      (λ a. get_or_byte (image files names) a refl) (omega arith)

b_at_200 : HasString loaded 200 (66 ∷ [])
unfolding contents table_of table_bytes entry_bytes strncpy bytes16 bytes32
b_at_200 = (refl, omega arith, refl)

get_romdisk_file-pack_example :
    (r : RomdiskFile) × (get_romdisk_file 64 0 200 loaded ≡ some r)
    × Fetches loaded (first_content (66 ∷ []) files names) r
get_romdisk_file-pack_example =
    get_romdisk_file-pack 1 0 64 200 loaded files names (image files names) (66 ∷ [])
      files-AllPackable files-Fits files_packed loaded-HasBytes loaded-IsBytes b_at_200
      (omega arith)
