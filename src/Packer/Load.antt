-- ===== src/Packer/Load.antt =====
-- The packer and the kernel's reader together.
use mono.Prelude.{
  subst, ℕ, ◌+◌, ◌*◌, ◌%◌, ◌^◌, ◌≤◌, ◌<◌, ◌≡◌, sym, ◌∙◌, some, List, [], ◌∷◌, ◌++◌, arith, length,
}
use mono.Memory.{Memory, IsBytes, HasString, HasBytes}
use mono.Packer.{ok, HostFile, magic, bytes16, contents, pack}
use mono.Packer.Image.{HasBytes-at, HasBytes-append, bytes16-read16}
use mono.Packer.Roundtrip.{
  AllPackable, table_of, table_bytes, entries_from-table_of, length-table, HasTable-table_of,
  first_content, Fetches, lookup-Fetches,
}
use mono.Romdisk.{RomdiskFile, entries, get_romdisk_file}
use mono.Romdisk.Table.{lookup}
use mono.Romdisk.Find.{get_romdisk_file-lookup}

abbrev pub first_offset : List HostFile → ℕ
first_offset fs = 9 + 72 * length fs

abbrev pub image : List HostFile → List (List ℕ) → List ℕ
image fs ns =
    magic
    ++ (bytes16 (length fs) ++ (table_bytes (table_of (first_offset fs) fs ns) ++ contents fs))

-- The image has at least one file, at most 65535, and fits in 32 bits.
pub record Fits (fs : List HostFile) : Type 0 where
  pub some_file : 0 < length fs
  pub few_files : length fs < 2 ^ 16
  pub small : first_offset fs + length (contents fs) < 2 ^ 32

-- For at least one and at most 65535 files that the packer takes, whose image fits in 32 bits, `pack`
-- ends and writes the magic, the number of files, one entry for each file, with the offset that
-- its content has in the image, and then the contents.
pub pack-image :
    (fuel : ℕ) (fs : List HostFile) (ns : List (List ℕ))
    → AllPackable fuel fs ns
    → Fits fs
    → pack fuel fs ≡ ok (image fs ns)
unfolding pack
pack-image fuel [] ns p h = absurd (omega (arith, h.some_file))
pack-image fuel (f ∷ fs) ns p h =
    let count : length (f ∷ fs) % 2 ^ 16 ≡ length (f ∷ fs) = omega (arith, h.few_files) in
    let offset : (9 + 72 * length (f ∷ fs)) % 2 ^ 32 ≡ first_offset (f ∷ fs) =
      omega (arith, h.small) in
    rw (count, offset, entries_from-table_of fuel (first_offset (f ∷ fs)) (f ∷ fs) ns p h.small)

module _ (fuel romdisk : ℕ) (m : Memory) (fs : List HostFile) (ns : List (List ℕ))
    (p : AllPackable fuel fs ns) (h : Fits fs) (loaded : HasBytes m romdisk (image fs ns)) where
  behind_magic :
      HasBytes m
        (romdisk + 7)
        (bytes16 (length fs) ++ (table_bytes (table_of (first_offset fs) fs ns) ++ contents fs))
  behind_magic =
      HasBytes-at m
        (bytes16 (length fs) ++ (table_bytes (table_of (first_offset fs) fs ns) ++ contents fs))
        loaded.1.1.1.1.1.1.1 (omega arith)

  behind_count :
      (entries romdisk m ≡ length fs)
      × HasBytes m (romdisk + 9) (table_bytes (table_of (first_offset fs) fs ns) ++ contents fs)
  behind_count =
      let parts =
        HasBytes-append m (romdisk + 7) (bytes16 (length fs))
          (table_bytes (table_of (first_offset fs) fs ns) ++ contents fs) behind_magic in
      (
        bytes16-read16 m (romdisk + 7) (length fs) h.few_files parts.0,
        HasBytes-at m (table_bytes (table_of (first_offset fs) fs ns) ++ contents fs) parts.1
            two_on,
      )
    where
      two_on : romdisk + 7 + length (bytes16 (length fs)) ≡ romdisk + 9
      two_on = unfold bytes16 in omega arith

  behind_table :
      HasBytes m (romdisk + 9) (table_bytes (table_of (first_offset fs) fs ns))
      × HasBytes m (romdisk + first_offset fs) (contents fs)
  behind_table =
      let parts =
        HasBytes-append m (romdisk + 9) (table_bytes (table_of (first_offset fs) fs ns))
          (contents fs) behind_count.1 in
      (
        parts.0,
        HasBytes-at m (contents fs) parts.1
            (omega (arith, (length-table fuel (first_offset fs) fs ns p).0)),
      )

  get_romdisk_file-image :
      (search_fuel filename : ℕ) (key : List ℕ)
      → IsBytes m
      → HasString m filename key
      → 64 ≤ search_fuel
      → (r : RomdiskFile) × (get_romdisk_file search_fuel romdisk filename m ≡ some r)
        × Fetches m (first_content key fs ns) r
  get_romdisk_file-image search_fuel filename key b hk enough = (
    lookup romdisk key (table_of (first_offset fs) fs ns),
    get_romdisk_file-lookup search_fuel romdisk filename m key b hk enough
        (table_of (first_offset fs) fs ns)
        (behind_count.0 ∙ sym (length-table fuel (first_offset fs) fs ns p).1)
        (HasTable-table_of fuel (first_offset fs) fs ns m (romdisk + 9) p h.small behind_table.0),
    lookup-Fetches fuel (first_offset fs) romdisk key fs ns m p behind_table.1,
  )

-- Let `pack` write an image of at least one and at most 65535 files that it takes, which fits in 32
-- bits, and let its bytes be loaded anywhere in memory. For every name in memory, with fuel for 64
-- characters, `get_romdisk_file` ends and returns the address and the length of the content of the
-- first packed file whose base name it is, with that content standing at that address, or reports
-- that no file has the name.
pub get_romdisk_file-pack :
    (fuel romdisk search_fuel filename : ℕ) (m : Memory) (fs : List HostFile) (ns : List (List ℕ))
    (bytes key : List ℕ)
    → AllPackable fuel fs ns
    → Fits fs
    → pack fuel fs ≡ ok bytes
    → HasBytes m romdisk bytes
    → IsBytes m
    → HasString m filename key
    → 64 ≤ search_fuel
    → (r : RomdiskFile) × (get_romdisk_file search_fuel romdisk filename m ≡ some r)
      × Fetches m (first_content key fs ns) r
get_romdisk_file-pack fuel romdisk search_fuel filename m fs ns bytes key p h packed loaded b hk
      enough =
    let written : bytes ≡ image fs ns = cc (packed, pack-image fuel fs ns p h) in
    get_romdisk_file-image fuel romdisk m fs ns p h (subst (HasBytes m romdisk) written loaded)
      search_fuel filename key b hk enough
