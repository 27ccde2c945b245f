-- ===== src/Romdisk.antt =====
-- src/romdisk.c: the reader of ROMDISK images in memory. The header is a magic of 7 bytes and a
-- 16-bit count; an entry is a name of 64 bytes and two 32-bit numbers.
use mono.Prelude.{
  ℕ, zero, suc, ◌+◌, ◌*◌, ◌≡◌, Bool, true, false, Option, none, some, ◌%◌, ◌^◌, ltb, if◌then◌else◌,
}
use mono.Prelude.Int.{ℤ, pos, negsuc}
use mono.Memory.{Memory, read16, read32}
use mono.Str.{memcmp, strcmp}
pub mod Table
pub mod Find
mod Tests

abbrev pub header_size : ℕ
header_size = 9

abbrev pub entry_size : ℕ
entry_size = 72

pub record RomdiskFile : Type 0 where
  pub file : ℕ
  pub length : ℕ
  pub noent : ℕ

-- `((struct romdisk_header*)romdisk)->entries`
abbrev pub entries : ℕ → Memory → ℕ
entries romdisk m = read16 m (romdisk + 7)

abbrev pub entry_at : ℕ → ℕ → ℕ
entry_at romdisk i = romdisk + header_size + entry_size * i

abbrev pub int_is_zero : ℤ → Bool
int_is_zero (pos zero) = true
int_is_zero (pos (suc n)) = false
int_is_zero (negsuc n) = false

-- `literal` is the address of the string `ROMDISK_MAGIC`.
unfoldable pub valid_romdisk : ℕ → ℕ → Memory → ℕ
valid_romdisk romdisk literal m = if int_is_zero (memcmp romdisk literal 7 m) then 0 else 1

abbrev pub after_callback {ℓ} : {S : Type ℓ} → Option S → (S → Option S) → Option S
after_callback none rest = none
after_callback (some s) rest = rest s

-- The loop of `list_romdisk` from index `i` on, on fuel. The callback works on a state with a memory, in
-- which the count is read at every test; `none` is the callback's fault.
unfoldable pub list_from {ℓ} :
    {S : Type ℓ} → ℕ → ℕ → ℕ → (S → Memory) → (ℕ → S → Option S) → S → Option S
list_from zero i romdisk memory callback s = none
list_from (suc n) i romdisk memory callback s =
    let rest =
      after_callback (callback (entry_at romdisk i) s)
        (list_from n ((i + 1) % 2 ^ 16) romdisk memory callback) in
    if ltb i (entries romdisk (memory s)) then rest else some s

-- The index is below a count of 16 bits at every round, so that there are at most 65535.
unfoldable pub list_romdisk {ℓ} :
    {S : Type ℓ} → ℕ → (S → Memory) → (ℕ → S → Option S) → S → Option S
list_romdisk romdisk memory callback s = list_from 65536 0 romdisk memory callback s

-- `(struct romdisk_file){romdisk + entry->offset, entry->length, 0x00}`
abbrev pub file_of : ℕ → ℕ → Memory → RomdiskFile
file_of romdisk entry m = record {
  file = romdisk + read32 m (entry + 64);
  length = read32 m (entry + 68);
  noent = 0;
}

abbrev pub no_file : RomdiskFile
no_file = record { file = 0; length = 0; noent = 1 }

-- `if (!strcmp(entry->filename, filename)) return file;`
abbrev pub if_same : Option ℤ → RomdiskFile → Option RomdiskFile → Option RomdiskFile
if_same none file rest = none
if_same (some r) file rest = if int_is_zero r then some file else rest

-- The loop over the entries: `n` rounds are left, and the index is `i`. `none` means that a
-- comparison of names has not ended within the fuel.
unfoldable pub find_from : ℕ → ℕ → ℕ → ℕ → ℕ → Memory → Option RomdiskFile
find_from fuel zero i romdisk filename m = some no_file
find_from fuel (suc n) i romdisk filename m =
    let rest = find_from fuel n (i + 1) romdisk filename m in
    if_same (strcmp fuel (entry_at romdisk i) filename m) (file_of romdisk (entry_at romdisk i) m)
      rest

unfoldable pub get_romdisk_file : ℕ → ℕ → ℕ → Memory → Option RomdiskFile
get_romdisk_file fuel romdisk filename m = find_from fuel (entries romdisk m) 0 romdisk filename m
