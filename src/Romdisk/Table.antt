-- ===== src/Romdisk/Table.antt =====
-- The table of a ROMDISK image as a list, and lookup in it.
use mono.Prelude.{
  ℕ, ◌+◌, ◌<◌, ◌≡◌, refl, Bool, true, false, ◌&&◌, List, [], ◌∷◌, arith, ◌==◌, if◌then◌else◌,
  length,
}
use mono.Memory.{Memory, HasString, read32}
use mono.Romdisk.{entry_size, RomdiskFile, no_file}

pub record Entry : Type 0 where
  pub filename : List ℕ
  pub offset : ℕ
  pub size : ℕ

-- The entries stand one behind the other from `p` on, each with a terminated name.
abbrev pub HasTable : Memory → ℕ → List Entry → Type 0
HasTable m p [] = Unit {0}
HasTable m p (e ∷ es) =
    HasString m p e.filename
    × (length e.filename < 64)
    × (read32 m (p + 64) ≡ e.offset)
    × (read32 m (p + 68) ≡ e.size)
    × HasTable m (p + entry_size) es

unfoldable pub same_name : List ℕ → List ℕ → Bool
same_name [] [] = true
same_name [] (d ∷ t) = false
same_name (c ∷ s) [] = false
same_name (c ∷ s) (d ∷ t) = c == d && same_name s t

-- The first entry with the name, as the file that it describes.
unfoldable pub lookup : ℕ → List ℕ → List Entry → RomdiskFile
lookup romdisk key [] = no_file
lookup romdisk key (e ∷ es) =
    if same_name e.filename key
    then record { file = romdisk + e.offset; length = e.size; noent = 0 }
    else lookup romdisk key es

pub same_name-eq : (s t : List ℕ) → same_name s t ≡ true → s ≡ t
unfolding same_name
same_name-eq [] [] h = refl
same_name-eq [] (d ∷ t) h = cc
same_name-eq (c ∷ s) [] h = cc
same_name-eq (c ∷ s) (d ∷ t) h = ground (arith, same_name-eq s t)

pub same_name_self : (s : List ℕ) → same_name s s ≡ true
unfolding same_name
same_name_self [] = refl
same_name_self (c ∷ s) = ground (arith, same_name_self s)
