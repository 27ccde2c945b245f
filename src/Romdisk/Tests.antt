-- ===== src/Romdisk/Tests.antt =====
-- The reader on an image with one entry.
use mono.Prelude.{◌≡◌, refl, some, List, [], ◌∷◌, arith}
use mono.Memory.{Memory, write, IsBytes, read16, read32}
use mono.Romdisk.{entries, get_romdisk_file}
use mono.Romdisk.Table.{Entry, HasTable, lookup}
use mono.Romdisk.Find.{get_romdisk_file-lookup}

-- One entry "A" with offset 100 and length 5, in an image at 0; "A" also stands at 200.
abbrev small_image : Memory
small_image = write (write (write (write (write (λ _. 0) 7 1) 9 65) 73 100) 77 5) 200 65

small_image-IsBytes : IsBytes small_image
small_image-IsBytes a = ground arith

abbrev one_entry : List Entry
one_entry = record { filename = 65 ∷ []; offset = 100; size = 5 } ∷ []

one_entry-HasTable : HasTable small_image 9 one_entry
unfolding read32
one_entry-HasTable = ((refl, omega arith, refl), omega arith, refl, refl, tt)

get_romdisk_file-lookup_example :
    get_romdisk_file 64 0 200 small_image ≡ some (lookup 0 (65 ∷ []) one_entry)
get_romdisk_file-lookup_example =
    get_romdisk_file-lookup 64 0 200 small_image (65 ∷ []) small_image-IsBytes
      (refl, omega arith, refl) (omega arith) one_entry one_entry_counted one_entry-HasTable
  where
    one_entry_counted : entries 0 small_image ≡ 1
    one_entry_counted = unfold read16 in refl
