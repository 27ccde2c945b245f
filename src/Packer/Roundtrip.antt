-- ===== src/Packer/Roundtrip.antt =====
-- A packed image, loaded into memory, gives back every file to the kernel's reader.
use mono.Prelude.{
  ℕ, suc, ◌+◌, ◌*◌, ◌%◌, ◌^◌, ◌<◌, ◌≡◌, refl, ap, ◌∙◌, true, Option, none, some, List, [], ◌∷◌,
  ◌++◌, arith, if◌then◌else◌, length, length-append, Bool-cases, inl, inr,
}
use mono.Memory.{Memory, HasBytes}
use mono.Packer.{ok, HostFile, entry_bytes, basename, basename_sanity, entries_from, contents}
use mono.Packer.Image.{HasBytes-at, HasBytes-append, length-entry_bytes, entry_bytes-read}
use mono.Romdisk.{RomdiskFile}
use mono.Romdisk.Table.{Entry, HasTable, lookup, same_name}

-- A file that the packer takes: `stat` gives the length of its content, and its base name is short
-- and sane.
pub record Packable (fuel : ℕ) (f : HostFile) (name : List ℕ) : Type 0 where
  pub stat_is : f.stat ≡ some (length f.content)
  pub base_is : basename fuel f.path b'/' ≡ ok name
  pub is_sane : basename_sanity name ≡ true
  pub is_short : length name < 64

abbrev pub AllPackable : ℕ → List HostFile → List (List ℕ) → Type 0
AllPackable fuel [] [] = Unit {0}
AllPackable fuel [] (n ∷ ns) = ⊥
AllPackable fuel (f ∷ fs) [] = ⊥
AllPackable fuel (f ∷ fs) (n ∷ ns) = Packable fuel f n × AllPackable fuel fs ns

-- The table that the image should have: each content behind the ones before it.
unfoldable pub table_of : ℕ → List HostFile → List (List ℕ) → List Entry
table_of offset [] ns = []
table_of offset (f ∷ fs) [] = []
table_of offset (f ∷ fs) (n ∷ ns) =
    record { filename = n; offset = offset; size = length f.content }
    ∷ table_of (offset + length f.content) fs ns

unfoldable pub table_bytes : List Entry → List ℕ
table_bytes [] = []
table_bytes (e ∷ es) = entry_bytes e.filename e.offset e.size ++ table_bytes es

length-contents :
    (f : HostFile) (fs : List HostFile)
    → length (contents (f ∷ fs)) ≡ length f.content + length (contents fs)
unfolding contents
length-contents f fs = length-append f.content (contents fs)

-- The packer writes that table, while the image stays below 2 ^ 32 bytes.
pub entries_from-table_of :
    (fuel offset : ℕ) (fs : List HostFile) (ns : List (List ℕ))
    → AllPackable fuel fs ns
    → offset + length (contents fs) < 2 ^ 32
    → entries_from fuel offset fs ≡ ok (table_bytes (table_of offset fs ns))
unfolding entries_from table_of table_bytes
entries_from-table_of fuel offset [] [] p h = refl
entries_from-table_of fuel offset [] (n ∷ ns) p h = absurd p
entries_from-table_of fuel offset (f ∷ fs) [] p h = absurd p
entries_from-table_of fuel offset (f ∷ fs) (n ∷ ns) p h =
    let total = length-contents f fs in
    let next : (offset + length f.content) % 2 ^ 32 ≡ offset + length f.content = omega arith in
    let size : length f.content % 2 ^ 32 ≡ length f.content = omega arith in
    let rest = entries_from-table_of fuel (offset + length f.content) fs ns p.1 (omega arith) in
    rw (p.0.stat_is, p.0.base_is, p.0.is_sane, next, size, rest)

length-table_bytes-cons :
    (e : Entry) (es : List Entry) → length (table_bytes (e ∷ es)) ≡ 72 + length (table_bytes es)
unfolding table_bytes
length-table_bytes-cons e es =
    length-append (entry_bytes e.filename e.offset e.size) (table_bytes es)
    ∙ ap (λ k. k + length (table_bytes es)) (length-entry_bytes e.filename e.offset e.size)

pub length-table :
    (fuel offset : ℕ) (fs : List HostFile) (ns : List (List ℕ))
    → AllPackable fuel fs ns
    → (length (table_bytes (table_of offset fs ns)) ≡ 72 * length fs)
      × (length (table_of offset fs ns) ≡ length fs)
unfolding table_of table_bytes
length-table fuel offset [] [] p = (refl, refl)
length-table fuel offset [] (n ∷ ns) p = absurd p
length-table fuel offset (f ∷ fs) [] p = absurd p
length-table fuel offset (f ∷ fs) (n ∷ ns) p =
    let rest = length-table fuel (offset + length f.content) fs ns p.1 in
    let e : Entry = record { filename = n; offset = offset; size = length f.content } in
    (
      omega (arith, length-table_bytes-cons e (table_of (offset + length f.content) fs ns), rest.0),
      ap suc rest.1,
    )

-- Read back, the table's bytes are the table.
pub HasTable-table_of :
    (fuel offset : ℕ) (fs : List HostFile) (ns : List (List ℕ)) (m : Memory) (p : ℕ)
    → AllPackable fuel fs ns
    → offset + length (contents fs) < 2 ^ 32
    → HasBytes m p (table_bytes (table_of offset fs ns))
    → HasTable m p (table_of offset fs ns)
unfolding table_of table_bytes
HasTable-table_of fuel offset [] [] m p a h b = tt
HasTable-table_of fuel offset [] (n ∷ ns) m p a h b = absurd a
HasTable-table_of fuel offset (f ∷ fs) [] m p a h b = absurd a
HasTable-table_of fuel offset (f ∷ fs) (n ∷ ns) m p a h b =
    let total = length-contents f fs in
    let later = table_of (offset + length f.content) fs ns in
    let parts =
      HasBytes-append m p (entry_bytes n offset (length f.content)) (table_bytes later) b in
    let e =
      entry_bytes-read m p n offset (length f.content) a.0.is_sane a.0.is_short (omega arith)
        (omega arith) parts.0 in
    let next : p + length (entry_bytes n offset (length f.content)) ≡ p + 72 =
      ap (λ k. p + k) (length-entry_bytes n offset (length f.content)) in
    (
      e.0,
      a.0.is_short,
      e.1,
      e.2,
      HasTable-table_of fuel (offset + length f.content) fs ns m (p + 72) a.1 (omega arith)
          (HasBytes-at m (table_bytes later) parts.1 next),
    )

-- The content of the first file with the name.
unfoldable pub first_content : List ℕ → List HostFile → List (List ℕ) → Option (List ℕ)
first_content key [] ns = none
first_content key (f ∷ fs) [] = none
first_content key (f ∷ fs) (n ∷ ns) =
    if same_name n key then some f.content else first_content key fs ns

-- The reader's answer gives that content, at its place in memory, or reports that there is none.
abbrev pub Fetches : Memory → Option (List ℕ) → RomdiskFile → Type 0
Fetches m none r = r.noent ≡ 1
Fetches m (some c) r = (r.noent ≡ 0) × (r.length ≡ length c) × HasBytes m r.file c

pub lookup-Fetches :
    (fuel offset romdisk : ℕ) (key : List ℕ) (fs : List HostFile) (ns : List (List ℕ)) (m : Memory)
    → AllPackable fuel fs ns
    → HasBytes m (romdisk + offset) (contents fs)
    → Fetches m (first_content key fs ns) (lookup romdisk key (table_of offset fs ns))
unfolding table_of first_content lookup contents
lookup-Fetches fuel offset romdisk key [] [] m a b = refl
lookup-Fetches fuel offset romdisk key [] (n ∷ ns) m a b = absurd a
lookup-Fetches fuel offset romdisk key (f ∷ fs) [] m a b = absurd a
lookup-Fetches fuel offset romdisk key (f ∷ fs) (n ∷ ns) m a b =
    let parts = HasBytes-append m (romdisk + offset) f.content (contents fs) b in
    elim (Bool-cases (same_name n key)) [
      | inl found ↦ rw found (refl, refl, parts.0)
      | inr other ↦ rw other (
          lookup-Fetches fuel (offset + length f.content) romdisk key fs ns m a.1
            (HasBytes-at m (contents fs) parts.1 (omega arith)))
    ]
