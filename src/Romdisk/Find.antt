-- ===== src/Romdisk/Find.antt =====
-- get_romdisk_file finds what the table says.
use mono.Prelude.{
  ℕ, zero, suc, ◌+◌, ◌≤◌, ◌≡◌, refl, sym, subst, ap, ◌∙◌, true, false, some, List, [], ◌∷◌, arith,
  length, Bool-cases, inl, inr,
}
use mono.Prelude.Int.{ℤ, pos, negsuc}
use mono.Memory.{Memory, IsBytes, HasString}
use mono.Str.{strcmp}
use mono.Str.Compare.{
  strcmp_lem, compare_strings, compare_strings-eq, compare_strings_self, HasString-IsText, IsText,
}
use mono.Romdisk.{int_is_zero, entry_at, entries, find_from, get_romdisk_file}
use mono.Romdisk.Table.{Entry, HasTable, same_name, same_name-eq, same_name_self, lookup}

pub int_is_zero-eq : (r : ℤ) → int_is_zero r ≡ true → r ≡ pos 0
int_is_zero-eq (pos zero) h = refl
int_is_zero-eq (pos (suc n)) h = cc
int_is_zero-eq (negsuc n) h = cc

-- The comparison of two texts is zero exactly on the same name.
pub compare_strings-same_name :
    (s t : List ℕ) → IsText s → IsText t → int_is_zero (compare_strings s t) ≡ same_name s t
compare_strings-same_name s t hs ht = elim (Bool-cases (int_is_zero (compare_strings s t))) [
  | inl zero_is ↦
      zero_is
      ∙ sym (
          subst (λ u. same_name s u ≡ true)
            (compare_strings-eq s t hs ht (int_is_zero-eq (compare_strings s t) zero_is))
            (same_name_self s))
  | inr differ ↦ elim (Bool-cases (same_name s t)) [
    | inl same ↦ absurd (
        let e : true ≡ false =
          ap int_is_zero (
            sym (
              subst (λ u. compare_strings s u ≡ pos 0) (same_name-eq s t same)
                (compare_strings_self s)))
          ∙ differ in
        cc)
    | inr other ↦ differ ∙ sym other
  ]
]

module _ (fuel romdisk filename : ℕ) (m : Memory) (key : List ℕ) (b : IsBytes m)
    (hk : HasString m filename key) (enough : 64 ≤ fuel) where
  find_step :
      (i : ℕ) (e : Entry) (es : List Entry)
      → HasTable m (entry_at romdisk i) (e ∷ es)
      → find_from fuel (length es) (i + 1) romdisk filename m ≡ some (lookup romdisk key es)
      → find_from fuel (length (e ∷ es)) i romdisk filename m ≡ some (lookup romdisk key (e ∷ es))
  unfolding find_from lookup
  find_step i e es t rest =
      rw
        (
          compared,
          compare_strings-same_name e.filename key
              (HasString-IsText m (entry_at romdisk i) e.filename b t.0)
              (HasString-IsText m filename key b hk),
        )
        (elim (Bool-cases (same_name e.filename key)) [
          | inl found ↦
              rw found (λ k. some (record { file = romdisk + t.2 k; length = t.3 k; noent = 0 }))
          | inr other ↦ rw other rest
        ])
    where
      compared : strcmp fuel (entry_at romdisk i) filename m ≡ some (compare_strings e.filename key)
      compared =
          strcmp_lem fuel (entry_at romdisk i) filename m e.filename key t.0 hk (omega (arith, t.1))
            (omega (arith, t.1))

  find_from_lem :
      (i : ℕ) (es : List Entry)
      → HasTable m (entry_at romdisk i) es
      → find_from fuel (length es) i romdisk filename m ≡ some (lookup romdisk key es)
  unfolding find_from lookup
  find_from_lem i [] t = refl
  find_from_lem i (e ∷ es) t =
      find_step i e es t (find_from_lem (i + 1) es (subst (λ p. HasTable m p es) (omega arith) t.4))

  -- In an image whose header counts the entries of its table, each with a name of at most 63
  -- characters, `get_romdisk_file` ends, and returns the file of the first entry whose name is the
  -- one asked for, or reports that there is none.
  pub get_romdisk_file-lookup :
      (es : List Entry)
      → entries romdisk m ≡ length es
      → HasTable m (romdisk + 9) es
      → get_romdisk_file fuel romdisk filename m ≡ some (lookup romdisk key es)
  unfolding get_romdisk_file
  get_romdisk_file-lookup es count t =
      rw count (find_from_lem 0 es (subst (λ p. HasTable m p es) (omega arith) t))
