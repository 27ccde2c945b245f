-- ===== src/Str/Compare.antt =====
-- strcmp and strlen on zero-terminated strings.
use mono.Prelude.{
  ℕ, zero, suc, ◌+◌, ◌%◌, ◌^◌, ◌<◌, ◌≡◌, ◌≢◌, refl, subst, ◌↔◌, some, List, [], ◌∷◌, arith, length,
  ◌==◌, if◌then◌else◌,
}
use mono.Prelude.Int.{ℤ, pos}
use mono.Memory.{Memory, IsBytes, HasString, HasString-at}
use mono.Str.{char_diff, strcmp_from, strcmp, strlen_from, strlen}

-- The comparison of two strings as lists: the difference at the first place where they differ.
unfoldable pub compare_strings : List ℕ → List ℕ → ℤ
compare_strings [] [] = pos 0
compare_strings [] (d ∷ t) = char_diff 0 d
compare_strings (c ∷ s) [] = char_diff c 0
compare_strings (c ∷ s) (d ∷ t) = if c == d then compare_strings s t else char_diff c d

strcmp_from_lem :
    (f i p q : ℕ) (m : Memory) (s t : List ℕ)
    → HasString m (p + i) s
    → HasString m (q + i) t
    → length s < f
    → i + length s < 2 ^ 32
    → strcmp_from f i p q m ≡ some (compare_strings s t)
unfolding strcmp_from compare_strings
strcmp_from_lem zero i p q m s t hs ht hf hl = absurd (omega arith)
strcmp_from_lem (suc f) i p q m [] [] hs ht hf hl = ground arith
strcmp_from_lem (suc f) i p q m [] (d ∷ t) hs ht hf hl = ground arith
strcmp_from_lem (suc f) i p q m (c ∷ s) [] hs ht hf hl = ground arith
strcmp_from_lem (suc f) i p q m (c ∷ s) (d ∷ t) hs ht hf hl =
    let e : (i + 1) % 2 ^ 32 ≡ i + 1 = omega arith in
    let hs' : HasString m (p + (i + 1)) s = HasString-at m s hs.2 (omega arith) in
    let ht' : HasString m (q + (i + 1)) t = HasString-at m t ht.2 (omega arith) in
    let rest = strcmp_from_lem f (i + 1) p q m s t hs' ht' (omega arith) (omega arith) in
    rw e (ground arith)

-- `strcmp` ends on two strings, and returns the difference at the first place where they differ.
pub strcmp_lem :
    (fuel p q : ℕ) (m : Memory) (s t : List ℕ)
    → HasString m p s
    → HasString m q t
    → length s < fuel
    → length s < 2 ^ 32
    → strcmp fuel p q m ≡ some (compare_strings s t)
unfolding strcmp
strcmp_lem fuel p q m s t hs ht hf hl =
    strcmp_from_lem fuel 0 p q m s t (HasString-at m s hs (omega arith))
      (HasString-at m t ht (omega arith)) hf (omega arith)

-- The characters of a string: bytes other than zero.
abbrev pub IsText : List ℕ → Type 0
IsText [] = Unit {0}
IsText (c ∷ s) = (c ≢ 0) × (c < 256) × IsText s

pub HasString-IsText : (m : Memory) (p : ℕ) (s : List ℕ) → IsBytes m → HasString m p s → IsText s
HasString-IsText m p [] b h = tt
HasString-IsText m p (c ∷ s) b h =
    let bound = b p in (h.1, ground arith, HasString-IsText m (p + 1) s b h.2)

char_diff-zero : (a b : ℕ) → a < 256 → b < 256 → char_diff a b ≡ pos 0 → a ≡ b
unfolding char_diff
char_diff-zero a b ha hb e = ground arith

char_diff_self : (a : ℕ) → char_diff a a ≡ pos 0
unfolding char_diff
char_diff_self a = ground arith

pub compare_strings-eq : (s t : List ℕ) → IsText s → IsText t → compare_strings s t ≡ pos 0 → s ≡ t
unfolding compare_strings
compare_strings-eq [] [] hs ht e = refl
compare_strings-eq [] (d ∷ t) hs ht e = ground (arith, char_diff-zero 0 d)
compare_strings-eq (c ∷ s) [] hs ht e = ground (arith, char_diff-zero c 0)
compare_strings-eq (c ∷ s) (d ∷ t) hs ht e =
    ground (arith, char_diff-zero c d, compare_strings-eq s t hs.2 ht.2)

pub compare_strings_self : (s : List ℕ) → compare_strings s s ≡ pos 0
unfolding compare_strings
compare_strings_self [] = refl
compare_strings_self (c ∷ s) = ground (arith, compare_strings_self s)

-- On two strings of bytes that fit in memory, `strcmp` ends, and it returns 0 exactly when they
-- are the same string.
pub strcmp_zero_iff :
    (fuel p q : ℕ) (m : Memory) (s t : List ℕ)
    → IsBytes m
    → HasString m p s
    → HasString m q t
    → length s < fuel
    → length s < 2 ^ 32
    → (r : ℤ) × (strcmp fuel p q m ≡ some r) × ((r ≡ pos 0) ↔ (s ≡ t))
strcmp_zero_iff fuel p q m s t b hs ht hf hl = (
  compare_strings s t,
  strcmp_lem fuel p q m s t hs ht hf hl,
  (
    compare_strings-eq s t (HasString-IsText m p s b hs) (HasString-IsText m q t b ht),
    λ e. subst (λ u. compare_strings s u ≡ pos 0) e (compare_strings_self s),
  ),
)

strlen_from_lem :
    (f i p : ℕ) (m : Memory) (s : List ℕ)
    → HasString m (p + (i + 1)) s
    → length s < f
    → i + 1 + length s < 2 ^ 32
    → strlen_from f i p m ≡ some (i + 1 + length s)
unfolding strlen_from
strlen_from_lem zero i p m s hs hf hl = absurd (omega arith)
strlen_from_lem (suc f) i p m [] hs hf hl =
    let e : (i + 1) % 2 ^ 32 ≡ i + 1 = omega arith in rw e (ground arith)
strlen_from_lem (suc f) i p m (c ∷ s) hs hf hl =
    let e : (i + 1) % 2 ^ 32 ≡ i + 1 = omega arith in
    let hs' : HasString m (p + (i + 1 + 1)) s = HasString-at m s hs.2 (omega arith) in
    let rest = strlen_from_lem f (i + 1) p m s hs' (omega arith) (omega arith) in
    rw e (ground arith)

-- `strlen` never reads the first character: it returns one more than the length of the string that
-- starts at the second, whatever the first one is.
pub strlen_lem :
    (fuel p : ℕ) (m : Memory) (s : List ℕ)
    → HasString m (p + 1) s
    → length s < fuel
    → 1 + length s < 2 ^ 32
    → strlen fuel p m ≡ some (1 + length s)
unfolding strlen
strlen_lem fuel p m s hs hf hl =
    strlen_from_lem fuel 0 p m s (HasString-at m s hs (omega arith)) hf (omega arith)

-- So it is right on a string with at least one character.
pub strlen_nonempty :
    (fuel p c : ℕ) (m : Memory) (s : List ℕ)
    → HasString m p (c ∷ s)
    → length s < fuel
    → 1 + length s < 2 ^ 32
    → strlen fuel p m ≡ some (length (c ∷ s))
strlen_nonempty fuel p c m s hs hf hl = ground (arith, strlen_lem fuel p m s hs.2 hf hl)
