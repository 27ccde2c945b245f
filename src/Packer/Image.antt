-- ===== src/Packer/Image.antt =====
-- Reading the bytes of an image back: names, numbers and blocks one behind the other.
use mono.Prelude.{
  ℕ, zero, suc, ◌+◌, ◌/◌, ◌%◌, ◌^◌, ◌<◌, ◌≡◌, refl, subst, ap, ◌∙◌, true, List, [], ◌∷◌, ◌++◌,
  arith, length, length-append,
}
use mono.Memory.{Memory, HasString, HasBytes, read16, read32}
use mono.Packer.{strncpy, bytes16, bytes32, entry_bytes, basename_sanity}

pub HasBytes-at : (m : Memory) {p q : ℕ} (s : List ℕ) → HasBytes m p s → p ≡ q → HasBytes m q s
HasBytes-at m s h e = subst (λ k. HasBytes m k s) e h

pub HasBytes-append :
    (m : Memory) (p : ℕ) (xs ys : List ℕ)
    → HasBytes m p (xs ++ ys)
    → HasBytes m p xs × HasBytes m (p + length xs) ys
HasBytes-append m p [] ys h = (tt, HasBytes-at m ys h (omega arith))
HasBytes-append m p (x ∷ xs) ys h =
    let rest = HasBytes-append m (p + 1) xs ys h.1 in
    ((h.0, rest.0), HasBytes-at m ys rest.1 (omega arith))

pub length-strncpy : (n : ℕ) (s : List ℕ) → length (strncpy n s) ≡ n
unfolding strncpy
length-strncpy zero s = refl
length-strncpy (suc n) [] = ap suc (length-strncpy n [])
length-strncpy (suc n) (c ∷ s) = ap suc (length-strncpy n s)

-- A sane name that is shorter than the field is a terminated string in it.
pub strncpy-HasString :
    (n : ℕ) (m : Memory) (p : ℕ) (s : List ℕ)
    → basename_sanity s ≡ true
    → length s < n
    → HasBytes m p (strncpy n s)
    → HasString m p s
unfolding strncpy basename_sanity
strncpy-HasString zero m p s ok h b = absurd (omega arith)
strncpy-HasString (suc n) m p [] ok h b = b.0
strncpy-HasString (suc n) m p (c ∷ s) ok h b =
    (b.0, ground arith, strncpy-HasString n m (p + 1) s (ground arith) (omega arith) b.1)

pub bytes16-read16 : (m : Memory) (p v : ℕ) → v < 2 ^ 16 → HasBytes m p (bytes16 v) → read16 m p ≡ v
unfolding bytes16 read16
bytes16-read16 m p v h b = omega arith

pub bytes32-read32 : (m : Memory) (p v : ℕ) → v < 2 ^ 32 → HasBytes m p (bytes32 v) → read32 m p ≡ v
unfolding bytes32 read32
bytes32-read32 m p v h b =
    let third : m (p + 2) ≡ v / 65536 % 256 = ap m (omega arith) ∙ b.1.1.0 in
    let fourth : m (p + 3) ≡ v / 16777216 % 256 = ap m (omega arith) ∙ b.1.1.1.0 in omega arith

pub length-entry_bytes : (name : List ℕ) (o n : ℕ) → length (entry_bytes name o n) ≡ 72
unfolding entry_bytes bytes32
length-entry_bytes name o n =
    omega (arith, length-append (strncpy 64 name) (bytes32 o ++ bytes32 n), length-strncpy 64 name)

-- What an entry's bytes say when they are read back.
pub entry_bytes-read :
    (m : Memory) (p : ℕ) (name : List ℕ) (o n : ℕ)
    → basename_sanity name ≡ true
    → length name < 64
    → o < 2 ^ 32
    → n < 2 ^ 32
    → HasBytes m p (entry_bytes name o n)
    → HasString m p name × (read32 m (p + 64) ≡ o) × (read32 m (p + 68) ≡ n)
unfolding entry_bytes
entry_bytes-read m p name o n sane short ho hn b =
    let parts = HasBytes-append m p (strncpy 64 name) (bytes32 o ++ bytes32 n) b in
    let at_64 : p + length (strncpy 64 name) ≡ p + 64 = ap (λ k. p + k) (length-strncpy 64 name) in
    let numbers =
      HasBytes-append m (p + 64) (bytes32 o) (bytes32 n)
        (HasBytes-at m (bytes32 o ++ bytes32 n) parts.1 at_64) in
    (
      strncpy-HasString 64 m p name sane short parts.0,
      bytes32-read32 m (p + 64) o ho numbers.0,
      bytes32-read32 m (p + 68) n hn (HasBytes-at m (bytes32 n) numbers.1 (length_at p o)),
    )
  where
    length_at : (p o : ℕ) → p + 64 + length (bytes32 o) ≡ p + 68
    length_at p o = unfold bytes32 in omega arith
