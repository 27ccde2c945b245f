-- ===== src/Str/Blocks.antt =====
-- memset, memcpy and memcmp as block operations.
use mono.Prelude.{
  ℕ, zero, suc, ◌+◌, ◌-◌, ◌≤◌, ◌<◌, ◌≡◌, refl, ◌⊎◌, ◌↔◌, ◌&&◌, arith, ltb, leb, ◌==◌, if◌then◌else◌,
  Bool-cases, inl, inr,
}
use mono.Prelude.Int.{pos, sub_ℕ}
use mono.Memory.{Memory, write}
use mono.Str.{memset_from, memset, memcpy_from, memcpy, memcmp_from, memcmp}

pub memset_from_at :
    (n i p c : ℕ) (m : Memory) (a : ℕ)
    → memset_from n i p c m a ≡ (if leb (p + i) a && ltb a (p + i + n) then c else m a)
unfolding memset_from
memset_from_at zero i p c m a = ground arith
memset_from_at (suc n) i p c m a =
    ground (arith, memset_from_at n (i + 1) p c (write m (p + i) c) a)

-- `memset` fills exactly the `len` bytes at `p`.
pub memset_at :
    (p c len : ℕ) (m : Memory) (a : ℕ)
    → memset p c len m a ≡ (if leb p a && ltb a (p + len) then c else m a)
unfolding memset
memset_at p c len m a = ground (arith, memset_from_at len 0 p c m a)

pub memcpy_from_at :
    (n i p q : ℕ) (m : Memory) (a : ℕ)
    → (p ≤ q) ⊎ (q + i + n ≤ p)
    → memcpy_from n i p q m a
      ≡ (if leb (p + i) a && ltb a (p + i + n) then m (q + (a - p)) else m a)
unfolding memcpy_from
memcpy_from_at zero i p q m a h = ground arith
memcpy_from_at (suc n) i p q m a h =
    ground (arith, memcpy_from_at n (i + 1) p q (write m (p + i) (m (q + i))) a)

-- `memcpy` copies the `len` bytes at `q` to `p` and changes nothing else, if the target starts at
-- or below the source, or past its end.
pub memcpy_at :
    (p q len : ℕ) (m : Memory) (a : ℕ)
    → (p ≤ q) ⊎ (q + len ≤ p)
    → memcpy p q len m a ≡ (if leb p a && ltb a (p + len) then m (q + (a - p)) else m a)
unfolding memcpy
memcpy_at p q len m a h = ground (arith, memcpy_from_at len 0 p q m a (ground arith))

-- Two bytes with no difference are equal.
sub_ℕ-zero : (a b : ℕ) → sub_ℕ a b ≡ pos 0 → a ≡ b
sub_ℕ-zero a b e = ground arith

memcmp_from-agree :
    (n i p q : ℕ) (m : Memory) (k : ℕ)
    → memcmp_from n i p q m ≡ pos 0
    → i ≤ k
    → k < i + n
    → m (p + k) ≡ m (q + k)
unfolding memcmp_from
memcmp_from-agree zero i p q m k e h l = absurd (omega arith)
memcmp_from-agree (suc n) i p q m k e h l = elim (Bool-cases (m (p + i) == m (q + i))) [
  | inl same ↦ elim (Bool-cases (i == k)) [
    | inl here ↦ let e' : i ≡ k = ground arith in rw (← e') (ground arith)
    | inr later ↦ memcmp_from-agree n (i + 1) p q m k (rw same at e) (ground arith) (omega arith)
  ]
  | inr differ ↦ ground (arith, sub_ℕ-zero (m (p + i)) (m (q + i)))
]

memcmp_from-zero :
    (n i p q : ℕ) (m : Memory)
    → ((k : ℕ) → i ≤ k → k < i + n → m (p + k) ≡ m (q + k))
    → memcmp_from n i p q m ≡ pos 0
unfolding memcmp_from
memcmp_from-zero zero i p q m same = refl
memcmp_from-zero (suc n) i p q m same =
    let here = same i (omega arith) (omega arith) in
    ground (arith, memcmp_from-zero n (i + 1) p q m (λ k h l. same k (omega arith) (omega arith)))

-- `memcmp` returns 0 exactly when the two blocks hold the same bytes.
pub memcmp_zero_iff :
    (p q len : ℕ) (m : Memory)
    → (memcmp p q len m ≡ pos 0) ↔ ((k : ℕ) → k < len → m (p + k) ≡ m (q + k))
unfolding memcmp
memcmp_zero_iff p q len m = (
  λ e k l. memcmp_from-agree len 0 p q m k e (omega arith) (omega arith),
  λ same. memcmp_from-zero len 0 p q m (λ k h l. same k (omega arith)),
)
