-- ===== src/Memory.antt =====
-- The flat byte-addressed memory of the protected-mode kernel: every address holds a byte, and
-- nothing checks an access (src/std/string.c and all that goes through pointers).
use mono.Prelude.{
  ℕ, ap, ◌∙◌, ◌≤◌, length, arith, ◌+◌, ◌*◌, ◌/◌, ◌%◌, ◌<◌, ◌≡◌, ◌≢◌, subst, List, [], ◌∷◌, ◌==◌,
  if◌then◌else◌,
}

abbrev pub Memory : Type 0
Memory = ℕ → ℕ

-- `*p = v` on a byte.
abbrev pub write : Memory → ℕ → ℕ → Memory
write m p v = λ q. if p == q then v else m q

-- Every cell holds a byte.
abbrev pub IsBytes : Memory → Type 0
IsBytes m = (a : ℕ) → m a < 256

-- The characters `s`, none of them zero, stand at `p` with a terminating zero behind them.
abbrev pub HasString : Memory → ℕ → List ℕ → Type 0
HasString m p [] = m p ≡ 0
HasString m p (c ∷ s) = (m p ≡ c) × (c ≢ 0) × HasString m (p + 1) s

-- Moving such a fact along an equation of addresses.
pub HasString-at : (m : Memory) {p q : ℕ} (s : List ℕ) → HasString m p s → p ≡ q → HasString m q s
HasString-at m s h e = subst (λ k. HasString m k s) e h

-- The same characters in a memory that agrees on them and on the zero.
pub HasString-same :
    (m m' : Memory) (p : ℕ) (s : List ℕ)
    → ((i : ℕ) → i ≤ length s → m' (p + i) ≡ m (p + i))
    → HasString m p s
    → HasString m' p s
HasString-same m m' p [] same h =
    ap m' (omega arith) ∙ same 0 (omega arith) ∙ ap m (omega arith) ∙ h
HasString-same m m' p (c ∷ s) same h = (
  ap m' (omega arith) ∙ same 0 (omega arith) ∙ ap m (omega arith) ∙ h.0,
  h.1,
  HasString-same m m' (p + 1) s
      (λ i l. ap m' (omega arith) ∙ same (i + 1) (omega arith) ∙ ap m (omega arith)) h.2,
)

-- The bytes `s` stand at `p`.
abbrev pub HasBytes : Memory → ℕ → List ℕ → Type 0
HasBytes m p [] = Unit {0}
HasBytes m p (c ∷ s) = (m p ≡ c) × HasBytes m (p + 1) s

-- The little-endian fields of packed structures.
unfoldable pub read16 : Memory → ℕ → ℕ
read16 m p = m p + 256 * m (p + 1)

unfoldable pub read32 : Memory → ℕ → ℕ
read32 m p = m p + 256 * m (p + 1) + 65536 * m (p + 2) + 16777216 * m (p + 3)

unfoldable pub write32 : Memory → ℕ → ℕ → Memory
write32 m p v =
    write (write (write (write m p (v % 256)) (p + 1) (v / 256 % 256)) (p + 2) (v / 65536 % 256))
      (p + 3) (v / 16777216 % 256)
