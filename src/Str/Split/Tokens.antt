-- ===== src/Str/Split/Tokens.antt =====
-- The words that `split_string` makes, one to a buffer.
use mono.Prelude.{
  ℕ, suc, ◌+◌, ◌*◌, ◌%◌, ◌^◌, ◌<◌, ◌≤◌, ◌≡◌, ◌≢◌, ap, ◌∙◌, inl, inr, Bool, ◌&&◌, Bool-cases, Option,
  some, List, [], ◌∷◌, ◌++◌, length, length-append, arith, ◌==◌, if◌then◌else◌,
}
use mono.Memory.{Memory, write, read32, HasString}
use mono.Str.Split.{not, put}

-- The words of a text: an unescaped delimiter ends one, an escape character turns the escaping on or
-- off and is left out. `word` is what the current one has.
unfoldable pub words : ℕ → ℕ → Bool → List ℕ → List ℕ → List (List ℕ)
words delimiter escape escaped word [] = word ∷ []
words delimiter escape escaped word (c ∷ s) =
    let toggled = words delimiter escape (not escaped) word s in
    let rest = words delimiter escape escaped [] s in
    let longer = words delimiter escape escaped (word ++ (c ∷ [])) s in
    if c == escape then toggled else if c == delimiter && not escaped then word ∷ rest else longer

-- The words stand as strings in buffers of 64 bytes from `p` on.
unfoldable pub HasWords : Memory → ℕ → List (List ℕ) → Type 0
HasWords m p [] = Unit {0}
HasWords m p (w ∷ ws) = HasString m p w × HasWords m (p + 64) ws

-- Every word fits its buffer.
unfoldable pub Fit : List (List ℕ) → Type 0
Fit [] = Unit {0}
Fit (w ∷ ws) = (length w < 64) × Fit ws

-- The table of pointers at `out` leads to 32 buffers of 64 bytes from `base` on, and lies below them.
pub record Table (out base : ℕ) (m : Memory) : Type 0 where
  pub leads : (i : ℕ) → i < 32 → read32 m (out + 4 * i) ≡ base + 64 * i
  pub below : out + 128 ≤ base
  pub room : base + 2048 ≤ 2 ^ 32

-- `n` zero bytes.
abbrev pub Zeros : Memory → ℕ → ℕ → Type 0
Zeros m p q = (a : ℕ) → p ≤ a → a < q → m a ≡ 0

pub Table-write :
    (out base a v : ℕ) {m : Memory} → Table out base m → base ≤ a → Table out base (write m a v)
unfolding read32
Table-write out base a v {m} t h = record {
  leads = λ i l. ground (arith, t.leads i l, t.below);
  below = t.below;
  room = t.room;
}

pub HasString-below :
    (p : ℕ) (m m' : Memory) (s : List ℕ)
    → ((a : ℕ) → a < p + length s + 1 → m' a ≡ m a)
    → HasString m p s
    → HasString m' p s
HasString-below p m m' [] same h = same p (omega arith) ∙ h
HasString-below p m m' (c ∷ s) same (e, ne, h) =
    (same p (omega arith) ∙ e, ne, HasString-below (p + 1) m m' s (λ a l. same a (omega arith)) h)

-- What the loop has done when it has ended: `before` is the memory when it stood at buffer `i`.
pub record Splits (out base i : ℕ) (ws : List (List ℕ)) (before : Memory) (o : Option (ℕ × Memory))
    : Type 0 where
  pub index : ℕ
  pub after : Memory
  pub ends : o ≡ some (index, after)
  pub count : suc index ≡ i + length ws
  pub stand : HasWords after (base + 64 * i) ws
  pub spares : (a : ℕ) → a < base + 64 * i → after a ≡ before a

-- The characters of a word, none of them zero.
abbrev pub Part : Memory → ℕ → List ℕ → Type 0
Part m p [] = Unit {0}
Part m p (c ∷ w) = (m p ≡ c) × (c ≢ 0) × Part m (p + 1) w

pub Part-snoc :
    (m : Memory) (p c : ℕ) (w : List ℕ)
    → Part m p w
    → c ≢ 0
    → m (p + length w) ≡ c
    → Part m p (w ++ c ∷ [])
Part-snoc m p c [] h ne e = (ap m (omega arith) ∙ e, ne, tt)
Part-snoc m p c (d ∷ w) (e', ne', h) ne e =
    (e', ne', Part-snoc m (p + 1) c w h ne (ap m (omega arith) ∙ e))

pub Part-same :
    (m m' : Memory) (p : ℕ) (w : List ℕ)
    → ((a : ℕ) → p ≤ a → a < p + length w → m' a ≡ m a)
    → Part m p w
    → Part m' p w
Part-same m m' p [] same h = tt
Part-same m m' p (c ∷ w) same (e, ne, h) = (
  same p (omega arith) (omega arith) ∙ e,
  ne,
  Part-same m m' (p + 1) w (λ a l u. same a (omega arith) (omega arith)) h,
)

pub Part-ends :
    (m : Memory) (p : ℕ) (w : List ℕ) → Part m p w → m (p + length w) ≡ 0 → HasString m p w
Part-ends m p [] h z = ap m (omega arith) ∙ z
Part-ends m p (c ∷ w) (e, ne, h) z = (e, ne, Part-ends m (p + 1) w h (ap m (omega arith) ∙ z))

pub put_at :
    (out base i k c : ℕ) (m : Memory)
    → Table out base m
    → i < 32
    → k < 64
    → put out i k c m ≡ write m (base + 64 * i + k) c
unfolding put
put_at out base i k c m t hi hk =
    ap (λ a. write m a c)
      (ap (λ b. (b + k) % 2 ^ 32) (t.leads i hi)
        ∙ small_mod (base + 64 * i + k) (omega (arith, t.room)))
  where
    small_mod : (n : ℕ) → n < 2 ^ 32 → n % 2 ^ 32 ≡ n
    small_mod n h = omega arith

module _ (delimiter escape : ℕ) where
  pub words-nonempty :
      (escaped : Bool) (w s : List ℕ) → 1 ≤ length (words delimiter escape escaped w s)
  unfolding words
  words-nonempty escaped w [] = omega arith
  words-nonempty escaped w (c ∷ s) =
      ground (arith, words-nonempty (not escaped) w s, words-nonempty escaped (w ++ (c ∷ [])) s)

  pub Fit-first :
      (escaped : Bool) (w s : List ℕ) → Fit (words delimiter escape escaped w s) → length w < 64
  unfolding words Fit
  Fit-first escaped w [] h = h.0
  Fit-first escaped w (c ∷ s) h = elim (Bool-cases (c == escape)) [
    | inl e ↦ Fit-first (not escaped) w s (rw e at h)
    | inr e ↦ elim (Bool-cases (c == delimiter && not escaped)) [
      | inl q ↦ (rw (e, q) at h).0
      | inr q ↦
          omega
            (arith, Fit-first escaped (w ++ (c ∷ [])) s (rw (e, q) at h), length-append w (c ∷ []))
    ]
  ]
