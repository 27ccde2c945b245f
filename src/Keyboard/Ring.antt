-- ===== src/Keyboard/Ring.antt =====
-- The ring refines a queue of at most 255 scancodes.
use mono.Prelude.{
  ℕ, zero, suc, ◌+◌, ◌-◌, ◌%◌, ◌<◌, ◌≡◌, ◌≢◌, refl, ap, ◌∙◌, Option, none, some, List, [], ◌∷◌,
  ◌++◌, arith, ◌==◌, if◌then◌else◌, length, ℕ_discrete, ==_of_eq, ==_of_ne, ap₂,
}
use mono.Keyboard.{Keyboard, with_modifiers, store_scancode, process_scancode, take_scancode}

-- How many scancodes wait between the two indices.
abbrev pub pending_count : Keyboard → ℕ
pending_count k = (k.write + 256 - k.read) % 256

-- The `n` entries from index `i` on, going round at 256.
unfoldable pub window : (ℕ → ℕ) → ℕ → ℕ → List ℕ
window b i zero = []
window b i (suc n) = b i ∷ window b ((i + 1) % 256) n

-- The scancodes that wait, the oldest first.
abbrev pub pending : Keyboard → List ℕ
pending k = window k.buffer k.read (pending_count k)

-- The indices are bytes, and the modifiers are flags.
pub record IsValid (k : Keyboard) : Type 0 where
  pub read_byte : k.read < 256
  pub write_byte : k.write < 256
  pub shift_flag : k.shift < 2
  pub ctrl_flag : k.ctrl < 2

-- Every scancode leaves the driver's globals valid.
pub process_scancode-IsValid : (c : ℕ) {k : Keyboard} → IsValid k → IsValid (process_scancode c k).1
unfolding process_scancode
process_scancode-IsValid c v = ground arith

pub length-window : (b : ℕ → ℕ) (i n : ℕ) → length (window b i n) ≡ n
unfolding window
length-window b i zero = refl
length-window b i (suc n) = ap suc (length-window b ((i + 1) % 256) n)

-- Writing just past a window extends it.
window-write :
    (b : ℕ → ℕ) (x n i w : ℕ)
    → i < 256
    → n < 256
    → w ≡ (i + n) % 256
    → window (λ j. if j == w then x else b j) i (suc n) ≡ window b i n ++ x ∷ []
unfolding window
window-write b x zero i w hi hn e = ground arith
window-write b x (suc n) i w hi hn e =
    ground (arith, window-write b x n ((i + 1) % 256) w (omega arith) (omega arith) (omega arith))

-- While fewer than 255 scancodes wait, a stored one joins the end of the queue.
pub pending-store_scancode :
    (c : ℕ) {k : Keyboard}
    → IsValid k
    → pending_count k < 255
    → pending (store_scancode c k) ≡ pending k ++ with_modifiers c k.shift k.ctrl ∷ []
pending-store_scancode c {k} v h =
    ap (λ n. window (store_scancode c k).buffer k.read n) (omega arith)
    ∙ window-write k.buffer (with_modifiers c k.shift k.ctrl) (pending_count k) k.read k.write
        v.read_byte (omega arith) (omega arith)

-- At 255 waiting scancodes the next one makes the indices meet: all 256 are lost.
pub pending-store_scancode_full :
    (c : ℕ) {k : Keyboard} → IsValid k → pending_count k ≡ 255 → pending (store_scancode c k) ≡ []
unfolding window
pending-store_scancode_full c {k} v h = ap (λ n. window (store_scancode c k).buffer k.read n) count
  where
    count : pending_count (store_scancode c k) ≡ 0
    count = omega arith

-- What taking one scancode does to the queue.
abbrev pub Takes : Keyboard → Option (ℕ × Keyboard) → Type 0
Takes k none = pending k ≡ []
Takes k (some (x, k')) =
    (pending k ≡ x ∷ pending k') × IsValid k' × (k' ≡ record k { read = k'.read })

window_pos : (b : ℕ → ℕ) (i n : ℕ) → 0 < n → window b i n ≡ b i ∷ window b ((i + 1) % 256) (n - 1)
unfolding window
window_pos b i zero h = absurd (omega arith)
window_pos b i (suc n) h = ap (λ j. b i ∷ window b ((i + 1) % 256) j) (omega arith)

take_nothing : {k : Keyboard} → IsValid k → k.read ≡ k.write → Takes k (take_scancode k)
unfolding take_scancode window
take_nothing {k} v e =
    let none_left : pending_count k ≡ 0 = omega arith in
    rw (==_of_eq k.read k.write e) (ap (window k.buffer k.read) none_left)

take_oldest : {k : Keyboard} → IsValid k → k.read ≢ k.write → Takes k (take_scancode k)
unfolding take_scancode
take_oldest {k} v ne = rw (==_of_ne k.read k.write ne) (
  window_pos k.buffer k.read (pending_count k) (omega arith)
      ∙ ap₂ (λ i n. k.buffer k.read ∷ window k.buffer i n) (omega arith) (omega arith),
  omega arith,
  refl,
)

-- `take_scancode` reports none exactly when nothing waits, and else takes the oldest.
pub take_scancode-Takes : {k : Keyboard} → IsValid k → Takes k (take_scancode k)
unfolding take_scancode window
take_scancode-Takes {k} v = elim (ℕ_discrete k.read k.write) [
  | yes e ↦ take_nothing v e
  | no ne ↦ take_oldest v ne
]
