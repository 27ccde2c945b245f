-- ===== src/Str/Itoa/Reverse.antt =====
-- The in-place reversal of itoa.
use mono.Prelude.{
  ℕ, zero, suc, ◌+◌, ◌-◌, ◌*◌, ◌%◌, ◌≤◌, ◌<◌, ◌≡◌, ◌&&◌, some, arith, leb, if◌then◌else◌, lt→ltb,
  dec_lt, ◌∙◌,
}
use mono.Memory.{Memory, write}
use mono.Str.Itoa.{reverse_from}

-- What the cell at `a` holds when the cells from `left` to `right` behind `output` are reversed.
abbrev pub mirrored : ℕ → ℕ → ℕ → Memory → ℕ → ℕ
mirrored left right output m a =
    if leb (output + left) a && leb a (output + right)
    then m (output + left + (output + right) - a)
    else m a

-- The loop ends with the cells from `left` to `right` reversed, and no other changed.
abbrev pub Reverses : ℕ → ℕ → ℕ → ℕ → Memory → Type 0
Reverses f left right output m =
    (m' : Memory) × (reverse_from f left right output m ≡ some m')
    × ((a : ℕ) → m' a ≡ mirrored left right output m a)

abbrev swapped : ℕ → ℕ → ℕ → Memory → Memory
swapped left right output m =
    write (write m (output + right) (m (output + left))) (output + left) (m (output + right))

mirrored-swapped :
    (left right output : ℕ) (m : Memory) (a : ℕ)
    → left < right
    → mirrored (left + 1) (right - 1) output (swapped left right output m) a
      ≡ mirrored left right output m a
mirrored-swapped left right output m a h = ground arith

reverse_step :
    (f left right output : ℕ) (m : Memory)
    → left < right
    → right < 256
    → Reverses f (left + 1) (right - 1) output (swapped left right output m)
    → Reverses (suc f) left right output m
unfolding reverse_from
reverse_step f left right output m h hr (m', run, at) = (
  m',
  rw (lt→ltb left right h, left_ok, right_ok) run,
  λ a. at a ∙ mirrored-swapped left right output m a h,
)
  where
    left_ok : (left + 1) % 256 ≡ left + 1
    left_ok = omega arith

    right_ok : (right + 255) % 256 ≡ right - 1
    right_ok = omega arith

reverse_stop :
    (f left right output : ℕ) (m : Memory) → right ≤ left → Reverses (suc f) left right output m
unfolding reverse_from
reverse_stop f left right output m h = (m, ground arith, λ a. ground arith)

-- Half as many rounds as cells are enough.
pub reverse_from_lem :
    (f left right output : ℕ) (m : Memory)
    → right < 256
    → right + 2 ≤ left + 2 * f
    → 0 < f
    → Reverses f left right output m
reverse_from_lem zero left right output m hr hf hp = absurd (omega arith)
reverse_from_lem (suc f) left right output m hr hf hp = elim (dec_lt left right) [
  | yes more ↦ reverse_step f left right output m more hr (
      reverse_from_lem f (left + 1) (right - 1) output (swapped left right output m) (omega arith)
        (omega arith) (omega arith))
  | no done ↦ reverse_stop f left right output m (omega arith)
]
