-- ===== src/Bootloader/Message.antt =====
-- The message on the text screen.
use mono.Prelude.{
  ℕ, zero, suc, ◌+◌, ◌*◌, ◌%◌, ◌<◌, ◌≤◌, ◌≡◌, refl, subst, ◌∙◌, ◌⊎◌, inl, Option, some, List, [],
  ◌∷◌, length, arith, ==_of_ne,
}
use mono.Bootloader.{wait_char, cell_at, put_cell, print_from, print_msg}
use mono.Memory.{Memory, HasString, HasString-at}
use mono.Ports.{Access, Device}
use mono.Str.Split.Tokens.{HasString-below}

-- The characters, white on black.
abbrev pub HasCells : Memory → ℕ → List ℕ → Type 0
HasCells m p [] = Unit {0}
HasCells m p (c ∷ s) = (m p ≡ c) × (m (p + 1) ≡ 0x0F) × HasCells m (p + 2) s

abbrev pub Ascii : List ℕ → Type 0
Ascii [] = Unit {0}
Ascii (c ∷ s) = (c < 128) × Ascii s

-- A memory with the message at `p`, and otherwise as before.
abbrev pub Prints : ℕ → List ℕ → Memory → Option Memory → Type 0
Prints p s m o =
    (m' : Memory) × (o ≡ some m')
    × HasCells m' p s
    × ((a : ℕ) → (a < p) ⊎ (p + 2 * length s ≤ a) → m' a ≡ m a)

print_from-Prints :
    (fuel row msg i : ℕ) (s : List ℕ) (m : Memory) (dev : Device) (log : List Access)
    → HasString m (msg + i) s
    → Ascii s
    → length s < fuel
    → i + length s < 256
    → msg + i + length s < 0xB8000
    → Prints (cell_at row i) s m (print_from fuel row msg i m dev log).0
unfolding print_from
print_from-Prints zero row msg i s m dev log h a f l b = absurd (omega arith)
print_from-Prints (suc fuel) row msg i [] m dev log h a f l b = rw h (m, refl, tt, λ q o. refl)
print_from-Prints (suc fuel) row msg i (c ∷ s) m dev log (e, ne, h) (low, a) f l b =
    rw (e, ==_of_ne c 0 ne)
      (added (
        subst
          (λ j.
            Prints (cell_at row (i + 1)) s m1
              (print_from fuel row msg j m1 dev (wait_char dev log).1).0)
          next
          (print_from-Prints fuel row msg (i + 1) s m1 dev (wait_char dev log).1
            (HasString-at m1 s (HasString-below (msg + i + 1) m m1 s (λ q u. ground arith) h)
              (omega arith))
            a (omega arith) (omega arith) (omega arith))))
  where
    m1 : Memory
    m1 = put_cell row i c m

    next : i + 1 ≡ (i + 1) % 256
    next = omega arith

    added :
        {o : Option Memory}
        → Prints (cell_at row (i + 1)) s m1 o
        → Prints (cell_at row i) (c ∷ s) m o
    added (m', e', cells, same) = (
      m',
      e',
      (
        same (cell_at row i) (inl (omega arith)) ∙ ground arith,
        same (cell_at row i + 1) (inl (omega arith)) ∙ ground arith,
        subst (λ p. HasCells m' p s) (omega arith) cells,
      ),
      λ q out. same q (ground arith) ∙ ground arith,
    )

-- A message of 7-bit characters below the text screen, at most 255 of them: `print_msg` ends, puts the
-- characters, white on black, from the start of the row on, and changes no other byte.
pub print_msg-Prints :
    (fuel row msg : ℕ) (s : List ℕ) (m : Memory) (dev : Device) (log : List Access)
    → HasString m msg s
    → Ascii s
    → length s < fuel
    → length s < 256
    → msg + length s < 0xB8000
    → Prints (0xB8000 + 160 * row) s m (print_msg fuel row msg m dev log).0
unfolding print_msg
print_msg-Prints fuel row msg s m dev log h a f l b =
    subst (λ p. Prints p s m (print_from fuel row msg 0 m dev log).0) (omega arith)
      (print_from-Prints fuel row msg 0 s m dev log (HasString-at m s h (omega arith)) a f
        (omega arith) (omega arith))
