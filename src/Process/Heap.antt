-- ===== src/Process/Heap.antt =====
-- SYS_MALLOC hands out blocks one behind the other.
use mono.Prelude.{
  ℕ, ◌+◌, ◌%◌, ◌^◌, ◌<◌, ◌≡◌, refl, ap, subst, Option, none, some, List, [], ◌∷◌, arith,
}
use mono.Process.{Machine, set_errno, sys_malloc, syscall}

abbrev pub total : List ℕ → ℕ
total [] = 0
total (l ∷ ls) = l + total ls

-- Calls of SYS_MALLOC in a row, with these lengths: the addresses that they return.
abbrev pub and_then : ℕ → Option (List ℕ × Machine) → Option (List ℕ × Machine)
and_then a none = none
and_then a (some (bs, s)) = some (a ∷ bs, s)

abbrev pub after :
    Option (ℕ × Machine) → (Machine → Option (List ℕ × Machine)) → Option (List ℕ × Machine)
after none k = none
after (some (a, s)) k = and_then a (k s)

unfoldable pub mallocs : ℕ → (ℕ → ℕ) → List ℕ → Machine → Option (List ℕ × Machine)
mallocs fuel past [] s = some ([], s)
mallocs fuel past (l ∷ ls) s = after (syscall fuel past 3 l 0 0 s) (mallocs fuel past ls)

-- Each block starts where the one before it ends, the first one at `start`, and the last ends at
-- `end`.
abbrev pub Blocks : ℕ → List ℕ → List ℕ → ℕ → Type 0
Blocks start [] [] end = start ≡ end
Blocks start [] (l ∷ ls) end = ⊥
Blocks start (a ∷ bs) [] end = ⊥
Blocks start (a ∷ bs) (l ∷ ls) end = (a ≡ start) × Blocks (start + l) bs ls end

abbrev pub Allocates : List ℕ → ℕ → Option (List ℕ × Machine) → Type 0
Allocates ls start o =
    (bs : List ℕ) × (s' : Machine) × (o ≡ some (bs, s')) × Blocks start bs ls s'.malloc_start

-- Allocations that fit below 4 GiB together all return, and their blocks follow one another from
-- `MALLOC_START` on without overlap, up to the new `MALLOC_START`.
pub mallocs-Allocates :
    (fuel : ℕ) (past : ℕ → ℕ) (ls : List ℕ) (s : Machine)
    → s.malloc_start + total ls < 2 ^ 32
    → Allocates ls s.malloc_start (mallocs fuel past ls s)
unfolding mallocs syscall sys_malloc set_errno
mallocs-Allocates fuel past [] s h = ([], s, refl, refl)
mallocs-Allocates fuel past (l ∷ ls) s h = extend (
    mallocs-Allocates fuel past ls
      (set_errno 0 (record s { malloc_start = (s.malloc_start + l) % 2 ^ 32 })) (omega arith))
  where
    extend :
        {o : Option (List ℕ × Machine)}
        → Allocates ls ((s.malloc_start + l) % 2 ^ 32) o
        → Allocates (l ∷ ls) s.malloc_start (and_then s.malloc_start o)
    extend (bs, s', e, b) = (
      s.malloc_start ∷ bs,
      s',
      ap (and_then s.malloc_start) e,
      (refl, subst (λ k. Blocks k bs ls s'.malloc_start) (omega arith) b),
    )
