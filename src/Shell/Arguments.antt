-- ===== src/Shell/Arguments.antt =====
-- The buffers of the arguments: how `shell` allocates them, and how `handle_command` clears them.
use mono.Prelude.{
  ℕ, zero, suc, ◌+◌, ◌*◌, ◌%◌, ◌^◌, ◌<◌, ◌≤◌, ◌≡◌, refl, sym, ap, subst, ◌∙◌, ◌⊎◌, inl, arith, ltb,
  leb, ◌&&◌, if◌then◌else◌, for_range, ℕ_discrete, dec_lt,
}
use mono.Memory.{Memory, read32, write32}
use mono.Shell.{next_arg, setup_args, clear_args}
use mono.Str.{memset}
use mono.Str.Blocks.{memset_at}
use mono.Str.Split.Tokens.{Table, Zeros}
use mono.Terminal.Init.{kmalloc}

word_back : (m : Memory) (p v : ℕ) → v < 2 ^ 32 → read32 (write32 m p v) p ≡ v
unfolding read32 write32
word_back m p v h = ground arith

pub write32-outside : (m : Memory) (p v a : ℕ) → (a < p) ⊎ (p + 4 ≤ a) → write32 m p v a ≡ m a
unfolding write32
write32-outside m p v a h = ground arith

pub read32-same :
    (m m' : Memory) (p : ℕ) → ((a : ℕ) → p ≤ a → a < p + 4 → m' a ≡ m a) → read32 m' p ≡ read32 m p
unfolding read32
read32-same m m' p same = ground (
  arith,
  same p (omega arith) (omega arith),
  same (p + 1) (omega arith) (omega arith),
  same (p + 2) (omega arith) (omega arith),
  same (p + 3) (omega arith) (omega arith),
)

-- The entries from `i` up to `n` more are set, with `kstart` after them.
record Linked (args base i n : ℕ) (m : Memory) (r : ℕ × Memory) : Type 0 where
  start : r.0 ≡ base + 64 * (i + n)
  set : (q : ℕ) → i ≤ q → q < i + n → read32 r.1 (args + 4 * q) ≡ base + 64 * q
  spares : (a : ℕ) → (a < args + 4 * i) ⊎ (args + 4 * (i + n) ≤ a) → r.1 a ≡ m a

link :
    (args base n i : ℕ) (m : Memory)
    → base + 64 * (i + n) < 2 ^ 32
    → Linked args base i n m (for_range n i (next_arg args) (base + 64 * i, m))
unfolding for_range
link args base zero i m h = record {
  start = omega arith;
  set = λ q l u. absurd (omega arith);
  spares = λ a o. refl;
}
link args base (suc n) i m h =
    let m1 = write32 m (args + 4 * i) (base + 64 * i) in
    let k1 : (kmalloc 64 (base + 64 * i)).1 ≡ base + 64 * (i + 1) = omega arith in
    let r = link args base n (i + 1) m1 (omega arith) in
    subst (λ k. Linked args base i (suc n) m (for_range n (i + 1) (next_arg args) (k, m1))) (sym k1)
      (record {
        start = omega (arith, r.start);
        set = λ q l u. elim (ℕ_discrete i q) [
          | yes e ↦
              subst
                (λ p.
                  read32 (for_range n (i + 1) (next_arg args) (base + 64 * (i + 1), m1)).1
                    (args + 4 * p)
                  ≡ base + 64 * p)
                e
                (read32-same m1 (for_range n (i + 1) (next_arg args) (base + 64 * (i + 1), m1)).1
                    (args + 4 * i) (λ a l' u'. r.spares a (inl (omega arith)))
                  ∙ word_back m (args + 4 * i) (base + 64 * i) (omega arith))
          | no ne ↦ r.set q (omega arith) (omega arith)
        ];
        spares = λ a o.
            r.spares a (ground arith)
            ∙ write32-outside m (args + 4 * i) (base + 64 * i) a (ground arith);
      })

-- `shell` allocates a table of 32 pointers and the 32 buffers of 64 bytes behind it, and writes
-- nothing else, if they lie below 2 ^ 32.
pub setup_args-Table :
    (kstart : ℕ) (m : Memory)
    → kstart + 128 + 2048 < 2 ^ 32
    → ((setup_args kstart m).0 ≡ kstart)
      × Table kstart (kstart + 128) (setup_args kstart m).2
      × ((setup_args kstart m).1 ≡ kstart + 128 + 2048)
      × ((a : ℕ) → (a < kstart) ⊎ (kstart + 128 ≤ a) → (setup_args kstart m).2 a ≡ m a)
unfolding setup_args
setup_args-Table kstart m h =
    let k0 : (kstart + 128) % 2 ^ 32 ≡ kstart + 128 + 64 * 0 = omega arith in
    let r : Linked kstart (kstart + 128) 0 32 m
        (for_range 32 0 (next_arg kstart) ((kstart + 128) % 2 ^ 32, m)) =
      subst (λ k. Linked kstart (kstart + 128) 0 32 m (for_range 32 0 (next_arg kstart) (k, m)))
        (sym k0) (link kstart (kstart + 128) 32 0 m (omega arith)) in
    (
      refl,
      record {
        leads = λ i l. r.set i (omega arith) (omega arith);
        below = omega arith;
        room = omega arith;
      },
      r.start ∙ omega arith,
      λ a o. r.spares a (ground arith),
    )

-- Clearing from buffer `i` on.
record Cleared (args base i n : ℕ) (m m' : Memory) : Type 0 where
  table : Table args base m'
  zeros : Zeros m' (base + 64 * i) (base + 64 * (i + n))
  below : (a : ℕ) → a < base + 64 * i → m' a ≡ m a

blank :
    (args base i : ℕ) (m : Memory)
    → Table args base m
    → i < 32
    → (a : ℕ)
    → memset (read32 m (args + 4 * i)) 0 64 m a
      ≡ (if leb (base + 64 * i) a && ltb a (base + 64 * i + 64) then 0 else m a)
blank args base i m t h a =
    memset_at (read32 m (args + 4 * i)) 0 64 m a
    ∙ ap (λ p. if leb p a && ltb a (p + 64) then 0 else m a) (t.leads i h)

clear :
    (args base n i : ℕ) (m : Memory)
    → i + n ≤ 32
    → Table args base m
    → Cleared args base i n m (for_range n i (λ j m'. memset (read32 m' (args + 4 * j)) 0 64 m') m)
unfolding for_range
clear args base zero i m h t = record {
  table = t;
  zeros = λ a l u. absurd (omega arith);
  below = λ a l. refl;
}
clear args base (suc n) i m h t =
    let m1 = memset (read32 m (args + 4 * i)) 0 64 m in
    let low : (a : ℕ) → a < base + 64 * i → m1 a ≡ m a =
      λ a l. blank args base i m t (omega arith) a ∙ ground arith in
    let table1 : Table args base m1 = record {
      leads = λ q l.
          read32-same m m1 (args + 4 * q) (λ a l' u'. low a (omega (arith, t.below))) ∙ t.leads q l;
      below = t.below;
      room = t.room;
    } in
    let r = clear args base n (i + 1) m1 (omega arith) table1 in
    record {
      table = r.table;
      zeros = λ a l u. elim (dec_lt a (base + 64 * (i + 1))) [
        | yes here ↦ r.below a here ∙ blank args base i m t (omega arith) a ∙ ground arith
        | no ne ↦ r.zeros a (omega arith) (omega arith)
      ];
      below = λ a l. r.below a (omega arith) ∙ low a l;
    }

-- `handle_command` zeroes the buffers, and writes nothing below them.
pub clear_args-Zeros :
    (args base : ℕ) (m : Memory)
    → Table args base m
    → Table args base (clear_args args m)
      × Zeros (clear_args args m) base (base + 2048)
      × ((a : ℕ) → a < base → clear_args args m a ≡ m a)
unfolding clear_args
clear_args-Zeros args base m t =
    let r = clear args base 32 0 m (omega arith) t in
    (r.table, (λ a l u. r.zeros a (omega arith) (omega arith)), λ a l. r.below a (omega arith))
