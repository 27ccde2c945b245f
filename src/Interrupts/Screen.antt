-- ===== src/Interrupts/Screen.antt =====
-- The test handler of the system call vector, which blackens a square of the frame buffer.
use mono.Prelude.{
  ℕ, ◌+◌, ◌*◌, ◌<◌, ◌≡◌, ◌≢◌, arith, ◌&&◌, ltb, if◌then◌else◌, Bool-cases, inl, inr, for_range,
  for_range_hit, for_range_skip,
}
use mono.Graphics.{video_memory}
use mono.Interrupts.{interrupt_test}
use mono.Memory.{Memory, write}

-- One row.
black_row : ℕ → Memory → Memory
black_row i m = for_range 255 0 (λ j m'. write m' (video_memory + (i * 320 + j)) 0) m

black_row-hit : (i c : ℕ) (m : Memory) → c < 255 → black_row i m (video_memory + (i * 320 + c)) ≡ 0
unfolding black_row
black_row-hit i c m h =
    for_range_hit 255 0 (λ j m'. write m' (video_memory + (i * 320 + j)) 0) m
      (video_memory + (i * 320 + c)) c (λ _. 0) (omega arith) (omega arith) (λ m'. ground arith)
      (λ k m' ne h' l. ground arith)

black_row-spares :
    (i a : ℕ) (m : Memory)
    → ((j : ℕ) → j < 255 → video_memory + (i * 320 + j) ≢ a)
    → black_row i m a ≡ m a
unfolding black_row
black_row-spares i a m ne =
    for_range_skip 255 0 (λ j m'. write m' (video_memory + (i * 320 + j)) 0) m a
      (λ j m' h l. ground (arith, ne j (omega arith)))

apart :
    (r c k j : ℕ)
    → c < 320
    → j < 320
    → k ≢ r
    → video_memory + (k * 320 + j) ≢ video_memory + (r * 320 + c)
apart r c k j hc hj ne e = ne (omega arith)

inside :
    (r c : ℕ) (m : Memory) → r < 255 → c < 255 → interrupt_test m (video_memory + (r * 320 + c)) ≡ 0
unfolding interrupt_test black_row
inside r c m hr hc =
    for_range_hit 255 0 black_row m (video_memory + (r * 320 + c)) r (λ _. 0) (omega arith)
      (omega arith) (λ m'. black_row-hit r c m' hc)
      (λ k m' ne h l.
        black_row-spares k (video_memory + (r * 320 + c)) m'
          (λ j hj. apart r c k j (omega arith) (omega arith) ne))

outside :
    (a : ℕ) (m : Memory)
    → ((i j : ℕ) → i < 255 → j < 255 → video_memory + (i * 320 + j) ≢ a)
    → interrupt_test m a ≡ m a
unfolding interrupt_test black_row
outside a m ne =
    for_range_skip 255 0 black_row m a
      (λ i m' h l. black_row-spares i a m' (λ j hj. ne i j (omega arith) hj))

-- The handler blackens the pixels of the first 255 columns of the first 255 rows, of which the screen
-- has 200, and no other byte of those rows; below the frame buffer it writes nothing.
pub interrupt_test_at :
    (m : Memory)
    → ((r c : ℕ)
        → c < 320
        → interrupt_test m (video_memory + (r * 320 + c))
          ≡ (if ltb r 255 && ltb c 255 then 0 else m (video_memory + (r * 320 + c))))
      × ((a : ℕ) → a < video_memory → interrupt_test m a ≡ m a)
interrupt_test_at m = (
  (λ r c hc. elim (Bool-cases (ltb r 255 && ltb c 255)) [
    | inl e ↦ rw e (inside r c m (ground arith) (ground arith))
    | inr e ↦ rw e (outside (video_memory + (r * 320 + c)) m (λ i j hi hj eq. ground arith))
  ]),
  (λ a h. outside a m (λ i j hi hj eq. omega arith)),
)
