-- ===== src/Delay/Speaker.antt =====
-- What the speaker's routines write, and what `play_fdfile` reads.
use Prim.Native.Nat.{bit_and, bit_or}
use mono.Prelude.{
  ℕ, zero, suc, ◌+◌, ◌-◌, ◌*◌, ◌/◌, ◌%◌, ◌^◌, ◌<◌, ◌≤◌, ◌≡◌, ◌≢◌, refl, sym, ap, ap₂, ◌∙◌, ◌⊎◌, inl,
  inr, Bool-cases, none, some, List, ◌∷◌, length, arith, ltb, ◌==◌, if◌then◌else◌, ==_of_ne,
  ltb_of_le,
}
use mono.Delay.{
  asleep, speaker_on, play_sound, nosound, unless_fault, hold, beep, beep_then, play_from,
  play_fdfile,
}
use mono.Delay.Timer.{reprogrammed, waited, asleep-Delays}
use mono.Memory.{Memory, read16}
use mono.Ports.{Access, input, output, Device}
use mono.Ports.Writes.{writes}

-- The log after the speaker got the divisor `d`, and its port answered `v`.
abbrev pub tuned_to : ℕ → ℕ → List Access → List Access
tuned_to d v log =
    input 0x61 v ∷ output 0x42 (d / 256) ∷ output 0x42 (d % 256) ∷ output 0x43 0xb6 ∷ log

-- The log after the speaker was turned on whose port answered `v`: its two low bits are written unless
-- they are set.
abbrev pub turned_on : ℕ → List Access → List Access
turned_on v log = if v == bit_or v 3 then log else output 0x61 (bit_or v 3 % 256) ∷ log

-- The log after the speaker was turned off whose port answered `v`: its two low bits are cleared.
abbrev pub turned_off : ℕ → List Access → List Access
turned_off v log = output 0x61 (bit_and v 0xFC % 256) ∷ input 0x61 v ∷ log

-- From `log` to `log'` the speaker got the divisor `d` and was turned on, then came the delay with its
-- `n` short waits between the timer's divisors `t` and 0xFFFF, and then the speaker was turned off:
-- `order` is the whole run, and the rest is what it writes to the ports of the speaker and of the waits.
-- `dev` answered what was read.
pub record Beeps (dev : Device) (d t n : ℕ) (log log' : List Access) : Type 0 where
  pub answer : ℕ
  pub answered :
      answer
      ≡ dev (output 0x42 (d / 256) ∷ output 0x42 (d % 256) ∷ output 0x43 0xb6 ∷ log) 0x61 % 256
  pub delayed : List Access
  pub delay :
      delayed
      ≡ reprogrammed 0xFFFF (waited n (reprogrammed t (turned_on answer (tuned_to d answer log))))
  pub order : log' ≡ turned_off (dev delayed 0x61 % 256) delayed
  pub low : ℕ
  pub high : ℕ
  pub divisor : low + 256 * high ≡ d
  pub sent : writes 0x42 log' ≡ high ∷ low ∷ writes 0x42 log
  pub waits : length (writes 0x80 log') ≡ n + 4 + length (writes 0x80 log)

-- The log of `play_sound`, before the speaker is turned on.
tuned : ℕ → ℕ → List Access → List Access
tuned d v log =
    input 0x61 v
    ∷ output 0x42 (d / 256 % 256 % 256)
    ∷ output 0x42 (d % 256 % 256)
    ∷ output 0x43 0xb6
    ∷ log

speaker_on-writes :
    (tmp port : ℕ) (dev : Device) (log : List Access)
    → port ≢ 0x61
    → writes port (speaker_on tmp dev log).1 ≡ writes port log
unfolding writes
speaker_on-writes tmp port dev log h = elim (Bool-cases (tmp == bit_or tmp 3)) [
  | inl e ↦ rw e refl
  | inr e ↦ rw e (rw (==_of_ne 0x61 port (λ q. h (sym q))) refl)
]

speaker_on-turned_on :
    (v : ℕ) (dev : Device) (log : List Access) → (speaker_on v dev log).1 ≡ turned_on v log
speaker_on-turned_on v dev log = elim (Bool-cases (v == bit_or v 3)) [
  | inl e ↦ rw e refl
  | inr e ↦ rw e refl
]

tuned-halves :
    (d v : ℕ) (log : List Access) → d < 16777216 → tuned d v log ≡ tuned_to (d % 65536) v log
unfolding tuned
tuned-halves d v log h =
    ap₂ (λ x y. input 0x61 v ∷ output 0x42 x ∷ output 0x42 y ∷ output 0x43 0xb6 ∷ log) (omega arith)
      (omega arith)

beep-suc :
    (f milliseconds : ℕ) (dev : Device) (log : List Access)
    → milliseconds * 1800 < 2 ^ 32
    → ((beep (suc f) milliseconds dev log).0 ≡ some tt)
      × Beeps dev
          (1193180 / suc f % 65536)
          (1193 * 18 * milliseconds % 2 ^ 16)
          (1800 * milliseconds)
          log
          (beep (suc f) milliseconds dev log).1
unfolding beep play_sound unless_fault writes tuned hold nosound
beep-suc f milliseconds dev log h =
    let d = 1193180 / suc f in
    let log1 =
      output 0x42 (d / 256 % 256 % 256) ∷ output 0x42 (d % 256 % 256) ∷ output 0x43 0xb6 ∷ log in
    let v = dev log1 0x61 % 256 in
    let on = (speaker_on v dev (tuned d v log)).1 in
    let a = asleep-Delays milliseconds dev on h in
    (
      refl,
      record {
        answer = v;
        answered =
            ap (λ l. dev l 0x61 % 256)
              (ap₂ (λ x y. output 0x42 x ∷ output 0x42 y ∷ output 0x43 0xb6 ∷ log) (omega arith)
                (omega arith));
        delayed = (asleep milliseconds dev on).1;
        delay =
            a.order
            ∙ ap
                (λ l. reprogrammed 0xFFFF (
                  waited (1800 * milliseconds)
                    (reprogrammed (1193 * 18 * milliseconds % 2 ^ 16) l)))
                (speaker_on-turned_on v dev (tuned d v log)
                  ∙ ap (turned_on v) (tuned-halves d v log (omega arith)));
        order = refl;
        low = d % 256 % 256;
        high = d / 256 % 256 % 256;
        divisor = omega arith;
        sent =
            a.no_other 0x42 (omega arith) (omega arith) (omega arith)
            ∙ speaker_on-writes v 0x42 dev (tuned d v log) (omega arith);
        waits =
            a.waits
            ∙ ap (λ l. 1800 * milliseconds + 4 + length l)
                (speaker_on-writes v 0x80 dev (tuned d v log) (omega arith));
      },
    )

-- `beep` at a frequency that is not 0 makes these accesses in this order: it programs the speaker with
-- 1193180 / frequency modulo 2 ^ 16, turns the speaker on by setting the two low bits of what its port
-- answers unless they are set, waits 1800 short waits for each millisecond (below 2 ^ 32 / 1800 of them)
-- between the timer's divisor 1193 * 18 * milliseconds modulo 2 ^ 16 and its divisor 0xFFFF, and then
-- turns the speaker off by clearing the two low bits of what its port answers; at frequency 0 it stops
-- at a division fault before any access.
pub beep-Beeps :
    (frequency milliseconds : ℕ) (dev : Device) (log : List Access)
    → milliseconds * 1800 < 2 ^ 32
    → ((frequency ≡ 0) × (beep frequency milliseconds dev log ≡ (none, log)))
      ⊎ (((beep frequency milliseconds dev log).0 ≡ some tt)
          × Beeps dev
              (1193180 / frequency % 65536)
              (1193 * 18 * milliseconds % 2 ^ 16)
              (1800 * milliseconds)
              log
              (beep frequency milliseconds dev log).1)
unfolding beep play_sound unless_fault
beep-Beeps zero milliseconds dev log h = inl (refl, refl)
beep-Beeps (suc f) milliseconds dev log h = inr (beep-suc f milliseconds dev log h)

-- The words that round `i` reads.
abbrev pub SameWords : ℕ → ℕ → Memory → Memory → Type 0
SameWords data_address length m m' =
    (a : ℕ) → data_address ≤ a → a < data_address + 2 * length + 4 → m a ≡ m' a

same_word : (a : ℕ) (m m' : Memory) → m a ≡ m' a → m (a + 1) ≡ m' (a + 1) → read16 m a ≡ read16 m' a
unfolding read16
same_word a m m' e f = ap₂ (λ x y. x + 256 * y) e f

play_from_same :
    (fuel i len data_address : ℕ) (m m' : Memory)
    → SameWords data_address len m m'
    → play_from fuel i len data_address m ≡ play_from fuel i len data_address m'
unfolding play_from
play_from_same zero i len data_address m m' s = refl
play_from_same (suc fuel) i len data_address m m' s = elim (Bool-cases (ltb i len)) [
  | inl e ↦ rw e (
      ap₂ (λ x y. beep_then x y (play_from fuel ((i + 2) % 2 ^ 32) len data_address m))
        (word i (ground arith)) (word (i + 1) (ground arith))
      ∙ ap (beep_then (read16 m' (data_address + 2 * i)) (read16 m' (data_address + 2 * (i + 1))))
          (play_from_same fuel ((i + 2) % 2 ^ 32) len data_address m m' s))
  | inr e ↦ rw e refl
]
  where
    word : (j : ℕ) → j ≤ len → read16 m (data_address + 2 * j) ≡ read16 m' (data_address + 2 * j)
    word j h =
        same_word (data_address + 2 * j) m m' (s (data_address + 2 * j) (omega arith) (omega arith))
          (s (data_address + 2 * j + 1) (omega arith) (omega arith))

play_from_enough :
    (fuel i len data_address : ℕ) (m : Memory)
    → len < 2 ^ 32 - 1
    → len ≤ fuel + i
    → play_from (suc (suc fuel)) i len data_address m ≡ play_from (suc fuel) i len data_address m
unfolding play_from
play_from_enough zero i len data_address m b h = rw (ltb_of_le i len (omega arith)) refl
play_from_enough (suc fuel) i len data_address m b h = elim (Bool-cases (ltb i len)) [
  | inl e ↦ rw e (
      ap (beep_then (read16 m (data_address + 2 * i)) (read16 m (data_address + 2 * (i + 1))))
        (play_from_enough fuel ((i + 2) % 2 ^ 32) len data_address m b (ground arith)))
  | inr e ↦ rw e refl
]

play_from_more :
    (k len data_address : ℕ) (m : Memory)
    → len < 2 ^ 32 - 1
    → play_from (k + (len + 1)) 0 len data_address m ≡ play_fdfile data_address len m
unfolding play_fdfile
play_from_more zero len data_address m b = ap (λ n. play_from n 0 len data_address m) (omega arith)
play_from_more (suc k) len data_address m b =
    ap (λ n. play_from n 0 len data_address m) (omega arith)
    ∙ play_from_enough (k + len) 0 len data_address m b (omega arith)
    ∙ ap (λ n. play_from n 0 len data_address m) (omega arith)
    ∙ play_from_more k len data_address m b

-- `play_fdfile` ends within `length + 1` rounds, for a length below 2 ^ 32 - 1: more fuel changes
-- nothing. What it plays is what stands at the address of its own parameter: two memories with the
-- same `2 * length + 4` bytes there are played alike, whatever stands at the data.
pub play_fdfile_lem :
    (k length data_address : ℕ) (m m' : Memory)
    → length < 2 ^ 32 - 1
    → SameWords data_address length m m'
    → (play_from (k + (length + 1)) 0 length data_address m ≡ play_fdfile data_address length m)
      × (play_fdfile data_address length m ≡ play_fdfile data_address length m')
unfolding play_fdfile
play_fdfile_lem k length data_address m m' b s = (
  play_from_more k length data_address m b,
  play_from_same (length + 1) 0 length data_address m m' s,
)
