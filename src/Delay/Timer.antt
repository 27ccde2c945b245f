-- ===== src/Delay/Timer.antt =====
-- What a delay writes to each port.
use mono.Prelude.{
  ℕ, zero, suc, ◌+◌, ◌*◌, ◌/◌, ◌%◌, ◌^◌, ◌<◌, ◌≡◌, ◌≢◌, refl, sym, ap, ap₂, subst₂, ◌∙◌, List, ◌∷◌,
  length, arith, ==_of_ne,
}
use mono.Delay.{set_pit_frequency, wait_scaled, asleep}
use mono.Ports.{Access, output, Device, io_wait, times}
use mono.Ports.Writes.{writes, writes-times, length-writes-times}

-- The log after the timer got the divisor `d`, whose bytes each take a short wait.
abbrev pub reprogrammed : ℕ → List Access → List Access
reprogrammed d log =
    output 0x80 0
    ∷ output 0x40 (d / 256)
    ∷ output 0x80 0
    ∷ output 0x40 (d % 256)
    ∷ output 0x43 0x36
    ∷ log

-- The log after `n` short waits.
unfoldable pub waited : ℕ → List Access → List Access
waited zero log = log
waited (suc n) log = output 0x80 0 ∷ waited n log

-- From `log` to `log'` the timer's divisor was `d` and then 0xFFFF, with `n` short waits between, and
-- the waits of the timer's own bytes: `order` is the whole run, and the rest is what it writes to
-- each port.
pub record Delays (d n : ℕ) (log log' : List Access) : Type 0 where
  pub order : log' ≡ reprogrammed 0xFFFF (waited n (reprogrammed d log))
  pub divisors : writes 0x40 log' ≡ 0xFF ∷ 0xFF ∷ d / 256 ∷ d % 256 ∷ writes 0x40 log
  pub commands : writes 0x43 log' ≡ 0x36 ∷ 0x36 ∷ writes 0x43 log
  pub waits : length (writes 0x80 log') ≡ n + 4 + length (writes 0x80 log)
  pub no_other :
      (port : ℕ) → port ≢ 0x40 → port ≢ 0x43 → port ≢ 0x80 → writes port log' ≡ writes port log

waited-output :
    (n : ℕ) (log : List Access) → waited n (output 0x80 0 ∷ log) ≡ output 0x80 0 ∷ waited n log
unfolding waited
waited-output zero log = refl
waited-output (suc n) log = ap (λ l. output 0x80 0 ∷ l) (waited-output n log)

times-io_wait :
    (n : ℕ) (dev : Device) (log : List Access) → (times n io_wait dev log).1 ≡ waited n log
unfolding times waited
times-io_wait zero dev log = refl
times-io_wait (suc n) dev log = times-io_wait n dev (output 0x80 0 ∷ log) ∙ waited-output n log

-- The log after the first divisor `d`, as the code computes its bytes.
programmed : ℕ → List Access → List Access
programmed d log =
    output 0x80 0
    ∷ output 0x40 (d / 256 % 256 % 256)
    ∷ output 0x80 0
    ∷ output 0x40 (d % 256 % 256)
    ∷ output 0x43 0x36
    ∷ log

byte_halves :
    (d : ℕ) (l : List ℕ)
    → d < 65536
    → d / 256 % 256 % 256 ∷ d % 256 % 256 ∷ l ≡ d / 256 ∷ d % 256 ∷ l
byte_halves d l h = ap₂ (λ x y. x ∷ y ∷ l) (omega arith) (omega arith)

programmed-halves : (d : ℕ) (log : List Access) → d < 65536 → programmed d log ≡ reprogrammed d log
unfolding programmed
programmed-halves d log h =
    ap₂
      (λ x y.
        output 0x80 0 ∷ output 0x40 x ∷ output 0x80 0 ∷ output 0x40 y ∷ output 0x43 0x36 ∷ log)
      (omega arith) (omega arith)

spared :
    (d port : ℕ) (log : List Access)
    → port ≢ 0x40
    → port ≢ 0x43
    → port ≢ 0x80
    → writes port (programmed d log) ≡ writes port log
unfolding writes programmed
spared d port log a b c =
    rw
      (
        ==_of_ne 0x80 port (λ e. c (sym e)),
        ==_of_ne 0x40 port (λ e. a (sym e)),
        ==_of_ne 0x43 port (λ e. b (sym e)),
      )
      refl

wait_scaled-Delays :
    (s : ℕ) (dev : Device) (log : List Access)
    → Delays (1193 * s % 2 ^ 16) (s * 100 % 2 ^ 32) log (wait_scaled s dev log).1
unfolding wait_scaled set_pit_frequency writes programmed
wait_scaled-Delays s dev log =
    let d = 1193 * s % 65536 in
    let n = s * 100 % 4294967296 in
    record {
      order = ap (reprogrammed 0xFFFF) (
          times-io_wait n dev (programmed d log)
          ∙ ap (waited n) (programmed-halves d log (omega arith)));
      divisors =
          ap (λ l. 255 ∷ 255 ∷ l)
            (writes-times 0x40 n dev (programmed d log) (omega arith)
              ∙ byte_halves d (writes 0x40 log) (omega arith));
      commands = ap (λ l. 0x36 ∷ l) (writes-times 0x43 n dev (programmed d log) (omega arith));
      waits = omega (arith, length-writes-times n dev (programmed d log));
      no_other = λ port a b c.
          spared 0xFFFF port (times n io_wait dev (programmed d log)).1 a b c
          ∙ writes-times port n dev (programmed d log) c
          ∙ spared d port log a b c;
    }

-- `__asleep` makes these accesses in this order: it programs the timer with 1193 * 18 times the
-- milliseconds modulo 2 ^ 16, waits 1800 short waits for each millisecond (below 2 ^ 32 / 1800 of
-- them), and programs the timer with 0xFFFF. Each of the timer's four bytes takes one more short wait,
-- and no other port is written.
pub asleep-Delays :
    (milliseconds : ℕ) (dev : Device) (log : List Access)
    → milliseconds * 1800 < 2 ^ 32
    → Delays
        (1193 * 18 * milliseconds % 2 ^ 16)
        (1800 * milliseconds)
        log
        (asleep milliseconds dev log).1
unfolding asleep
asleep-Delays milliseconds dev log h =
    subst₂ (λ d n. Delays d n log (wait_scaled (milliseconds * 18 % 2 ^ 32) dev log).1)
      (omega arith) (omega arith) (wait_scaled-Delays (milliseconds * 18 % 2 ^ 32) dev log)
