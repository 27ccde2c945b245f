-- ===== src/Kernel/Jingle.antt =====
-- The start up jingle: which divisors the speaker gets, and how long it takes.
use mono.Delay.Speaker.{Beeps, beep-Beeps}
use mono.Delay.{beep, beep_then, unless_fault}
use mono.Kernel.{tone, jingle_from, jingle}
use mono.Ports.Writes.{writes}
use mono.Ports.{Io, Access, Device}
use mono.Prelude.{
  ℕ, suc, ◌+◌, ◌*◌, ◌/◌, ◌%◌, ◌<◌, ◌≡◌, ◌≢◌, ◌^◌, ◌⊎◌, inl, inr, refl, sym, ap, subst, ◌∙◌, Option,
  none, some, List, [], ◌∷◌, length, arith,
}

-- From `log` to `log'` the speaker played tones of `ms` milliseconds with these divisors: it was turned on
-- before each one's delay and off after it.
pub data Plays (dev : Device) (ms : ℕ) : List ℕ → List Access → List Access → Type 0 where
  silence : (log : List Access) → Plays dev ms [] log log
  then_tone :
      (d : ℕ) (ds : List ℕ) (log log1 log2 : List Access)
      → Beeps dev d (1193 * 18 * ms % 2 ^ 16) (1800 * ms) log log1
      → Plays dev ms ds log1 log2
      → Plays dev ms (d ∷ ds) log log2

Plays-waits :
    (dev : Device) (ms : ℕ) (ds : List ℕ) (log log' : List Access)
    → Plays dev ms ds log log'
    → length (writes 0x80 log') ≡ length ds * (1800 * ms + 4) + length (writes 0x80 log)
Plays-waits dev ms [] log _ (silence _) = omega arith
Plays-waits dev ms (d ∷ ds) log _ (then_tone _ _ _ log1 log2 b p) =
    Plays-waits dev ms ds log1 log2 p ∙ omega (arith, b.waits)

-- What a part of the jingle does.
abbrev Performs : ℕ → List ℕ → Device → List Access → Io (Option (Unit {0})) → Type 0
Performs ms ds dev log io = ((io dev log).0 ≡ some tt) × Plays dev ms ds log (io dev log).1

beep_then-done :
    (f ms : ℕ) (dev : Device) (log : List Access) (rest : Io (Option (Unit {0})))
    → (beep f ms dev log).0 ≡ some tt
    → beep_then f ms rest dev log ≡ rest dev (beep f ms dev log).1
unfolding unless_fault
beep_then-done f ms dev log rest e = ap (λ r. unless_fault r rest dev (beep f ms dev log).1) e

beep_then-Performs :
    (f ms : ℕ) (ds : List ℕ) (dev : Device) (log : List Access) (rest : Io (Option (Unit {0})))
    → f ≢ 0
    → ms * 1800 < 2 ^ 32
    → ((log' : List Access) → Performs ms ds dev log' rest)
    → Performs ms (1193180 / f % 65536 ∷ ds) dev log (beep_then f ms rest)
beep_then-Performs f ms ds dev log rest there short next = from_beep (beep-Beeps f ms dev log short)
  where
    log1 : List Access
    log1 = (beep f ms dev log).1

    from_beep :
        ((f ≡ 0) × (beep f ms dev log ≡ (none, log)))
          ⊎ (((beep f ms dev log).0 ≡ some tt)
              × Beeps dev (1193180 / f % 65536) (1193 * 18 * ms % 2 ^ 16) (1800 * ms) log log1)
        → Performs ms (1193180 / f % 65536 ∷ ds) dev log (beep_then f ms rest)
    from_beep (inl (e, _)) = absurd (there e)
    from_beep (inr (e, b)) = (
      ap (λ (r : Option (Unit {0}) × List Access). r.0) (beep_then-done f ms dev log rest e)
          ∙ (next log1).0,
      subst (Plays dev ms (1193180 / f % 65536 ∷ ds) log)
          (sym (
            ap (λ (r : Option (Unit {0}) × List Access). r.1) (beep_then-done f ms dev log rest e)))
          (then_tone (1193180 / f % 65536) ds log log1 (rest dev log1).1 b (next log1).1),
    )

-- The divisors of one round, and of the whole jingle.
abbrev pub jingle_divisors : List ℕ
jingle_divisors = 476 ∷ 1187 ∷ 476 ∷ 478 ∷ 1199 ∷ 478 ∷ 476 ∷ 1187 ∷ 476 ∷ 478 ∷ 1199 ∷ 478 ∷ []

jingle_round :
    (a b n i : ℕ) (ds : List ℕ) (dev : Device) (log : List Access)
    → a ≢ 0
    → b ≢ 0
    → tone 2500 i ≡ a
    → tone 1000 i ≡ b
    → ((log' : List Access) → Performs 350 ds dev log' (jingle_from n (i + 1)))
    → Performs 350
        (1193180 / a % 65536 ∷ 1193180 / b % 65536 ∷ 1193180 / a % 65536 ∷ ds)
        dev
        log
        (jingle_from (suc n) i)
unfolding jingle_from
jingle_round a b n i ds dev log ha hb ea eb rest =
    rw (ea, eb)
      (beep_then-Performs a 350 _ dev log _ ha (omega arith) (λ log1.
        beep_then-Performs b 350 _ dev log1 _ hb (omega arith) (λ log2.
          beep_then-Performs a 350 ds dev log2 (jingle_from n (i + 1)) ha (omega arith) rest)))

jingle_all : (dev : Device) (log : List Access) → Performs 350 jingle_divisors dev log jingle
unfolding jingle jingle_from
jingle_all dev log =
    jingle_round 2505 1005 3 0 _ dev log (omega arith) (omega arith) refl refl (λ l1.
      jingle_round 2495 995 2 1 _ dev l1 (omega arith) (omega arith) refl refl (λ l2.
        jingle_round 2505 1005 1 2 _ dev l2 (omega arith) (omega arith) refl refl (λ l3.
          jingle_round 2495 995 0 3 [] dev l3 (omega arith) (omega arith) refl refl
            (λ l4. (refl, silence l4)))))

-- Whatever the device answers, the jingle ends without a fault, plays its twelve tones of 350 milliseconds
-- each with these divisors, each by the accesses of `beep` in their order: the divisor, the speaker on, the
-- delay, the speaker off. It takes 12 * (1800 * 350 + 4) short
-- waits.
pub jingle-Plays :
    (dev : Device) (log : List Access)
    → ((jingle dev log).0 ≡ some tt)
      × Plays dev 350 jingle_divisors log (jingle dev log).1
      × (length (writes 0x80 (jingle dev log).1) ≡ 12 * (1800 * 350 + 4) + length (writes 0x80 log))
jingle-Plays dev log =
    let all = jingle_all dev log in
    (all.0, all.1, Plays-waits dev 350 jingle_divisors log (jingle dev log).1 all.1 ∙ omega arith)
