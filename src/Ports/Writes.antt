-- ===== src/Ports/Writes.antt =====
-- What a run wrote to one port, the newest first.
use mono.Prelude.{
  ℕ, zero, suc, ◌≡◌, ◌≢◌, refl, sym, ◌∙◌, List, [], ◌∷◌, ◌==◌, if◌then◌else◌, ==_of_ne, length, ◌+◌,
  arith,
}
use mono.Ports.{Access, input, output, Device, io_wait, times}

unfoldable pub writes : ℕ → List Access → List ℕ
writes port [] = []
writes port (input p v ∷ log) = writes port log
writes port (output p v ∷ log) = if p == port then v ∷ writes port log else writes port log

-- Waiting writes to no port but its own.
pub writes-times :
    (port n : ℕ) (dev : Device) (log : List Access)
    → port ≢ 0x80
    → writes port (times n io_wait dev log).1 ≡ writes port log
unfolding writes times
writes-times port zero dev log h = refl
writes-times port (suc n) dev log h =
    writes-times port n dev (output 0x80 0 ∷ log) h ∙ rw (==_of_ne 0x80 port (λ e. h (sym e))) refl

-- Every wait writes its port once.
pub length-writes-times :
    (n : ℕ) (dev : Device) (log : List Access)
    → length (writes 0x80 (times n io_wait dev log).1) ≡ n + length (writes 0x80 log)
unfolding writes times
length-writes-times zero dev log = omega arith
length-writes-times (suc n) dev log = length-writes-times n dev (output 0x80 0 ∷ log) ∙ omega arith
