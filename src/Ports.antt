-- ===== src/Ports.antt =====
-- Port I/O (src/asm.h). What the hardware answers is a parameter: a device gives a value for each
-- port, from all the accesses before. A run keeps its accesses, the newest first.
use mono.Prelude.{ℕ, zero, suc, ◌%◌, List, [], ◌∷◌, ◌==◌, if◌then◌else◌}
pub mod Writes

pub data Access : Type 0 where
  input output : ℕ → ℕ → Access

abbrev pub Device : Type 0
Device = List Access → ℕ → ℕ

abbrev pub Io : Type 0 → Type 0
Io A = Device → List Access → A × List Access

infixl 5 ◌>>=◌ ◌>>◌
abbrev pub ◌>>=◌ : {A B : Type 0} → Io A → (A → Io B) → Io B
◌>>=◌ m f dev log = let r = m dev log in f r.0 dev r.1

abbrev pub ◌>>◌ : {A B : Type 0} → Io A → Io B → Io B
◌>>◌ m k dev log = k dev (m dev log).1

abbrev pub pure : {A : Type 0} → A → Io A
pure a dev log = (a, log)

abbrev pub inb : ℕ → Io ℕ
inb port dev log = let v = dev log port % 256 in (v, input port v ∷ log)

abbrev pub outb : ℕ → ℕ → Io (Unit {0})
outb port value dev log = (tt, output port (value % 256) ∷ log)

abbrev pub io_wait : Io (Unit {0})
io_wait = outb 0x80 0

-- `for (i = 0; i < n; i++) action;`
unfoldable pub times : ℕ → Io (Unit {0}) → Io (Unit {0})
times zero action dev log = (tt, log)
times (suc n) action dev log = times n action dev (action dev log).1
