-- ===== src/Packer/Basename.antt =====
-- basename works on paths with exactly one separator.
use mono.Prelude.{ℕ, zero, suc, ◌≡◌, ◌≢◌, refl, none, some, List, [], ◌∷◌, ◌++◌, ==_of_eq, ==_of_ne}
use mono.Packer.{ok, crashed, unfinished, strchr, basename_from, basename}

-- The character does not occur.
abbrev pub Lacks : ℕ → List ℕ → Type 0
Lacks c [] = Unit {0}
Lacks c (d ∷ s) = (d ≢ c) × Lacks c s

strchr-Lacks : (c : ℕ) (s : List ℕ) → Lacks c s → strchr s c ≡ none
unfolding strchr
strchr-Lacks c [] h = refl
strchr-Lacks c (d ∷ s) h = rw (==_of_ne d c h.0) (strchr-Lacks c s h.1)

strchr-append : (c : ℕ) (s t : List ℕ) → Lacks c s → strchr (s ++ c ∷ t) c ≡ some (c ∷ t)
unfolding strchr
strchr-append c [] t h = rw (==_of_eq c c refl)
strchr-append c (d ∷ s) t h = rw (==_of_ne d c h.0) (strchr-append c s t h.1)

-- A path with one separator gives what stands behind it, after one round.
pub basename_one :
    (fuel c : ℕ) (dir base : List ℕ)
    → Lacks c dir
    → Lacks c base
    → basename (suc fuel) (dir ++ c ∷ base) c ≡ ok base
unfolding basename basename_from
basename_one fuel c dir base hd hb = rw (strchr-append c dir base hd, strchr-Lacks c base hb)

-- The search starts at the separator that it has found, and finds it again.
basename_from-stuck : (fuel c : ℕ) (t : List ℕ) → basename_from fuel (c ∷ t) c ≡ unfinished
unfolding basename_from strchr
basename_from-stuck zero c t = refl
basename_from-stuck (suc fuel) c t = rw (==_of_eq c c refl) (basename_from-stuck fuel c t)

-- A path with a second separator keeps the loop running for ever: no fuel is enough.
pub basename_two :
    (fuel c : ℕ) (dir middle base : List ℕ)
    → Lacks c dir
    → Lacks c middle
    → basename fuel (dir ++ c ∷ (middle ++ c ∷ base)) c ≡ unfinished
unfolding basename basename_from
basename_two zero c dir middle base hd hm = rw (strchr-append c dir (middle ++ c ∷ base) hd)
basename_two (suc fuel) c dir middle base hd hm =
    rw (strchr-append c dir (middle ++ c ∷ base) hd, strchr-append c middle base hm)
      (basename_from-stuck fuel c base)

-- A path with no separator makes it follow a null pointer.
pub basename_none : (fuel c : ℕ) (s : List ℕ) → Lacks c s → basename fuel s c ≡ crashed
unfolding basename
basename_none fuel c s h = rw (strchr-Lacks c s h)
