-- ===== src/Kernel/Steps.antt =====
-- Steps of the kernel one after the other, and what `init_terminal` leaves alone.
use mono.Graphics.{draw_background}
use mono.Kernel.{Kernel, Step, next, ◌>=>◌}
use mono.Ports.{Access, Device}
use mono.Prelude.{ℕ, ◌-◌, ◌≡◌, refl, sym, subst, Option, none, some, List, for_range_inv}
use mono.Terminal.Init.{init_terminal, link_row}
use mono.Terminal.{Display}

-- The step ends without a fault in a state with the property.
abbrev pub Ends {ℓ} : (Kernel → Type ℓ) → Option Kernel × List Access → Type ℓ
Ends P r = (k : Kernel) × (r.0 ≡ some k) × P k

-- From each state with `P` the step ends in one with `Q`, whatever the device answers.
abbrev pub Leads {ℓ κ} : (Kernel → Type ℓ) → Step → (Kernel → Type κ) → Type (ℓ ⊔ κ)
Leads P f Q = (k : Kernel) (dev : Device) (log : List Access) → P k → Ends Q (f k dev log)

pub Ends-next {ℓ κ} :
    {P : Kernel → Type ℓ} {Q : Kernel → Type κ} (r : Option Kernel × List Access) (g : Step)
    (dev : Device)
    → Ends P r
    → Leads P g Q
    → Ends Q (next r.0 g dev r.1)
Ends-next {Q = Q} r g dev (k, e, p) leads =
    subst (λ o. Ends Q (next o g dev r.1)) (sym e) (leads k dev r.1 p)

pub Leads-then {ℓ κ μ} :
    {P : Kernel → Type ℓ} {Q : Kernel → Type κ} {R : Kernel → Type μ} (f g : Step)
    → Leads P f Q
    → Leads Q g R
    → Leads P (f >=> g) R
Leads-then f g first second k dev log p = Ends-next (f k dev log) g dev (first k dev log p) second

-- Where three steps follow one, in two groupings.
pub regrouped :
    (f g h : Step) (r : Option Kernel × List Access) (dev : Device)
    → next r.0 ((f >=> g) >=> h) dev r.1
      ≡ (let s = next r.0 f dev r.1 in next s.0 (g >=> h) dev s.1)
regrouped f g h r dev = at r.0
  where
    at :
        (o : Option Kernel)
        → next o ((f >=> g) >=> h) dev r.1
          ≡ (let s = next o f dev r.1 in next s.0 (g >=> h) dev s.1)
    at none = refl
    at (some k) = then_at (f k dev r.1).0 (f k dev r.1).1
      where
        then_at :
            (o : Option Kernel) (log : List Access)
            → (let s = next o g dev log in next s.0 h dev s.1) ≡ next o (g >=> h) dev log
        then_at none log = refl
        then_at (some k') log = refl

pub init_terminal-area :
    (rows columns background colour : ℕ) (s : Display × ℕ)
    → (init_terminal rows columns background colour s).0.area ≡ s.0.area
unfolding init_terminal
init_terminal-area rows columns background colour s =
    for_range_inv (λ (r : Display × ℕ). r.0.area ≡ s.0.area) (link_row s.1 columns) (rows - 1) 0 _
      (λ j r e. e) refl

pub init_terminal-memory :
    (rows columns background colour : ℕ) (s : Display × ℕ)
    → (init_terminal rows columns background colour s).0.memory
      ≡ draw_background background s.0.memory
unfolding init_terminal
init_terminal-memory rows columns background colour s =
    for_range_inv (λ (r : Display × ℕ). r.0.memory ≡ draw_background background s.0.memory)
      (link_row s.1 columns) (rows - 1) 0 _ (λ j r e. e) refl
