-- ===== src/Line/Session/History.antt =====
-- What was typed in a schedule: every key from the start on, with its modifiers.
use mono.Prelude.{ℕ, ◌≤◌, ◌≡◌, refl, ap, List, [], ◌∷◌, ◌++◌, arith, length, length-append}
use mono.Keyboard.Queue.{KeyQueue, Meaning, shift_to, ctrl_to, key, meaning, press_as, press}
use mono.Line.Session.{Event, irq, turn}
use mathlib.Core.List.{append_assoc}

unfoldable pub history : List Event → KeyQueue → KeyQueue
history [] q = q
history (irq c ∷ es) q = history es (press c q)
history (turn ∷ es) q = history es q

-- The queue with words before its own.
abbrev pub prefix : List ℕ → KeyQueue → KeyQueue
prefix xs q = record q { waiting = xs ++ q.waiting }

press_as-prefix :
    (m : Meaning) (c : ℕ) (xs : List ℕ) (q : KeyQueue)
    → press_as m c (prefix xs q) ≡ prefix xs (press_as m c q)
press_as-prefix (shift_to v) c xs q = refl
press_as-prefix (ctrl_to v) c xs q = refl
press_as-prefix key c xs q = ap (λ ws. record q { waiting = ws }) (simp append_assoc)

pub press-prefix :
    (c : ℕ) (xs : List ℕ) (q : KeyQueue) → press c (prefix xs q) ≡ prefix xs (press c q)
unfolding press
press-prefix c xs q = press_as-prefix (meaning c) c xs q

press_as_grows :
    (m : Meaning) (c : ℕ) (q : KeyQueue) → length q.waiting ≤ length (press_as m c q).waiting
press_as_grows (shift_to v) c q = omega arith
press_as_grows (ctrl_to v) c q = omega arith
press_as_grows key c q = omega (arith, length-append q.waiting)

pub press_grows : (c : ℕ) (q : KeyQueue) → length q.waiting ≤ length (press c q).waiting
unfolding press
press_grows c q = press_as_grows (meaning c) c q

pub history_grows :
    (es : List Event) (q : KeyQueue) → length q.waiting ≤ length (history es q).waiting
unfolding history
history_grows [] q = omega arith
history_grows (irq c ∷ es) q = omega (arith, history_grows es (press c q), press_grows c q)
history_grows (turn ∷ es) q = history_grows es q
