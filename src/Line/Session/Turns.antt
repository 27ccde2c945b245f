-- ===== src/Line/Session/Turns.antt =====
-- Schedules in a row, turns in a row, and the weight that they use up.
use mono.Prelude.{
  ℕ, zero, suc, ◌+◌, ◌≤◌, ◌≡◌, refl, ap, ◌∙◌, ◌⊎◌, inl, inr, Option, none, some, List, [], ◌∷◌,
  ◌++◌, arith, length,
}
use mono.Line.Session.{
  Call, Session, Stage, waiting, reading, ended, go_from, go, Event, irq, turn, happen, and_then,
  run_session,
}
use mono.Keyboard.Queue.{KeyQueue, press}
use mono.Line.Session.History.{history}
use mono.Line.Session.Track.{weight}

unfoldable pub turns : ℕ → List Event
turns zero = []
turns (suc n) = turn ∷ turns n

and_then_assoc :
    (o : Option Session) (f g k : Session → Option Session)
    → ((s : Session) → k s ≡ and_then (f s) g)
    → and_then o k ≡ and_then (and_then o f) g
and_then_assoc none f g k e = refl
and_then_assoc (some s) f g k e = e s

pub run_session-append :
    (c : Call) (es fs : List Event) (s : Session)
    → run_session c (es ++ fs) s ≡ and_then (run_session c es s) (run_session c fs)
unfolding run_session
run_session-append c [] fs s = refl
run_session-append c (e ∷ es) fs s =
    and_then_assoc (happen c e s) (run_session c es) (run_session c fs) (run_session c (es ++ fs))
      (λ s'. run_session-append c es fs s')

pub run_ended :
    (c : Call) (n : ℕ) (s : Session) → s.stage ≡ ended → run_session c (turns n) s ≡ some s
unfolding run_session turns happen go
run_ended c zero s e = refl
run_ended c (suc n) s e =
    ap (λ st. and_then (go_from c st s) (run_session c (turns n))) e ∙ run_ended c n s e

pub weight-zero : (st : Stage) (ws : List ℕ) → weight st ws ≡ 0 → (st ≡ ended) ⊎ (ws ≡ [])
weight-zero (waiting b) [] e = inr refl
weight-zero (waiting b) (w ∷ ws) e = absurd (omega arith)
weight-zero reading [] e = inr refl
weight-zero reading (w ∷ ws) e = absurd (omega arith)
weight-zero ended ws e = inl refl

pub weight-le : (st : Stage) (ws : List ℕ) → weight st ws ≤ length ws + 1
weight-le (waiting b) [] = omega arith
weight-le (waiting b) (w ∷ ws) = omega arith
weight-le reading ws = omega arith
weight-le ended ws = omega arith

pub append-nil : (xs ys : List ℕ) → ys ≡ [] → xs ++ ys ≡ xs
append-nil [] ys e = e
append-nil (x ∷ xs) ys e = ap (λ zs. x ∷ zs) (append-nil xs ys e)

-- Steps type nothing.
pub history-turns :
    (es : List Event) (n : ℕ) (q : KeyQueue) → history (es ++ turns n) q ≡ history es q
unfolding history turns
history-turns [] zero q = refl
history-turns [] (suc n) q = history-turns [] n q
history-turns (irq c ∷ es) n q = history-turns es n (press c q)
history-turns (turn ∷ es) n q = history-turns es n q
