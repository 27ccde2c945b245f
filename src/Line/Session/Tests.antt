-- ===== src/Line/Session/Tests.antt =====
-- A session on a small terminal: "a", a half period of the cursor, the newline.
use mono.Prelude.{◌+◌, ◌<◌, ◌≡◌, refl, inl, inr, some, List, [], ◌∷◌, ◌++◌, arith, length}
use mono.Keyboard.Queue.{press, meaning}
use mono.Keyboard.Tables.{kbdus}
use mono.Line.Session.History.{history}
use mono.Line.Session.{Call, Session, ended, Event, irq, turn, run_session, start}
use mono.Line.Session.Frame.{Kept}
use mono.Line.Session.Keeps.{kgetline-Kept}
use mono.Line.Session.Live.{typed, kgetline-Tracks, kgetline_returns}
use mono.Line.Session.Open.{HasNewline, Tracks}
use mono.Line.Session.Turns.{turns}
use mono.Line.Tests.{room, editing, keyboard}
use mono.Terminal.Tests.{small, blank, sized}

abbrev call : Call
call = record { echo = 1; stack = 0x1000; buffer = 0x100000; capacity = 1 }

abbrev schedule : List Event
schedule = turn ∷ irq 30 ∷ turn ∷ turn ∷ irq 28 ∷ turn ∷ []

two_keys : (typed schedule keyboard).waiting ≡ (32768 + 30) ∷ (32768 + 28) ∷ []
unfolding history press meaning
two_keys = refl

few_keys : length (typed schedule keyboard).waiting < 255
few_keys = rw two_keys (omega arith)

has_newline : HasNewline (typed schedule keyboard).waiting
unfolding kbdus
has_newline = rw two_keys (inr (inl refl))

kgetline-Tracks_example :
    (s : Session) × (run_session call schedule (start keyboard small) ≡ some s)
    × Tracks 2 3 call blank (typed schedule keyboard) s
kgetline-Tracks_example =
    kgetline-Tracks 2 3 call blank sized (omega arith) room schedule keyboard small (4 ∷ 7 ∷ [])
      (omega arith) (omega arith) editing.console few_keys

kgetline_returns_example :
    (s : Session) × (run_session call (schedule ++ turns 256) (start keyboard small) ≡ some s)
    × (s.stage ≡ ended)
    × Tracks 2 3 call blank (typed schedule keyboard) s
kgetline_returns_example =
    kgetline_returns 2 3 call blank sized (omega arith) room schedule 256 keyboard small
      (4 ∷ 7 ∷ []) (omega arith) (omega arith) editing.console few_keys has_newline (omega arith)

kgetline-Kept_example :
    (s : Session) × (run_session call schedule (start keyboard small) ≡ some s)
    × Kept call small.memory s.display.memory
kgetline-Kept_example =
    kgetline-Kept 2 3 call blank sized (omega arith) room schedule keyboard small (4 ∷ 7 ∷ [])
      (omega arith) (omega arith) editing.console few_keys
