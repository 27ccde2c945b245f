-- ===== src/Line/Session/Keeps.antt =====
-- The whole of kgetline writes only where it may.
use mono.Prelude.{ℕ, ◌≤◌, ◌<◌, ◌≡◌, refl, subst, some, List, [], length}
use mono.Keyboard.{Keyboard}
use mono.Line.Echo.{Console}
use mono.Line.Session.{Call, Session, Event, run_session, start}
use mono.Line.Session.Frame.{Kept, KeptSession, run_session-Kept}
use mono.Line.Session.History.{history}
use mono.Line.Session.Live.{typed, start-Tracks, kgetline-Tracks}
use mono.Line.Session.Open.{Tracks}
use mono.Line.Typing.{Room}
use mono.Terminal.{Display}
use mono.Terminal.Sheet.{Sheet, Sized}

module _ (rows columns : ℕ) (c : Call) (sheet : Sheet) (z : Sized rows columns)
    (small : (rows ≤ 21) × (columns ≤ 36)) (room : Room c.stack c.buffer c.capacity) where
  ended_with :
      (es : List Event) (k : Keyboard) (d : Display)
      → (s : Session) × (run_session c es (start k d) ≡ some s)
        × Tracks rows columns c sheet (typed es k) s
      → KeptSession c d.memory (run_session c es (start k d))
      → (s : Session) × (run_session c es (start k d) ≡ some s) × Kept c d.memory s.display.memory
  ended_with es k d (s, e, t) kept = (s, e, subst (KeptSession c d.memory) e kept)

  -- On a screen of two to 21 rows and one to 36 columns, with the buffer and the small array outside the
  -- frame buffer and apart: in every schedule of interrupts and steps in which fewer than 255 keys are
  -- typed, `kgetline` changes no byte but those of the frame buffer, the two of its small array, and
  -- the `capacity + 2` from its buffer on.
  pub kgetline-Kept :
      (es : List Event) (k : Keyboard) (d : Display) (ns : List ℕ)
      → k.shift < 2
      → k.ctrl < 2
      → Console rows columns ns d sheet
      → length (typed es k).waiting < 255
      → (s : Session) × (run_session c es (start k d) ≡ some s) × Kept c d.memory s.display.memory
  unfolding history
  kgetline-Kept es k d ns shift ctrl console space =
      ended_with es k d
        (kgetline-Tracks rows columns c sheet z small room es k d ns shift ctrl console space)
        (run_session-Kept rows columns z small c room sheet es (typed [] k) (start k d) d.memory
          space (start-Tracks rows columns c sheet z small room k d ns shift ctrl console)
          (λ a out n1 n2 away. refl))
