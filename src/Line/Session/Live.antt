-- ===== src/Line/Session/Live.antt =====
-- Every schedule, and schedules in which a newline was typed.
use mono.Prelude.{
  ℕ, zero, suc, ◌≤◌, ◌<◌, ◌≡◌, refl, sym, ap, subst, ◌∙◌, inl, inr, Option, some, List, [], ◌∷◌,
  ◌++◌, arith, length, length-append,
}
use mono.Keyboard.{Keyboard}
use mono.Keyboard.Queue.{KeyQueue, queue_of, press}
use mono.Keyboard.Ring.{window, pending}
use mono.Line.Echo.{Console}
use mono.Line.Session.{
  Call, Session, Stage, waiting, reading, ended, go, Event, irq, turn, happen, and_then,
  run_session, start,
}
use mono.Line.Session.History.{history, prefix, history_grows, press_grows}
use mono.Line.Session.Open.{
  HasNewline, not-HasNewline, typed_line, typed_sheet, SomeOpen, TracksAt, Tracks,
}
use mono.Line.Session.Track.{Goes, measure, weight, irq-Tracks}
use mono.Line.Session.Step.{go-Goes}
use mono.Line.Session.Turns.{
  turns, run_session-append, run_ended, weight-zero, weight-le, append-nil,
}
use mono.Line.Typing.{Room}
use mono.Terminal.{Display}
use mono.Terminal.Sheet.{Sheet, Sized}

-- What is typed from the call on.
abbrev pub typed : List Event → Keyboard → KeyQueue
typed es k = history es (record { waiting = []; shift = k.shift; ctrl = k.ctrl })

-- The ring holds no more than the whole history.
pending-le :
    (h : KeyQueue) (xs : List ℕ) (k : Keyboard)
    → h ≡ prefix xs (queue_of k)
    → length (pending k) ≤ length h.waiting
pending-le h xs k e =
    let total : length h.waiting ≡ length (xs ++ pending k) =
      ap (λ (q : KeyQueue). length q.waiting) e in
    omega (arith, length-append xs (pending k))

module _ (rows columns : ℕ) (c : Call) (sheet : Sheet) (z : Sized rows columns)
    (small : (rows ≤ 21) × (columns ≤ 36)) (room : Room c.stack c.buffer c.capacity) where
  -- The events end without a fault, where the history takes them.
  Ends : List Event → KeyQueue → Option Session → Type 0
  Ends es h o = (s' : Session) × (o ≡ some s') × Tracks rows columns c sheet (history es h) s'

  onward :
      (es : List Event) (h : KeyQueue) (s : Session) (o : Option Session)
      → Goes rows columns c sheet h s o
      → ((s' : Session) → Tracks rows columns c sheet h s' → Ends es h (run_session c es s'))
      → Ends es h (and_then o (run_session c es))
  unfolding Ends
  onward es h s o (s', e, t, p) next =
      subst (λ o'. Ends es h (and_then o' (run_session c es))) (sym e) (next s' t)

  run_session-Ends :
      (es : List Event) (h : KeyQueue) (s : Session)
      → length (history es h).waiting < 255
      → Tracks rows columns c sheet h s
      → Ends es h (run_session c es s)
  unfolding run_session happen history Ends
  run_session-Ends [] h s space t = (s, refl, t)
  run_session-Ends (irq code ∷ es) h s space t = run_session-Ends es (press code h) _ space (
      irq-Tracks rows columns c sheet code h s
        (omega (arith, history_grows es (press code h), press_grows code h)) t)
  run_session-Ends (turn ∷ es) h s space t =
      onward es h s (go c s) (go-Goes rows columns c sheet z small room h s t)
        (λ s' t'. run_session-Ends es h s' space t')

  -- A newline that is still in the ring leaves something to do.
  newline_left :
      (h : KeyQueue) (s : Session)
      → SomeOpen rows columns c sheet h s
      → pending s.keyboard ≡ []
      → ¬ HasNewline h.waiting
  newline_left h s (consumed, ns, o) e n = not-HasNewline consumed o.no_newline (
      subst HasNewline
        (ap (λ (q : KeyQueue). q.waiting) o.history ∙ append-nil consumed (pending s.keyboard) e) n)

  done_at :
      (st : Stage) (h : KeyQueue) (s : Session)
      → TracksAt rows columns c sheet st h s
      → HasNewline h.waiting
      → weight st (pending s.keyboard) ≡ 0
      → st ≡ ended
  done_at (waiting b) h s t n e = elim (weight-zero (waiting b) (pending s.keyboard) e) [
    | inl over ↦ over
    | inr empty ↦ absurd (newline_left h s t empty n)
  ]
  done_at reading h s t n e = elim (weight-zero reading (pending s.keyboard) e) [
    | inl over ↦ over
    | inr empty ↦ absurd (newline_left h s t empty n)
  ]
  done_at ended h s t n e = refl

  Tracks-pending-le :
      (st : Stage) (h : KeyQueue) (s : Session)
      → TracksAt rows columns c sheet st h s
      → length (pending s.keyboard) ≤ length h.waiting
  Tracks-pending-le (waiting b) h s (consumed, ns, o) = pending-le h consumed s.keyboard o.history
  Tracks-pending-le reading h s (consumed, ns, o) = pending-le h consumed s.keyboard o.history
  Tracks-pending-le ended h s (consumed, w, ns, o) =
      pending-le h (consumed ++ w ∷ []) s.keyboard o.history

  -- It returns.
  Returns : KeyQueue → Option Session → Type 0
  Returns h o =
      (s' : Session) × (o ≡ some s') × (s'.stage ≡ ended) × Tracks rows columns c sheet h s'

  drive_on :
      (h : KeyQueue) (n : ℕ) (s : Session) (o : Option Session)
      → Goes rows columns c sheet h s o
      → measure s ≤ suc n
      → ((measure s ≡ 0) → Returns h (and_then o (run_session c (turns n))))
      → ((s' : Session)
          → Tracks rows columns c sheet h s'
          → measure s' ≤ n
          → Returns h (run_session c (turns n) s'))
      → Returns h (and_then o (run_session c (turns n)))
  unfolding Returns
  drive_on h n s o (s', e, t, inl over) m stop next = stop over
  drive_on h n s o (s', e, t, inr less) m stop next =
      subst (λ o'. Returns h (and_then o' (run_session c (turns n)))) (sym e)
        (next s' t (omega (arith, less)))

  drive :
      (n : ℕ) (h : KeyQueue) (s : Session)
      → Tracks rows columns c sheet h s
      → HasNewline h.waiting
      → measure s ≤ n
      → Returns h (run_session c (turns n) s)
  unfolding Returns run_session turns happen
  drive zero h s t newline m = (s, refl, done_at s.stage h s t newline (omega arith), t)
  drive (suc n) h s t newline m =
      drive_on h n s (go c s) (go-Goes rows columns c sheet z small room h s t) m
        (λ over.
          let stopped : s.stage ≡ ended = done_at s.stage h s t newline over in
          (s, run_ended c (suc n) s stopped, stopped, t))
        (λ s' t' m'. drive n h s' t' newline m')

  pub start-Tracks :
      (k : Keyboard) (d : Display) (ns : List ℕ)
      → k.shift < 2
      → k.ctrl < 2
      → Console rows columns ns d sheet
      → Tracks rows columns c sheet (typed [] k) (start k d)
  unfolding typed_line typed_sheet history window
  start-Tracks k d ns shift ctrl console = (
    [],
    ns,
    record {
      history = refl;
      no_newline = tt;
      valid = omega arith;
      len_is = refl;
      editing = record { text = tt; bound = omega arith; console = console };
    },
  )

  -- On a screen of two to 21 rows and one to 36 columns that shows a sheet with its cursor placed, with
  -- no saved square or one on the screen, and with the buffer and the stack outside the frame buffer and
  -- apart: in every schedule of interrupts and steps in which fewer than 255 keys are typed, `kgetline`
  -- does not fault. Until it returns, it has read some of the keys, none the newline, the rest waits in
  -- the ring, and the buffer and the screen show the line as those keys edit it. When it has returned, it
  -- has read exactly one newline more, and the buffer holds the line with a zero behind it.
  pub kgetline-Tracks :
      (es : List Event) (k : Keyboard) (d : Display) (ns : List ℕ)
      → k.shift < 2
      → k.ctrl < 2
      → Console rows columns ns d sheet
      → length (typed es k).waiting < 255
      → (s : Session) × (run_session c es (start k d) ≡ some s)
        × Tracks rows columns c sheet (typed es k) s
  unfolding Ends history
  kgetline-Tracks es k d ns shift ctrl console space =
      run_session-Ends es (typed [] k) (start k d) space (start-Tracks k d ns shift ctrl console)

  -- On a screen of two to 21 rows and one to 36 columns, with the buffer and the small array outside
  -- the frame buffer and apart: in every schedule of interrupts and steps in which fewer than 255 keys
  -- are typed, a newline among them, `kgetline` has returned after 256 further steps. The buffer then
  -- holds the line that the keys before the first newline make, with a zero behind it, and the keys
  -- behind the newline wait in the ring.
  pub kgetline_returns :
      (es : List Event) (n : ℕ) (k : Keyboard) (d : Display) (ns : List ℕ)
      → k.shift < 2
      → k.ctrl < 2
      → Console rows columns ns d sheet
      → length (typed es k).waiting < 255
      → HasNewline (typed es k).waiting
      → 256 ≤ n
      → (s : Session) × (run_session c (es ++ turns n) (start k d) ≡ some s)
        × (s.stage ≡ ended)
        × Tracks rows columns c sheet (typed es k) s
  unfolding Returns
  kgetline_returns es n k d ns shift ctrl console space newline enough =
      after_all (kgetline-Tracks es k d ns shift ctrl console space)
    where
      short : (s : Session) → Tracks rows columns c sheet (typed es k) s → measure s ≤ n
      short s t = omega (
        arith,
        weight-le s.stage (pending s.keyboard),
        Tracks-pending-le s.stage (typed es k) s t,
      )

      after_all :
          (s : Session) × (run_session c es (start k d) ≡ some s)
            × Tracks rows columns c sheet (typed es k) s
          → Returns (typed es k) (run_session c (es ++ turns n) (start k d))
      after_all (s, e, t) =
          subst (λ o. Returns (typed es k) o)
            (sym (
              run_session-append c es (turns n) (start k d)
              ∙ ap (λ o. and_then o (run_session c (turns n))) e))
            (drive n (typed es k) s t newline (short s t))
