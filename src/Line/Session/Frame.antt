-- ===== src/Line/Session/Frame.antt =====
-- What kgetline leaves alone: all memory but the frame buffer, its small array and its buffer.
use mono.Prelude.{
  ℕ, ◌+◌, ◌%◌, ◌^◌, ◌≤◌, ◌<◌, ◌≡◌, ◌≢◌, refl, sym, ap, subst, ◌∙◌, ◌⊎◌, inl, inr, Bool, true, false,
  ◌||◌, Bool-cases, Option, none, some, List, [], ◌∷◌, length, arith, ◌==◌, ==_of_eq, ==_of_ne,
  if◌then◌else◌, ℕ_discrete,
}
use mono.Graphics.Frame.{OutFrame}
use mono.Keyboard.{Keyboard, take_scancode}
use mono.Keyboard.Queue.{KeyQueue, press}
use mono.Keyboard.Tables.{kbdus}
use mono.Line.{
  Line, fault, typing, entered, in_memory, typing_at, typed_char, echo_one, handle_word, end_line,
}
use mono.Line.Echo.{Echoes, Shows-in_memory, put_one-Echoes, echo_one-Echoes}
use mono.Line.End.{done_display, done_display-Console}
use mono.Line.Session.{
  Call, Session, Stage, waiting, reading, ended, drawn, returned, after_word, read, go_from, go,
  Event, irq, turn, happen, and_then, run_session,
}
use mono.Line.Session.History.{history, history_grows, press_grows}
use mono.Line.Session.Open.{line_of, sheet_of, TracksAt, Tracks}
use mono.Line.Session.Step.{go-Goes}
use mono.Line.Session.Track.{Goes, irq-Tracks, with_cursor-Shows}
use mono.Line.Typing.{Room, Editing, typed_char_low, typed_char_there}
use mono.Memory.{Memory, write}
use mono.Terminal.{Display, refresh_terminal}
use mono.Terminal.Message.{Draws, refresh_terminal-Draws}
use mono.Terminal.Sheet.{Sheet, Sized}
use mono.Line.Session.{with_cursor}

-- `m'` is `m` outside what a call of kgetline may write.
abbrev pub Kept : Call → Memory → Memory → Type 0
Kept c m m' =
    (a : ℕ)
    → OutFrame a
    → a ≢ c.stack
    → a ≢ c.stack + 1
    → (a < c.buffer) ⊎ (c.buffer + c.capacity + 2 ≤ a)
    → m' a ≡ m a

-- The same of outcomes; a fault has written nothing more.
abbrev KeptDisplay : Call → Memory → Option Display → Type 0
KeptDisplay c m none = Unit {0}
KeptDisplay c m (some d) = Kept c m d.memory

abbrev KeptLine : Call → Memory → Line → Type 0
KeptLine c m fault = Unit {0}
KeptLine c m (typing len d) = Kept c m d.memory
KeptLine c m (entered len d) = ⊥

abbrev pub KeptSession : Call → Memory → Option Session → Type 0
KeptSession c m none = Unit {0}
KeptSession c m (some s) = Kept c m s.display.memory

module _ (rows columns : ℕ) (z : Sized rows columns) (small : (rows ≤ 21) × (columns ≤ 36))
    (c : Call) (room : Room c.stack c.buffer c.capacity) where
  from_echo :
      {m : Memory} (d : Display) (o : Option Display) (t : Sheet)
      → Kept c m d.memory
      → Echoes rows columns c.stack d o t
      → KeptDisplay c m o
  from_echo {m} d o t k (ns, d', e, console, same) =
      subst (KeptDisplay c m) (sym e) (λ a out n1 n2 away. same a out n1 n2 ∙ k a out n1 n2 away)

  typing_at-Kept :
      (m : Memory) (len : ℕ) (o : Option Display)
      → KeptDisplay c m o
      → KeptLine c m (typing_at len o)
  typing_at-Kept m len none k = tt
  typing_at-Kept m len (some d) k = k

  stored_char-Kept :
      (ns : List ℕ) (d : Display) (line : List ℕ) (s : Sheet) (ch : ℕ)
      → Editing rows columns c.buffer c.capacity ns d line s
      → ch ≢ 0
      → ch < 128
      → length line ≢ c.capacity + 1
      → KeptDisplay c d.memory
          (echo_one c.echo c.stack ch (in_memory (λ m. write m (c.buffer + length line) ch) d))
  stored_char-Kept ns d line s ch h ne low not_full =
      from_echo (in_memory (λ m. write m (c.buffer + length line) ch) d) _ _
        (λ a out n1 n2 away. ground (arith, h.bound))
        (echo_one-Echoes rows columns z small c.echo c.stack ch ns
          (in_memory (λ m. write m (c.buffer + length line) ch) d) s room.stack_out ne low
          (record {
            shows =
                Shows-in_memory rows columns ns (λ m. write m (c.buffer + length line) ch) d s
                  h.console.shows;
            placed = h.console.placed;
            saved = h.console.saved;
          }))

  erase-Kept :
      (ns : List ℕ) (d : Display) (line : List ℕ) (s : Sheet)
      → Editing rows columns c.buffer c.capacity ns d line s
      → KeptDisplay c d.memory (echo_one c.echo c.stack 8 d)
  erase-Kept ns d line s h =
      from_echo d (echo_one c.echo c.stack 8 d) _ (λ a out n1 n2 away. refl)
        (echo_one-Echoes rows columns z small c.echo c.stack 8 ns d s room.stack_out (omega arith)
          (omega arith) h.console)

  KeptLine-if :
      (x : Bool) (m : Memory) (l l' : Line)
      → KeptLine c m l
      → KeptLine c m l'
      → KeptLine c m (if x then l else l')
  KeptLine-if true m l l' k k' = k
  KeptLine-if false m l l' k k' = k'

  handle_word-Kept :
      (word : ℕ) (ns : List ℕ) (d : Display) (line : List ℕ) (s : Sheet)
      → kbdus (word % 256) ≢ 10
      → Editing rows columns c.buffer c.capacity ns d line s
      → KeptLine c d.memory (handle_word c.echo c.stack c.buffer c.capacity word (length line) d)
  unfolding handle_word
  handle_word-Kept word ns d line s ne h = rw (==_of_ne (kbdus (word % 256)) 10 ne) (
      KeptLine-if (kbdus (word % 256) == 8) d.memory _ _
        (KeptLine-if (length line == 0) d.memory _ _ (λ a out n1 n2 away. refl)
          (typing_at-Kept d.memory ((length line + 65535) % 2 ^ 16) _ (erase-Kept ns d line s h)))
        (elim (Bool-cases (kbdus (word % 256) == 0 || length line == c.capacity + 1)) [
          | inl kept ↦ rw kept (λ a out n1 n2 away. refl)
          | inr space ↦ rw space (
              typing_at-Kept d.memory ((length line + 1) % 2 ^ 16) _ (
                stored_char-Kept ns d line s (typed_char word) h
                  (typed_char_there word (ground arith)) (typed_char_low word) (ground arith)))
        ]))

  end_line-Kept :
      (ns : List ℕ) (d : Display) (line : List ℕ) (s : Sheet)
      → Editing rows columns c.buffer c.capacity ns d line s
      → KeptDisplay c d.memory (end_line c.stack c.buffer (length line) d)
  unfolding end_line
  end_line-Kept ns d line s h =
      from_echo (done_display (c.buffer + length line) d) _ _
        (λ a out n1 n2 away. ground (arith, h.bound))
        (put_one-Echoes rows columns z small c.stack 10 ns (done_display (c.buffer + length line) d)
          s room.stack_out (omega arith) (omega arith)
          (done_display-Console rows columns (c.buffer + length line) ns d s h.console))

  drawn-Kept :
      (m : Memory) (b : Bool) (s : Session) (d : Display) (o : Option Display) (t : Sheet)
      → d.memory ≡ m
      → Draws rows columns d o t
      → KeptSession c m (drawn b s o)
  drawn-Kept m b s d o t same (ns', d', e, shows, framed) =
      subst (λ q. KeptSession c m (drawn b s q)) (sym e)
        (λ a out n1 n2 away. framed.memory a out ∙ ap (λ (f : Memory). f a) same)

  returned-Kept :
      (m : Memory) (s : Session) (o : Option Display)
      → KeptDisplay c m o
      → KeptSession c m (returned s o)
  returned-Kept m s none k = tt
  returned-Kept m s (some d) k = k

  after_word-Kept :
      (m : Memory) (s : Session) (l : Line) → KeptLine c m l → KeptSession c m (after_word c s l)
  after_word-Kept m s fault k = tt
  after_word-Kept m s (typing len d) k = k
  after_word-Kept m s (entered len d) k = absurd k

  KeptSession-if :
      (x : Bool) (m : Memory) (o o' : Option Session)
      → KeptSession c m o
      → KeptSession c m o'
      → KeptSession c m (if x then o else o')
  KeptSession-if true m o o' k k' = k
  KeptSession-if false m o o' k k' = k'

  read-Kept :
      (s : Session) (p : Option (ℕ × Keyboard)) (ns line : List ℕ) (sheet : Sheet)
      → s.len ≡ length line
      → Editing rows columns c.buffer c.capacity ns s.display line sheet
      → KeptSession c s.display.memory (read c s p)
  read-Kept s none ns line sheet e h = λ a out n1 n2 away. refl
  read-Kept s (some (w, k')) ns line sheet e h =
      subst
        (λ n. KeptSession c s.display.memory (
          after_word c (record s { keyboard = k' })
            (handle_word c.echo c.stack c.buffer c.capacity w n s.display)))
        (sym e)
        (elim (ℕ_discrete (kbdus (w % 256)) 10) [
          | yes newline ↦
              subst
                (λ l. KeptSession c s.display.memory (after_word c (record s { keyboard = k' }) l))
                (sym (entered_is newline))
                (returned-Kept s.display.memory (record s { keyboard = k'; len = length line }) _
                  (end_line-Kept ns s.display line sheet h))
          | no other ↦
              after_word-Kept s.display.memory (record s { keyboard = k' }) _
                (handle_word-Kept w ns s.display line sheet other h)
        ])
    where
      entered_is :
          kbdus (w % 256) ≡ 10
          → handle_word c.echo c.stack c.buffer c.capacity w (length line) s.display
            ≡ entered (length line) s.display
      entered_is newline = unfold handle_word in rw (==_of_eq (kbdus (w % 256)) 10 newline) refl

  module _ (sheet : Sheet) where
    go_from-Kept :
        (st : Stage) (h : KeyQueue) (s : Session)
        → TracksAt rows columns c sheet st h s
        → KeptSession c s.display.memory (go_from c st s)
    go_from-Kept (waiting b) h s (consumed, ns, o) =
        KeptSession-if (s.keyboard.read == s.keyboard.write) s.display.memory _ _
          (drawn-Kept s.display.memory b s (with_cursor b s.display)
            (refresh_terminal false (with_cursor b s.display))
            (sheet_of rows columns c sheet consumed) refl
            (refresh_terminal-Draws rows columns z small false ns (with_cursor b s.display)
              (sheet_of rows columns c sheet consumed)
              (with_cursor-Shows rows columns ns b s.display
                (sheet_of rows columns c sheet consumed) o.editing.console.shows)
              o.editing.console.saved))
          (λ a out n1 n2 away. refl)
    go_from-Kept reading h s (consumed, ns, o) =
        read-Kept s (take_scancode s.keyboard) ns (line_of c consumed)
          (sheet_of rows columns c sheet consumed) o.len_is o.editing
    go_from-Kept ended h s t = λ a out n1 n2 away. refl

    Kept-trans : {m1 m2 m3 : Memory} → Kept c m1 m2 → Kept c m2 m3 → Kept c m1 m3
    Kept-trans k k' a out n1 n2 away = k' a out n1 n2 away ∙ k a out n1 n2 away

    go-Kept :
        (h : KeyQueue) (s : Session)
        → Tracks rows columns c sheet h s
        → KeptSession c s.display.memory (go c s)
    unfolding go
    go-Kept h s t = go_from-Kept s.stage h s t

    onward :
        (es : List Event) (h : KeyQueue) (s : Session) (m : Memory) (o : Option Session)
        → Kept c m s.display.memory
        → Goes rows columns c sheet h s o
        → KeptSession c s.display.memory o
        → ((s' : Session)
            → Tracks rows columns c sheet h s'
            → Kept c m s'.display.memory
            → KeptSession c m (run_session c es s'))
        → KeptSession c m (and_then o (run_session c es))
    onward es h s m o k (s', e, t', progress) kept rest =
        subst (λ q. KeptSession c m (and_then q (run_session c es))) (sym e)
          (rest s' t' (Kept-trans k (subst (KeptSession c s.display.memory) e kept)))

    -- In every schedule in which fewer than 255 keys are typed, a session of `kgetline` writes nothing
    -- but the frame buffer, the two bytes of the small array, and `capacity + 2` bytes from the buffer
    -- on.
    pub run_session-Kept :
        (es : List Event) (h : KeyQueue) (s : Session) (m : Memory)
        → length (history es h).waiting < 255
        → Tracks rows columns c sheet h s
        → Kept c m s.display.memory
        → KeptSession c m (run_session c es s)
    unfolding run_session happen history
    run_session-Kept [] h s m space t k = k
    run_session-Kept (irq code ∷ es) h s m space t k =
        run_session-Kept es (press code h) _ m space
          (irq-Tracks rows columns c sheet code h s
            (omega (arith, history_grows es (press code h), press_grows code h)) t)
          k
    run_session-Kept (turn ∷ es) h s m space t k =
        onward es h s m (go c s) k (go-Goes rows columns c sheet z small room h s t) (go-Kept h s t)
          (λ s' t' k'. run_session-Kept es h s' m space t' k')
