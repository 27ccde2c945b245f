-- ===== src/Line/Session/Track.antt =====
-- Whatever happens, a session stays where the history of keys takes it.
use mathlib.Core.List.{append_assoc}
use mono.Prelude.{
  ℕ, suc, ◌+◌, ◌≤◌, ◌<◌, ◌≡◌, refl, sym, ap, ◌∙◌, ◌⊎◌, inl, inr, Bool, true, false, Option, some,
  List, [], ◌∷◌, ◌++◌, arith, ◌==◌, length, length-append, Bool-cases,
}
use mono.Keyboard.{Keyboard, process_scancode}
use mono.Keyboard.Queue.{KeyQueue, queue_of, press, process_scancode-press}
use mono.Keyboard.Ring.{
  IsValid, window, pending, pending_count, length-window, process_scancode-IsValid,
}
use mono.Line.Edit.{HasBytes-same}
use mono.Line.Session.{Call, Session, Stage, waiting, reading, ended, with_cursor, not, drawn, wait}
use mono.Line.Session.History.{prefix, press-prefix}
use mono.Line.Session.Open.{line_of, sheet_of, Open, Closed, TracksAt, Tracks}
use mono.Line.Typing.{Room}
use mono.Terminal.{Display, refresh_terminal}
use mono.Terminal.Message.{Draws, refresh_terminal-Draws}
use mono.Terminal.Sheet.{Sheet, Sized, Shows}

-- How many turns are left until the ring is read.
abbrev pub weight : Stage → List ℕ → ℕ
weight (waiting b) [] = 0
weight (waiting b) (w ∷ ws) = suc (suc (length ws))
weight reading ws = length ws
weight ended ws = 0

abbrev pub measure : Session → ℕ
measure s = weight s.stage (pending s.keyboard)

-- Nothing was left to read, or less is.
abbrev pub Progress : Session → Session → Type 0
Progress s s' = (measure s ≡ 0) ⊎ (measure s' < measure s)

wait_progress :
    (b : Bool) (ws : List ℕ)
    → (weight (waiting b) ws ≡ 0) ⊎ (weight reading ws < weight (waiting b) ws)
wait_progress b [] = inl refl
wait_progress b (w ∷ ws) = inr (omega arith)

pending_empty : (k : Keyboard) → IsValid k → (k.read == k.write) ≡ true → pending k ≡ []
unfolding window
pending_empty k v e =
    let none_left : pending_count k ≡ 0 = ground arith in ap (window k.buffer k.read) none_left

pub weight_empty : (st : Stage) (ws : List ℕ) → ws ≡ [] → weight st ws ≡ 0
weight_empty (waiting b) [] e = refl
weight_empty (waiting b) (w ∷ ws) e = cc
weight_empty reading ws e = ap length e
weight_empty ended ws e = refl

room_left :
    (h : KeyQueue) (consumed : List ℕ) (k : Keyboard)
    → h ≡ prefix consumed (queue_of k)
    → length h.waiting < 255
    → pending_count k < 255
room_left h consumed k e space =
    let total : length h.waiting ≡ length (consumed ++ pending k) =
      ap (λ (q : KeyQueue). length q.waiting) e in
    let ours : length (pending k) ≡ pending_count k =
      length-window k.buffer k.read (pending_count k) in
    omega (arith, length-append consumed (pending k))

-- The oldest word leaves the ring for the words that are read.
pub taken :
    (h : KeyQueue) (consumed : List ℕ) (w : ℕ) (k k' : Keyboard)
    → h ≡ prefix consumed (queue_of k)
    → pending k ≡ w ∷ pending k'
    → k' ≡ record k { read = k'.read }
    → h ≡ prefix (consumed ++ w ∷ []) (queue_of k')
taken h consumed w k k' e t same =
    let same_shift : k'.shift ≡ k.shift = ap (λ (r : Keyboard). r.shift) same in
    let same_ctrl : k'.ctrl ≡ k.ctrl = ap (λ (r : Keyboard). r.ctrl) same in
    let words : consumed ++ pending k ≡ (consumed ++ w ∷ []) ++ pending k' =
      ap (λ ws. consumed ++ ws) t ∙ simp append_assoc in
    e ∙ ground arith

pub with_cursor-Shows :
    (rows columns : ℕ) (ns : List ℕ) (b : Bool) (d : Display) (s : Sheet)
    → Shows rows columns ns d s
    → Shows rows columns ns (with_cursor b d) s
with_cursor-Shows rows columns ns b d s h = record {
  chain = h.chain;
  distinct = h.distinct;
  count = h.count;
  rows_is = h.rows_is;
  columns_is = h.columns_is;
  x_is = h.x_is;
  y_is = h.y_is;
  colour_is = h.colour_is;
  cells = h.cells;
}

abbrev pub at_stage : Stage → Keyboard → ℕ → Display → Session
at_stage st k len d = record { stage = st; keyboard = k; len = len; display = d }

module _ (rows columns : ℕ) (c : Call) (sheet : Sheet) where
  -- An interrupt, with room in the ring.
  irq-Open :
      (code : ℕ) (consumed ns : List ℕ) (h : KeyQueue) (s : Session)
      → length h.waiting < 255
      → Open rows columns c sheet consumed ns h s
      → Open rows columns c sheet consumed ns
          (press code h)
          (record s { keyboard = (process_scancode code s.keyboard).1 })
  irq-Open code consumed ns h s space o = record {
    history =
        ap (press code) o.history
        ∙ press-prefix code consumed (queue_of s.keyboard)
        ∙ ap (prefix consumed) (
            sym (
              process_scancode-press code o.valid
                (room_left h consumed s.keyboard o.history space)));
    no_newline = o.no_newline;
    valid = process_scancode-IsValid code o.valid;
    len_is = o.len_is;
    editing = o.editing;
  }

  irq-Closed :
      (code : ℕ) (consumed : List ℕ) (w : ℕ) (ns : List ℕ) (h : KeyQueue) (s : Session)
      → length h.waiting < 255
      → Closed rows columns c sheet consumed w ns h s
      → Closed rows columns c sheet consumed w ns
          (press code h)
          (record s { keyboard = (process_scancode code s.keyboard).1 })
  irq-Closed code consumed w ns h s space o = record {
    history =
        ap (press code) o.history
        ∙ press-prefix code (consumed ++ w ∷ []) (queue_of s.keyboard)
        ∙ ap (prefix (consumed ++ w ∷ [])) (
            sym (
              process_scancode-press code o.valid
                (room_left h (consumed ++ w ∷ []) s.keyboard o.history space)));
    no_newline = o.no_newline;
    newline = o.newline;
    valid = process_scancode-IsValid code o.valid;
    len_is = o.len_is;
    console = o.console;
    text = o.text;
  }

  irq_at :
      (st : Stage) (code : ℕ) (h : KeyQueue) (s : Session)
      → length h.waiting < 255
      → TracksAt rows columns c sheet st h s
      → TracksAt rows columns c sheet st
          (press code h)
          (record s { keyboard = (process_scancode code s.keyboard).1 })
  irq_at (waiting b) code h s space (consumed, ns, o) =
      (consumed, ns, irq-Open code consumed ns h s space o)
  irq_at reading code h s space (consumed, ns, o) =
      (consumed, ns, irq-Open code consumed ns h s space o)
  irq_at ended code h s space (consumed, w, ns, o) =
      (consumed, w, ns, irq-Closed code consumed w ns h s space o)

  pub irq-Tracks :
      (code : ℕ) (h : KeyQueue) (s : Session)
      → length h.waiting < 255
      → Tracks rows columns c sheet h s
      → Tracks rows columns c sheet
          (press code h)
          (record s { keyboard = (process_scancode code s.keyboard).1 })
  irq-Tracks code h s space t = irq_at s.stage code h s space t

  -- The next step is no fault, and the session is where it should be.
  abbrev pub Goes : KeyQueue → Session → Option Session → Type 0
  Goes h s o = (s' : Session) × (o ≡ some s') × Tracks rows columns c sheet h s' × Progress s s'

  module _ (z : Sized rows columns) (small : (rows ≤ 21) × (columns ≤ 36))
      (room : Room c.stack c.buffer c.capacity) where
    blink_step :
        (b : Bool) (k : Keyboard) (len : ℕ) (d : Display) (consumed ns : List ℕ) (h : KeyQueue)
        → (k.read == k.write) ≡ true
        → Open rows columns c sheet consumed ns h (at_stage (waiting b) k len d)
        → Goes h
            (at_stage (waiting b) k len d)
            (drawn b (at_stage (waiting b) k len d) (refresh_terminal false (with_cursor b d)))
    blink_step b k len d consumed ns h empty o = wrap (
        refresh_terminal-Draws rows columns z small false ns (with_cursor b d)
          (sheet_of rows columns c sheet consumed)
          (with_cursor-Shows rows columns ns b d (sheet_of rows columns c sheet consumed)
            o.editing.console.shows)
          o.editing.console.saved)
      where
        wrap :
            {o' : Option Display}
            → Draws rows columns (with_cursor b d) o' (sheet_of rows columns c sheet consumed)
            → Goes h (at_stage (waiting b) k len d) (drawn b (at_stage (waiting b) k len d) o')
        wrap (ns', d', e, shows, framed) = (
          at_stage (waiting (not b)) k len d',
          ap (drawn b (at_stage (waiting b) k len d)) e,
          (
            consumed,
            ns',
            record {
              history = o.history;
              no_newline = o.no_newline;
              valid = o.valid;
              len_is = o.len_is;
              editing = record {
                text =
                    HasBytes-same d.memory d'.memory c.buffer (line_of c consumed)
                      (λ i l.
                        framed.memory (c.buffer + i)
                          (omega (arith, room.buffer_out, o.editing.bound)))
                      o.editing.text;
                bound = o.editing.bound;
                console = record {
                  shows = shows;
                  placed = o.editing.console.placed;
                  saved = framed.saved;
                };
              };
            },
          ),
          inl (weight_empty (waiting b) (pending k) (pending_empty k o.valid empty)),
        )

    pub wait_step :
        (b : Bool) (k : Keyboard) (len : ℕ) (d : Display) (consumed ns : List ℕ) (h : KeyQueue)
        → Open rows columns c sheet consumed ns h (at_stage (waiting b) k len d)
        → Goes h (at_stage (waiting b) k len d) (wait b (at_stage (waiting b) k len d))
    wait_step b k len d consumed ns h o = elim (Bool-cases (k.read == k.write)) [
      | inl empty ↦ rw empty (blink_step b k len d consumed ns h empty o)
      | inr some_wait ↦ rw some_wait (
        at_stage reading k len d,
        refl,
        (
          consumed,
          ns,
          record {
            history = o.history;
            no_newline = o.no_newline;
            valid = o.valid;
            len_is = o.len_is;
            editing = o.editing;
          },
        ),
        wait_progress b (pending k),
      )
    ]
