-- ===== src/Line/Session/Step.antt =====
-- The loop that reads, the end of the line, and whole schedules.
use mono.Prelude.{
  ℕ, ◌%◌, ◌≤◌, ◌≡◌, ◌≢◌, refl, sym, ap, subst, inl, inr, true, Option, none, some, List, [], ◌∷◌,
  ◌++◌, arith, length, ==_of_eq, ℕ_discrete,
}
use mono.Keyboard.{Keyboard, take_scancode}
use mono.Keyboard.Queue.{KeyQueue, queue_of}
use mono.Keyboard.Ring.{IsValid, pending, Takes, take_scancode-Takes}
use mono.Keyboard.Tables.{kbdus}
use mono.Line.{Line, entered, handle_word, end_line}
use mono.Line.Edit.{edit}
use mono.Line.End.{Ends, end_line-Ends}
use mono.Line.Session.{
  Call, Session, Stage, waiting, reading, ended, returned, after_word, read, go_from, go,
}
use mono.Line.Session.History.{prefix}
use mono.Line.Session.Open.{
  NoNewline-snoc, typed_line-snoc, typed_sheet-snoc, line_of, sheet_of, Open, TracksAt, Tracks,
}
use mono.Line.Session.Track.{Goes, weight_empty, taken, wait_step, at_stage}
use mono.Line.Typing.{Room, Editing, Types, edit_sheet, handle_word-Types}
use mono.Terminal.{Display}
use mono.Terminal.Sheet.{Sheet, Sized, put_on_sheet}

module _ (rows columns : ℕ) (c : Call) (sheet : Sheet) (z : Sized rows columns)
    (small : (rows ≤ 21) × (columns ≤ 36)) (room : Room c.stack c.buffer c.capacity) where
  -- A newline is read.
  enter_step :
      (k k' : Keyboard) (d : Display) (w : ℕ) (consumed ns : List ℕ) (h : KeyQueue)
      → kbdus (w % 256) ≡ 10
      → pending k ≡ w ∷ pending k'
      → IsValid k'
      → h ≡ prefix (consumed ++ w ∷ []) (queue_of k')
      → Open rows columns c sheet consumed ns h (at_stage reading k (length (line_of c consumed)) d)
      → Goes rows columns c sheet h (at_stage reading k (length (line_of c consumed)) d) (
          returned
            (at_stage reading k' (length (line_of c consumed)) d)
            (end_line c.stack c.buffer (length (line_of c consumed)) d))
  enter_step k k' d w consumed ns h newline t v e o = wrap (
      end_line-Ends rows columns z small c.stack c.buffer c.capacity room ns d (line_of c consumed)
        (sheet_of rows columns c sheet consumed) o.editing)
    where
      wrap :
          {o' : Option Display}
          → Ends rows columns c.buffer o'
              (line_of c consumed)
              (put_on_sheet rows columns 10 (sheet_of rows columns c sheet consumed))
          → Goes rows columns c sheet h
              (at_stage reading k (length (line_of c consumed)) d)
              (returned (at_stage reading k' (length (line_of c consumed)) d) o')
      wrap (ns', d', eq, console, text) = (
        at_stage ended k' (length (line_of c consumed)) d',
        ap (returned (at_stage reading k' (length (line_of c consumed)) d)) eq,
        (
          consumed,
          w,
          ns',
          record {
            history = e;
            no_newline = o.no_newline;
            newline = newline;
            valid = v;
            len_is = refl;
            console = console;
            text = text;
          },
        ),
        inr (omega (arith, ap length t)),
      )

  -- Another word is read.
  type_step :
      (k k' : Keyboard) (d : Display) (w : ℕ) (consumed ns : List ℕ) (h : KeyQueue)
      → kbdus (w % 256) ≢ 10
      → pending k ≡ w ∷ pending k'
      → IsValid k'
      → h ≡ prefix (consumed ++ w ∷ []) (queue_of k')
      → Open rows columns c sheet consumed ns h (at_stage reading k (length (line_of c consumed)) d)
      → Goes rows columns c sheet h (at_stage reading k (length (line_of c consumed)) d) (
          after_word c
            (at_stage reading k' (length (line_of c consumed)) d)
            (handle_word c.echo c.stack c.buffer c.capacity w (length (line_of c consumed)) d))
  type_step k k' d w consumed ns h other t v e o = wrap (
      handle_word-Types rows columns z small c.stack c.buffer c.capacity room c.echo w ns d
        (line_of c consumed) (sheet_of rows columns c sheet consumed) other o.editing)
    where
      s' : Display → Session
      s' d' = at_stage reading k' (length (edit c.capacity w (line_of c consumed))) d'

      same_line : edit c.capacity w (line_of c consumed) ≡ line_of c (consumed ++ w ∷ [])
      same_line = sym (typed_line-snoc c.capacity consumed w [])

      same_sheet :
          edit_sheet rows columns c.echo c.capacity w
            (line_of c consumed)
            (sheet_of rows columns c sheet consumed)
          ≡ sheet_of rows columns c sheet (consumed ++ w ∷ [])
      same_sheet = sym (typed_sheet-snoc rows columns c.echo c.capacity consumed w [] sheet)

      wrap :
          {l : Line}
          → Types rows columns c.buffer c.capacity l (edit c.capacity w (line_of c consumed)) (
              edit_sheet rows columns c.echo c.capacity w
                (line_of c consumed)
                (sheet_of rows columns c sheet consumed))
          → Goes rows columns c sheet h
              (at_stage reading k (length (line_of c consumed)) d)
              (after_word c (at_stage reading k' (length (line_of c consumed)) d) l)
      wrap (ns', d', eq, editing) = (
        s' d',
        ap (after_word c (at_stage reading k' (length (line_of c consumed)) d)) eq,
        (
          consumed ++ w ∷ [],
          ns',
          record {
            history = e;
            no_newline = NoNewline-snoc consumed w o.no_newline other;
            valid = v;
            len_is = ap length same_line;
            editing =
                subst
                  (λ t.
                    Editing rows columns c.buffer c.capacity ns' d' (line_of c (consumed ++ w ∷ []))
                      t)
                  same_sheet
                  (subst
                    (λ l. Editing rows columns c.buffer c.capacity ns' d' l (
                      edit_sheet rows columns c.echo c.capacity w (line_of c consumed)
                        (sheet_of rows columns c sheet consumed)))
                    same_line editing);
          },
        ),
        inr (omega (arith, ap length t)),
      )

  read_word :
      (k k' : Keyboard) (d : Display) (w : ℕ) (consumed ns : List ℕ) (h : KeyQueue)
      → Takes k (some (w, k'))
      → Open rows columns c sheet consumed ns h (at_stage reading k (length (line_of c consumed)) d)
      → Goes rows columns c sheet h
          (at_stage reading k (length (line_of c consumed)) d)
          (read c (at_stage reading k (length (line_of c consumed)) d) (some (w, k')))
  read_word k k' d w consumed ns h t o = elim (ℕ_discrete (kbdus (w % 256)) 10) [
    | yes newline ↦ rw (entered_is newline) (
        enter_step k k' d w consumed ns h newline t.0 t.1
          (taken h consumed w k k' o.history t.0 t.2) o)
    | no other ↦
        type_step k k' d w consumed ns h other t.0 t.1 (taken h consumed w k k' o.history t.0 t.2) o
  ]
    where
      entered_is :
          kbdus (w % 256) ≡ 10
          → handle_word c.echo c.stack c.buffer c.capacity w (length (line_of c consumed)) d
            ≡ entered (length (line_of c consumed)) d
      entered_is newline = unfold handle_word in rw (==_of_eq (kbdus (w % 256)) 10 newline) refl

  read_step :
      (p : Option (ℕ × Keyboard)) (k : Keyboard) (d : Display) (consumed ns : List ℕ) (h : KeyQueue)
      → Takes k p
      → Open rows columns c sheet consumed ns h (at_stage reading k (length (line_of c consumed)) d)
      → Goes rows columns c sheet h
          (at_stage reading k (length (line_of c consumed)) d)
          (read c (at_stage reading k (length (line_of c consumed)) d) p)
  read_step none k d consumed ns h t o = (
    at_stage (waiting true) k (length (line_of c consumed)) d,
    refl,
    (
      consumed,
      ns,
      record {
        history = o.history;
        no_newline = o.no_newline;
        valid = o.valid;
        len_is = o.len_is;
        editing = o.editing;
      },
    ),
    inl (weight_empty reading (pending k) t),
  )
  read_step (some (w, k')) k d consumed ns h t o = read_word k k' d w consumed ns h t o

  go_at :
      (st : Stage) (k : Keyboard) (len : ℕ) (d : Display) (h : KeyQueue)
      → TracksAt rows columns c sheet st h (at_stage st k len d)
      → Goes rows columns c sheet h (at_stage st k len d) (go_from c st (at_stage st k len d))
  go_at (waiting b) k len d h (consumed, ns, o) =
      wait_step rows columns c sheet z small room b k len d consumed ns h o
  go_at reading k len d h (consumed, ns, o) =
      subst
        (λ n.
          Open rows columns c sheet consumed ns h (at_stage reading k n d)
          → Goes rows columns c sheet h (at_stage reading k n d)
              (read c (at_stage reading k n d) (take_scancode k)))
        (sym o.len_is) (read_step (take_scancode k) k d consumed ns h (take_scancode-Takes o.valid))
        o
  go_at ended k len d h t = (at_stage ended k len d, refl, t, inl refl)

  -- Whatever the stage, the next step does not fault, and the session follows the history.
  pub go-Goes :
      (h : KeyQueue) (s : Session)
      → Tracks rows columns c sheet h s
      → Goes rows columns c sheet h s (go c s)
  unfolding go
  go-Goes h s t = go_at s.stage s.keyboard s.len s.display h t
