-- ===== src/Line/Session/Open.antt =====
-- What a session should look like after a history of keys.
use mono.Prelude.{ℕ, ◌%◌, ◌≡◌, ◌≢◌, ◌⊎◌, inl, inr, refl, List, [], ◌∷◌, ◌++◌, length}
use mono.Keyboard.Queue.{KeyQueue, queue_of}
use mono.Keyboard.Ring.{IsValid}
use mono.Keyboard.Tables.{kbdus}
use mono.Line.Echo.{Console}
use mono.Line.Edit.{edit}
use mono.Line.Session.{Call, Session, Stage, waiting, reading, ended}
use mono.Line.Session.History.{prefix}
use mono.Line.Typing.{Editing, edit_sheet}
use mono.Memory.{HasBytes}
use mono.Terminal.Sheet.{Sheet, put_on_sheet}

-- The line that words other than the newline make.
unfoldable pub typed_line : ℕ → List ℕ → List ℕ → List ℕ
typed_line capacity [] line = line
typed_line capacity (w ∷ ws) line = typed_line capacity ws (edit capacity w line)

-- What they show.
unfoldable pub typed_sheet : ℕ → ℕ → ℕ → ℕ → List ℕ → List ℕ → Sheet → Sheet
typed_sheet rows columns echo capacity [] line s = s
typed_sheet rows columns echo capacity (w ∷ ws) line s =
    typed_sheet rows columns echo capacity ws (edit capacity w line)
      (edit_sheet rows columns echo capacity w line s)

pub typed_line-snoc :
    (capacity : ℕ) (ws : List ℕ) (w : ℕ) (line : List ℕ)
    → typed_line capacity (ws ++ w ∷ []) line ≡ edit capacity w (typed_line capacity ws line)
unfolding typed_line
typed_line-snoc capacity [] w line = refl
typed_line-snoc capacity (v ∷ ws) w line = typed_line-snoc capacity ws w (edit capacity v line)

pub typed_sheet-snoc :
    (rows columns echo capacity : ℕ) (ws : List ℕ) (w : ℕ) (line : List ℕ) (s : Sheet)
    → typed_sheet rows columns echo capacity (ws ++ w ∷ []) line s
      ≡ edit_sheet rows columns echo capacity w
          (typed_line capacity ws line)
          (typed_sheet rows columns echo capacity ws line s)
unfolding typed_line typed_sheet
typed_sheet-snoc rows columns echo capacity [] w line s = refl
typed_sheet-snoc rows columns echo capacity (v ∷ ws) w line s =
    typed_sheet-snoc rows columns echo capacity ws w (edit capacity v line)
      (edit_sheet rows columns echo capacity v line s)

abbrev pub NoNewline : List ℕ → Type 0
NoNewline [] = Unit {0}
NoNewline (w ∷ ws) = (kbdus (w % 256) ≢ 10) × NoNewline ws

abbrev pub HasNewline : List ℕ → Type 0
HasNewline [] = ⊥
HasNewline (w ∷ ws) = (kbdus (w % 256) ≡ 10) ⊎ HasNewline ws

pub NoNewline-snoc :
    (ws : List ℕ) (w : ℕ) → NoNewline ws → kbdus (w % 256) ≢ 10 → NoNewline (ws ++ w ∷ [])
NoNewline-snoc [] w h ne = (ne, tt)
NoNewline-snoc (v ∷ ws) w h ne = (h.0, NoNewline-snoc ws w h.1 ne)

pub not-HasNewline : (ws : List ℕ) → NoNewline ws → ¬ HasNewline ws
not-HasNewline [] h n = n
not-HasNewline (w ∷ ws) h (inl e) = h.0 e
not-HasNewline (w ∷ ws) h (inr n) = not-HasNewline ws h.1 n

abbrev pub line_of : Call → List ℕ → List ℕ
line_of c ws = typed_line c.capacity ws []

module _ (rows columns : ℕ) (c : Call) (sheet : Sheet) where
  abbrev pub sheet_of : List ℕ → Sheet
  sheet_of ws = typed_sheet rows columns c.echo c.capacity ws [] sheet

  -- A session that has not returned: it has read the words `consumed`, no newline among them, and the
  -- ring holds the rest of the history.
  pub record Open (consumed ns : List ℕ) (h : KeyQueue) (s : Session) : Type 0 where
    pub history : h ≡ prefix consumed (queue_of s.keyboard)
    pub no_newline : NoNewline consumed
    pub valid : IsValid s.keyboard
    pub len_is : s.len ≡ length (line_of c consumed)
    pub editing :
        Editing rows columns c.buffer c.capacity ns s.display
          (line_of c consumed)
          (sheet_of consumed)

  -- A session that has returned: it has read one newline more, the buffer holds the line with a zero
  -- behind it, and the terminal shows a newline after the echo.
  pub record Closed (consumed : List ℕ) (w : ℕ) (ns : List ℕ) (h : KeyQueue) (s : Session)
      : Type 0 where
    pub history : h ≡ prefix (consumed ++ w ∷ []) (queue_of s.keyboard)
    pub no_newline : NoNewline consumed
    pub newline : kbdus (w % 256) ≡ 10
    pub valid : IsValid s.keyboard
    pub len_is : s.len ≡ length (line_of c consumed)
    pub console :
        Console rows columns ns s.display (put_on_sheet rows columns 10 (sheet_of consumed))
    pub text : HasBytes s.display.memory c.buffer (line_of c consumed ++ 0 ∷ [])

  abbrev pub SomeOpen : KeyQueue → Session → Type 0
  SomeOpen h s = (consumed : List ℕ) × (ns : List ℕ) × Open consumed ns h s

  abbrev pub SomeClosed : KeyQueue → Session → Type 0
  SomeClosed h s = (consumed : List ℕ) × (w : ℕ) × (ns : List ℕ) × Closed consumed w ns h s

  abbrev pub TracksAt : Stage → KeyQueue → Session → Type 0
  TracksAt (waiting b) h s = SomeOpen h s
  TracksAt reading h s = SomeOpen h s
  TracksAt ended h s = SomeClosed h s

  -- The session is where the history of keys takes it.
  abbrev pub Tracks : KeyQueue → Session → Type 0
  Tracks h s = TracksAt s.stage h s
