-- ===== src/Shell/Typed.antt =====
-- One turn of the shell from the keys to the command: the line that is typed names what is performed.
use mono.Prelude.{
  ℕ, ◌+◌, ◌%◌, ◌<◌, ◌≤◌, ◌≡◌, ◌≢◌, subst, ap, ◌∙◌, ◌⊎◌, inl, inr, Bool, true, false, List, [], ◌∷◌,
  ◌++◌, ◌||◌, ◌==◌, length, length-append, arith, if◌then◌else◌, Bool-cases,
}
use mono.Graphics.Frame.{OutFrame}
use mono.Keyboard.Queue.{queue_of}
use mono.Keyboard.Tables.{kbdus}
use mono.Line.{typed_char}
use mono.Line.Echo.{Console, OutStack}
use mono.Line.Edit.{edit, drop_last, length-drop_last}
use mono.Line.Session.{Session, Event}
use mono.Line.Session.Frame.{Kept}
use mono.Line.Session.History.{prefix}
use mono.Line.Session.Live.{typed}
use mono.Line.Session.Open.{
  HasNewline, NoNewline, line_of, typed_line, TracksAt, SomeClosed, sheet_of,
}
use mono.Line.Session.Turns.{turns}
use mono.Line.Typing.{Room, typed_char_low, typed_char_there}
use mono.Memory.{Memory, HasString, HasBytes, HasString-same}
use mono.Process.{Machine}
use mono.Shell.{Image, handle_command}
use mono.Shell.Answers.{pong_text, Answers, perform-Answers}
use mono.Shell.Commands.{
  Literals, command_of, perform, handle_command-perform, ping_text, sandbox_text, clear_text,
  ls_text,
}
use mono.Shell.Prompt.{
  Turn, performed, shell_turn, line_call, with_session, Performs, shell_turn-Performs,
}
use mono.Str.Compare.{IsText}
use mono.Terminal.Sheet.{Sheet, Sized, put_on_sheet}

IsText-drop_last : (s : List ℕ) → IsText s → IsText (drop_last s)
IsText-drop_last [] h = tt
IsText-drop_last (c ∷ []) h = tt
IsText-drop_last (c ∷ d ∷ s) h = (h.0, h.1, IsText-drop_last (d ∷ s) h.2)

IsText-snoc : (s : List ℕ) (c : ℕ) → IsText s → c ≢ 0 → c < 256 → IsText (s ++ c ∷ [])
IsText-snoc [] c h ne low = (ne, low, tt)
IsText-snoc (d ∷ s) c h ne low = (h.0, h.1, IsText-snoc s c h.2 ne low)

-- A line that fits the buffer, of characters.
abbrev IsLine : ℕ → List ℕ → Type 0
IsLine capacity s = IsText s × (length s ≤ capacity + 1)

IsLine-if :
    (x : Bool) (capacity : ℕ) (s t : List ℕ)
    → IsLine capacity s
    → IsLine capacity t
    → IsLine capacity (if x then s else t)
IsLine-if true capacity s t h k = h
IsLine-if false capacity s t h k = k

edit-IsLine :
    (capacity w : ℕ) (s : List ℕ) → IsLine capacity s → IsLine capacity (edit capacity w s)
unfolding edit
edit-IsLine capacity w s h =
    IsLine-if (kbdus (w % 256) == 8) capacity _ _
      (IsText-drop_last s h.0, omega (arith, length-drop_last s, h.1))
      (elim (Bool-cases (kbdus (w % 256) == 0 || length s == capacity + 1)) [
        | inl same ↦ rw same h
        | inr more ↦ rw more (
            let low = typed_char_low w in
            (
              IsText-snoc s (typed_char w) h.0 (typed_char_there w (ground arith))
                  (omega (arith, low)),
              ground (arith, h.1, length-append s (typed_char w ∷ [])),
            ))
      ])

typed_line-IsLine :
    (capacity : ℕ) (ws s : List ℕ) → IsLine capacity s → IsLine capacity (typed_line capacity ws s)
unfolding typed_line
typed_line-IsLine capacity [] s h = h
typed_line-IsLine capacity (w ∷ ws) s h =
    typed_line-IsLine capacity ws (edit capacity w s) (edit-IsLine capacity w s h)

HasBytes-HasString :
    (m : Memory) (p : ℕ) (s : List ℕ) → IsText s → HasBytes m p (s ++ 0 ∷ []) → HasString m p s
HasBytes-HasString m p [] t h = h.0
HasBytes-HasString m p (c ∷ s) t h = (h.0, t.0, HasBytes-HasString m (p + 1) s t.2 h.1)

-- A literal of `n` characters that a turn of the shell does not write to.
abbrev pub Apart : Image → ℕ → ℕ → ℕ → Type 0
Apart image command p n =
    (i : ℕ)
    → i ≤ n
    → OutFrame (p + i)
      × (p + i ≢ image.stack)
      × (p + i ≢ image.stack + 1)
      × ((p + i < command) ⊎ (command + 258 ≤ p + i))

pub record LiteralsApart (image : Image) (command : ℕ) : Type 0 where
  pub ping : Apart image command image.ping 4
  pub sandbox : Apart image command image.sandbox 7
  pub clear : Apart image command image.clear 5
  pub ls_romdisk : Apart image command image.ls_romdisk 10

-- The answer to "PING" in memory, where a turn of the shell does not write to it.
pub record HasPong (image : Image) (command : ℕ) (m : Memory) : Type 0 where
  pub text : HasString m image.pong pong_text
  pub apart : Apart image command image.pong 6

module _ (image : Image) (command : ℕ) (m m' : Memory)
    (kept : Kept (line_call image command) m m') where
  kept_literal :
      (p : ℕ) (word : List ℕ)
      → Apart image command p (length word)
      → HasString m p word
      → HasString m' p word
  kept_literal p word apart h =
      HasString-same m m' p word
        (λ i l. let q = apart i l in kept (p + i) q.0 q.1 q.2 (omega (arith, q.3))) h

  Kept-Literals : LiteralsApart image command → Literals image m → Literals image m'
  Kept-Literals apart w = record {
    ping = kept_literal image.ping ping_text apart.ping w.ping;
    sandbox = kept_literal image.sandbox sandbox_text apart.sandbox w.sandbox;
    clear = kept_literal image.clear clear_text apart.clear w.clear;
    ls_romdisk = kept_literal image.ls_romdisk ls_text apart.ls_romdisk w.ls_romdisk;
  }

module _ (fuel : ℕ) (image : Image) (run : ℕ → Machine → Machine) (args command : ℕ)
    (rows columns : ℕ) (sheet : Sheet) where
  -- The sheet with the prompt, the echo of the keys and a newline.
  abbrev pub shown_line : List ℕ → Sheet
  shown_line consumed = put_on_sheet rows columns 10 (
      sheet_of rows columns (line_call image command) (put_on_sheet rows columns 62 sheet) consumed)

  -- The turn has read the keys `consumed` and a newline `w`, and performs the command that the line of
  -- `consumed` names, which gives its answer.
  abbrev pub Obeys : List Event → Machine → Turn → Type 0
  Obeys es s r =
      (t : Session) × (consumed : List ℕ) × (w : ℕ) × (typed es s.keyboard
        ≡ prefix (consumed ++ w ∷ []) (queue_of t.keyboard))
      × NoNewline consumed
      × (kbdus (w % 256) ≡ 10)
      × HasString t.display.memory command (line_of (line_call image command) consumed)
      × ((ns : List ℕ) × Console rows columns ns t.display (shown_line consumed))
      × (r
          ≡ performed (
              perform fuel image run args command (with_session s t)
                (command_of (line_of (line_call image command) consumed))))
      × Answers fuel image run args command rows columns (with_session s t) (shown_line consumed)
          (command_of (line_of (line_call image command) consumed))
          (perform fuel image run args command (with_session s t)
            (command_of (line_of (line_call image command) consumed)))

  obeyed :
      (z : Sized rows columns) (small : (rows ≤ 21) × (columns ≤ 36)) (out : OutStack image.stack)
      (es : List Event) (s s' : Machine) (t : Session) (r : Turn)
      → 258 ≤ fuel
      → LiteralsApart image command
      → Literals image s.display.memory
      → HasPong image command s.display.memory
      → r ≡ performed (handle_command fuel image run args command (with_session s' t))
      → s'.malloc_start ≡ s.malloc_start
      → Kept (line_call image command) s.display.memory t.display.memory
      → SomeClosed rows columns
          (line_call image command)
          (put_on_sheet rows columns 62 sheet)
          (typed es s.keyboard)
          t
      → Obeys es s r
  obeyed z small out es s s' t r enough apart literals pong e same kept (consumed, w, ns, o) =
      let line = typed_line-IsLine 256 consumed [] (tt, omega arith) in
      let text =
        HasBytes-HasString t.display.memory command (line_of (line_call image command) consumed)
          line.0 o.text in
      (
        t,
        consumed,
        w,
        o.history,
        o.no_newline,
        o.newline,
        text,
        (ns, o.console),
        e
            ∙ ap
                (λ (n : ℕ). performed (
                  handle_command fuel image run args command
                    (record { display = t.display; keyboard = t.keyboard; malloc_start = n })))
                same
            ∙ ap performed (
                handle_command-perform fuel image run args command
                  (line_of (line_call image command) consumed) (with_session s t) line.0 text
                  (omega (arith, line.1)) (omega (arith, line.1))
                  (Kept-Literals image command s.display.memory t.display.memory kept apart
                    literals)),
        perform-Answers fuel image run args command rows columns z small out (omega arith)
            (command_of (line_of (line_call image command) consumed)) (with_session s t)
            (shown_line consumed) ns
            (kept_literal image command s.display.memory t.display.memory kept image.pong pong_text
              pong.apart pong.text)
            (let first = pong.apart 0 (omega arith) in
              let last = pong.apart 6 (omega arith) in omega (arith, first.0, last.0))
            o.console,
      )

  module _ (z : Sized rows columns) (small : (rows ≤ 21) × (columns ≤ 36))
      (room : Room image.stack command 256) where
    from_turn :
        (es : List Event) (s : Machine) (r : Turn)
        → 258 ≤ fuel
        → LiteralsApart image command
        → Literals image s.display.memory
        → HasPong image command s.display.memory
        → Performs fuel image run args command rows columns sheet z small room es s r
        → Obeys es s r
    from_turn es s r enough apart literals pong (s', t, e, same, stage, kept, tracks) =
        obeyed z small room.stack_out es s s' t r enough apart literals pong e same kept (
          subst
            (λ st.
              TracksAt rows columns (line_call image command) (put_on_sheet rows columns 62 sheet)
                st (typed es s.keyboard) t)
            stage tracks)

    -- With a terminal of two to 21 rows and one to 36 columns that shows a sheet, a command buffer apart
    -- from the stack and the frame buffer, the four words of the shell and the answer to "PING" in memory
    -- apart from all three, fuel for 258 characters, and fewer than 255 keys typed from the prompt on, a
    -- newline among them: within 256 further steps the turn of the shell has read the keys up to the first
    -- newline, the command buffer holds the line that those keys edit, the screen shows the prompt, the echo
    -- and a newline, and the turn performs what this line names. "PING" goes back to the prompt with "PONG"
    -- on the screen, "CLEAR" with an empty screen, "SANDBOX" enters `text_sandbox`,
    -- "LS-ROMDISK" is `display_romdisk`, and any other line is `run_command`, whether or not these end. The
    -- keys behind the newline wait in the ring.
    pub shell_turn-Obeys :
        (es : List Event) (n : ℕ) (s : Machine) (ns : List ℕ)
        → s.keyboard.shift < 2
        → s.keyboard.ctrl < 2
        → Console rows columns ns s.display sheet
        → length (typed es s.keyboard).waiting < 255
        → HasNewline (typed es s.keyboard).waiting
        → 256 ≤ n
        → 258 ≤ fuel
        → LiteralsApart image command
        → Literals image s.display.memory
        → HasPong image command s.display.memory
        → Obeys es s (shell_turn fuel image run args command (es ++ turns n) s)
    shell_turn-Obeys es n s ns shift ctrl console space newline enough fuelled apart literals pong =
        from_turn es s (shell_turn fuel image run args command (es ++ turns n) s) fuelled apart
          literals pong
          (shell_turn-Performs fuel image run args command rows columns sheet z small room es n s ns
            shift ctrl console space newline enough)
