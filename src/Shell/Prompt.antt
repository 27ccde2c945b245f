-- ===== src/Shell/Prompt.antt =====
-- One turn of the endless loop of `shell`: the prompt, the line that is typed, and its command.
use mono.Prelude.{
  ℕ, zero, suc, ◌+◌, ◌*◌, ◌<◌, ◌≤◌, ◌≡◌, ◌≢◌, refl, sym, subst, ap, ◌∙◌, Option, none, some, List,
  [], ◌∷◌, ◌++◌, length, arith,
}
use mono.Keyboard.{Keyboard}
use mono.Keyboard.Queue.{KeyQueue}
use mono.Line.Echo.{Console, Echoes, Shows-in_memory, put_one-Echoes}
use mono.Line.Session.{Call, Session, Stage, waiting, reading, ended, Event, run_session, start}
use mono.Line.Session.Open.{HasNewline, Tracks}
use mono.Line.Session.Turns.{turns, history-turns}
use mono.Line.Session.Live.{typed, start-Tracks, kgetline_returns}
use mono.Line.Typing.{Room}
use mono.Line.{put_one}
use mono.Memory.{Memory}
use mono.Process.{Machine, in_memory}
use mono.Shell.{Image, Act, ◌>>◌, Outcome, kputc, shown, handle_command}
use mono.Line.Session.Frame.{Kept, KeptSession, run_session-Kept}
use mono.Line.Session.History.{history}
use mono.Str.{memset}
use mono.Str.Blocks.{memset_at}
use mono.Terminal.{Display}
use mono.Terminal.Sheet.{Sheet, Sized, put_on_sheet}
mod Tests

-- A fault, a line that is still being typed, or a command that was performed.
pub data Turn : Type 0 where
  faulted : Turn
  unfinished : Session → Turn
  performed : Outcome → Turn

-- `memset(command, 0x00, sizeof(command)); kputc('>');`
unfoldable pub prompt : Image → ℕ → Act
prompt image command = (λ s. some (in_memory (memset command 0 256) s)) >> kputc image.stack 62

-- `kgetline(1, command, sizeof(command))`
abbrev pub line_call : Image → ℕ → Call
line_call image command = record { echo = 1; stack = image.stack; buffer = command; capacity = 256 }

abbrev pub with_session : Machine → Session → Machine
with_session s t = record s { display = t.display; keyboard = t.keyboard }

module _ (fuel : ℕ) (image : Image) (run : ℕ → Machine → Machine) (args command : ℕ) where
  unfoldable pub after_stage : Machine → Stage → Session → Turn
  after_stage s (waiting shown_cursor) t = unfinished t
  after_stage s reading t = unfinished t
  after_stage s ended t = performed (handle_command fuel image run args command (with_session s t))

  abbrev pub after_session : Machine → Option Session → Turn
  after_session s none = faulted
  after_session s (some t) = after_stage s t.stage t

  abbrev pub after_prompt : List Event → Option Machine → Turn
  after_prompt es none = faulted
  after_prompt es (some s) =
      after_session s (run_session (line_call image command) es (start s.keyboard s.display))

  -- The schedule says what happens while the line is typed.
  unfoldable pub shell_turn : List Event → Machine → Turn
  shell_turn es s = after_prompt es (prompt image command s)

  module _ (rows columns : ℕ) (sheet : Sheet) (z : Sized rows columns)
      (small : (rows ≤ 21) × (columns ≤ 36)) (room : Room image.stack command 256) where
    -- The turn ends in the command's outcome, on the machine whose buffer and screen show the line.
    abbrev pub Performs : List Event → Machine → Turn → Type 0
    Performs es s r =
        (s' : Machine) × (t : Session) × (r
          ≡ performed (handle_command fuel image run args command (with_session s' t)))
        × (s'.malloc_start ≡ s.malloc_start)
        × (t.stage ≡ ended)
        × Kept (line_call image command) s.display.memory t.display.memory
        × Tracks rows columns (line_call image command) (put_on_sheet rows columns 62 sheet)
            (typed es s.keyboard) t

    after_kgetline :
        (es : List Event) (s s' : Machine) (o : Option Session)
        → s'.malloc_start ≡ s.malloc_start
        → KeptSession (line_call image command) s.display.memory o
        → (t : Session) × (o ≡ some t)
          × (t.stage ≡ ended)
          × Tracks rows columns
              (line_call image command)
              (put_on_sheet rows columns 62 sheet)
              (typed es s.keyboard)
              t
        → Performs es s (after_session s' o)
    unfolding after_stage
    after_kgetline es s s' o same kept (t, e, stage, tracks) = (
      s',
      t,
      ap (after_session s') e ∙ ap (λ g. after_stage s' g t) stage,
      same,
      stage,
      subst (KeptSession (line_call image command) s.display.memory) e kept,
      tracks,
    )

    -- With a terminal of two to 21 rows and one to 36 columns that shows a sheet, a command buffer apart from
    -- the stack and the frame buffer, and fewer than 255 keys typed from the prompt on, a newline among
    -- them: the turn of the shell ends within 256 further steps. It performs `handle_command` on a machine whose
    -- command buffer holds the line as the keys before the first newline edit it, with a zero behind it,
    -- and whose screen shows the prompt, the echo and a newline. Memory outside the frame buffer, the two
    -- bytes of the small array and the 258 bytes from the command buffer on is as it was.
    pub shell_turn-Performs :
        (es : List Event) (n : ℕ) (s : Machine) (ns : List ℕ)
        → s.keyboard.shift < 2
        → s.keyboard.ctrl < 2
        → Console rows columns ns s.display sheet
        → length (typed es s.keyboard).waiting < 255
        → HasNewline (typed es s.keyboard).waiting
        → 256 ≤ n
        → Performs es s (shell_turn (es ++ turns n) s)
    unfolding shell_turn prompt kputc history
    shell_turn-Performs es n s ns shift ctrl console space newline enough = prompted (
        put_one-Echoes rows columns z small image.stack 62 ns
          (in_memory (memset command 0 256) s).display sheet room.stack_out (omega arith)
          (omega arith)
          (record {
            shows =
                Shows-in_memory rows columns ns (memset command 0 256) s.display sheet
                  console.shows;
            placed = console.placed;
            saved = console.saved;
          }))
      where
        few_typed : length (history (es ++ turns n) (typed [] s.keyboard)).waiting < 255
        few_typed =
            subst (λ (q : KeyQueue). length q.waiting < 255)
              (sym (
                history-turns es n
                  (record { waiting = []; shift = s.keyboard.shift; ctrl = s.keyboard.ctrl })))
              space

        prompted :
            {o : Option Display}
            → Echoes rows columns image.stack
                (in_memory (memset command 0 256) s).display
                o
                (put_on_sheet rows columns 62 sheet)
            → Performs es s
                (after_prompt (es ++ turns n) (shown (in_memory (memset command 0 256) s) o))
        prompted {o} (ns', d', e, console', kept) =
            subst
              (λ q.
                Performs es s
                  (after_prompt (es ++ turns n) (shown (in_memory (memset command 0 256) s) q)))
              (sym e)
              (after_kgetline es s (record s { display = d' })
                (run_session (line_call image command) (es ++ turns n) (start s.keyboard d')) refl
                (run_session-Kept rows columns z small (line_call image command) room
                  (put_on_sheet rows columns 62 sheet) (es ++ turns n) (typed [] s.keyboard)
                  (start s.keyboard d') s.display.memory few_typed
                  (start-Tracks rows columns (line_call image command)
                    (put_on_sheet rows columns 62 sheet) z small room s.keyboard d' ns' shift ctrl
                    console')
                  (λ a out n1 n2 away.
                    kept a out n1 n2 ∙ memset_at command 0 256 s.display.memory a ∙ ground arith))
                (kgetline_returns rows columns (line_call image command)
                  (put_on_sheet rows columns 62 sheet) z small room es n s.keyboard d' ns' shift
                  ctrl console' space newline enough))
