-- ===== src/Line/Session.antt =====
-- The whole of kgetline, with the keyboard interrupt: a session is where the code stands, and a
-- schedule says at each moment whether an interrupt comes or the code goes on.
use mono.Prelude.{
  ℕ, zero, suc, Bool, true, false, Option, none, some, List, [], ◌∷◌, ◌==◌, if◌then◌else◌,
}
use mono.Keyboard.{Keyboard, process_scancode, take_scancode}
use mono.Line.{Line, fault, typing, entered, handle_word, end_line, reset_ring}
use mono.Terminal.{Display, refresh_terminal}
pub mod History
pub mod Open
pub mod Track
pub mod Step
pub mod Turns
pub mod Live
pub mod Frame
pub mod Keeps
mod Tests

-- In the loop that waits, about to draw with the cursor shown or hidden; in the loop that reads; or
-- returned.
pub data Stage : Type 0 where
  waiting : Bool → Stage
  reading : Stage
  ended : Stage

pub record Session : Type 0 where
  pub stage : Stage
  pub keyboard : Keyboard
  pub len : ℕ
  pub display : Display

-- The parameters of `kgetline`, and the place of its small arrays.
pub record Call : Type 0 where
  pub echo : ℕ
  pub stack : ℕ
  pub buffer : ℕ
  pub capacity : ℕ

abbrev pub with_cursor : Bool → Display → Display
with_cursor shown d = record d { term = record d.term { show_cursor = if shown then 1 else 0 } }

abbrev pub not : Bool → Bool
not true = false
not false = true

-- Half a period of the blinking cursor.
abbrev pub drawn : Bool → Session → Option Display → Option Session
drawn shown s none = none
drawn shown s (some d) = some (record s { stage = waiting (not shown); display = d })

-- The test of the loop, which `cursor_sleep` makes all the time.
abbrev pub wait : Bool → Session → Option Session
wait shown s =
    if s.keyboard.read == s.keyboard.write
    then drawn shown s (refresh_terminal false (with_cursor shown s.display))
    else some (record s { stage = reading })

abbrev pub returned : Session → Option Display → Option Session
returned s none = none
returned s (some d) = some (record s { stage = ended; display = d })

-- After one round of the loop that reads.
abbrev pub after_word : Call → Session → Line → Option Session
after_word c s fault = none
after_word c s (typing len d) = some (record s { len = len; display = d })
after_word c s (entered len d) = returned (record s { len = len }) (end_line c.stack c.buffer len d)

abbrev pub read : Call → Session → Option (ℕ × Keyboard) → Option Session
read c s none = some (record s { stage = waiting true })
read c s (some (word, k)) =
    after_word c (record s { keyboard = k })
      (handle_word c.echo c.stack c.buffer c.capacity word s.len s.display)

abbrev pub go_from : Call → Stage → Session → Option Session
go_from c (waiting shown) s = wait shown s
go_from c reading s = read c s (take_scancode s.keyboard)
go_from c ended s = some s

-- The code goes on by one step.
unfoldable pub go : Call → Session → Option Session
go c s = go_from c s.stage s

pub data Event : Type 0 where
  irq : ℕ → Event
  turn : Event

unfoldable pub happen : Call → Event → Session → Option Session
happen c (irq scancode) s = some (record s { keyboard = (process_scancode scancode s.keyboard).1 })
happen c turn s = go c s

abbrev pub and_then : Option Session → (Session → Option Session) → Option Session
and_then none f = none
and_then (some s) f = f s

unfoldable pub run_session : Call → List Event → Session → Option Session
run_session c [] s = some s
run_session c (e ∷ es) s = and_then (happen c e s) (run_session c es)

-- `kgetline` when it is called.
abbrev pub start : Keyboard → Display → Session
start k d = record { stage = waiting true; keyboard = reset_ring k; len = 0; display = d }
