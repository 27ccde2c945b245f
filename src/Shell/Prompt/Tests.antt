-- ===== src/Shell/Prompt/Tests.antt =====
-- Turns in which "a" and the newline are typed.
use mono.Prelude.{◌<◌, ◌≡◌, refl, inl, inr, List, [], ◌∷◌, ◌++◌, arith, length}
use mono.Keyboard.Queue.{press, meaning}
use mono.Keyboard.Tables.{kbdus}
use mono.Line.Session.History.{history}
use mono.Line.Session.{Event, irq, turn}
use mono.Line.Session.Live.{typed}
use mono.Line.Session.Open.{HasNewline}
use mono.Line.Session.Turns.{turns}
use mono.Line.Tests.{editing}
use mono.Line.Typing.{Room}
use mono.Process.Tests.{machine}
use mono.Shell.Prompt.{shell_turn}
use mono.Shell.Tests.{image, idle, filled, literals}
use mono.Shell.Typed.{LiteralsApart, HasPong, Obeys, shell_turn-Obeys}
use mono.Line.Echo.{Shows-in_memory}
use mono.Process.{Machine}
use mono.Terminal.Tests.{blank, sized, small}

room : Room 0x800 0x1000 256
room = record {
  stack_out = omega arith;
  buffer_out = omega arith;
  apart = omega arith;
  fits = omega arith;
}

abbrev schedule : List Event
schedule = turn ∷ irq 30 ∷ turn ∷ turn ∷ irq 28 ∷ turn ∷ []

two_keys : (typed schedule machine.keyboard).waiting ≡ 30 ∷ 28 ∷ []
unfolding history press meaning
two_keys = refl

few_keys : length (typed schedule machine.keyboard).waiting < 255
few_keys = rw two_keys (omega arith)

has_newline : HasNewline (typed schedule machine.keyboard).waiting
unfolding kbdus
has_newline = rw two_keys (inr (inl refl))

-- The same machine with the words of the shell in its memory.
abbrev worded : Machine
worded = record machine { display = record small { memory = filled } }

literals_apart : LiteralsApart image 0x1000
literals_apart = record {
  ping = λ i l. omega arith;
  sandbox = λ i l. omega arith;
  clear = λ i l. omega arith;
  ls_romdisk = λ i l. omega arith;
}

has_pong : HasPong image 0x1000 filled
has_pong = record {
  text = (
    refl,
    omega arith,
    (
      refl,
      omega arith,
      (refl, omega arith, (refl, omega arith, (refl, omega arith, (refl, omega arith, refl)))),
    ),
  );
  apart = λ i l. omega arith;
}

shell_turn-Obeys_example :
    Obeys 258 image idle 0x4000 0x1000 2 3 blank schedule worded
      (shell_turn 258 image idle 0x4000 0x1000 (schedule ++ turns 256) worded)
shell_turn-Obeys_example =
    shell_turn-Obeys 258 image idle 0x4000 0x1000 2 3 blank sized (omega arith) room schedule 256
      worded (4 ∷ 7 ∷ []) (omega arith) (omega arith)
      (record {
        shows = Shows-in_memory 2 3 (4 ∷ 7 ∷ []) (λ m. filled) small blank editing.console.shows;
        placed = editing.console.placed;
        saved = editing.console.saved;
      })
      few_keys has_newline (omega arith) (omega arith) literals_apart literals has_pong
