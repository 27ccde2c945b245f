-- ===== src/Keyboard/Tests.antt =====
-- The keyboard theorems at a small ring that has gone round.
use mono.Prelude.{◌≡◌, refl, List, [], ◌∷◌, arith, some, none}
use mono.Keyboard.{Keyboard, process_scancode, take_scancode}
use mono.Keyboard.Ring.{window}
use mono.Keyboard.Queue.{
  irq, poll, Event, run, run_queue, queue_of, press, meaning, serve, run_refines,
}

-- One key waits, and the next entry to write is the first of the array.
abbrev wrapped : Keyboard
wrapped = record { buffer = λ _. 0x1E; bufempty = 0; read = 255; write = 0; shift = 0; ctrl = 0 }

-- 255 keys wait.
abbrev crowded : Keyboard
crowded = record { buffer = λ _. 0x1E; bufempty = 0; read = 1; write = 0; shift = 0; ctrl = 0 }

abbrev session : List Event
session = irq 0x2A ∷ irq 0x10 ∷ irq 0xAA ∷ poll ∷ poll ∷ poll ∷ []

run-wrapped : run session wrapped ≡ some 0x1E ∷ some 0x8010 ∷ none ∷ []
unfolding run process_scancode take_scancode
run-wrapped = refl

run_refines_example : run session wrapped ≡ run_queue session (queue_of wrapped)
unfolding press meaning serve window
run_refines_example = run_refines session {k = wrapped} (omega arith) (omega arith)
