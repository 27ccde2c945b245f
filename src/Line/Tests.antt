-- ===== src/Line/Tests.antt =====
-- Typing on a small terminal: the scancodes of "a", of a backspace and of the newline.
use mono.Prelude.{◌+◌, ◌%◌, ◌≡◌, ◌≢◌, refl, [], ◌∷◌, arith, ◌==◌, if◌then◌else◌}
use mono.Keyboard.{Keyboard}
use mono.Keyboard.Ring.{window, pending}
use mono.Keyboard.Tables.{kbdus}
use mono.Line.{read_scancodes}
use mono.Line.Typing.{Room, Editing}
use mono.Line.Reading.{Reads, type_all, read_scancodes-Reads}
use mono.Terminal.Tests.{small, blank, sized, placed, shown}

-- The buffer at 0x100000 with capacity 1, and the stack at 0x1000.
pub room : Room 0x1000 0x100000 1
room = omega arith

-- Nothing is typed yet.
pub editing : Editing 2 3 0x100000 1 (4 ∷ 7 ∷ []) small [] blank
editing = record {
  text = tt;
  bound = omega arith;
  console = record { shows = shown; placed = placed; saved = omega arith };
}

no_newline : kbdus (30 % 256) ≢ 10
unfolding kbdus
no_newline = omega arith

-- "a", a backspace, "b" with the shift, and the newline.
abbrev pub keyboard : Keyboard
keyboard = record {
  buffer = λ i. if i == 0 then 30 else if i == 1 then 14 else if i == 2 then 32768 + 48 else 28;
  bufempty = 0;
  read = 0;
  write = 4;
  shift = 1;
  ctrl = 0;
}

four_words : pending keyboard ≡ 30 ∷ 14 ∷ 32816 ∷ 28 ∷ []
unfolding window
four_words = refl

read_scancodes-Reads_example :
    Reads 2 3 0x100000 1
      (read_scancodes 256 1 0x1000 0x100000 1 keyboard 0 small)
      (type_all 2 3 1 1 (30 ∷ 14 ∷ 32816 ∷ 28 ∷ []) [] blank)
read_scancodes-Reads_example =
    read_scancodes-Reads 2 3 sized (omega arith) 0x1000 0x100000 1 room 1 256
      (30 ∷ 14 ∷ 32816 ∷ 28 ∷ []) keyboard (4 ∷ 7 ∷ []) small [] blank (omega arith) (omega arith)
      four_words editing
