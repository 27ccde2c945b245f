-- ===== src/Terminal/Tests.antt =====
-- The terminal theorems on a screen of two rows and three columns.
use mono.Prelude.{◌≡◌, ◌+◌, ◌*◌, ℕ, Option, none, some, [], ◌∷◌, arith, ◌==◌, if◌then◌else◌}
use mono.Memory.{Memory, write}
use mono.Graphics.{no_area}
use mono.Terminal.{Display, terminal_scroll, clear_terminal, tputs}
use mono.Terminal.Sheet.{Sheet, Sized, Shows, Refines, IsPlaced, scroll_sheet}
use mono.Terminal.Scroll.{terminal_scroll-Refines}
use mono.Terminal.Clear.{clear_terminal-Refines, empty_sheet}
use mono.Terminal.Init.{init_terminal}
use mono.Terminal.Init.Pool.{pool_from}
use mono.Terminal.Init.Links.{init_terminal-Shows, new_sheet}
use mono.Terminal.Char.{put_all_on_sheet}
use mono.Terminal.Message.{Draws, tputs-Draws}

abbrev link : ℕ → Option ℕ
link n = if n == 4 then some 7 else none

-- The message "A\n\n" at address 100.
abbrev text : Memory
text = write (write (write (λ _. 0) 100 65) 101 10) 102 10

abbrev pub small : Display
small = record {
  term = record {
    background = 0x100000;
    cursor_x = 3;
    cursor_y = 1;
    show_cursor = 1;
    rows = 2;
    columns = 3;
    colour = 2;
    screen = some 4;
    text_buffer = λ _. 0;
    text_buflen = 0;
    text_offset = 0;
  };
  nodes = record { next = link; cell = λ n i. 0 };
  area = no_area;
  memory = text;
}

abbrev pub blank : Sheet
blank = record { x = 3; y = 1; colour = 2; cell = λ j i. 0 }

pub sized : Sized 2 3
sized = omega arith

pub placed : IsPlaced 2 3 blank
placed = omega arith

pub shown : Shows 2 3 (4 ∷ 7 ∷ []) small blank
shown = ground arith

terminal_scroll-Refines_example : Refines 2 3 (terminal_scroll small) (scroll_sheet 2 blank)
terminal_scroll-Refines_example =
    terminal_scroll-Refines 2 3 sized small blank (4 ∷ 7 ∷ []) shown (omega arith) (omega arith)

tputs-Draws_example :
    Draws 2 3 small (tputs 9 100 small) (put_all_on_sheet 2 3 (65 ∷ 10 ∷ 10 ∷ []) blank)
tputs-Draws_example =
    tputs-Draws 2 3 sized (omega arith) 9 100 (65 ∷ 10 ∷ 10 ∷ []) (4 ∷ 7 ∷ []) small blank
      (ground arith) (omega arith) (omega arith) (omega arith) (omega arith) placed shown
      (omega arith)

clear_terminal-Refines_example : Refines 2 3 (clear_terminal small) (empty_sheet blank)
clear_terminal-Refines_example =
    clear_terminal-Refines 2 3 (4 ∷ 7 ∷ []) small blank (omega arith) (omega arith) shown

-- The kernel's own terminal: 16 rows of 32 cells.
init_terminal-Shows_example :
    Shows 16 32
      (pool_from 0x1F0000 0 16)
      (init_terminal 16 32 0x100000 7 (small, 0x1F0000)).0
      (new_sheet 7)
    × ((init_terminal 16 32 0x100000 7 (small, 0x1F0000)).1 ≡ 0x1F0000 + 8 * 16 + 4 * 32 * 16)
init_terminal-Shows_example =
    init_terminal-Shows 16 32 0x100000 7 (small, 0x1F0000) (omega arith) (omega arith)
