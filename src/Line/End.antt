-- ===== src/Line/End.antt =====
-- The end of a line.
use mono.Prelude.{ℕ, ◌+◌, ◌≤◌, ◌≡◌, Option, some, List, [], ◌∷◌, ◌++◌, arith, length, length-append}
use mono.Line.{in_memory, end_line}
use mono.Line.Edit.{HasBytes-snoc, HasBytes-same}
use mono.Line.Echo.{Console, Echoes, put_one-Echoes}
use mono.Line.Typing.{Room, Editing}
use mono.Memory.{write, HasBytes}
use mono.Terminal.{Display}
use mono.Terminal.Sheet.{Sheet, Sized, put_on_sheet}

abbrev pub Ends : ℕ → ℕ → ℕ → Option Display → List ℕ → Sheet → Type 0
Ends rows columns buffer o line t =
    (ns : List ℕ) × (d' : Display) × (o ≡ some d')
    × Console rows columns ns d' t
    × HasBytes d'.memory buffer (line ++ 0 ∷ [])

abbrev pub done_display : ℕ → Display → Display
done_display p d =
    in_memory (λ m. write m p 0) (record d { term = record d.term { show_cursor = 0 } })

pub done_display-Console :
    (rows columns p : ℕ) (ns : List ℕ) (d : Display) (s : Sheet)
    → Console rows columns ns d s
    → Console rows columns ns (done_display p d) s
done_display-Console rows columns p ns d s h = record {
  shows = record {
    chain = h.shows.chain;
    distinct = h.shows.distinct;
    count = h.shows.count;
    rows_is = h.shows.rows_is;
    columns_is = h.shows.columns_is;
    x_is = h.shows.x_is;
    y_is = h.shows.y_is;
    colour_is = h.shows.colour_is;
    cells = h.shows.cells;
  };
  placed = h.placed;
  saved = h.saved;
}

-- On a screen of two to 21 rows and one to 36 columns, with the buffer and the stack outside the frame
-- buffer and apart, the end of the line does not fault: the buffer then holds the line with a zero
-- behind it, also for a line of `capacity + 1` characters, and the terminal shows a newline.
pub end_line-Ends :
    (rows columns : ℕ) (z : Sized rows columns) (small : (rows ≤ 21) × (columns ≤ 36))
    (stack buffer capacity : ℕ) (room : Room stack buffer capacity) (ns : List ℕ) (d : Display)
    (line : List ℕ) (s : Sheet)
    → Editing rows columns buffer capacity ns d line s
    → Ends rows columns buffer
        (end_line stack buffer (length line) d)
        line
        (put_on_sheet rows columns 10 s)
unfolding end_line
end_line-Ends rows columns z small stack buffer capacity room ns d line s h = wrap (
    put_one-Echoes rows columns z small stack 10 ns (done_display (buffer + length line) d) s
      room.stack_out (omega arith) (omega arith)
      (done_display-Console rows columns (buffer + length line) ns d s h.console))
  where
    stored : HasBytes (done_display (buffer + length line) d).memory buffer (line ++ 0 ∷ [])
    stored =
        HasBytes-snoc (done_display (buffer + length line) d).memory buffer 0 line
          (HasBytes-same d.memory (done_display (buffer + length line) d).memory buffer line
            (λ i l. ground arith) h.text)
          (ground arith)

    wrap :
        {o : Option Display}
        → Echoes rows columns stack
            (done_display (buffer + length line) d)
            o
            (put_on_sheet rows columns 10 s)
        → Ends rows columns buffer o line (put_on_sheet rows columns 10 s)
    wrap (ns', d', e, console, same) = (
      ns',
      d',
      e,
      console,
      HasBytes-same (done_display (buffer + length line) d).memory d'.memory buffer (line ++ 0 ∷ [])
          (λ i l.
            same (buffer + i) (omega (arith, room.buffer_out, h.bound, length-append line (0 ∷ [])))
              (omega (arith, room.apart, h.bound, length-append line (0 ∷ [])))
              (omega (arith, room.apart, h.bound, length-append line (0 ∷ []))))
          stored,
    )
