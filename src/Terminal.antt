-- ===== src/Terminal.antt =====
-- src/terminal.c: the terminal as a linked list of rows, drawn on the frame buffer. A result `none`
-- is a fault: a walk through a null pointer, a write past a row's buffer, or a character with no
-- glyph; or a loop around the cursor that has no end. The text of a message is read from memory while the screen is drawn into the same memory.
use Prim.Native.Nat.{bit_and, bit_or}
use mono.Prelude.{
  ℕ, zero, suc, ◌+◌, ◌-◌, ◌*◌, ◌%◌, ◌^◌, Bool, true, false, ◌&&◌, Option, none, some, ltb, leb,
  ◌==◌, if◌then◌else◌, for_range,
}
use mono.Memory.{Memory}
use mono.Graphics.{draw_background, display_bitmap, Area, save_area, restore_area}
use mono.Graphics.Font.{default_font}
pub mod Chain
pub mod Sheet
pub mod Refresh
pub mod Scroll
pub mod Clear
pub mod Init
pub mod Put
pub mod Char
pub mod Frame
pub mod Draw
pub mod Message
pub mod Colours
pub mod Tests

-- `struct terminal_buffer_node`: a node is a number, and has a buffer of its own. `cell n` is the
-- buffer of node `n`.
pub record Nodes : Type 0 where
  pub next : ℕ → Option ℕ
  pub cell : ℕ → ℕ → ℕ

-- `struct terminal`, without the margins, which nothing uses.
pub record Terminal : Type 0 where
  pub background : ℕ
  pub cursor_x : ℕ
  pub cursor_y : ℕ
  pub show_cursor : ℕ
  pub rows : ℕ
  pub columns : ℕ
  pub colour : ℕ
  pub screen : Option ℕ
  pub text_buffer : ℕ → ℕ
  pub text_buflen : ℕ
  pub text_offset : ℕ

-- A terminal with what it draws on.
pub record Display : Type 0 where
  pub term : Terminal
  pub nodes : Nodes
  pub area : Area
  pub memory : Memory

abbrev pub bind_display : Option Display → (Display → Option Display) → Option Display
bind_display none f = none
bind_display (some d) f = f d

infixl 5 ◌>>=◌
abbrev pub ◌>>=◌ : Option Display → (Display → Option Display) → Option Display
o >>= f = bind_display o f

-- `30 + i * 8` as a `uint16_t` argument.
abbrev pub screen_at : ℕ → ℕ
screen_at i = (30 + i * 8) % 2 ^ 16

abbrev pub cursor_bitmap : ℕ
cursor_bitmap = 0b11111111111111111111111110000000

-- One round of the inner loop of `refresh_terminal`.
abbrev pub restored : ℕ → ℕ → Display → Option Memory
restored row i d =
    if 30 + row * 8 == d.area.y && 30 + i * 8 == d.area.x
    then restore_area d.area d.memory
    else some d.memory

abbrev pub under_cursor : ℕ → ℕ → Memory → Display → Option Area → Option Display
under_cursor row i m d none = none
under_cursor row i m d (some area) = some (record d {
  area = area;
  memory = display_bitmap cursor_bitmap (screen_at i) (screen_at row) m;
})

abbrev pub cursor_at : ℕ → ℕ → Terminal → Bool
cursor_at row i t = row == t.cursor_y && i == t.cursor_x && ltb 0 t.show_cursor

abbrev pub drawn_over : ℕ → ℕ → ℕ → Display → Option Memory → Option Display
drawn_over row node i d none = none
drawn_over row node i d (some m) =
    if cursor_at row i d.term
    then under_cursor row i m d (save_area (screen_at i) (screen_at row) m d.area)
    else some
        (record d { memory = display_bitmap (d.nodes.cell node i) (screen_at i) (screen_at row) m })

unfoldable pub draw_cell : ℕ → ℕ → ℕ → Display → Option Display
draw_cell row node i d = drawn_over row node i d (restored row i d)

-- The inner loop of `refresh_terminal`.
unfoldable pub draw_row : ℕ → ℕ → Display → Option Display
draw_row row node d = for_range d.term.columns 0 (λ i o. o >>= draw_cell row node i) (some d)

-- The outer loop of `refresh_terminal`, on fuel.
unfoldable pub draw_rows : ℕ → ℕ → Option ℕ → Display → Option Display
draw_rows zero row p d = none
draw_rows (suc f) row none d = some d
draw_rows (suc f) row (some node) d =
    draw_row row node d >>= draw_rows f ((row + 1) % 2 ^ 16) (d.nodes.next node)

abbrev pub with_background : Display → Display
with_background d = record d { memory = draw_background d.term.background d.memory }

unfoldable pub refresh_terminal : Bool → Display → Option Display
refresh_terminal redraw d =
    let d' = if redraw then with_background d else d in
    draw_rows (d.term.rows + 1) 0 d'.term.screen d'

-- `for (tmp2 = term->screen; tmp2 != NULL; tmp2 = tmp2->next) tail = tmp2;`, on fuel.
unfoldable pub find_tail : ℕ → (ℕ → Option ℕ) → Option ℕ → Option ℕ → Option ℕ
find_tail zero next p tail = none
find_tail (suc f) next none tail = tail
find_tail (suc f) next (some n) tail = find_tail f next (next n) (some n)

-- `tail->next = tmp1; tail->next->next = NULL;`
abbrev pub relink : ℕ → ℕ → (ℕ → Option ℕ) → ℕ → Option ℕ
relink tail first next n = if n == first then none else if n == tail then some first else next n

-- `memset(buffer, 0x00, sizeof(uint32_t) * columns)` on the buffer of one node.
abbrev pub clear_row : ℕ → ℕ → (ℕ → ℕ → ℕ) → ℕ → ℕ → ℕ
clear_row node columns cell n i = if n == node && ltb i columns then 0 else cell n i

-- `cursor_y--` and `cursor_x--` on 16 bits.
abbrev pub pred16 : ℕ → ℕ
pred16 n = (n + 65535) % 2 ^ 16

abbrev pub rotate_rows : ℕ → Option ℕ → Display → Option Display
rotate_rows first none d = none
rotate_rows first (some tail) d = some (
    with_background (record d {
      term = record d.term { screen = d.nodes.next first; cursor_y = pred16 d.term.cursor_y };
      nodes = record {
        next = relink tail first d.nodes.next;
        cell = clear_row first d.term.columns d.nodes.cell;
      };
    }))

abbrev pub scroll_from : Option ℕ → Display → Option Display
scroll_from none d = none
scroll_from (some first) d =
    rotate_rows first (find_tail (d.term.rows + 1) d.nodes.next (d.nodes.next first) none) d

unfoldable pub terminal_scroll : Display → Option Display
terminal_scroll d = scroll_from d.term.screen d

-- `for (j = 0; j < cursor_y; j++) tmp = tmp->next;`
unfoldable pub node_at : ℕ → (ℕ → Option ℕ) → Option ℕ → Option ℕ
node_at zero next p = p
node_at (suc n) next none = none
node_at (suc n) next (some q) = node_at n next (next q)

-- `tmp->buffer[cursor_x] = bitmap`
abbrev pub stored : ℕ → ℕ → Display → Display
stored n bitmap d = record d {
  nodes = record d.nodes {
    cell = λ n' i. if n' == n && i == d.term.cursor_x then bitmap else d.nodes.cell n' i;
  };
}

abbrev pub store_at : Option ℕ → ℕ → Display → Option Display
store_at none bitmap d = none
store_at (some n) bitmap d =
    if ltb d.term.cursor_x d.term.columns then some (stored n bitmap d) else none

unfoldable pub store_cell : ℕ → Display → Option Display
store_cell bitmap d = store_at (node_at d.term.cursor_y d.nodes.next d.term.screen) bitmap d

abbrev pub move_to : ℕ → ℕ → Display → Display
move_to x y d = record d { term = record d.term { cursor_x = x; cursor_y = y } }

abbrev pub scroll_if_below : Display → Option Display
scroll_if_below d = if leb d.term.rows d.term.cursor_y then terminal_scroll d else some d

unfoldable pub put_newline : Display → Option Display
put_newline d = scroll_if_below (move_to 0 ((d.term.cursor_y + 1) % 2 ^ 16) d)

-- The cursor one cell back; `0xFFFF` is an underflow onto the previous line.
abbrev pub step_back : Display → Display
step_back d =
    if pred16 d.term.cursor_x == 0xFFFF
    then move_to (pred16 d.term.columns) (pred16 d.term.cursor_y) d
    else move_to (pred16 d.term.cursor_x) d.term.cursor_y d

unfoldable pub put_backspace : Display → Option Display
put_backspace d =
    if d.term.cursor_x == 0 && d.term.cursor_y == 0
    then some d
    else store_cell 0 (step_back d) >>= refresh_terminal true

abbrev pub advance : Display → Display
advance d = move_to ((d.term.cursor_x + 1) % 2 ^ 16) d.term.cursor_y d

abbrev pub print_glyph : Option ℕ → Display → Option Display
print_glyph none d = none
print_glyph (some g) d = store_cell (bit_or g d.term.colour) d >>= λ d'. some (advance d')

unfoldable pub put_glyph : ℕ → Display → Option Display
put_glyph c d = scroll_if_below d >>= print_glyph (default_font c)

-- `if (cursor_x > columns - 1)`, which is computed in `int`.
abbrev pub wrap_line : Display → Display
wrap_line d =
    if leb d.term.columns d.term.cursor_x then move_to 0 ((d.term.cursor_y + 1) % 2 ^ 16) d else d

-- The body of the loop of `tputs`, for the character `c`.
unfoldable pub put_char : ℕ → Display → Option Display
put_char c d =
    if bit_and c 0xF0 == 0xF0
    then some (record d { term = record d.term { colour = bit_and c 0x0F } })
    else if c == 10
    then put_newline (wrap_line d)
    else if c == 8
    then put_backspace (wrap_line d)
    else put_glyph c (wrap_line d)

-- The loop of `tputs` from index `i` on, on fuel.
unfoldable pub tputs_from : ℕ → ℕ → ℕ → Display → Option Display
tputs_from zero i msg d = none
tputs_from (suc f) i msg d =
    let c = d.memory (msg + i) in
    let rest = put_char c d >>= tputs_from f ((i + 1) % 2 ^ 16) msg in
    if c == 0 then refresh_terminal false d else rest

unfoldable pub tputs : ℕ → ℕ → Display → Option Display
tputs fuel msg d = tputs_from fuel 0 msg d

-- The loop of `clear_terminal` over the rows, on fuel.
unfoldable pub clear_rows : ℕ → Option ℕ → Display → Option Display
clear_rows zero p d = none
clear_rows (suc f) none d = some d
clear_rows (suc f) (some n) d =
    clear_rows f (d.nodes.next n)
      (record d { nodes = record d.nodes { cell = clear_row n d.term.columns d.nodes.cell } })

unfoldable pub clear_terminal : Display → Option Display
clear_terminal d =
    clear_rows (d.term.rows + 1) d.term.screen d >>= λ d'. refresh_terminal true (move_to 0 0 d')

unfoldable pub set_colour_terminal : ℕ → Terminal → Terminal
set_colour_terminal colour t = record t { colour = colour }
