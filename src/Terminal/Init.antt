-- ===== src/Terminal/Init.antt =====
-- init_terminal of src/terminal.c, with kmalloc of src/std/stdlib.c. A node of the list is its
-- address in the pool; the allocator's state is `KMALLOC_START`.
use mono.Prelude.{
  ℕ, zero, suc, ◌+◌, ◌-◌, ◌*◌, ◌%◌, ◌^◌, ◌&&◌, Option, none, some, ltb, leb, ◌==◌, if◌then◌else◌,
  for_range,
}
use mono.Graphics.{draw_background}
use mono.Terminal.{Display, clear_row}
pub mod Pool
pub mod Links

-- The address that is returned, and the next one.
abbrev pub kmalloc : ℕ → ℕ → ℕ × ℕ
kmalloc amnt start = (start, (start + amnt) % 2 ^ 32)

-- `&pool[i]`: a node is two pointers.
abbrev pub pool_at : ℕ → ℕ → ℕ
pool_at pool i = pool + 8 * i

-- `memset(pool, 0x00, sizeof(struct terminal_buffer_node) * rows)`
abbrev pub zero_pool : ℕ → ℕ → (ℕ → Option ℕ) → ℕ → Option ℕ
zero_pool pool rows next n = if leb pool n && ltb n (pool + 8 * rows) then none else next n

abbrev pub set_next : ℕ → Option ℕ → (ℕ → Option ℕ) → ℕ → Option ℕ
set_next a p next n = if n == a then p else next n

-- `buffer = kmalloc(sizeof(uint32_t) * columns)` for the node `a`, and the `memset` of the buffer.
abbrev pub new_buffer : ℕ → ℕ → Display × ℕ → Display × ℕ
new_buffer a columns s = (
  record s.0 { nodes = record s.0.nodes { cell = clear_row a columns s.0.nodes.cell } },
  (kmalloc (4 * columns) s.1).1,
)

-- One round of the loop: `tmp` is `&pool[i]`.
abbrev pub link_row : ℕ → ℕ → ℕ → Display × ℕ → Display × ℕ
link_row pool columns i s = new_buffer (pool_at pool (i + 1)) columns (
  record s.0 {
    nodes = record s.0.nodes {
      next = set_next (pool_at pool i) (some (pool_at pool (i + 1))) s.0.nodes.next;
    };
  },
  s.1,
)

-- Everything before the pool is allocated.
abbrev pub reset_terminal : ℕ → ℕ → ℕ → ℕ → Display → Display
reset_terminal rows columns background colour d = record d {
  term = record {
    background = background;
    cursor_x = 0;
    cursor_y = 0;
    show_cursor = 0;
    rows = rows;
    columns = columns;
    colour = colour;
    screen = d.term.screen;
    text_buffer = λ i. if ltb i 256 then 0 else d.term.text_buffer i;
    text_buflen = 0;
    text_offset = 0;
  };
  memory = draw_background background d.memory;
}

-- The pool, zeroed, as the screen.
abbrev pub with_pool : ℕ → ℕ → Display × ℕ → Display × ℕ
with_pool pool rows s = (
  record s.0 {
    term = record s.0.term { screen = some pool };
    nodes = record s.0.nodes { next = zero_pool pool rows s.0.nodes.next };
  },
  (kmalloc (8 * rows) s.1).1,
)

-- `pool[rows - 1].next = NULL`
abbrev pub end_pool : ℕ → ℕ → Display × ℕ → Display × ℕ
end_pool pool rows s = (
  record s.0 {
    nodes = record s.0.nodes { next = set_next (pool + 8 * rows - 8) none s.0.nodes.next };
  },
  s.1,
)

unfoldable pub init_terminal : ℕ → ℕ → ℕ → ℕ → Display × ℕ → Display × ℕ
init_terminal rows columns background colour s =
    let pool = (kmalloc (8 * rows) s.1).0 in
    let cleared : Display × ℕ = (reset_terminal rows columns background colour s.0, s.1) in
    end_pool pool rows (
      for_range (rows - 1) 0 (link_row pool columns)
        (new_buffer pool columns (with_pool pool rows cleared)))
