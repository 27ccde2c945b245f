-- ===== src/Line.antt =====
-- kgetline of src/keyboard.c: the loop that reads the waiting scancodes into a line, and its end.
-- The two-character strings that it echoes are arrays on the stack, at `stack`. The loop that waits
-- for scancodes, and the interrupts, are in Session.
use Prim.Native.Nat.{bit_and}
use mono.Prelude.{ℕ, zero, suc, ◌+◌, ◌%◌, ◌^◌, Bool, ◌||◌, Option, none, some, ◌==◌, if◌then◌else◌}
use mono.Memory.{Memory, write}
use mono.Keyboard.{Keyboard, take_scancode}
use mono.Keyboard.Tables.{kbdus, shift_kbdus}
use mono.Terminal.{Display, tputs}
pub mod Edit
pub mod Echo
pub mod Typing
pub mod Reading
pub mod End
pub mod Session
pub mod Tests

-- Where the loop stands: at a fault of the terminal, still reading, or past the `goto exit`. The
-- number is `len`.
pub data Line : Type 0 where
  fault : Line
  typing : ℕ → Display → Line
  entered : ℕ → Display → Line

-- `memset(scancode_buffer, 0x00, ...)` and the two indices.
abbrev pub reset_ring : Keyboard → Keyboard
reset_ring k = record k { buffer = λ i. 0; read = 0; write = 0 }

abbrev pub in_memory : (Memory → Memory) → Display → Display
in_memory f d = record d { memory = f d.memory }

-- `tputs(&kernel_terminal, (uint8_t[]){c, '\0'})`
unfoldable pub put_one : ℕ → ℕ → Display → Option Display
put_one stack c d = tputs 2 stack (in_memory (λ m. write (write m stack c) (stack + 1) 0) d)

-- `if (echo)`
abbrev pub echo_one : ℕ → ℕ → ℕ → Display → Option Display
echo_one echo stack c d = if echo == 0 then some d else put_one stack c d

abbrev pub typing_at : ℕ → Option Display → Line
typing_at len none = fault
typing_at len (some d) = typing len d

abbrev pub typed_char : ℕ → ℕ
typed_char word = if bit_and word 32768 == 0 then kbdus (word % 256) else shift_kbdus (word % 256)

-- The body of the loop, for the word `scancode_buffer[i]`. `(len - 1) != capacity` is a test in `int`.
unfoldable pub handle_word : ℕ → ℕ → ℕ → ℕ → ℕ → ℕ → Display → Line
handle_word echo stack buffer capacity word len d =
    if kbdus (word % 256) == 10
    then entered len d
    else if kbdus (word % 256) == 8
    then (if len == 0
        then typing len d
        else typing_at ((len + 65535) % 2 ^ 16) (echo_one echo stack 8 d))
    else if kbdus (word % 256) == 0 || len == capacity + 1
    then typing len d
    else typing_at ((len + 1) % 2 ^ 16) (
        echo_one echo stack (typed_char word)
          (in_memory (λ m. write m (buffer + len) (typed_char word)) d))

-- What follows a round: the loop goes on only while it reads.
abbrev pub while_typing : Line → (ℕ → Display → Keyboard × Line) → Keyboard → Keyboard × Line
while_typing fault k s = (s, fault)
while_typing (entered len d) k s = (s, entered len d)
while_typing (typing len d) k s = k len d

abbrev pub each_word :
    Option (ℕ × Keyboard) → (ℕ → Keyboard → Keyboard × Line) → Keyboard × Line → Keyboard × Line
each_word none f stop = stop
each_word (some (word, k)) f stop = f word k

-- The loop over the waiting words, on fuel: the ring holds at most 255 of them.
unfoldable pub read_scancodes : ℕ → ℕ → ℕ → ℕ → ℕ → Keyboard → ℕ → Display → Keyboard × Line
read_scancodes zero echo stack buffer capacity k len d = (k, fault)
read_scancodes (suc f) echo stack buffer capacity k len d =
    each_word (take_scancode k)
      (λ word k'.
        while_typing (handle_word echo stack buffer capacity word len d)
          (read_scancodes f echo stack buffer capacity k') k')
      (k, typing len d)

-- From `exit` on.
unfoldable pub end_line : ℕ → ℕ → ℕ → Display → Option Display
end_line stack buffer len d = put_one stack 10 (
    in_memory (λ m. write m (buffer + len) 0)
      (record d { term = record d.term { show_cursor = 0 } }))
