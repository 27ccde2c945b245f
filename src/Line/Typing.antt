-- ===== src/Line/Typing.antt =====
-- The reading loop edits the line as typed.
use Prim.Native.Nat.{bit_and}
use mono.Prelude.{
  ℕ, ◌+◌, ◌%◌, ◌^◌, ◌≤◌, ◌<◌, ◌≡◌, ◌≢◌, refl, ap, ◌∙◌, ◌⊎◌, inl, inr, ◌||◌, Option, List, [], ◌∷◌,
  ◌++◌, arith, ◌==◌, if◌then◌else◌, length, length-append, Bool-cases, ==_of_ne,
}
use mono.Graphics.{video_memory}
use mono.Keyboard.Layout.{layout_lem}
use mono.Keyboard.Tables.{kbdus}
use mono.Line.{Line, typing, typing_at, echo_one, in_memory, handle_word, typed_char}
use mono.Line.Edit.{
  drop_last, length-drop_last, edit, HasBytes-drop_last, HasBytes-snoc, HasBytes-same,
}
use mono.Line.Echo.{Shows-in_memory, Console, OutStack, Echoes, echoed_sheet, echo_one-Echoes}
use mono.Memory.{write, HasBytes}
use mono.Terminal.{Display}
use mono.Terminal.Sheet.{Sheet, Sized}

-- Where the buffer and the stack lie: outside the frame buffer, and apart. The buffer has room for
-- two bytes more than the capacity.
pub record Room (stack buffer capacity : ℕ) : Type 0 where
  pub stack_out : OutStack stack
  pub buffer_out : (buffer + capacity + 2 ≤ video_memory) ⊎ (video_memory + 64000 ≤ buffer)
  pub apart : (buffer + capacity + 2 ≤ stack) ⊎ (stack + 2 ≤ buffer)
  pub fits : capacity < 65000

-- The buffer holds the line.
pub record Editing (rows columns buffer capacity : ℕ) (ns : List ℕ) (d : Display) (line : List ℕ)
    (s : Sheet) : Type 0 where
  pub text : HasBytes d.memory buffer line
  pub bound : length line ≤ capacity + 1
  pub console : Console rows columns ns d s

-- An outcome that still reads, with the line in the buffer.
abbrev pub Types : ℕ → ℕ → ℕ → ℕ → Line → List ℕ → Sheet → Type 0
Types rows columns buffer capacity o line s =
    (ns : List ℕ) × (d : Display) × (o ≡ typing (length line) d)
    × Editing rows columns buffer capacity ns d line s

-- What the terminal shows of a word.
unfoldable pub edit_sheet : ℕ → ℕ → ℕ → ℕ → ℕ → List ℕ → Sheet → Sheet
edit_sheet rows columns echo capacity word line s =
    if kbdus (word % 256) == 8
    then (if length line == 0 then s else echoed_sheet rows columns echo 8 s)
    else if kbdus (word % 256) == 0 || length line == capacity + 1
    then s
    else echoed_sheet rows columns echo (typed_char word) s

pub typed_char_low : (word : ℕ) → typed_char word < 128
typed_char_low word =
    let l = layout_lem (word % 256) (omega arith) in
    elim (Bool-cases (bit_and word 32768 == 0)) [
      | inl plain ↦ rw plain l.0
      | inr shifted ↦ rw shifted l.1
    ]

pub typed_char_there : (word : ℕ) → kbdus (word % 256) ≢ 0 → typed_char word ≢ 0
typed_char_there word ne =
    let l = layout_lem (word % 256) (omega arith) in
    elim (Bool-cases (bit_and word 32768 == 0)) [
      | inl plain ↦ rw plain ne
      | inr shifted ↦ rw shifted (λ e. ne (l.2.1 e))
    ]

module _ (rows columns : ℕ) (z : Sized rows columns) (small : (rows ≤ 21) × (columns ≤ 36))
    (stack buffer capacity : ℕ) (room : Room stack buffer capacity) where
  -- An echo leaves the buffer alone.
  echoed-Types :
      (len : ℕ) (d : Display) (o : Option Display) (line : List ℕ) (t : Sheet)
      → len ≡ length line
      → HasBytes d.memory buffer line
      → length line ≤ capacity + 1
      → Echoes rows columns stack d o t
      → Types rows columns buffer capacity (typing_at len o) line t
  echoed-Types len d o line t at_end text bound (ns, d', e, console, same) = (
    ns,
    d',
    ap (typing_at len) e ∙ ap (λ k. typing k d') at_end,
    record {
      text =
          HasBytes-same d.memory d'.memory buffer line
            (λ i l.
              same (buffer + i) (omega (arith, room.buffer_out)) (omega (arith, room.apart))
                (omega (arith, room.apart)))
            text;
      bound = bound;
      console = console;
    },
  )

  -- A backspace on a line that is not empty.
  erase-Types :
      (echo : ℕ) (ns : List ℕ) (d : Display) (line : List ℕ) (s : Sheet)
      → length line ≢ 0
      → Editing rows columns buffer capacity ns d line s
      → Types rows columns buffer capacity
          (typing_at ((length line + 65535) % 2 ^ 16) (echo_one echo stack 8 d))
          (drop_last line)
          (echoed_sheet rows columns echo 8 s)
  erase-Types echo ns d line s ne h =
      echoed-Types ((length line + 65535) % 2 ^ 16) d (echo_one echo stack 8 d) (drop_last line)
        (echoed_sheet rows columns echo 8 s)
        (omega (arith, length-drop_last line, h.bound, room.fits))
        (HasBytes-drop_last d.memory buffer line h.text)
        (omega (arith, length-drop_last line, h.bound))
        (echo_one-Echoes rows columns z small echo stack 8 ns d s room.stack_out (omega arith)
          (omega arith) h.console)

  -- A character with room for it.
  type-Types :
      (echo c : ℕ) (ns : List ℕ) (d : Display) (line : List ℕ) (s : Sheet)
      → c ≢ 0
      → c < 128
      → length line ≢ capacity + 1
      → Editing rows columns buffer capacity ns d line s
      → Types rows columns buffer capacity
          (typing_at
            ((length line + 1) % 2 ^ 16)
            (echo_one echo stack c (in_memory (λ m. write m (buffer + length line) c) d)))
          (line ++ c ∷ [])
          (echoed_sheet rows columns echo c s)
  type-Types echo c ns d line s ne low not_full h =
      echoed-Types ((length line + 1) % 2 ^ 16) stored (echo_one echo stack c stored)
        (line ++ c ∷ []) (echoed_sheet rows columns echo c s)
        (omega (arith, length-append line (c ∷ []), h.bound, room.fits))
        (HasBytes-snoc stored.memory buffer c line
          (HasBytes-same d.memory stored.memory buffer line (λ i l. ground arith) h.text)
          (ground arith))
        (omega (arith, length-append line (c ∷ []), h.bound))
        (echo_one-Echoes rows columns z small echo stack c ns stored s room.stack_out ne low
          (record {
            shows =
                Shows-in_memory rows columns ns (λ m. write m (buffer + length line) c) d s
                  h.console.shows;
            placed = h.console.placed;
            saved = h.console.saved;
          }))
    where
      stored : Display
      stored = in_memory (λ m. write m (buffer + length line) c) d

  back-Types :
      (echo : ℕ) (ns : List ℕ) (d : Display) (line : List ℕ) (s : Sheet)
      → Editing rows columns buffer capacity ns d line s
      → Types rows columns buffer capacity
          (if length line == 0
            then typing (length line) d
            else typing_at ((length line + 65535) % 2 ^ 16) (echo_one echo stack 8 d))
          (drop_last line)
          (if length line == 0 then s else echoed_sheet rows columns echo 8 s)
  back-Types echo ns d [] s h = (ns, d, refl, h)
  back-Types echo ns d (c ∷ line) s h =
      rw (==_of_ne (length (c ∷ line)) 0 (omega arith))
        (erase-Types echo ns d (c ∷ line) s (omega arith) h)

  -- On a screen of two to 21 rows and one to 36 columns, with the buffer and the stack outside the
  -- frame buffer and apart, a word other than the newline never faults: the buffer then holds the
  -- edited line, of at most `capacity + 1` characters, `len` is its length, and the terminal shows the
  -- echo.
  pub handle_word-Types :
      (echo word : ℕ) (ns : List ℕ) (d : Display) (line : List ℕ) (s : Sheet)
      → kbdus (word % 256) ≢ 10
      → Editing rows columns buffer capacity ns d line s
      → Types rows columns buffer capacity
          (handle_word echo stack buffer capacity word (length line) d)
          (edit capacity word line)
          (edit_sheet rows columns echo capacity word line s)
  unfolding handle_word edit edit_sheet
  handle_word-Types echo word ns d line s ne h =
      rw (==_of_ne (kbdus (word % 256)) 10 ne) (elim (Bool-cases (kbdus (word % 256) == 8)) [
        | inl back ↦ rw back (back-Types echo ns d line s h)
        | inr other ↦
            rw other (elim (Bool-cases (kbdus (word % 256) == 0 || length line == capacity + 1)) [
              | inl kept ↦ rw kept (ns, d, refl, h)
              | inr room_left ↦ rw room_left (
                  type-Types echo (typed_char word) ns d line s
                    (typed_char_there word (ground arith)) (typed_char_low word) (ground arith) h)
            ])
      ])
