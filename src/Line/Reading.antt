-- ===== src/Line/Reading.antt =====
-- The reading loop on the scancodes that wait in the ring.
use mono.Prelude.{
  ℕ, zero, suc, ◌%◌, ◌≤◌, ◌<◌, ◌≡◌, refl, inl, inr, Bool, true, false, Option, none, some, List, [],
  ◌∷◌, arith, ◌==◌, if◌then◌else◌, length, Bool-cases,
}
use mono.Keyboard.{Keyboard, take_scancode}
use mono.Keyboard.Ring.{IsValid, pending, Takes, take_scancode-Takes}
use mono.Keyboard.Tables.{kbdus}
use mono.Line.{Line, typing, entered, handle_word, while_typing, each_word, read_scancodes}
use mono.Line.Edit.{edit}
use mono.Line.Typing.{Room, Editing, Types, edit_sheet, handle_word-Types}
use mono.Terminal.{Display}
use mono.Terminal.Sheet.{Sheet, Sized}

-- What the words make of a line: the line and the screen after them, or up to the newline, with the
-- words behind it.
pub record Typed : Type 0 where
  pub line : List ℕ
  pub sheet : Sheet
  pub rest : List ℕ
  pub is_done : Bool

unfoldable pub type_all : ℕ → ℕ → ℕ → ℕ → List ℕ → List ℕ → Sheet → Typed
type_all rows columns echo capacity [] line s = record {
  line = line;
  sheet = s;
  rest = [];
  is_done = false;
}
type_all rows columns echo capacity (w ∷ ws) line s =
    if kbdus (w % 256) == 10
    then record { line = line; sheet = s; rest = ws; is_done = true }
    else type_all rows columns echo capacity ws (edit capacity w line)
        (edit_sheet rows columns echo capacity w line s)

abbrev pub outcome : Bool → ℕ → Display → Line
outcome false len d = typing len d
outcome true len d = entered len d

-- The loop ended where the words end, with the line in the buffer and its length in `len`.
abbrev pub Reads : ℕ → ℕ → ℕ → ℕ → Keyboard × Line → Typed → Type 0
Reads rows columns buffer capacity o t =
    (ns : List ℕ) × (d : Display) × (k : Keyboard) × (o ≡ (k, outcome t.is_done (length t.line) d))
    × (pending k ≡ t.rest)
    × IsValid k
    × Editing rows columns buffer capacity ns d t.line t.sheet

module _ (rows columns : ℕ) (z : Sized rows columns) (small : (rows ≤ 21) × (columns ≤ 36))
    (stack buffer capacity : ℕ) (room : Room stack buffer capacity) (echo : ℕ) where
  -- The loop with `f` rounds reads these words.
  Reading : ℕ → List ℕ → Type 0
  Reading f ws =
      (k : Keyboard) (ns : List ℕ) (d : Display) (line : List ℕ) (s : Sheet)
      → IsValid k
      → pending k ≡ ws
      → Editing rows columns buffer capacity ns d line s
      → Reads rows columns buffer capacity
          (read_scancodes f echo stack buffer capacity k (length line) d)
          (type_all rows columns echo capacity ws line s)

  key_step :
      (f word : ℕ) (ws : List ℕ) (k : Keyboard) (ns : List ℕ) (d : Display) (line : List ℕ)
      (s : Sheet)
      → IsValid k
      → pending k ≡ ws
      → Editing rows columns buffer capacity ns d line s
      → Reading f ws
      → Reads rows columns buffer capacity
          (while_typing
            (handle_word echo stack buffer capacity word (length line) d)
            (read_scancodes f echo stack buffer capacity k)
            k)
          (type_all rows columns echo capacity (word ∷ ws) line s)
  unfolding Reading type_all
  key_step f word ws k ns d line s v e h next = elim (Bool-cases (kbdus (word % 256) == 10)) [
    | inl enter ↦ rw (entered_is enter, enter) (ns, d, k, refl, e, v, h)
    | inr other ↦ rw other (
        go (
          handle_word-Types rows columns z small stack buffer capacity room echo word ns d line s
            (ground arith) h))
  ]
    where
      entered_is :
          (kbdus (word % 256) == 10) ≡ true
          → handle_word echo stack buffer capacity word (length line) d ≡ entered (length line) d
      entered_is enter = unfold handle_word in rw enter refl

      go :
          Types rows columns buffer capacity
            (handle_word echo stack buffer capacity word (length line) d)
            (edit capacity word line)
            (edit_sheet rows columns echo capacity word line s)
          → Reads rows columns buffer capacity
              (while_typing
                (handle_word echo stack buffer capacity word (length line) d)
                (read_scancodes f echo stack buffer capacity k)
                k)
              (type_all rows columns echo capacity ws
                (edit capacity word line)
                (edit_sheet rows columns echo capacity word line s))
      go (ns', d', eq, h') = rw eq (
          next k ns' d' (edit capacity word line)
            (edit_sheet rows columns echo capacity word line s) v e h')

  take_step :
      (f : ℕ) (o : Option (ℕ × Keyboard)) (ws : List ℕ) (k : Keyboard) (ns : List ℕ) (d : Display)
      (line : List ℕ) (s : Sheet)
      → Takes k o
      → IsValid k
      → pending k ≡ ws
      → Editing rows columns buffer capacity ns d line s
      → ((vs : List ℕ) → length vs < length ws → Reading f vs)
      → Reads rows columns buffer capacity
          (each_word o
            (λ word k'.
              while_typing
                (handle_word echo stack buffer capacity word (length line) d)
                (read_scancodes f echo stack buffer capacity k')
                k')
            (k, typing (length line) d))
          (type_all rows columns echo capacity ws line s)
  unfolding type_all
  take_step f none [] k ns d line s t v e h next = (ns, d, k, refl, e, v, h)
  take_step f none (w ∷ ws) k ns d line s t v e h next = cc
  take_step f (some (x, k')) [] k ns d line s t v e h next = cc
  take_step f (some (x, k')) (w ∷ ws) k ns d line s t v e h next =
      let first : x ≡ w = cc (t.0, e) in
      let others : pending k' ≡ ws = cc (t.0, e) in
      rw first (key_step f w ws k' ns d line s t.1 others h (next ws (omega arith)))

  -- On a screen of two to 21 rows and one to 36 columns, with the buffer and the stack outside the
  -- frame buffer and apart, and a valid ring in which fewer words wait than there are rounds: the loop
  -- ends without a fault, with the line in the buffer as the waiting words make it, up to a newline if
  -- there is one; `len` is its length, and the ring holds the words behind the newline.
  pub read_scancodes-Reads :
      (f : ℕ) (ws : List ℕ) (k : Keyboard) (ns : List ℕ) (d : Display) (line : List ℕ) (s : Sheet)
      → length ws < f
      → IsValid k
      → pending k ≡ ws
      → Editing rows columns buffer capacity ns d line s
      → Reads rows columns buffer capacity
          (read_scancodes f echo stack buffer capacity k (length line) d)
          (type_all rows columns echo capacity ws line s)
  unfolding read_scancodes Reading
  read_scancodes-Reads zero ws k ns d line s hf v e h = absurd (omega arith)
  read_scancodes-Reads (suc f) ws k ns d line s hf v e h =
      take_step f (take_scancode k) ws k ns d line s (take_scancode-Takes v) v e h
        (λ vs shorter k' ns' d' line' s' v' e' h'.
          read_scancodes-Reads f vs k' ns' d' line' s' (omega arith) v' e' h')
