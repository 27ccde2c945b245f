-- ===== src/Line/Edit.antt =====
-- A typed line as a list of characters.
use mono.Prelude.{
  ℕ, ◌+◌, ◌-◌, ◌%◌, ◌<◌, ◌≡◌, refl, ap, ◌∙◌, ◌||◌, List, [], ◌∷◌, ◌++◌, arith, ◌==◌, if◌then◌else◌,
  length,
}
use mono.Keyboard.Tables.{kbdus}
use mono.Line.{typed_char}
use mono.Memory.{Memory, HasBytes}

abbrev pub drop_last : List ℕ → List ℕ
drop_last [] = []
drop_last (c ∷ []) = []
drop_last (c ∷ d ∷ s) = c ∷ drop_last (d ∷ s)

pub length-drop_last : (s : List ℕ) → length (drop_last s) ≡ length s - 1
length-drop_last [] = refl
length-drop_last (c ∷ []) = refl
length-drop_last (c ∷ d ∷ s) = omega (arith, length-drop_last (d ∷ s))

-- What a word other than the newline does to the line: a backspace drops the last character, and a
-- character is put behind the others while there are at most `capacity`.
unfoldable pub edit : ℕ → ℕ → List ℕ → List ℕ
edit capacity word s =
    if kbdus (word % 256) == 8
    then drop_last s
    else if kbdus (word % 256) == 0 || length s == capacity + 1
    then s
    else s ++ typed_char word ∷ []

pub HasBytes-drop_last :
    (m : Memory) (p : ℕ) (s : List ℕ) → HasBytes m p s → HasBytes m p (drop_last s)
HasBytes-drop_last m p [] h = tt
HasBytes-drop_last m p (c ∷ []) h = tt
HasBytes-drop_last m p (c ∷ d ∷ s) h = (h.0, HasBytes-drop_last m (p + 1) (d ∷ s) h.1)

pub HasBytes-snoc :
    (m : Memory) (p c : ℕ) (s : List ℕ)
    → HasBytes m p s
    → m (p + length s) ≡ c
    → HasBytes m p (s ++ c ∷ [])
HasBytes-snoc m p c [] h e = (ap m (omega arith) ∙ e, tt)
HasBytes-snoc m p c (d ∷ s) h e = (h.0, HasBytes-snoc m (p + 1) c s h.1 (ap m (omega arith) ∙ e))

-- Memories that agree on the bytes.
pub HasBytes-same :
    (m m' : Memory) (p : ℕ) (s : List ℕ)
    → ((i : ℕ) → i < length s → m' (p + i) ≡ m (p + i))
    → HasBytes m p s
    → HasBytes m' p s
HasBytes-same m m' p [] same h = tt
HasBytes-same m m' p (c ∷ s) same h = (
  ap m' (omega arith) ∙ same 0 (omega arith) ∙ ap m (omega arith) ∙ h.0,
  HasBytes-same m m' (p + 1) s
      (λ i l. ap m' (omega arith) ∙ same (i + 1) (omega arith) ∙ ap m (omega arith)) h.1,
)
