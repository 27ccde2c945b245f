-- ===== src/Terminal/Draw.antt =====
-- tputs on a message in memory: its characters stay as they are while the screen is drawn.
use mathlib.Core.Option.{some-injective}
use Prim.Native.Nat.{bit_and, bit_or}
use mono.Prelude.{
  ℕ, ◌+◌, ◌%◌, ◌^◌, ◌≤◌, ◌≡◌, refl, sym, subst, inl, inr, ◌&&◌, true, Option, none, some, List, ltb,
  leb, ◌==◌, if◌then◌else◌, length, Bool-cases,
}
use mono.Graphics.Font.{default_font}
use mono.Graphics.Frame.{IsSaved, draw_background-outside}
use mono.Terminal.{
  Display, pred16, rotate_rows, scroll_from, terminal_scroll, stored, store_at, store_cell,
  scroll_if_below, move_to, put_newline, put_backspace, put_glyph, print_glyph, put_char,
  refresh_terminal, ◌>>=◌,
}
use mono.Terminal.Chain.{Chain}
use mono.Terminal.Frame.{Framed, Framed-refl, Framed-trans, Frames, refresh_terminal-Frames}

Frames-some : {d e : Display} → Framed d e → Frames d (some e)
Frames-some {d} {e} f d' eq = subst (Framed d) (some-injective e d' eq) f

Frames-none : (d : Display) → Frames d none
Frames-none d d' e = cc

pub Frames-bind :
    {d : Display} {f : Display → Option Display} (o : Option Display)
    → Frames d o
    → ((e : Display) → o ≡ some e → Framed d e → Frames e (f e))
    → Frames d (o >>= f)
Frames-bind {d} none h next = Frames-none d
Frames-bind {d} (some e) h next = λ d' eq. Framed-trans (h e refl) (next e refl (h e refl) d' eq)

rotate_rows-Frames :
    (first : ℕ) (t : Option ℕ) (d : Display) → IsSaved d.area → Frames d (rotate_rows first t d)
rotate_rows-Frames first none d s = Frames-none d
rotate_rows-Frames first (some tail) d s = Frames-some (record {
  saved = s;
  columns = refl;
  memory = λ a out. draw_background-outside d.term.background a d.memory out;
})

scroll_from-Frames : (p : Option ℕ) (d : Display) → IsSaved d.area → Frames d (scroll_from p d)
scroll_from-Frames none d s = Frames-none d
scroll_from-Frames (some first) d s = rotate_rows-Frames first _ d s

scroll_if_below-Frames : (d : Display) → IsSaved d.area → Frames d (scroll_if_below d)
unfolding terminal_scroll
scroll_if_below-Frames d s = elim (Bool-cases (leb d.term.rows d.term.cursor_y)) [
  | inl below ↦ rw below (scroll_from-Frames d.term.screen d s)
  | inr above ↦ rw above (Frames-some (Framed-refl d s))
]

store_at-Frames : (p : Option ℕ) (v : ℕ) (d : Display) → IsSaved d.area → Frames d (store_at p v d)
store_at-Frames none v d s = Frames-none d
store_at-Frames (some n) v d s = elim (Bool-cases (ltb d.term.cursor_x d.term.columns)) [
  | inl inside ↦ rw inside (
      Frames-some {d = d} {e = stored n v d}
        (record { saved = s; columns = refl; memory = λ a out. refl }))
  | inr outside ↦ rw outside (Frames-none d)
]

print_glyph-Frames : (g : Option ℕ) (d : Display) → IsSaved d.area → Frames d (print_glyph g d)
unfolding store_cell
print_glyph-Frames none d s = Frames-none d
print_glyph-Frames (some g) d s =
    Frames-bind _ (store_at-Frames _ (bit_or g d.term.colour) d s)
      (λ e eq f. Frames-some (record { saved = f.saved; columns = refl; memory = λ a out. refl }))

put_glyph-Frames : (c : ℕ) (d : Display) → IsSaved d.area → Frames d (put_glyph c d)
unfolding put_glyph
put_glyph-Frames c d s =
    Frames-bind (scroll_if_below d) (scroll_if_below-Frames d s)
      (λ e eq f. print_glyph-Frames (default_font c) e f.saved)

-- A display that differs from `d` in its terminal's cursor only.
Frames-move : (x y : ℕ) (d : Display) (o : Option Display) → Frames (move_to x y d) o → Frames d o
Frames-move x y d o h =
    λ d' e. let f = h d' e in record { saved = f.saved; columns = f.columns; memory = f.memory }

put_newline-Frames : (d : Display) → IsSaved d.area → Frames d (put_newline d)
unfolding put_newline
put_newline-Frames d s =
    Frames-move 0 ((d.term.cursor_y + 1) % 2 ^ 16) d _ (scroll_if_below-Frames _ s)

-- Storing a cell leaves the list of rows as it is.
store_at-Chain :
    (p : Option ℕ) (v : ℕ) (ns : List ℕ) (d e : Display)
    → store_at p v d ≡ some e
    → Chain d.nodes.next d.term.screen ns
    → Chain e.nodes.next e.term.screen ns
store_at-Chain none v ns d e eq c = cc
store_at-Chain (some n) v ns d e eq c = elim (Bool-cases (ltb d.term.cursor_x d.term.columns)) [
  | inl inside ↦
      subst (λ (r : Display). Chain r.nodes.next r.term.screen ns)
        (some-injective (stored n v d) e (rw inside at eq)) c
  | inr outside ↦ let none_is : none ≡ some e = rw outside at eq in cc
]

erase_cell-Frames :
    (ns : List ℕ) (d : Display)
    → Chain d.nodes.next d.term.screen ns
    → length ns ≤ 21
    → d.term.columns ≤ 36
    → IsSaved d.area
    → Frames d (store_cell 0 d >>= refresh_terminal true)
unfolding store_cell
erase_cell-Frames ns d c hl hc s = Frames-bind _ (store_at-Frames _ 0 d s) (λ e eq f.
    refresh_terminal-Frames true e ns (store_at-Chain _ 0 ns d e eq c) hl
      (subst (λ t. t ≤ 36) (sym f.columns) hc) f.saved)

put_backspace-Frames :
    (ns : List ℕ) (d : Display)
    → Chain d.nodes.next d.term.screen ns
    → length ns ≤ 21
    → d.term.columns ≤ 36
    → IsSaved d.area
    → Frames d (put_backspace d)
unfolding put_backspace
put_backspace-Frames ns d c hl hc s =
    elim (Bool-cases (d.term.cursor_x == 0 && d.term.cursor_y == 0)) [
      | inl home ↦ rw home (Frames-some (Framed-refl d s))
      | inr away ↦ rw away (elim (Bool-cases (pred16 d.term.cursor_x == 0xFFFF)) [
        | inl start ↦ rw start (Frames-move _ _ d _ (erase_cell-Frames ns _ c hl hc s))
        | inr inside ↦ rw inside (Frames-move _ _ d _ (erase_cell-Frames ns _ c hl hc s))
      ])
    ]

put_plain-Frames :
    (c : ℕ) (ns : List ℕ) (d : Display)
    → Chain d.nodes.next d.term.screen ns
    → length ns ≤ 21
    → d.term.columns ≤ 36
    → IsSaved d.area
    → Frames d
        (if c == 10 then put_newline d else if c == 8 then put_backspace d else put_glyph c d)
put_plain-Frames c ns d ch hl hc s = elim (Bool-cases (c == 10)) [
  | inl newline ↦ rw newline (put_newline-Frames d s)
  | inr other ↦ rw other (elim (Bool-cases (c == 8)) [
    | inl back ↦ rw back (put_backspace-Frames ns d ch hl hc s)
    | inr glyph ↦ rw glyph (put_glyph-Frames c d s)
  ])
]

pub put_char-Frames :
    (c : ℕ) (ns : List ℕ) (d : Display)
    → Chain d.nodes.next d.term.screen ns
    → length ns ≤ 21
    → d.term.columns ≤ 36
    → IsSaved d.area
    → Frames d (put_char c d)
unfolding put_char
put_char-Frames c ns d ch hl hc s = elim (Bool-cases (bit_and c 0xF0 == 0xF0)) [
  | inl code ↦ rw code (Frames-some (record { saved = s; columns = refl; memory = λ a out. refl }))
  | inr plain ↦ rw plain (elim (Bool-cases (leb d.term.columns d.term.cursor_x)) [
    | inl past ↦ rw past (Frames-move _ _ d _ (put_plain-Frames c ns _ ch hl hc s))
    | inr on ↦ rw on (put_plain-Frames c ns d ch hl hc s)
  ])
]
