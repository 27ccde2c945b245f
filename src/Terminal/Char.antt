-- ===== src/Terminal/Char.antt =====
-- tputs, character by character, against the sheet.
use Prim.Native.Nat.{bit_and, bit_or}
use mono.Prelude.{
  ℕ, ◌+◌, ◌-◌, ◌%◌, ◌^◌, ◌≤◌, ◌<◌, ◌≡◌, ◌≢◌, refl, sym, subst, subst₂, ap₂, ◌∙◌, ◌⊎◌, ◌&&◌, true,
  false, Option, some, List, [], ◌∷◌, arith, ◌==◌, if◌then◌else◌, Bool-cases, inl, inr,
}
use mono.Graphics.Font.{default_font, default_font_lem}
use mono.Terminal.{
  Display, pred16, store_cell, move_to, ◌>>=◌, put_newline, put_backspace, step_back, put_glyph,
  print_glyph, advance, wrap_line, put_char,
}
use mono.Terminal.Put.{
  Refines-bind, Shows-move, refresh_terminal-Refines, store_cell-Refines, wrap_line-Shows,
}
use mono.Terminal.Sheet.{
  Sheet, Sized, Shows, Refines, IsPlaced, settle, scroll_sheet, place, with_cell, wrap_sheet,
  cursor_back, erase_back, type_glyph, next_line, glyph_of, put_on_sheet, put_on_sheet-IsPlaced,
  Accepts, colour_code_lem,
}
use mono.Terminal.Scroll.{scroll_if_below-Refines}

module _ (rows columns : ℕ) (z : Sized rows columns) where
  put_newline-Refines :
      (ns : List ℕ) (d : Display) (s : Sheet)
      → s.y ≤ rows
      → Shows rows columns ns d s
      → Refines rows columns (put_newline d) (settle rows (next_line s))
  unfolding put_newline
  put_newline-Refines ns d s hy h =
      scroll_if_below-Refines rows columns z (move_to 0 ((d.term.cursor_y + 1) % 2 ^ 16) d)
        (next_line s) ns
        (subst (λ y. Shows rows columns ns (move_to 0 y d) (next_line s)) (sym down)
          (Shows-move rows columns ns d s 0 (s.y + 1) h))
        (omega (arith, z.few_rows))
    where
      down : (d.term.cursor_y + 1) % 2 ^ 16 ≡ s.y + 1
      down = omega (arith, h.y_is, z.few_rows)

  step_back-Shows :
      (ns : List ℕ) (d : Display) (s : Sheet)
      → s.x ≤ columns
      → s.y ≤ rows
      → (s.x ≢ 0) ⊎ (s.y ≢ 0)
      → Shows rows columns ns d s
      → Shows rows columns ns (step_back d) (cursor_back columns s)
  step_back-Shows ns d s hx hy ne h = elim (Bool-cases (s.x == 0)) [
    | inl start ↦
        rw (at_start start, start)
          (subst₂ (λ x y. Shows rows columns ns (move_to x y d) (place (columns - 1) (s.y - 1) s))
            (omega (arith, h.columns_is, z.one_column, z.few_columns))
            (ground (arith, h.y_is, z.few_rows))
            (Shows-move rows columns ns d s (columns - 1) (s.y - 1) h))
    | inr inside ↦
        rw (in_line inside, inside)
          (subst₂ (λ x y. Shows rows columns ns (move_to x y d) (place (s.x - 1) s.y s))
            (ground (arith, h.x_is, z.few_columns)) (sym h.y_is)
            (Shows-move rows columns ns d s (s.x - 1) s.y h))
  ]
    where
      at_start : (s.x == 0) ≡ true → (pred16 d.term.cursor_x == 0xFFFF) ≡ true
      at_start e = ground (arith, h.x_is)

      in_line : (s.x == 0) ≡ false → (pred16 d.term.cursor_x == 0xFFFF) ≡ false
      in_line e = ground (arith, h.x_is, z.few_columns)

  put_backspace-Refines :
      (ns : List ℕ) (d : Display) (s : Sheet)
      → IsPlaced rows columns s
      → s.x < columns
      → Shows rows columns ns d s
      → Refines rows columns (put_backspace d) (erase_back columns s)
  unfolding put_backspace erase_back
  put_backspace-Refines ns d s p hx h = elim (Bool-cases (s.x == 0 && s.y == 0)) [
    | inl home ↦ rw (same ∙ home, home) (ns, d, refl, h)
    | inr away ↦
        rw (same ∙ away, away)
          (Refines-bind rows columns (with_cell 0 (cursor_back columns s))
            (with_cell 0 (cursor_back columns s))
            (store_cell-Refines rows columns 0 ns (step_back d) (cursor_back columns s)
              (step_back-Shows ns d s p.x_in p.y_in (ground arith) h) (ground (arith, z.one_column))
              (ground (arith, p.edge, p.y_in)))
            (λ ns' d' h'.
              refresh_terminal-Refines rows columns true ns' d'
                (with_cell 0 (cursor_back columns s)) z.few_rows z.few_columns h'))
  ]
    where
      same : (d.term.cursor_x == 0 && d.term.cursor_y == 0) ≡ (s.x == 0 && s.y == 0)
      same = ap₂ (λ x y. x == 0 && y == 0) h.x_is h.y_is

  advance-Shows :
      (ns : List ℕ) (d : Display) (s : Sheet)
      → s.x < columns
      → Shows rows columns ns d s
      → Shows rows columns ns (advance d) (place (s.x + 1) s.y s)
  advance-Shows ns d s hx h =
      subst₂ (λ x y. Shows rows columns ns (move_to x y d) (place (s.x + 1) s.y s))
        (omega (arith, h.x_is, z.few_columns)) (sym h.y_is)
        (Shows-move rows columns ns d s (s.x + 1) s.y h)

  print_glyph-Refines :
      (g : ℕ) (ns : List ℕ) (d : Display) (s : Sheet)
      → s.x < columns
      → s.y < rows
      → Shows rows columns ns d s
      → Refines rows columns (print_glyph (some g) d) (type_glyph g s)
  unfolding type_glyph
  print_glyph-Refines g ns d s hx hy h =
      subst
        (λ k.
          Refines rows columns (store_cell (bit_or g k) d >>= λ d'. some (advance d'))
            (type_glyph g s))
        (sym h.colour_is)
        (Refines-bind rows columns (with_cell (bit_or g s.colour) s) (type_glyph g s)
          (store_cell-Refines rows columns (bit_or g s.colour) ns d s h hx hy)
          (λ ns' d' h'.
            (ns', advance d', refl, advance-Shows ns' d' (with_cell (bit_or g s.colour) s) hx h')))

  put_glyph-Refines :
      (c : ℕ) (ns : List ℕ) (d : Display) (s : Sheet)
      → c < 128
      → IsPlaced rows columns s
      → s.x < columns
      → Shows rows columns ns d s
      → Refines rows columns
          (put_glyph c d)
          (type_glyph (glyph_of (default_font c)) (settle rows s))
  unfolding put_glyph
  put_glyph-Refines c ns d s hc p hx h = rw has_glyph (
      Refines-bind rows columns (settle rows s)
        (type_glyph (default_font_lem c 0 hc (omega arith)).0 (settle rows s))
        (scroll_if_below-Refines rows columns z d s ns h (omega (arith, p.y_in, z.few_rows)))
        (λ ns' d' h'. print_glyph-Refines _ ns' d' (settle rows s) settled_x settled_y h'))
    where
      has_glyph : default_font c ≡ some (default_font_lem c 0 hc (omega arith)).0
      has_glyph = (default_font_lem c 0 hc (omega arith)).1

      settled_x : (settle rows s).x < columns
      settled_x = unfold settle scroll_sheet in ground arith

      settled_y : (settle rows s).y < rows
      settled_y = unfold settle scroll_sheet in ground (arith, p.y_in, z.two_rows)

  wrapped : (s : Sheet) → IsPlaced rows columns s → IsPlaced rows columns (wrap_sheet columns s)
  unfolding wrap_sheet
  wrapped s p = ground (arith, p.x_in, p.y_in, p.edge, p.colour_in, z.one_column)

  wrapped_x : (s : Sheet) → IsPlaced rows columns s → (wrap_sheet columns s).x < columns
  unfolding wrap_sheet
  wrapped_x s p = ground (arith, p.x_in, z.one_column)

  put_plain-Refines :
      (c : ℕ) (ns : List ℕ) (d : Display) (s : Sheet)
      → c < 128
      → IsPlaced rows columns s
      → s.x < columns
      → Shows rows columns ns d s
      → Refines rows columns
          (if c == 10 then put_newline d else if c == 8 then put_backspace d else put_glyph c d)
          (if c == 10
            then settle rows (next_line s)
            else if c == 8
            then erase_back columns s
            else type_glyph (glyph_of (default_font c)) (settle rows s))
  put_plain-Refines c ns d s hc p hx h = elim (Bool-cases (c == 10)) [
    | inl newline ↦ rw newline (put_newline-Refines ns d s p.y_in h)
    | inr other ↦ rw other (elim (Bool-cases (c == 8)) [
      | inl back ↦ rw back (put_backspace-Refines ns d s p hx h)
      | inr glyph ↦ rw glyph (put_glyph-Refines c ns d s hc p hx h)
    ])
  ]

  Shows-colour :
      (k : ℕ) (ns : List ℕ) (d : Display) (s : Sheet)
      → Shows rows columns ns d s
      → Shows rows columns ns
          (record d { term = record d.term { colour = k } })
          (record s { colour = k })
  Shows-colour k ns d s h = record {
    chain = h.chain;
    distinct = h.distinct;
    count = h.count;
    rows_is = h.rows_is;
    columns_is = h.columns_is;
    x_is = h.x_is;
    y_is = h.y_is;
    colour_is = refl;
    cells = h.cells;
  }

  -- On a terminal of at least two rows and one column that shows a sheet with its cursor placed, a
  -- character that the driver takes never faults, and the terminal then shows the sheet with that
  -- character put.
  pub put_char-Refines :
      (c : ℕ) (ns : List ℕ) (d : Display) (s : Sheet)
      → Accepts c
      → IsPlaced rows columns s
      → Shows rows columns ns d s
      → Refines rows columns (put_char c d) (put_on_sheet rows columns c s)
  unfolding put_char put_on_sheet
  put_char-Refines c ns d s a p h = elim (Bool-cases (bit_and c 0xF0 == 0xF0)) [
    | inl code ↦ rw code (
      ns,
      record d { term = record d.term { colour = bit_and c 15 } },
      refl,
      Shows-colour (bit_and c 15) ns d s h,
    )
    | inr plain ↦ rw plain (
        put_plain-Refines c ns (wrap_line d) (wrap_sheet columns s) (low plain) (wrapped s p)
          (wrapped_x s p) (wrap_line-Shows rows columns ns d s z p h))
  ]
    where
      byte : c < 256
      byte = ground arith

      low : (bit_and c 0xF0 == 0xF0) ≡ false → c < 128
      low e = ground (arith, (colour_code_lem c byte).1)

-- All characters of a message, one after the other.
unfoldable pub put_chars : List ℕ → Display → Option Display
put_chars [] d = some d
put_chars (c ∷ cs) d = put_char c d >>= put_chars cs

unfoldable pub put_all_on_sheet : ℕ → ℕ → List ℕ → Sheet → Sheet
put_all_on_sheet rows columns [] s = s
put_all_on_sheet rows columns (c ∷ cs) s =
    put_all_on_sheet rows columns cs (put_on_sheet rows columns c s)

abbrev pub AllAccepted : List ℕ → Type 0
AllAccepted [] = Unit {0}
AllAccepted (c ∷ cs) = Accepts c × AllAccepted cs

module _ (rows columns : ℕ) (z : Sized rows columns) where
  -- So a whole message of such characters never faults, whatever it wraps, scrolls or erases, and
  -- shows what it shows on the sheet.
  pub put_chars-Refines :
      (cs : List ℕ) (ns : List ℕ) (d : Display) (s : Sheet)
      → AllAccepted cs
      → IsPlaced rows columns s
      → Shows rows columns ns d s
      → Refines rows columns (put_chars cs d) (put_all_on_sheet rows columns cs s)
  unfolding put_chars put_all_on_sheet
  put_chars-Refines [] ns d s a p h = (ns, d, refl, h)
  put_chars-Refines (c ∷ cs) ns d s a p h =
      Refines-bind rows columns (put_on_sheet rows columns c s)
        (put_all_on_sheet rows columns cs (put_on_sheet rows columns c s))
        (put_char-Refines rows columns z c ns d s a.0 p h)
        (λ ns' d' h'.
          put_chars-Refines cs ns' d' (put_on_sheet rows columns c s) a.1
            (put_on_sheet-IsPlaced rows columns c s z (ground arith) p) h')
