-- ===== src/Terminal/Put.antt =====
-- Each character that tputs takes changes the terminal as it changes the sheet.
use mono.Prelude.{
  ℕ, ◌+◌, ◌%◌, ◌^◌, ◌<◌, ◌≡◌, refl, sym, subst, subst₂, ap, ◌∙◌, ◌&&◌, Bool, true, Option, some,
  List, arith, ltb, leb, ◌==◌, if◌then◌else◌, get_or, get_elem?, get_elem?-eq-get_or, Bool-cases,
  inl, inr, lt→ltb,
}
use mono.Terminal.{
  Display, Terminal, Nodes, node_at, store_cell, move_to, refresh_terminal, ◌>>=◌, wrap_line,
}
use mono.Terminal.Chain.{Chain, node_at_lem, Distinct-get_or}
use mono.Terminal.Refresh.{Redrawn, Redraws, Few, refresh_terminal-Redraws}
use mono.Terminal.Sheet.{Sheet, Sized, Shows, Refines, IsPlaced, place, with_cell, wrap_sheet}

module _ (rows columns : ℕ) where
  -- Steps in a row refine the sheets in a row.
  pub Refines-bind :
      {o : Option Display} {f : Display → Option Display} (s t : Sheet)
      → Refines rows columns o s
      → ((ns : List ℕ) (d : Display) → Shows rows columns ns d s → Refines rows columns (f d) t)
      → Refines rows columns (o >>= f) t
  Refines-bind {f} s t (ns, d, e, h) next = rw e (next ns d h)

  pub Shows-move :
      (ns : List ℕ) (d : Display) (s : Sheet) (x y : ℕ)
      → Shows rows columns ns d s
      → Shows rows columns ns (move_to x y d) (place x y s)
  Shows-move ns d s x y h = record {
    chain = h.chain;
    distinct = h.distinct;
    count = h.count;
    rows_is = h.rows_is;
    columns_is = h.columns_is;
    x_is = refl;
    y_is = refl;
    colour_is = h.colour_is;
    cells = h.cells;
  }

  Shows-Redrawn :
      (ns : List ℕ) {d d' : Display} (s : Sheet)
      → Redrawn d d'
      → Shows rows columns ns d s
      → Shows rows columns ns d' s
  Shows-Redrawn ns s r h = record {
    chain =
        subst₂ (λ (m : Nodes) (t : Terminal). Chain m.next t.screen ns) (sym r.nodes) (sym r.term)
          h.chain;
    distinct = h.distinct;
    count = h.count;
    rows_is = ap (λ (t : Terminal). t.rows) r.term ∙ h.rows_is;
    columns_is = ap (λ (t : Terminal). t.columns) r.term ∙ h.columns_is;
    x_is = ap (λ (t : Terminal). t.cursor_x) r.term ∙ h.x_is;
    y_is = ap (λ (t : Terminal). t.cursor_y) r.term ∙ h.y_is;
    colour_is = ap (λ (t : Terminal). t.colour) r.term ∙ h.colour_is;
    cells = λ j i hj hi. ap (λ (m : Nodes). m.cell (get_or ns j 0) i) r.nodes ∙ h.cells j i hj hi;
  }

  -- Drawing the screen changes nothing of the sheet.
  pub refresh_terminal-Refines :
      (redraw : Bool) (ns : List ℕ) (d : Display) (s : Sheet)
      → Few rows
      → Few columns
      → Shows rows columns ns d s
      → Refines rows columns (refresh_terminal redraw d) s
  refresh_terminal-Refines redraw ns d s few wide h = wrap (
      refresh_terminal-Redraws redraw d ns h.chain (h.count ∙ sym h.rows_is)
        (subst Few (sym h.rows_is) few) (subst Few (sym h.columns_is) wide))
    where
      wrap : {o : Option Display} → Redraws d o → Refines rows columns o s
      wrap (d', e, r) = (ns, d', e, Shows-Redrawn ns s r h)

  pub store_cell-Refines :
      (v : ℕ) (ns : List ℕ) (d : Display) (s : Sheet)
      → Shows rows columns ns d s
      → s.x < columns
      → s.y < rows
      → Refines rows columns (store_cell v d) (with_cell v s)
  unfolding store_cell
  store_cell-Refines v ns d s h hx hy = (
    ns,
    record d {
      nodes = record d.nodes {
        cell = λ n i. if n == get_or ns s.y 0 && i == d.term.cursor_x then v else d.nodes.cell n i;
      };
    },
    rw (found, inside),
    record {
      chain = h.chain;
      distinct = h.distinct;
      count = h.count;
      rows_is = h.rows_is;
      columns_is = h.columns_is;
      x_is = h.x_is;
      y_is = h.y_is;
      colour_is = h.colour_is;
      cells = λ j i hj hi.
          ground (arith, h.cells j i, h.x_is, Distinct-get_or ns j s.y h.distinct, h.count);
    },
  )
    where
      found : node_at d.term.cursor_y d.nodes.next d.term.screen ≡ some (get_or ns s.y 0)
      found =
          node_at_lem d.term.cursor_y d.nodes.next d.term.screen ns h.chain
          ∙ ap (get_elem? ns) h.y_is
          ∙ get_elem?-eq-get_or ns s.y 0 (omega (arith, h.count))

      inside : ltb d.term.cursor_x d.term.columns ≡ true
      inside = lt→ltb d.term.cursor_x d.term.columns (omega (arith, h.x_is, h.columns_is))

  pub wrap_line-Shows :
      (ns : List ℕ) (d : Display) (s : Sheet)
      → Sized rows columns
      → IsPlaced rows columns s
      → Shows rows columns ns d s
      → Shows rows columns ns (wrap_line d) (wrap_sheet columns s)
  unfolding wrap_sheet
  wrap_line-Shows ns d s z p h = elim (Bool-cases (s.x == columns)) [
    | inl past ↦
        rw (same ∙ past, past)
          (subst (λ y. Shows rows columns ns (move_to 0 y d) (place 0 (s.y + 1) s)) (sym down)
            (Shows-move ns d s 0 (s.y + 1) h))
    | inr on ↦ rw (same ∙ on, on) h
  ]
    where
      same : leb d.term.columns d.term.cursor_x ≡ (s.x == columns)
      same = ground (arith, h.x_is, h.columns_is)

      down : (d.term.cursor_y + 1) % 2 ^ 16 ≡ s.y + 1
      down = omega (arith, h.y_is)
