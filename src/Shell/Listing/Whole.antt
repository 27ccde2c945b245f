-- ===== src/Shell/Listing/Whole.antt =====
-- What `display_romdisk` shows.
use mono.Line.Echo.{Console, OutStack}
use mono.Memory.{Memory, HasString, HasString-same}
use mono.Prelude.{
  ℕ, ◌+◌, ◌*◌, ◌^◌, ◌≤◌, ◌<◌, ◌≡◌, subst, ap, ◌∙◌, Option, List, [], ◌∷◌, length, arith,
}
use mono.Process.{Machine}
use mono.Romdisk.Table.{Entry, HasTable}
use mono.Romdisk.{entries, list_romdisk}
use mono.Shell.Listing.Pieces.{StackOut}
use mono.Shell.Listing.Rows.{KeptOut, Lists}
use mono.Shell.Listing.Table.{
  AllListable, ClearTo, HasTable-kept, entries-kept, put_rows, rows-Lists,
}
use mono.Shell.Listing.{Displays, kputs-Displays, kputc-Displays, Clear}
use mono.Shell.{Image, Act, bind, kputs, kputc, display_romdisk, list_row}
use mono.Terminal.Char.{AllAccepted, put_all_on_sheet}
use mono.Terminal.Sheet.{Sheet, Sized, put_on_sheet}
use mono.Terminal.{Display}

-- "Contents of main romdisk\n", "FILENAME           LENGTH\n"
abbrev pub title_text : List ℕ
title_text =
    67 ∷ 111 ∷ 110 ∷ 116 ∷ 101 ∷ 110 ∷ 116 ∷ 115 ∷ 32 ∷ 111 ∷ 102 ∷ 32 ∷ 109 ∷ 97 ∷ 105 ∷ 110 ∷ 32
    ∷ 114 ∷ 111 ∷ 109 ∷ 100 ∷ 105 ∷ 115 ∷ 107 ∷ 10 ∷ []

abbrev pub heading_text : List ℕ
heading_text =
    70 ∷ 73 ∷ 76 ∷ 69 ∷ 78 ∷ 65 ∷ 77 ∷ 69 ∷ 32 ∷ 32 ∷ 32 ∷ 32 ∷ 32 ∷ 32 ∷ 32 ∷ 32 ∷ 32 ∷ 32 ∷ 32
    ∷ 76 ∷ 69 ∷ 78 ∷ 71 ∷ 84 ∷ 72 ∷ 10 ∷ []

module _ (rows columns : ℕ) (z : Sized rows columns) (small : (rows ≤ 21) × (columns ≤ 36))
    (image : Image) (out : OutStack image.stack) (so : StackOut image.stack) (fuel : ℕ)
    (enough : 64 ≤ fuel) (es : List Entry) where
  -- What is in memory: the texts and the table, outside the frame buffer and the arrays on the stack.
  pub record Listed (m : Memory) : Type 0 where
    pub title : HasString m image.title title_text
    pub title_clear : Clear image.stack image.title 25
    pub heading : HasString m image.heading heading_text
    pub heading_clear : Clear image.stack image.heading 26
    pub newline : HasString m image.newline (10 ∷ [])
    pub newline_clear : Clear image.stack image.newline 1
    pub count : entries image.main_romdisk m ≡ length es
    pub few : length es < 2 ^ 16
    pub table : HasTable m (image.main_romdisk + 9) es
    pub table_clear :
        ClearTo image.stack image.main_romdisk (image.main_romdisk + 9 + 72 * length es)

  Lists-bind :
      (s : Machine) (o : Option Machine) (f : Act) (t u : Sheet)
      → Lists rows columns image.stack s o t
      → ((ns : List ℕ) (d : Display)
          → Console rows columns ns d t
          → KeptOut image.stack s.display.memory d.memory
          → Lists rows columns image.stack
              (record s { display = d })
              (f (record s { display = d }))
              u)
      → Lists rows columns image.stack s (bind o f) u
  Lists-bind s o f t u (ns, d, e, console, kept) next = extend (next ns d console kept)
    where
      extend :
          Lists rows columns image.stack (record s { display = d }) (f (record s { display = d })) u
          → Lists rows columns image.stack s (bind o f) u
      extend (ns', d', e', console', kept') = (
        ns',
        d',
        ap (λ o'. bind o' f) e ∙ e',
        console',
        λ a outside away. kept' a outside away ∙ kept a outside away,
      )

  Displays-Lists :
      (s : Machine) (o : Option Machine) (t : Sheet)
      → Displays rows columns image.stack s o t
      → Lists rows columns image.stack s o t
  Displays-Lists s o t (ns, d, e, console, kept) = (
    ns,
    d,
    e,
    console,
    λ a outside away. kept a outside (omega (arith, away)) (omega (arith, away)),
  )

  Listed-kept : (m m' : Memory) → KeptOut image.stack m m' → Listed m → Listed m'
  Listed-kept m m' kept h = record {
    title = same image.title title_text h.title_clear h.title;
    title_clear = h.title_clear;
    heading = same image.heading heading_text h.heading_clear h.heading;
    heading_clear = h.heading_clear;
    newline = same image.newline (10 ∷ []) h.newline_clear h.newline;
    newline_clear = h.newline_clear;
    count =
        entries-kept rows columns z small image out so fuel (omega arith) m m' kept
          (λ a l u. h.table_clear a l (omega arith))
        ∙ h.count;
    few = h.few;
    table =
        HasTable-kept rows columns z small image out so fuel (omega arith) m m'
          (image.main_romdisk + 9) es kept (λ a l u. h.table_clear a (omega arith) (omega arith))
          h.table;
    table_clear = h.table_clear;
  }
    where
      same :
          (p : ℕ) (cs : List ℕ)
          → Clear image.stack p (length cs)
          → HasString m p cs
          → HasString m' p cs
      same p cs clear text =
          HasString-same m m' p cs (λ i l. let q = clear i l in kept (p + i) q.0 q.1) text

  text-Lists :
      (p : ℕ) (cs ns : List ℕ) (s : Machine) (t : Sheet)
      → HasString s.display.memory p cs
      → Clear image.stack p (length cs)
      → AllAccepted cs
      → length cs < 64
      → Console rows columns ns s.display t
      → Lists rows columns image.stack s (kputs fuel p s) (put_all_on_sheet rows columns cs t)
  text-Lists p cs ns s t text clear acc few h =
      Displays-Lists s (kputs fuel p s) (put_all_on_sheet rows columns cs t) (
        kputs-Displays rows columns z small image.stack out fuel p cs ns s t text
          (let first = clear 0 (omega arith) in
            let last = clear (length cs) (omega arith) in omega (arith, first.0, last.0))
          acc (omega arith) (omega arith) h)

  -- On a terminal of two to 21 rows and one to 36 columns that shows a sheet, with the arrays on the
  -- stack outside the frame buffer, the texts and the romdisk's table of fewer than 65536 entries in
  -- memory apart from both, fuel for 64 characters, and entries whose names have one to 19 characters
  -- and whose sizes are positive `int`s: `display_romdisk` ends without a fault. The terminal then shows
  -- the title, the heading, and for each entry in order its name, blanks up to column 19 and its size in
  -- decimal, with a newline behind the last. Memory outside the frame buffer and 13 bytes of the stack
  -- is as it was.
  pub display_romdisk-Lists :
      (ns : List ℕ) (s : Machine) (t : Sheet)
      → AllListable es
      → Listed s.display.memory
      → Console rows columns ns s.display t
      → Lists rows columns image.stack s (display_romdisk fuel image s) (
          put_on_sheet rows columns 10 (
            put_rows rows columns es (
              put_all_on_sheet rows columns heading_text
                (put_all_on_sheet rows columns title_text t))))
  unfolding display_romdisk list_romdisk
  display_romdisk-Lists ns s t l h console =
      Lists-bind s _ (kputc image.stack 10) _ _
        (Lists-bind s _
          (list_romdisk image.main_romdisk (λ s'. s'.display.memory) (list_row fuel image)) _ _
          (Lists-bind s (kputs fuel image.title s) (kputs fuel image.heading) _ _
            (text-Lists image.title title_text ns s t h.title h.title_clear (omega arith)
              (omega arith) console)
            (λ ns1 d1 h1 kept.
              let k = Listed-kept s.display.memory d1.memory (λ a o w. kept a o w) h in
              text-Lists image.heading heading_text ns1 (record s { display = d1 }) _ k.heading
                k.heading_clear (omega arith) (omega arith) h1))
          (λ ns2 d2 h2 kept.
            let k = Listed-kept s.display.memory d2.memory (λ a o w. kept a o w) h in
            rows-Lists rows columns z small image out so fuel (omega arith) 65536 0 es ns2
              (record s { display = d2 }) _ (omega (arith, h.few)) (omega (arith, h.few))
              (k.count ∙ omega arith) l (subst (λ q. HasTable d2.memory q es) (omega arith) k.table)
              (λ a p u. k.table_clear a p (omega arith)) k.newline k.newline_clear h2))
        (λ ns3 d3 h3 kept.
          Displays-Lists (record s { display = d3 }) _ _
            (kputc-Displays rows columns z small image.stack out 10 ns3 (record s { display = d3 })
              _ (omega arith) (omega arith) h3))
