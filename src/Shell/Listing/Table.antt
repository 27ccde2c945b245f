-- ===== src/Shell/Listing/Table.antt =====
-- The whole listing of the romdisk.
use mono.Graphics.Frame.{OutFrame}
use mono.Line.Echo.{Console, OutStack}
use mono.Memory.{Memory, HasString, HasString-same, read16, read32}
use mono.Prelude.{
  ℕ, suc, ◌+◌, ◌-◌, ◌*◌, ◌≤◌, ◌<◌, ◌≡◌, refl, sym, subst, ap, ◌∙◌, ◌⊎◌, Option, List, [], ◌∷◌,
  length, arith, zero, ◌%◌, ◌^◌, ap₂, lt→ltb, ltb_of_le,
}
use mono.Process.{Machine}
use mono.Shell.Arguments.{read32-same}
use mono.Str.Itoa.Decimal
use mono.Romdisk.Table.{Entry, HasTable}
use mono.Romdisk.{entries, entry_at, after_callback, list_from}
use mono.Shell.Listing.Pieces.{StackOut}
use mono.Shell.Listing.Rows.{put_row, Listable, KeptOut, Lists, named-Lists}
use mono.Shell.Listing.{blanks, Clear}
use mono.Shell.{Image, list_row}
use mono.Terminal.Char.{AllAccepted, put_all_on_sheet}
use mono.Terminal.Sheet.{Sheet, Sized, put_on_sheet}
use mono.Terminal.{Display}

-- Bytes from `p` up to `q` that are outside the frame buffer and not in the arrays on the stack.
abbrev pub ClearTo : ℕ → ℕ → ℕ → Type 0
ClearTo stack p q = (a : ℕ) → p ≤ a → a < q → OutFrame a × ((a < stack) ⊎ (stack + 13 ≤ a))

-- The rows of the entries, in order.
unfoldable pub put_rows : ℕ → ℕ → List Entry → Sheet → Sheet
put_rows rows columns [] t = t
put_rows rows columns (e ∷ es) t = put_rows rows columns es (put_row rows columns e t)

abbrev pub AllListable : List Entry → Type 0
AllListable [] = Unit {0}
AllListable (e ∷ es) = Listable e × AllListable es

-- The loop over the entries from index `i` on.
abbrev pub list_entries : ℕ → ℕ → Image → ℕ → Machine → Option Machine
list_entries n fuel image i s =
    list_from n i image.main_romdisk (λ s'. s'.display.memory) (list_row fuel image) s

module _ (rows columns : ℕ) (z : Sized rows columns) (small : (rows ≤ 21) × (columns ≤ 36))
    (image : Image) (out : OutStack image.stack) (so : StackOut image.stack) (fuel : ℕ)
    (enough : 20 ≤ fuel) where
  list_row-Lists :
      (p : ℕ) (e : Entry) (ns : List ℕ) (s : Machine) (t : Sheet)
      → Listable e
      → HasString s.display.memory p e.filename
      → read32 s.display.memory (p + 68) ≡ e.size
      → ClearTo image.stack p (p + 72)
      → HasString s.display.memory image.newline (10 ∷ [])
      → Clear image.stack image.newline 1
      → Console rows columns ns s.display t
      → Lists rows columns image.stack s (list_row fuel image p s) (put_row rows columns e t)
  unfolding put_row
  list_row-Lists p e ns s t l name size clear newline nclear h = by_name e.filename refl
    where
      by_name :
          (text : List ℕ)
          → e.filename ≡ text
          → Lists rows columns image.stack s (list_row fuel image p s) (put_row rows columns e t)
      by_name [] same = absurd (l.named (ap length same))
      by_name (c ∷ cs) same =
          let named =
            named-Lists rows columns z small image out fuel p c e.size cs ns s t so enough
              (subst (λ text. length text ≤ 19) same l.short) (subst AllAccepted same l.shown)
              l.some_bytes l.below (subst (HasString s.display.memory p) same name) size
              (λ i k. clear (p + i) (omega arith) (omega (arith, ap length same, l.short))) newline
              nclear h in
          subst
            (λ text. Lists rows columns image.stack s (list_row fuel image p s) (
              put_on_sheet rows columns 10 (
                put_all_on_sheet rows columns (Decimal.decimal e.size) (
                  put_all_on_sheet rows columns (blanks (19 - length text))
                    (put_all_on_sheet rows columns text t)))))
            (sym same) named

  pub HasTable-kept :
      (m m' : Memory) (p : ℕ) (es : List Entry)
      → KeptOut image.stack m m'
      → ClearTo image.stack p (p + 72 * length es)
      → HasTable m p es
      → HasTable m' p es
  HasTable-kept m m' p [] kept clear h = tt
  HasTable-kept m m' p (e ∷ es) kept clear h = (
    HasString-same m m' p e.filename (λ i l. same (p + i) (omega arith) (omega (arith, h.1))) h.0,
    h.1,
    read32-same m m' (p + 64) (λ a l u. same a (omega arith) (omega arith)) ∙ h.2,
    read32-same m m' (p + 68) (λ a l u. same a (omega arith) (omega arith)) ∙ h.3,
    HasTable-kept m m' (p + 72) es kept (λ a l u. clear a (omega arith) (omega arith)) h.4,
  )
    where
      same : (a : ℕ) → p ≤ a → a < p + 72 * suc (length es) → m' a ≡ m a
      same a l u = let q = clear a l u in kept a q.0 q.1

  pub entries-kept :
      (m m' : Memory)
      → KeptOut image.stack m m'
      → ClearTo image.stack image.main_romdisk (image.main_romdisk + 9)
      → entries image.main_romdisk m' ≡ entries image.main_romdisk m
  unfolding read16
  entries-kept m m' kept clear =
      ap₂ (λ x y. x + 256 * y) (at 7 (omega arith))
        (ap m' (omega arith) ∙ at 8 (omega arith) ∙ ap m (omega arith))
    where
      at : (k : ℕ) → k < 9 → m' (image.main_romdisk + k) ≡ m (image.main_romdisk + k)
      at k l =
          let q = clear (image.main_romdisk + k) (omega arith) (omega arith) in
          kept (image.main_romdisk + k) q.0 q.1

  after_row :
      (n i : ℕ) (s : Machine) (t u : Sheet)
      → Lists rows columns image.stack s (list_row fuel image (entry_at image.main_romdisk i) s) t
      → ((ns : List ℕ) (d : Display)
          → Console rows columns ns d t
          → KeptOut image.stack s.display.memory d.memory
          → Lists rows columns image.stack
              (record s { display = d })
              (list_entries n fuel image ((i + 1) % 2 ^ 16) (record s { display = d }))
              u)
      → Lists rows columns image.stack s
          (after_callback
            (list_row fuel image (entry_at image.main_romdisk i) s)
            (list_entries n fuel image ((i + 1) % 2 ^ 16)))
          u
  after_row n i s t u (ns, d, e, console, kept) next = go_on (next ns d console kept)
    where
      go_on :
          Lists rows columns image.stack
            (record s { display = d })
            (list_entries n fuel image ((i + 1) % 2 ^ 16) (record s { display = d }))
            u
          → Lists rows columns image.stack s
              (after_callback
                (list_row fuel image (entry_at image.main_romdisk i) s)
                (list_entries n fuel image ((i + 1) % 2 ^ 16)))
              u
      go_on (ns', d', e', console', kept') = (
        ns',
        d',
        ap (λ o. after_callback o (list_entries n fuel image ((i + 1) % 2 ^ 16))) e ∙ e',
        console',
        λ a outside away. kept' a outside away ∙ kept a outside away,
      )

  -- With fuel for the entries from index `i` on, of which the image counts fewer than 65536 in all.
  pub rows-Lists :
      (n i : ℕ) (es : List Entry) (ns : List ℕ) (s : Machine) (t : Sheet)
      → length es < n
      → i + length es < 65536
      → entries image.main_romdisk s.display.memory ≡ i + length es
      → AllListable es
      → HasTable s.display.memory (entry_at image.main_romdisk i) es
      → ClearTo image.stack image.main_romdisk (entry_at image.main_romdisk i + 72 * length es)
      → HasString s.display.memory image.newline (10 ∷ [])
      → Clear image.stack image.newline 1
      → Console rows columns ns s.display t
      → Lists rows columns image.stack s
          (list_entries n fuel image i s)
          (put_rows rows columns es t)
  unfolding put_rows list_from
  rows-Lists zero i es ns s t f b count l table clear newline nclear h = absurd (omega arith)
  rows-Lists (suc n) i [] ns s t f b count l table clear newline nclear h =
      rw (ltb_of_le i (entries image.main_romdisk s.display.memory) (omega (arith, count)))
        (ns, s.display, refl, h, λ a outside away. refl)
  rows-Lists (suc n) i (e ∷ es) ns s t f b count l table clear newline nclear h =
      rw (lt→ltb i (entries image.main_romdisk s.display.memory) (omega (arith, count))) (
        after_row n i s (put_row rows columns e t) _
          (list_row-Lists (entry_at image.main_romdisk i) e ns s t l.0 table.0 table.3
            (λ a p u. clear a (omega arith) (omega arith)) newline nclear h)
          (λ ns' d h' kept.
            subst
              (λ j.
                Lists rows columns image.stack (record s { display = d })
                  (list_entries n fuel image j (record s { display = d }))
                  (put_rows rows columns es (put_row rows columns e t)))
              (one_more (omega arith))
              (rows-Lists n (i + 1) es ns' (record s { display = d }) (put_row rows columns e t)
                (omega arith) (omega arith)
                (entries-kept s.display.memory d.memory (λ a o w. kept a o w)
                    (λ a p u. clear a p (omega arith))
                  ∙ count
                  ∙ omega arith)
                l.1
                (HasTable-kept s.display.memory d.memory (entry_at image.main_romdisk (i + 1)) es
                  (λ a o w. kept a o w) (λ a p u. clear a (omega arith) (omega arith))
                  (subst (λ q. HasTable s.display.memory q es) (omega arith) table.4))
                (λ a p u. clear a p (omega arith))
                (HasString-same s.display.memory d.memory image.newline (10 ∷ [])
                  (λ j k. let q = nclear j k in kept (image.newline + j) q.0 q.1) newline)
                nclear h')))
    where
      one_more : i + 1 < 65536 → i + 1 ≡ (i + 1) % 2 ^ 16
      one_more k = omega arith
