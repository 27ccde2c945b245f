-- ===== src/Terminal/Message.antt =====
-- tputs on a message in memory: its characters stay as they are while the screen is drawn.
use mono.Prelude.{
  ℕ, zero, suc, ◌+◌, ◌%◌, ◌^◌, ◌≤◌, ◌<◌, ◌≡◌, ◌≢◌, ap, ◌∙◌, ◌⊎◌, Bool, false, Option, some, List,
  [], ◌∷◌, arith, ◌==◌, if◌then◌else◌, length, ==_of_ne, ==_of_eq,
}
use mono.Memory.{HasString, HasString-at}
use mono.Graphics.{video_memory}
use mono.Graphics.Frame.{IsSaved}
use mono.Terminal.{Display, put_char, tputs_from, tputs, refresh_terminal, ◌>>=◌}
use mono.Terminal.Sheet.{
  Sheet, Sized, Shows, Refines, IsPlaced, put_on_sheet, put_on_sheet-IsPlaced,
}
use mono.Terminal.Put.{refresh_terminal-Refines}
use mono.Terminal.Char.{put_char-Refines, AllAccepted, put_all_on_sheet}
use mono.Terminal.Frame.{Framed, Framed-trans, Frames, refresh_terminal-Frames}
use mono.Terminal.Draw.{put_char-Frames}

-- The message and its terminating zero lie outside the frame buffer.
abbrev pub Apart : ℕ → List ℕ → Type 0
Apart msg cs = (msg + length cs < video_memory) ⊎ (video_memory + 64000 ≤ msg)

-- An outcome that is no fault, shows the sheet, and differs in memory in the frame buffer only.
abbrev pub Draws : ℕ → ℕ → Display → Option Display → Sheet → Type 0
Draws rows columns d o s =
    (ns : List ℕ) × (d' : Display) × (o ≡ some d') × Shows rows columns ns d' s × Framed d d'

HasString-Framed :
    {d d' : Display} (p : ℕ) (cs : List ℕ)
    → Framed d d'
    → Apart p cs
    → HasString d.memory p cs
    → HasString d'.memory p cs
HasString-Framed p [] f a h = f.memory p (ground arith) ∙ h
HasString-Framed p (c ∷ cs) f a h =
    (f.memory p (ground arith) ∙ h.0, h.1, HasString-Framed (p + 1) cs f (ground arith) h.2)

tputs_from_step :
    (f i msg c : ℕ) (d : Display)
    → d.memory (msg + i) ≡ c
    → c ≢ 0
    → tputs_from (suc f) i msg d ≡ (put_char c d >>= tputs_from f ((i + 1) % 2 ^ 16) msg)
unfolding tputs_from
tputs_from_step f i msg c d e ne =
    ap
      (λ k.
        if k == 0
        then refresh_terminal false d
        else put_char k d >>= tputs_from f ((i + 1) % 2 ^ 16) msg)
      e
    ∙ rw (==_of_ne c 0 ne)

module _ (rows columns : ℕ) (z : Sized rows columns) (small : (rows ≤ 21) × (columns ≤ 36)) where
  join :
      (d : Display) (o : Option Display) (s : Sheet)
      → Refines rows columns o s
      → Frames d o
      → Draws rows columns d o s
  join d o s (ns, d', e, h) f = (ns, d', e, h, f d' e)

  Draws-bind :
      {d : Display} {o : Option Display} {f : Display → Option Display} (s t : Sheet)
      → Draws rows columns d o s
      → ((ns : List ℕ) (e : Display)
          → Shows rows columns ns e s
          → Framed d e
          → Draws rows columns e (f e) t)
      → Draws rows columns d (o >>= f) t
  Draws-bind {d} s t (ns, e, eq, h, fr) next = rw eq (extend (next ns e h fr))
    where
      extend : {o' : Option Display} → Draws rows columns e o' t → Draws rows columns d o' t
      extend (ms, d', eq', h', fr') = (ms, d', eq', h', Framed-trans fr fr')

  pub refresh_terminal-Draws :
      (redraw : Bool) (ns : List ℕ) (d : Display) (s : Sheet)
      → Shows rows columns ns d s
      → IsSaved d.area
      → Draws rows columns d (refresh_terminal redraw d) s
  refresh_terminal-Draws redraw ns d s h v =
      join d (refresh_terminal redraw d) s
        (refresh_terminal-Refines rows columns redraw ns d s z.few_rows z.few_columns h)
        (refresh_terminal-Frames redraw d ns h.chain (omega (arith, h.count, small.0))
          (omega (arith, h.columns_is, small.1)) v)

  put_char-Draws :
      (c : ℕ) (ns : List ℕ) (d : Display) (s : Sheet)
      → AllAccepted (c ∷ [])
      → IsPlaced rows columns s
      → Shows rows columns ns d s
      → IsSaved d.area
      → Draws rows columns d (put_char c d) (put_on_sheet rows columns c s)
  put_char-Draws c ns d s a p h v =
      join d (put_char c d) (put_on_sheet rows columns c s)
        (put_char-Refines rows columns z c ns d s a.0 p h)
        (put_char-Frames c ns d h.chain (omega (arith, h.count, small.0))
          (omega (arith, h.columns_is, small.1)) v)

  tputs_from-Draws :
      (f i msg : ℕ) (cs ns : List ℕ) (d : Display) (s : Sheet)
      → HasString d.memory (msg + i) cs
      → Apart (msg + i) cs
      → AllAccepted cs
      → length cs < f
      → i + length cs < 2 ^ 16
      → IsPlaced rows columns s
      → Shows rows columns ns d s
      → IsSaved d.area
      → Draws rows columns d (tputs_from f i msg d) (put_all_on_sheet rows columns cs s)
  unfolding tputs_from put_all_on_sheet
  tputs_from-Draws zero i msg cs ns d s t a acc hf hi p h v = absurd (omega arith)
  tputs_from-Draws (suc f) i msg [] ns d s t a acc hf hi p h v =
      rw (==_of_eq (d.memory (msg + i)) 0 t) (refresh_terminal-Draws false ns d s h v)
  tputs_from-Draws (suc f) i msg (c ∷ cs) ns d s t a acc hf hi p h v =
      let next : (i + 1) % 2 ^ 16 ≡ i + 1 = omega arith in
      rw (tputs_from_step f i msg c d t.0 t.1, next)
        (Draws-bind (put_on_sheet rows columns c s)
          (put_all_on_sheet rows columns cs (put_on_sheet rows columns c s))
          (put_char-Draws c ns d s (acc.0, tt) p h v)
          (λ ns' d' h' fr.
            tputs_from-Draws f (i + 1) msg cs ns' d' (put_on_sheet rows columns c s)
              (HasString-Framed (msg + (i + 1)) cs fr (ground arith)
                (HasString-at d.memory cs t.2 (omega arith)))
              (ground arith) acc.1 (omega arith) (omega arith)
              (put_on_sheet-IsPlaced rows columns c s z (ground (arith, acc.0)) p) h' fr.saved))

  -- Let a terminal of two to 21 rows and one to 36 columns show a sheet, with its cursor placed and
  -- with no saved square or one on the screen. A message of up to 65534 characters that the driver
  -- takes, outside the frame buffer, makes `tputs` end without a fault, given fuel for its length. The
  -- terminal then shows the sheet with all the characters put, and no byte outside the frame buffer
  -- has changed.
  pub tputs-Draws :
      (fuel msg : ℕ) (cs ns : List ℕ) (d : Display) (s : Sheet)
      → HasString d.memory msg cs
      → Apart msg cs
      → AllAccepted cs
      → length cs < fuel
      → length cs < 65535
      → IsPlaced rows columns s
      → Shows rows columns ns d s
      → IsSaved d.area
      → Draws rows columns d (tputs fuel msg d) (put_all_on_sheet rows columns cs s)
  unfolding tputs
  tputs-Draws fuel msg cs ns d s t a acc hf hl p h v =
      tputs_from-Draws fuel 0 msg cs ns d s (HasString-at d.memory cs t (omega arith))
        (ground arith) acc hf (omega arith) p h v
