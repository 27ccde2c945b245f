-- ===== src/Kernel/Welcome.antt =====
-- The message of the day on the terminal.
use mono.Delay.Timer.{asleep-Delays}
use mono.Delay.{asleep}
use mono.Kernel.{Kernel, next, with_machine, on_ports, welcome}
use mono.Line.Echo.{Console, Echoes, OutStack, put_one-Echoes}
use mono.Line.{put_one}
use mono.Ports.Writes.{writes}
use mono.Ports.{Access, Device}
use mono.Prelude.{
  ℕ, suc, ◌+◌, ◌*◌, ◌≤◌, ◌<◌, ◌≡◌, ◌≢◌, refl, sym, subst, ap, ◌∙◌, Option, some, List, [], ◌∷◌,
  length, arith,
}
use mono.Shell.Listing.{KeptMemory}
use mono.Shell.{kputc, shown}
use mono.Terminal.Char.{put_all_on_sheet}
use mono.Terminal.Sheet.{Sheet, Sized, put_on_sheet}
use mono.Terminal.{Display}

-- Characters that are no colour codes and no end of a text.
abbrev pub AllPlain : List ℕ → Type 0
AllPlain [] = Unit {0}
AllPlain (c ∷ cs) = (c ≢ 0) × (c < 128) × AllPlain cs

abbrev with_display : Kernel → Display → Kernel
with_display k d = record k { machine = record k.machine { display = d } }

-- The step ends without a fault, with the terminal showing the sheet after `waits` short waits; of the state
-- only the display has changed.
abbrev pub Greets :
    ℕ → ℕ → ℕ → ℕ → Kernel → List Access → Option Kernel × List Access → Sheet → Type 0
Greets rows columns stack waits k log r t =
    (ns : List ℕ) × (d : Display) × (r.0
      ≡ some (record k { machine = record k.machine { display = d } }))
    × Console rows columns ns d t
    × KeptMemory stack k.machine.display.memory d.memory
    × (length (writes 0x80 r.1) ≡ waits + length (writes 0x80 log))

module _ (rows columns : ℕ) (z : Sized rows columns) (small : (rows ≤ 21) × (columns ≤ 36))
    (stack : ℕ) (out : OutStack stack) where
  welcome-cons :
      (c : ℕ) (cs : List ℕ) (k : Kernel) (dev : Device) (log : List Access) (d : Display)
      → put_one stack c k.machine.display ≡ some d
      → welcome stack (c ∷ cs) k dev log
        ≡ welcome stack cs (with_display k d) dev (asleep 500 dev log).1
  unfolding welcome kputc
  welcome-cons c cs k dev log d e =
      ap
        (λ o.
          let r = next (with_machine k (shown k.machine o)) (on_ports (asleep 500)) dev log in
          next r.0 (welcome stack cs) dev r.1)
        e

  after_char :
      (cs : List ℕ) (k : Kernel) (t : Sheet) (dev : Device) (log : List Access) (d : Display)
      (r : Option Kernel × List Access)
      → KeptMemory stack k.machine.display.memory d.memory
      → Greets rows columns stack
          (length cs * (1800 * 500 + 4))
          (with_display k d)
          (asleep 500 dev log).1
          r
          t
      → Greets rows columns stack (suc (length cs) * (1800 * 500 + 4)) k log r t
  after_char cs k t dev log d r kept (ns, d', e, console, kept', waits) = (
    ns,
    d',
    e,
    console,
    (λ a o n1 n2. kept' a o n1 n2 ∙ kept a o n1 n2),
    waits ∙ omega (arith, (asleep-Delays 500 dev log (omega arith)).waits),
  )

  one_char :
      (c : ℕ) (cs : List ℕ) (k : Kernel) (s t : Sheet) (dev : Device) (log : List Access)
      → Echoes rows columns stack k.machine.display (put_one stack c k.machine.display) s
      → ((ns : List ℕ) (d : Display)
          → Console rows columns ns d s
          → Greets rows columns stack
              (length cs * (1800 * 500 + 4))
              (with_display k d)
              (asleep 500 dev log).1
              (welcome stack cs (with_display k d) dev (asleep 500 dev log).1)
              t)
      → Greets rows columns stack
          (suc (length cs) * (1800 * 500 + 4))
          k
          log
          (welcome stack (c ∷ cs) k dev log)
          t
  one_char c cs k s t dev log (ns, d, e, console, kept) rest =
      subst (λ r. Greets rows columns stack (suc (length cs) * (1800 * 500 + 4)) k log r t)
        (sym (welcome-cons c cs k dev log d e))
        (after_char cs k t dev log d
          (welcome stack cs (with_display k d) dev (asleep 500 dev log).1) kept (rest ns d console))

  -- With a terminal of two to 21 rows and one to 36 columns that shows a sheet, and the small array outside the
  -- frame buffer: the loop over a text ends without a fault, and the terminal shows the text, after 1800 * 500
  -- short waits and the timer's own 4 for each character. It changes nothing but the display, and memory only
  -- in the frame buffer and the small array.
  pub welcome-Greets :
      (cs ns : List ℕ) (k : Kernel) (s : Sheet) (dev : Device) (log : List Access)
      → AllPlain cs
      → Console rows columns ns k.machine.display s
      → Greets rows columns stack
          (length cs * (1800 * 500 + 4))
          k
          log
          (welcome stack cs k dev log)
          (put_all_on_sheet rows columns cs s)
  unfolding welcome put_all_on_sheet
  welcome-Greets [] ns k s dev log plain h =
      (ns, k.machine.display, refl, h, (λ a o n1 n2. refl), omega arith)
  welcome-Greets (c ∷ cs) ns k s dev log plain h =
      one_char c cs k (put_on_sheet rows columns c s)
        (put_all_on_sheet rows columns cs (put_on_sheet rows columns c s)) dev log
        (put_one-Echoes rows columns z small stack c ns k.machine.display s out plain.0 plain.1 h)
        (λ ns' d console.
          welcome-Greets cs ns' (with_display k d) (put_on_sheet rows columns c s) dev
            (asleep 500 dev log).1 plain.2 console)
