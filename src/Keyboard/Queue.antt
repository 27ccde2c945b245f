-- ===== src/Keyboard/Queue.antt =====
-- Interrupts and readers in any order, against a queue of keystrokes.
use mono.Prelude.{
  ℕ, ◌<◌, ◌≡◌, refl, sym, subst, ap, ap₂, ◌∙◌, ◌||◌, Option, none, some, List, [], ◌∷◌, ◌++◌, arith,
  ◌==◌, if◌then◌else◌, length,
}
use mono.Keyboard.{Keyboard, with_modifiers, process_scancode, take_scancode}
use mono.Keyboard.Ring.{
  pending_count, pending, IsValid, length-window, process_scancode-IsValid, pending-store_scancode,
  Takes, take_scancode-Takes,
}

-- What a scancode means to the driver.
pub data Meaning : Type 0 where
  shift_to ctrl_to : ℕ → Meaning
  key : Meaning

unfoldable pub meaning : ℕ → Meaning
meaning c =
    if c == 0x2A || c == 0x36
    then shift_to 1
    else if c == 0xAA || c == 0xB6
    then shift_to 0
    else if c == 0x1D
    then ctrl_to 1
    else if c == 0x9D
    then ctrl_to 0
    else key

pub record KeyQueue : Type 0 where
  pub waiting : List ℕ
  pub shift : ℕ
  pub ctrl : ℕ

abbrev pub queue_of : Keyboard → KeyQueue
queue_of k = record { waiting = pending k; shift = k.shift; ctrl = k.ctrl }

-- A key joins the queue with the modifiers of its moment; a modifier key changes them.
abbrev pub press_as : Meaning → ℕ → KeyQueue → KeyQueue
press_as (shift_to v) c q = record q { shift = v }
press_as (ctrl_to v) c q = record q { ctrl = v }
press_as key c q = record q { waiting = q.waiting ++ with_modifiers c q.shift q.ctrl ∷ [] }

unfoldable pub press : ℕ → KeyQueue → KeyQueue
press c q = press_as (meaning c) c q

abbrev pub serve_as : List ℕ → KeyQueue → Option ℕ × KeyQueue
serve_as [] q = (none, q)
serve_as (x ∷ xs) q = (some x, record q { waiting = xs })

unfoldable pub serve : KeyQueue → Option ℕ × KeyQueue
serve q = serve_as q.waiting q

-- The keyboard interrupt brings a scancode, or the reading loop asks for one.
pub data Event : Type 0 where
  irq : ℕ → Event
  poll : Event

-- The answers to the polls, by the driver.
abbrev pub poll_as : Keyboard → Option (ℕ × Keyboard) → Option ℕ × Keyboard
poll_as k none = (none, k)
poll_as k (some (x, k')) = (some x, k')

unfoldable pub run : List Event → Keyboard → List (Option ℕ)
run [] k = []
run (irq c ∷ es) k = run es (process_scancode c k).1
run (poll ∷ es) k = let r = poll_as k (take_scancode k) in r.0 ∷ run es r.1

-- The answers to the polls, by the queue.
unfoldable pub run_queue : List Event → KeyQueue → List (Option ℕ)
run_queue [] q = []
run_queue (irq c ∷ es) q = run_queue es (press c q)
run_queue (poll ∷ es) q = let r = serve q in r.0 ∷ run_queue es r.1

-- At no interrupt do 255 scancodes wait.
abbrev pub Fits : List Event → KeyQueue → Type 0
Fits [] q = Unit {0}
Fits (irq c ∷ es) q = (length q.waiting < 255) × Fits es (press c q)
Fits (poll ∷ es) q = Fits es (serve q).1

pub process_scancode-press :
    (c : ℕ) {k : Keyboard}
    → IsValid k
    → pending_count k < 255
    → queue_of (process_scancode c k).1 ≡ press c (queue_of k)
unfolding process_scancode press meaning
process_scancode-press c {k} v h = ground (arith, pending-store_scancode c v h)

take_scancode-serve :
    (k : Keyboard) (o : Option (ℕ × Keyboard))
    → Takes k o
    → ((poll_as k o).0 ≡ (serve (queue_of k)).0)
      × (queue_of (poll_as k o).1 ≡ (serve (queue_of k)).1)
unfolding serve
take_scancode-serve k none t = (rw t, rw t)
take_scancode-serve k (some (x, k')) t =
    let same_shift : k'.shift ≡ k.shift = ap (λ (r : Keyboard). r.shift) t.2 in
    let same_ctrl : k'.ctrl ≡ k.ctrl = ap (λ (r : Keyboard). r.ctrl) t.2 in
    (rw t.0, rw t.0 (ground arith))

poll_as-IsValid :
    {k : Keyboard} (o : Option (ℕ × Keyboard)) → IsValid k → Takes k o → IsValid (poll_as k o).1
poll_as-IsValid none v t = v
poll_as-IsValid (some (x, k')) v t = t.1

-- In every interleaving of interrupts and polls in which fewer than 255 scancodes wait at each
-- interrupt, the driver answers as the queue does: every key once, in order, with its modifiers.
pub run_refines :
    (es : List Event) {k : Keyboard}
    → IsValid k
    → Fits es (queue_of k)
    → run es k ≡ run_queue es (queue_of k)
unfolding run run_queue
run_refines [] v f = refl
run_refines (irq c ∷ es) {k} v f =
    let e =
      process_scancode-press c v
        (omega (arith, f.0, length-window k.buffer k.read (pending_count k))) in
    run_refines es (process_scancode-IsValid c v) (subst (Fits es) (sym e) f.1)
    ∙ ap (run_queue es) e
run_refines (poll ∷ es) {k} v f =
    let t = take_scancode-Takes v in
    let e = take_scancode-serve k (take_scancode k) t in
    ap₂ ◌∷◌ e.0 (
      run_refines es (poll_as-IsValid (take_scancode k) v t) (subst (Fits es) (sym e.1) f)
      ∙ ap (run_queue es) e.1)
