-- ===== src/Process/Files.antt =====
-- SYS_WRITE on the terminal, SYS_READ of the typed line, and the loading of a program.
use mono.Prelude.{
  ℕ, ◌+◌, ◌%◌, ◌≤◌, ◌<◌, ◌≡◌, refl, ap, ◌∙◌, ◌⊎◌, Option, some, List, arith, ltb, if◌then◌else◌,
  length, for_range_hit,
}
use mono.Memory.{Memory, HasString, write, write32}
use mono.Graphics.Frame.{IsSaved}
use mono.Process.{
  Machine, set_errno, sys_write, written, sys_read, copy_text, safe_len, after_read, errno_address,
  syscall,
}
use mono.Process.Calls.{errno, errno-set_errno}
use mono.Terminal.{Display, tputs}
use mono.Terminal.Char.{AllAccepted, put_all_on_sheet}
use mono.Terminal.Message.{Apart, Draws, tputs-Draws}
use mono.Terminal.Sheet.{Sheet, Sized, Shows, IsPlaced}

-- The call returns 0, with `errno` 0, and the terminal shows the sheet.
abbrev pub Prints : ℕ → ℕ → Option (ℕ × Machine) → Sheet → Type 0
Prints rows columns o t =
    (ns : List ℕ) × (s' : Machine) × (o ≡ some (0, s'))
    × (errno s' ≡ 0)
    × Shows rows columns ns s'.display t

Shows-set_errno :
    (rows columns e : ℕ) (ns : List ℕ) (s : Machine) (t : Sheet)
    → Shows rows columns ns s.display t
    → Shows rows columns ns (set_errno e s).display t
unfolding set_errno
Shows-set_errno rows columns e ns s t h = record {
  chain = h.chain;
  distinct = h.distinct;
  count = h.count;
  rows_is = h.rows_is;
  columns_is = h.columns_is;
  x_is = h.x_is;
  y_is = h.y_is;
  colour_is = h.colour_is;
  cells = h.cells;
}

written-Prints :
    (rows columns : ℕ) (s : Machine) (o : Option Display) (t : Sheet)
    → Draws rows columns s.display o t
    → Prints rows columns (written s o) t
written-Prints rows columns s o t (ns, d, e, h, framed) = (
  ns,
  set_errno 0 (record s { display = d }),
  ap (written s) e,
  errno-set_errno 0 (record s { display = d }) (omega arith),
  Shows-set_errno rows columns 0 ns (record s { display = d }) t h,
)

module _ (rows columns : ℕ) (z : Sized rows columns) (small : (rows ≤ 21) × (columns ≤ 36)) where
  -- Let a terminal of two to 21 rows and one to 36 columns show a sheet, with its cursor placed and
  -- with no saved square or one on the screen, and let a message of up to 65534 characters that the
  -- driver takes lie outside the frame buffer. With fuel for its length, SYS_WRITE to file 1 returns 0
  -- with `errno` 0, and the terminal shows the sheet with all the characters put.
  pub syscall-Prints :
      (fuel msg arg3 : ℕ) (past : ℕ → ℕ) (cs ns : List ℕ) (s : Machine) (t : Sheet)
      → HasString s.display.memory msg cs
      → Apart msg cs
      → AllAccepted cs
      → length cs < fuel
      → length cs < 65535
      → IsPlaced rows columns t
      → Shows rows columns ns s.display t
      → IsSaved s.display.area
      → Prints rows columns (syscall fuel past 2 1 msg arg3 s) (put_all_on_sheet rows columns cs t)
  unfolding syscall sys_write
  syscall-Prints fuel msg arg3 past cs ns s t has a acc hf hl p h v =
      written-Prints rows columns s (tputs fuel msg s.display) (put_all_on_sheet rows columns cs t)
        (tputs-Draws rows columns z small fuel msg cs ns s.display t has a acc hf hl p h v)

copy_text_at :
    (buf len : ℕ) (text past : ℕ → ℕ) (m : Memory) (i : ℕ)
    → i < len
    → copy_text buf len text past m (buf + i) ≡ (if ltb i 256 then text i else past i)
copy_text_at buf len text past m i h =
    for_range_hit len 0 (λ j m'. write m' (buf + j) (if ltb j 256 then text j else past j)) m
      (buf + i) i (λ c. if ltb i 256 then text i else past i) (omega arith) (omega arith)
      (λ m'. ground arith) (λ k m' ne low high. ground arith)

-- Where the text that a read returned stands.
abbrev pub ReadsText : Machine → ℕ → ℕ → Option (ℕ × Machine) → Type 0
ReadsText s buf len o =
    (s' : Machine) × (o ≡ some (0, s'))
    × ((i : ℕ) → i < len → s'.display.memory (buf + i) ≡ s.display.term.text_buffer i)

after_read-memory : (offset : ℕ) (d : Display) → (after_read offset d).memory ≡ d.memory
after_read-memory offset d = ground arith

-- For at most 256 bytes, and a buffer that does not overlap `errno`, SYS_READ of file 0 returns 0, and
-- the buffer then holds the first bytes of the terminal's text: the same ones whatever was read before.
pub syscall-ReadsText :
    (fuel : ℕ) (past : ℕ → ℕ) (buf len : ℕ) (s : Machine)
    → len ≤ 256
    → (buf + len ≤ errno_address) ⊎ (errno_address + 4 ≤ buf)
    → ReadsText s buf len (syscall fuel past 1 0 buf len s)
unfolding syscall sys_read set_errno write32
syscall-ReadsText fuel past buf len s short apart = (
  _,
  refl,
  λ i h.
      spared i h
      ∙ ap (λ (m : Memory). m (buf + i)) (after_read-memory moved copied)
      ∙ copy_text_at buf len s.display.term.text_buffer past s.display.memory i h
      ∙ ground arith,
)
  where
    moved : ℕ
    moved =
        (s.display.term.text_offset
          + safe_len len s.display.term.text_offset s.display.term.text_buflen)
        % 256

    copied : Display
    copied = record s.display {
      memory = copy_text buf len s.display.term.text_buffer past s.display.memory;
    }

    spared :
        (i : ℕ)
        → i < len
        → write32 (after_read moved copied).memory errno_address 0 (buf + i)
          ≡ (after_read moved copied).memory (buf + i)
    spared i h = ground arith
