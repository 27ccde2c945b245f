-- ===== src/Libc/Files/Streams.antt =====
-- The standard streams of a program, down to the terminal.
use mono.Graphics.Frame.{IsSaved}
use mono.Libc.Files.{File, write, read, fwrite, fread, with_ssize}
use mono.Memory.{HasString}
use mono.Prelude.{
  ℕ, ◌+◌, ◌*◌, ◌%◌, ◌^◌, ◌<◌, ◌≤◌, ◌≡◌, ◌≢◌, ap, ◌⊎◌, Option, some, List, arith, length,
}
use mono.Prelude.Int.{ℤ, pos, negsuc}
use mono.Process.{Machine, errno_address, set_errno, syscall, sys_write, sys_read}
use mono.Process.Calls.{errno, errno-set_errno}
use mono.Process.Files.{Prints, ReadsText, syscall-Prints, syscall-ReadsText}
use mono.Terminal.Char.{AllAccepted, put_all_on_sheet}
use mono.Terminal.Message.{Apart}
use mono.Terminal.Sheet.{Sheet, Sized, Shows, IsPlaced}

-- The call returns 0, with `errno` 0, and the terminal shows the sheet.
abbrev pub Writes : ℕ → ℕ → Option (ℤ × Machine) → Sheet → Type 0
Writes rows columns o t =
    (ns : List ℕ) × (s' : Machine) × (o ≡ some (pos 0, s'))
    × (errno s' ≡ 0)
    × Shows rows columns ns s'.display t

from_syscall :
    (rows columns : ℕ) (o : Option (ℕ × Machine)) (t : Sheet)
    → Prints rows columns o t
    → Writes rows columns (with_ssize o) t
from_syscall rows columns o t (ns, s', e, ok, h) = (ns, s', ap with_ssize e, ok, h)

-- Let a terminal of two to 21 rows and one to 36 columns show a sheet, with its cursor placed and with
-- no saved square or one on the screen, and let a text of up to 65534 characters that the driver takes
-- lie outside the frame buffer. With fuel for its length, `fwrite` to the file 1, which is `stdout` and
-- `stderr`, returns 0 with `errno` 0, and the terminal shows the whole text, whatever `size` and
-- `len` are.
pub fwrite-Writes :
    (rows columns : ℕ) (z : Sized rows columns) (small : (rows ≤ 21) × (columns ≤ 36))
    (fuel buf size len : ℕ) (past : ℕ → ℕ) (fp : File) (cs ns : List ℕ) (s : Machine) (t : Sheet)
    → fp.fd ≡ 1
    → HasString s.display.memory buf cs
    → Apart buf cs
    → AllAccepted cs
    → length cs < fuel
    → length cs < 65535
    → IsPlaced rows columns t
    → Shows rows columns ns s.display t
    → IsSaved s.display.area
    → Writes rows columns (fwrite fuel past buf size len fp s) (put_all_on_sheet rows columns cs t)
unfolding fwrite write
fwrite-Writes rows columns z small fuel buf size len past fp cs ns s t std has a acc hf hl p h v =
    rw std (
      from_syscall rows columns (syscall fuel past 2 1 buf (size * len % 2 ^ 32) s)
        (put_all_on_sheet rows columns cs t)
        (syscall-Prints rows columns z small fuel buf (size * len % 2 ^ 32) past cs ns s t has a acc
          hf hl p h v))

-- Where the text that a read returned stands.
abbrev pub ReadsInto : Machine → ℕ → ℕ → Option (ℤ × Machine) → Type 0
ReadsInto s buf n o =
    (s' : Machine) × (o ≡ some (pos 0, s'))
    × ((i : ℕ) → i < n → s'.display.memory (buf + i) ≡ s.display.term.text_buffer i)

from_read :
    (s : Machine) (buf n : ℕ) (o : Option (ℕ × Machine))
    → ReadsText s buf n o
    → ReadsInto s buf n (with_ssize o)
from_read s buf n o (s', e, h) = (s', ap with_ssize e, h)

-- `fread` of the file 0, which is `stdin`, for at most 256 bytes and a buffer apart from `errno`,
-- returns 0, and the buffer holds the first `size * len` bytes of the terminal's text.
pub fread-ReadsInto :
    (past : ℕ → ℕ) (buf size len : ℕ) (fp : File) (s : Machine)
    → fp.fd ≡ 0
    → size * len ≤ 256
    → (buf + size * len ≤ errno_address) ⊎ (errno_address + 4 ≤ buf)
    → ReadsInto s buf (size * len) (fread past buf size len fp s)
unfolding fread read
fread-ReadsInto past buf size len fp s std short apart =
    let whole : size * len % 2 ^ 32 ≡ size * len = omega arith in
    rw (std, whole)
      (from_read s buf (size * len) (syscall 0 past 1 0 buf (size * len) s)
        (syscall-ReadsText 0 past buf (size * len) s short apart))

-- The other files, for both: -1, with `errno` 2, and nothing else changed.
abbrev pub Refuses : Machine → Option (ℤ × Machine) → Type 0
Refuses s o = (o ≡ some (negsuc 0, set_errno 2 s)) × (errno (set_errno 2 s) ≡ 2)

-- `fwrite` to a file other than 1 and `fread` from a file other than 0 return -1 with `errno` 2, and
-- change nothing else.
pub other_files-Refuses :
    (fuel buf size len : ℕ) (past : ℕ → ℕ) (fp : File) (s : Machine)
    → fp.fd < 256
    → (fp.fd ≢ 1 → Refuses s (fwrite fuel past buf size len fp s))
      × (fp.fd ≢ 0 → Refuses s (fread past buf size len fp s))
unfolding fwrite fread write read syscall sys_write sys_read
other_files-Refuses fuel buf size len past fp s byte = (
  λ other. (ground arith, errno-set_errno 2 s (omega arith)),
  λ other. (ground arith, errno-set_errno 2 s (omega arith)),
)
