-- ===== src/Libc/Files.antt =====
-- libc/unistd.c and libc/stdio.c: files over the kernel's system calls.
use mono.Prelude.{ℕ, ◌*◌, ◌%◌, ◌^◌, Option, none, some}
use mono.Prelude.Int.{ℤ, signed32}
use mono.Process.{Machine, syscall}
pub mod Streams

abbrev pub with_ssize : Option (ℕ × Machine) → Option (ℤ × Machine)
with_ssize none = none
with_ssize (some (r, s)) = some (signed32 r, s)

unfoldable pub write : ℕ → (ℕ → ℕ) → ℕ → ℕ → ℕ → Machine → Option (ℤ × Machine)
write fuel past fd buf len s = with_ssize (syscall fuel past 2 fd buf len s)

unfoldable pub read : (ℕ → ℕ) → ℕ → ℕ → ℕ → Machine → Option (ℤ × Machine)
read past fd buf len s = with_ssize (syscall 0 past 1 fd buf len s)

-- `struct FILE`
pub record File : Type 0 where
  pub fd : ℕ

abbrev pub stderr : File
stderr = record { fd = 1 }

abbrev pub stdout : File
stdout = record { fd = 1 }

abbrev pub stdin : File
stdin = record { fd = 0 }

unfoldable pub fwrite : ℕ → (ℕ → ℕ) → ℕ → ℕ → ℕ → File → Machine → Option (ℤ × Machine)
fwrite fuel past buf size len fp s = write fuel past fp.fd buf (size * len % 2 ^ 32) s

unfoldable pub fread : (ℕ → ℕ) → ℕ → ℕ → ℕ → File → Machine → Option (ℤ × Machine)
fread past buf size len fp s = read past fp.fd buf (size * len % 2 ^ 32) s
