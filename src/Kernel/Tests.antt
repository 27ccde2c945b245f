-- ===== src/Kernel/Tests.antt =====
-- A start on a machine whose romdisk has one file, where the background is not among its files.
use mono.Interrupts.{Handlers, idt_entry}
use mono.Kernel.Jingle.{Plays, jingle_divisors, jingle-Plays}
use mono.Kernel.Stages.{Loaded, Welcomed}
use mono.Kernel.Start.{kmain-Welcomed}
use mono.Kernel.{Kernel, Boot, ◌>=>◌, on_machine, jingle, kmain}
use mono.Memory.{read16, read32}
use mono.Ports.Writes.{writes}
use mono.Ports.{Access, Device}
use mono.Prelude.{◌+◌, ◌*◌, ◌≡◌, refl, List, [], ◌∷◌, length, arith, false, some, inl}
use mono.Shell.Commands.{ping_text}
use mono.Shell.Tests.{filled-IsBytes, filled, image, literals, machine, only_file}
use mono.Shell.{kputc, display_romdisk}

-- A device that answers 0 everywhere.
abbrev silent : Device
silent log port = 0

jingle-Plays_example :
    ((jingle silent []).0 ≡ some tt)
    × Plays silent 350 jingle_divisors [] (jingle silent []).1
    × (length (writes 0x80 (jingle silent []).1) ≡ 12 * (1800 * 350 + 4) + length (writes 0x80 []))
jingle-Plays_example = jingle-Plays silent []

abbrev handlers : Handlers
handlers = record { timer = 0x8000; keyboard = 0x8100; syscall = 0x8200 }

abbrev boot : Boot
boot = record {
  image = image;
  handlers = handlers;
  idt = 0x9000;
  syscall = 0x8300;
  background = image.ping;
}

abbrev kernel : Kernel
kernel = record {
  machine = machine;
  kmalloc_start = 0x1F0000;
  program_args = 0;
  cpu = record { idt = λ n. idt_entry 0; limit = 0; base = 0; enabled = false };
}

kernel-Loaded : Loaded boot ping_text (only_file ∷ []) kernel
unfolding read16 read32
kernel-Loaded = record {
  bytes = filled-IsBytes;
  name = literals.ping;
  count = refl;
  table = ((refl, omega arith, refl), omega arith, refl, refl, tt);
  saved = inl (refl, refl);
  room = omega arith;
}

kmain-Welcomed_example :
    (k' : Kernel) × (log' : List Access) × (kmain 64 boot kernel silent []
      ≡ (on_machine (display_romdisk 64 image) >=> on_machine (kputc image.stack 10)) k' silent
          log')
    × Welcomed boot 0x1F0000 filled k'
kmain-Welcomed_example =
    kmain-Welcomed 64 boot ping_text (only_file ∷ []) kernel silent [] (omega arith) (omega arith)
      (omega arith) (omega arith) (omega arith) (omega arith) kernel-Loaded
