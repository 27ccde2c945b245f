-- ===== src/Kernel/Start.antt =====
-- `kmain` from its first line to the end of the message of the day.
use mono.Graphics.Frame.{IsSaved, draw_background-outside}
use mono.Shell.Arguments.{setup_args-Table, write32-outside}
use mono.Interrupts.Vectors.{init_idt-Opens}
use mono.Romdisk.Find.{get_romdisk_file-lookup}
use mono.Romdisk.Table.{Entry, lookup}
use mono.Terminal.Init.Pool.{pool_from}
use mono.Kernel.Jingle.{jingle-Plays}
use mono.Delay.{initialize_keyboard}
use mono.Kernel.Welcome.{AllPlain, Greets, welcome-Greets}
use mono.Kernel.{
  Kernel, Boot, Step, next, ◌>=>◌, with_machine, on_machine, on_ports, on_speaker, unless_silent,
  kernel_motd, welcome, clear_ring, terminal_on, start_terminal, start_interrupts, store_syscall,
  allocate_args, greet, start_devices, jingle, kmain, shell_start,
}
use mono.Kernel.Stages.{Loaded, Blank, Moved, BlankArmed, Welcomed, Allocated, Redrawn}
use mono.Kernel.Steps.{Ends, Leads, Leads-then, regrouped, init_terminal-area, init_terminal-memory}
use mono.Line.Echo.{OutStack, Shows-in_memory}
use mono.Memory.{Memory, write32}
use mono.Ports.{Access, Device}
use mono.Prelude.{
  ℕ, ◌+◌, ◌-◌, ◌*◌, ◌^◌, ◌≤◌, ◌<◌, ◌≡◌, refl, sym, subst, ap, ◌∙◌, true, Option, List, length,
  arith,
}
use mono.Process.{in_memory, program_injection_address}
use mono.Shell.{shown, setup_args, kputc, display_romdisk}
use mono.Terminal.Char.{put_all_on_sheet}
use mono.Terminal.Init.Links.{init_terminal-Shows, new_sheet}
use mono.Terminal.Message.{Draws, refresh_terminal-Draws}
use mono.Terminal.Sheet.{Sized}
use mono.Terminal.{refresh_terminal}

sized : Sized 16 32
sized = omega arith

module _ (fuel : ℕ) (boot : Boot) (key : List ℕ) (es : List Entry) (enough : 64 ≤ fuel) (start : ℕ)
    (m : Memory) (start_room : start + 4352 < 2 ^ 32) where
  Starts : Kernel → Type 0
  Starts k = Loaded boot key es k × Moved boot start m 0 k

  clear_ring-Leads : Leads Starts clear_ring Starts
  unfolding Starts
  clear_ring-Leads k dev log (h, moved) = (
    _,
    refl,
    (
      record {
        bytes = h.bytes;
        name = h.name;
        count = h.count;
        table = h.table;
        saved = h.saved;
        room = h.room;
      },
      moved,
    ),
  )

  start_terminal-Leads :
      Leads Starts (start_terminal fuel boot) (λ k. Blank k × Moved boot start m 2176 k)
  unfolding start_terminal Starts
  start_terminal-Leads k dev log (h, (same, at)) =
      let found =
        get_romdisk_file-lookup fuel boot.image.main_romdisk boot.background
          k.machine.display.memory key h.bytes h.name enough es h.count h.table in
      let file = lookup boot.image.main_romdisk key es in
      (
        _,
        ap (terminal_on k) found,
        (
          (
            pool_from k.kmalloc_start 0 16,
            (init_terminal-Shows 16 32 file.file 0 (k.machine.display, k.kmalloc_start)
                (omega arith) h.room).0,
            subst IsSaved
                (sym (init_terminal-area 16 32 file.file 0 (k.machine.display, k.kmalloc_start)))
                h.saved,
          ),
          (
            λ a u.
                ap (λ (f : Memory). f a)
                  (init_terminal-memory 16 32 file.file 0 (k.machine.display, k.kmalloc_start))
                ∙ draw_background-outside file.file a k.machine.display.memory u.0
                ∙ same a u,
            (init_terminal-Shows 16 32 file.file 0 (k.machine.display, k.kmalloc_start)
                  (omega arith) h.room).1
                ∙ omega (arith, at),
          ),
        ),
      )

  module _ (h1 : boot.handlers.timer < 2 ^ 32) (h2 : boot.handlers.keyboard < 2 ^ 32)
      (h3 : boot.handlers.syscall < 2 ^ 32) where
    start_interrupts-Leads :
        Leads
          (λ k. Blank k × Moved boot start m 2176 k)
          (start_interrupts boot)
          (λ k. BlankArmed boot k × Moved boot start m 2176 k)
    start_interrupts-Leads k dev log (h, moved) =
        let o = init_idt-Opens boot.handlers boot.idt k.cpu dev log h1 h2 h3 in
        (_, refl, ((h, (o.0, o.1, o.2, o.4, o.6)), moved))

    memory-Leads :
        (f : Memory → Memory) (k : Kernel)
        → BlankArmed boot k
        → BlankArmed boot (record k { machine = in_memory f k.machine })
    memory-Leads f k ((ns, shows, saved), armed) =
        ((ns, Shows-in_memory 16 32 ns f k.machine.display (new_sheet 0) shows, saved), armed)

    start_devices-Leads :
        Leads Starts (start_devices fuel boot) (λ k. BlankArmed boot k × Moved boot start m 2176 k)
    unfolding start_devices
    start_devices-Leads =
        Leads-then _ (on_speaker jingle)
          (Leads-then _ (on_ports initialize_keyboard)
            (Leads-then _ (on_machine (store_syscall boot))
              (Leads-then _ (start_interrupts boot)
                (Leads-then clear_ring (start_terminal fuel boot) clear_ring-Leads
                  start_terminal-Leads)
                start_interrupts-Leads)
              (λ k dev log h. (
                _,
                refl,
                (
                  memory-Leads (λ m'. write32 m' (program_injection_address - 4) boot.syscall) k
                      h.0,
                  (
                    λ a u.
                        write32-outside k.machine.display.memory (program_injection_address - 4)
                          boot.syscall a (omega (arith, u.2))
                        ∙ h.1.0 a u,
                    h.1.1,
                  ),
                ),
              )))
            (λ k dev log h. (k, refl, h)))
          (λ k dev log h. (k, ap (unless_silent k) (jingle-Plays dev log).0, h))

    redraw-Leads :
        Leads
          (Allocated boot start m)
          (on_machine (λ s. shown s (refresh_terminal true s.display)))
          (Redrawn boot start m)
    redraw-Leads k dev log (((ns, shows, saved), armed), same) = drawn (
        refresh_terminal-Draws 16 32 sized (omega arith) true ns k.machine.display (new_sheet 0)
          shows saved)
      where
        drawn :
            Draws 16 32 k.machine.display (refresh_terminal true k.machine.display) (new_sheet 0)
            → Ends
                (Redrawn boot start m)
                (on_machine (λ s. shown s (refresh_terminal true s.display)) k dev log)
        drawn (ns', d', e, shows', framed) = (
          _,
          ap (λ o. with_machine k (shown k.machine o)) e,
          (
            (ns', record { shows = shows'; placed = ground arith; saved = framed.saved }),
            armed,
            λ a u. framed.memory a u.0 ∙ same a u,
          ),
        )

    module _ (out : OutStack boot.image.stack) where
      welcome-Leads :
          Leads
            (Redrawn boot start m)
            (welcome boot.image.stack kernel_motd)
            (Welcomed boot start m)
      welcome-Leads k dev log ((ns, console), armed, same) = greeted (
          welcome-Greets 16 32 sized (omega arith) boot.image.stack out kernel_motd ns k
            (new_sheet 0) dev log plain console)
        where
          plain : AllPlain kernel_motd
          plain = omega arith

          greeted :
              Greets 16 32 boot.image.stack
                (length kernel_motd * (1800 * 500 + 4))
                k
                log
                (welcome boot.image.stack kernel_motd k dev log)
                (put_all_on_sheet 16 32 kernel_motd (new_sheet 0))
              → Ends (Welcomed boot start m) (welcome boot.image.stack kernel_motd k dev log)
          greeted (ns', d, e, console', kept, waits) = (
            _,
            e,
            (
              (ns', console'),
              armed,
              λ a u. kept a u.0 (omega (arith, u.1)) (omega (arith, u.1)) ∙ same a u,
            ),
          )

      greet-Leads :
          Leads
            (λ k. BlankArmed boot k × Moved boot start m 2176 k)
            (greet boot)
            (Welcomed boot start m)
      unfolding greet allocate_args
      greet-Leads =
          Leads-then _ (welcome boot.image.stack kernel_motd)
            (Leads-then allocate_args (on_machine (λ s. shown s (refresh_terminal true s.display)))
              (λ k dev log h. (
                _,
                refl,
                (
                  memory-Leads (λ _. (setup_args k.kmalloc_start k.machine.display.memory).2) k h.0,
                  λ a u.
                      (setup_args-Table k.kmalloc_start k.machine.display.memory
                          (omega (arith, h.1.1))).3
                        a (omega (arith, h.1.1, u.3))
                      ∙ h.1.0 a u,
                ),
              ))
              redraw-Leads)
            welcome-Leads

      kmain_arrives :
          (k : Kernel) (dev : Device) (log : List Access)
          → Loaded boot key es k
          → k.kmalloc_start ≡ start
          → k.machine.display.memory ≡ m
          → (k' : Kernel) × (log' : List Access) × (kmain fuel boot k dev log
              ≡ (on_machine (display_romdisk fuel boot.image)
                    >=> on_machine (kputc boot.image.stack 10))
                  k' dev log')
            × Welcomed boot start m k'
      unfolding kmain shell_start
      kmain_arrives k dev log loaded at same = arrived (
          Leads-then (start_devices fuel boot) (greet boot) start_devices-Leads greet-Leads k dev
            log
            (unfold Starts in (loaded, ((λ a u. ap (λ (f : Memory). f a) same), at ∙ omega arith))))
        where
          before : Option Kernel × List Access
          before = (start_devices fuel boot >=> greet boot) k dev log

          rest : Step
          rest =
              on_machine (display_romdisk fuel boot.image)
              >=> on_machine (kputc boot.image.stack 10)

          arrived :
              Ends (Welcomed boot start m) before
              → (k' : Kernel) × (log' : List Access) × (kmain fuel boot k dev log
                  ≡ rest k' dev log')
                × Welcomed boot start m k'
          arrived (k', e, h) = (
            k',
            before.1,
            regrouped (greet boot) (on_machine (display_romdisk fuel boot.image))
                  (on_machine (kputc boot.image.stack 10)) (start_devices fuel boot k dev log) dev
                ∙ ap (λ o. next o rest dev before.1) e,
            h,
          )

-- With the romdisk's table and the name of the background in a memory of bytes, no saved square or one on
-- the screen, room for the allocator, handlers with 32-bit addresses, the small array outside the frame
-- buffer, and fuel for a name: whatever the device answers, `kmain` does not fault and gets to the listing of
-- the romdisk. There the terminal of 16 rows and 32 columns shows the message of the day on an empty sheet,
-- the vectors of the timer, the keyboard and the system call lead to their handlers, and interrupts are on.
-- Memory is as it was outside the frame buffer, the arrays on the stack, the pointer to `syscall` and the
-- 2304 bytes that `kmalloc` gave out from its start on, for the terminal and for the table of the arguments.
pub kmain-Welcomed :
    (fuel : ℕ) (boot : Boot) (key : List ℕ) (es : List Entry) (k : Kernel) (dev : Device)
    (log : List Access)
    → 64 ≤ fuel
    → boot.handlers.timer < 2 ^ 32
    → boot.handlers.keyboard < 2 ^ 32
    → boot.handlers.syscall < 2 ^ 32
    → OutStack boot.image.stack
    → k.kmalloc_start + 4352 < 2 ^ 32
    → Loaded boot key es k
    → (k' : Kernel) × (log' : List Access) × (kmain fuel boot k dev log
        ≡ (on_machine (display_romdisk fuel boot.image) >=> on_machine (kputc boot.image.stack 10))
            k' dev log')
      × Welcomed boot k.kmalloc_start k.machine.display.memory k'
kmain-Welcomed fuel boot key es k dev log enough h1 h2 h3 out room loaded =
    kmain_arrives fuel boot key es enough k.kmalloc_start k.machine.display.memory room h1 h2 h3 out
      k dev log loaded refl refl
