-- ===== src/Shell.antt =====
-- The shell of src/kernel.c: its commands, its arguments and its listing of the romdisk.
use mono.Prelude.{
  ℕ, zero, suc, ◌+◌, ◌-◌, ◌*◌, ◌%◌, ◌^◌, Bool, true, false, Option, none, some, ltb, ◌==◌,
  if◌then◌else◌, for_range,
}
use mono.Prelude.Int.{ℤ, signed32}
use mono.Keyboard.{Keyboard}
use mono.Keyboard.Tables.{kbdus, shift_kbdus}
use mono.Line.{put_one, typed_char}
use mono.Memory.{Memory, read32, write32}
use mono.Process.{Machine, in_memory, load_program}
use mono.Romdisk.{RomdiskFile, int_is_zero, get_romdisk_file, list_romdisk}
use mono.Str.{memset, strcmp, strlen}
use mono.Str.Itoa.{itoa}
use mono.Str.Split.{split_string}
use mono.Terminal.Colours.{term_red, term_black, terminal_colour_code}
use mono.Terminal.{Display, tputs, clear_terminal}
use mono.Terminal.Init.{kmalloc}
pub mod Commands
pub mod Arguments
pub mod Keep
pub mod Prompt
pub mod Answers
pub mod Typed
pub mod Listing
pub mod Run
pub mod Tests

-- The addresses of the literals and of the globals, the place of the small arrays, and what `j` of
-- `split_string` happens to hold.
pub record Image : Type 0 where
  pub ping : ℕ
  pub pong : ℕ
  pub sandbox : ℕ
  pub clear : ℕ
  pub ls_romdisk : ℕ
  pub title : ℕ
  pub heading : ℕ
  pub newline : ℕ
  pub quote_before : ℕ
  pub quote_after : ℕ
  pub invalid : ℕ
  pub main_romdisk : ℕ
  pub stack : ℕ
  pub start : ℕ

-- `none` is a fault of what is called, or too little fuel for it.
abbrev pub Act : Type 0
Act = Machine → Option Machine

abbrev pub bind : Option Machine → Act → Option Machine
bind none f = none
bind (some s) f = f s

infixl 5 ◌>>◌
abbrev pub ◌>>◌ : Act → Act → Act
◌>>◌ f g s = bind (f s) g

abbrev pub shown : Machine → Option Display → Option Machine
shown s none = none
shown s (some d) = some (record s { display = d })

unfoldable pub kputs : ℕ → ℕ → Act
kputs fuel msg s = shown s (tputs fuel msg s.display)

unfoldable pub kputc : ℕ → ℕ → Act
kputc stack c s = shown s (put_one stack c s.display)

abbrev pub with_memory : Machine → Option Memory → Option Machine
with_memory s none = none
with_memory s (some m) = some (in_memory (λ _. m) s)

-- `for (i = ..; i < 11 + (8 - strlen(filename)); i++) kputc(' ');` on fuel; the bound is computed in
-- 32 bits at every round.
abbrev pub padding_bound : Option ℕ → Option ℕ
padding_bound none = none
padding_bound (some len) = some ((19 + (2 ^ 32 - len)) % 2 ^ 32)

abbrev pub while_below : ℕ → Option ℕ → Option Machine → Option Machine → Option Machine
while_below i none more over = none
while_below i (some bound) more over = if ltb i bound then more else over

unfoldable pub pad_from : ℕ → ℕ → ℕ → ℕ → ℕ → Act
pad_from zero i fuel stack filename s = none
pad_from (suc rounds) i fuel stack filename s =
    let rest = bind (kputc stack 32 s) (pad_from rounds ((i + 1) % 256) fuel stack filename) in
    while_below i (padding_bound (strlen fuel filename s.display.memory)) rest (some s)

-- `__list_romdisk`; the array `filesize` stands behind the small ones.
unfoldable pub list_row : ℕ → Image → ℕ → Act
list_row fuel image entry =
    (λ s.
      with_memory s
        (itoa (signed32 (read32 s.display.memory (entry + 68))) (image.stack + 2) s.display.memory))
    >> kputs fuel entry
    >> pad_from 256 0 fuel image.stack entry
    >> kputs fuel (image.stack + 2)
    >> kputs fuel image.newline

unfoldable pub display_romdisk : ℕ → Image → Act
display_romdisk fuel image =
    kputs fuel image.title
    >> kputs fuel image.heading
    >> list_romdisk image.main_romdisk (λ s. s.display.memory) (list_row fuel image)
    >> kputc image.stack 10

-- One pass of the loop of `text_sandbox` over the ring, once it is not empty: `i` runs from the read
-- index up to the write index, and `scancode_read` goes along.
unfoldable pub sandbox_from : ℕ → ℕ → ℕ → Act
sandbox_from zero i stack s = none
sandbox_from (suc fuel) i stack s =
    let advance : Machine → Machine = λ s'. record s' {
      keyboard = record s'.keyboard { read = (s'.keyboard.read + 1) % 512 % 256 };
    } in
    let rest =
      bind (kputc stack (typed_char (s.keyboard.buffer i)) s)
        (λ s'. sandbox_from fuel ((i + 1) % 256) stack (advance s')) in
    if ltb i s.keyboard.write then rest else some s

unfoldable pub sandbox_pass : ℕ → Act
sandbox_pass stack s = sandbox_from 257 s.keyboard.read stack s

-- `program_args = kmalloc(..)`, and a `kmalloc` for each argument: the array, and `KMALLOC_START` and
-- the memory.
abbrev pub next_arg : ℕ → ℕ → ℕ × Memory → ℕ × Memory
next_arg args i (kstart, m) =
    ((kmalloc 64 kstart).1, write32 m (args + 4 * i) (kmalloc 64 kstart).0)

unfoldable pub setup_args : ℕ → Memory → ℕ × ℕ × Memory
setup_args kstart m =
    let args = (kmalloc (4 * 32) kstart).0 in
    let r = for_range 32 0 (next_arg args) ((kmalloc (4 * 32) kstart).1, m) in (args, r.0, r.1)

-- `for (i = 0; i < MAX_PROGRAM_ARGS; i++) memset(program_args[i], 0x00, MAX_PROGRAM_ARG_LENGTH);`
unfoldable pub clear_args : ℕ → Memory → Memory
clear_args args m = for_range 32 0 (λ i m'. memset (read32 m' (args + 4 * i)) 0 64 m') m

-- Where a command ends: back at the prompt, at a fault, or in `text_sandbox`, which never returns.
pub data Outcome : Type 0 where
  fault : Outcome
  back : Machine → Outcome
  in_sandbox : Machine → Outcome

abbrev pub outcome : Option Machine → Outcome
outcome none = fault
outcome (some s) = back s

unfoldable pub not_found : ℕ → Image → ℕ → Act
not_found fuel image name =
    kputc image.stack (terminal_colour_code term_red)
    >> kputs fuel image.quote_before
    >> kputs fuel name
    >> kputs fuel image.quote_after
    >> kputc image.stack (terminal_colour_code term_black)

unfoldable pub bad_program : ℕ → Image → Act
bad_program fuel image =
    kputc image.stack (terminal_colour_code term_red)
    >> kputs fuel image.invalid
    >> kputc image.stack (terminal_colour_code term_black)

-- After `load_program`, with what it returned.
abbrev pub after_load : ℕ → Image → ℕ × Machine → Option Machine
after_load fuel image (r, s) = if r == 0 then some s else bad_program fuel image s

-- `run` is the program, which is given `argc`, in 8 bits, and finds the arguments in memory.
unfoldable pub run_found : ℕ → Image → (ℕ → Machine → Machine) → ℕ → ℕ → Option RomdiskFile → Act
run_found fuel image run args argc none s = none
run_found fuel image run args argc (some program) s =
    if program.noent == 0
    then after_load fuel image
        (load_program image.stack (run (argc % 256)) program.file program.length s)
    else not_found fuel image (read32 s.display.memory args) s

abbrev pub run_split :
    ℕ → Image → (ℕ → Machine → Machine) → ℕ → Machine → Option (ℕ × Memory) → Option Machine
run_split fuel image run args s none = none
run_split fuel image run args s (some (argc, m)) =
    run_found fuel image run args argc (get_romdisk_file fuel image.main_romdisk (read32 m args) m)
      (in_memory (λ _. m) s)

-- The last `else` of `handle_command`.
unfoldable pub run_command : ℕ → Image → (ℕ → Machine → Machine) → ℕ → ℕ → Act
run_command fuel image run args command s =
    run_split fuel image run args s
      (split_string fuel image.start command 32 34 args (clear_args args s.display.memory))

abbrev pub if_equal : Option ℤ → Outcome → Outcome → Outcome
if_equal none same rest = fault
if_equal (some r) same rest = if int_is_zero r then same else rest

unfoldable pub handle_command : ℕ → Image → (ℕ → Machine → Machine) → ℕ → ℕ → Machine → Outcome
handle_command fuel image run args command s =
    let m = s.display.memory in
    if_equal (strcmp fuel command image.ping m) (outcome (kputs fuel image.pong s)) (
      if_equal (strcmp fuel command image.sandbox m) (in_sandbox s) (
        if_equal (strcmp fuel command image.clear m) (outcome (shown s (clear_terminal s.display)))
          (if_equal (strcmp fuel command image.ls_romdisk m)
            (outcome (display_romdisk fuel image s))
            (outcome (run_command fuel image run args command s)))))
