-- ===== src/Lib.antt =====
-- Mono98: a 32-bit kernel with a text terminal drawn on the 320 by 200 frame buffer.
--
-- The parts, and the files that model them (paths from the repository's root):
--   src/std/string.c    Str: the memory and string routines that everything else uses.
--   src/graphics.c      Graphics: the background, 5 by 5 glyphs, and the saved square below the
--                       cursor. Graphics/Font is `default_font`.
--   src/terminal.c      Terminal: the rows as a linked list, `tputs` and its control characters,
--                       scrolling and refreshing. It draws with Graphics. Terminal/Init is
--                       `init_terminal`, with `kmalloc` of src/std/stdlib.c; Terminal/Colours is the
--                       colours of src/colours.h and their codes.
--   src/keyboard.c      Keyboard: the scancode ring between the interrupt handler, which calls
--                       `process_scancode`, and the reading loop; Keyboard/Tables is the layout.
--                       Line is `kgetline`: the reading loop, its echo and its end. Line/Session
--                       is the whole function, with the interrupts that arrive while it waits and
--                       reads: a schedule is a list of interrupts and of steps of the code.
--   src/romdisk.c       Romdisk: the reader of packed files, on `strcmp` and `memcmp` of Str.
--   src/process.c       Process: the system calls, on the terminal, the keyboard and the allocator
--                       of programs, and `load_program`; the program itself is a parameter.
--   src/asm.h           Ports: reading and writing ports, as actions that log their accesses, over a
--                       device that answers for each port from the accesses before.
--   src/interrupts.c    Interrupts: the interrupt controllers, the descriptor table and the handlers.
--                       Interrupts/Controller is the 8259 as an interface with laws.
--   src/std/stdlib.c    Delay: the timer and `__asleep`, with the speaker of src/audio.c and
--                       `initialize_keyboard` of src/keyboard.c.
--   src/kernel.c        Shell: the commands, the arguments (on `split_string` of Str/Split), and the
--                       listing of the romdisk. It uses Terminal, Romdisk, Process and Str.
--                       Shell/Prompt is one turn of the loop of `shell`, on Line/Session, and
--                       Shell/Typed follows it from the keys to the command, and Shell/Answers
--                       from there to the screen. Shell/Listing is about `display_romdisk`.
--                       Kernel is `kmain` and `shell` up to its loop, over all of these.
--   bootloader/load.c   Bootloader: `print_msg`.
--   libc/               Libc: the programs' library over the system calls of Process. Libc/Files is
--                       the streams, and Libc/Math the functions of libc/math.c over any arithmetic
--                       of doubles.
--   romdisk/packer.c    Packer: the program that writes such an image on the host.
--   utils/imgconvert.c  Imgconvert: the arguments, the palette, and the loop that finds for each pixel
--                       of a row its nearest colour, over any floating-point operations.
--                       Imgconvert/Main is `main`, over any JPEG library.
--   utils/pad.c         Pad: the program that fills a file with zeros.
--
-- How the model corresponds to the code. Memory is one function from addresses to bytes, as the
-- kernel runs unpaged; the frame buffer is a part of it. Functions have the names of the source,
-- globals are records, and each function takes and returns the state that it reads and writes. Loops
-- have their index as an argument and the rounds left, or fuel, as the first one. Machine integers
-- are natural numbers with the wrap-around written where the width is reached.
--
-- Fuel. Loops over strings and lists of rows run on fuel, with `none` when it ends. The theorems
-- give the amount that is enough: one more than the length of a string, one more than the rows of
-- the terminal, one more than the words that wait in the ring, 11 for the digits of an `int`, 129 for
-- the rounds of the reversal in `itoa`, `n` for `factorial`, one more than the length for
-- `play_fdfile`, three nested calls for `sin` and `cos`, two more than the root for `isqrt`, and for
-- `imgconvert` the number of the arguments and one more than the rows. In Terminal `none` is also a
-- fault: a null row, a write past a row, or no glyph; and so it is where the loops around the cursor have
-- no end.
--
-- Abstract views. Terminal/Sheet is a sheet of cells with a cursor, on which a character is put
-- with no list and no memory. Keyboard/Queue is a list of waiting words. Line/Edit is the typed line
-- as a list of characters. Romdisk/Table is the table of an image as a list. Str/Split/Tokens is the
-- list of the words of a text.
--
-- Hardware. The timer, the controllers and the speaker are ports: what they answer is a parameter.
-- `cursor_sleep` is the time between two steps of the waiting loop of `kgetline`, in which interrupts
-- may come.
--
-- Not modelled: the rest of the boot loader and the assembly, the builds other than the default one,
-- interrupts that arrive before the first prompt, the example programs, and the inside of the JPEG
-- library and of floating-point arithmetic. The nodes and the buffers of the terminal's rows are not
-- in the modelled memory but a part of the terminal's state: `kmalloc` gives them addresses, and what
-- is said of memory is about the bytes that are not theirs. No message, no image and no frame buffer
-- overlaps them.
pub mod Prelude
pub mod Memory
pub mod Str
pub mod Keyboard
pub mod Graphics
pub mod Terminal
pub mod Romdisk
pub mod Ports
pub mod Interrupts
pub mod Delay
pub mod Shell
pub mod Kernel
pub mod Imgconvert
pub mod Bootloader
pub mod Packer
pub mod Pad
pub mod Line
pub mod Process
pub mod Libc
