-- ===== src/Terminal/Colours.antt =====
-- The colours of the terminal (enum TerminalColour and terminal_colour_code of src/terminal.h, the first
-- sixteen of src/colours.h, and terminal_colours of src/terminal.c).
use Prim.Native.Nat.{bit_or}
use mono.Prelude.{ℕ, ◌≡◌, refl, some, List, [], ◌∷◌}
use mono.Terminal.{Display, put_char, set_colour_terminal}

abbrev pub vga_color_black : ℕ
vga_color_black = 0x00

abbrev pub vga_color_blue : ℕ
vga_color_blue = 0x01

abbrev pub vga_color_green : ℕ
vga_color_green = 0x02

abbrev pub vga_color_cyan : ℕ
vga_color_cyan = 0x03

abbrev pub vga_color_red : ℕ
vga_color_red = 0x04

abbrev pub vga_color_magenta : ℕ
vga_color_magenta = 0x05

abbrev pub vga_color_brown : ℕ
vga_color_brown = 0x06

abbrev pub vga_color_light_gray : ℕ
vga_color_light_gray = 0x07

abbrev pub vga_color_dark_gray : ℕ
vga_color_dark_gray = 0x08

abbrev pub vga_color_light_blue : ℕ
vga_color_light_blue = 0x09

abbrev pub vga_color_light_green : ℕ
vga_color_light_green = 0x0A

abbrev pub vga_color_light_cyan : ℕ
vga_color_light_cyan = 0x0B

abbrev pub vga_color_light_red : ℕ
vga_color_light_red = 0x0C

abbrev pub vga_color_light_magenta : ℕ
vga_color_light_magenta = 0x0D

abbrev pub vga_color_yellow : ℕ
vga_color_yellow = 0x0E

abbrev pub vga_color_white : ℕ
vga_color_white = 0x0F

pub data TerminalColour : Type 0 where
  term_black : TerminalColour
  term_blue : TerminalColour
  term_green : TerminalColour
  term_cyan : TerminalColour
  term_red : TerminalColour
  term_magenta : TerminalColour
  term_brown : TerminalColour
  term_lgray : TerminalColour
  term_dgray : TerminalColour
  term_lblue : TerminalColour
  term_lgreen : TerminalColour
  term_lcyan : TerminalColour
  term_lred : TerminalColour
  term_lmagenta : TerminalColour
  term_yellow : TerminalColour
  term_white : TerminalColour

-- The value of a constant of the `enum`.
abbrev pub colour_value : TerminalColour → ℕ
colour_value term_black = vga_color_black
colour_value term_blue = vga_color_blue
colour_value term_green = vga_color_green
colour_value term_cyan = vga_color_cyan
colour_value term_red = vga_color_red
colour_value term_magenta = vga_color_magenta
colour_value term_brown = vga_color_brown
colour_value term_lgray = vga_color_light_gray
colour_value term_dgray = vga_color_dark_gray
colour_value term_lblue = vga_color_light_blue
colour_value term_lgreen = vga_color_light_green
colour_value term_lcyan = vga_color_light_cyan
colour_value term_lred = vga_color_light_red
colour_value term_lmagenta = vga_color_light_magenta
colour_value term_yellow = vga_color_yellow
colour_value term_white = vga_color_white

-- The table of the LOLCAT build.
abbrev pub terminal_colours : List TerminalColour
terminal_colours =
    term_black ∷ term_blue ∷ term_green ∷ term_cyan ∷ term_red ∷ term_magenta ∷ term_brown
    ∷ term_lgray ∷ term_dgray ∷ term_blue ∷ term_lgreen ∷ term_lcyan ∷ term_lred ∷ term_lmagenta
    ∷ term_yellow ∷ term_white ∷ []

-- `0xF0 | (uint8_t)color`
abbrev pub terminal_colour_code : TerminalColour → ℕ
terminal_colour_code color = bit_or 0xF0 (colour_value color)

-- A colour code in a message does what `set_colour_terminal` does with that colour, for each of the sixteen,
-- and nothing else.
pub terminal_colour_code-sets :
    (color : TerminalColour) (d : Display)
    → put_char (terminal_colour_code color) d
      ≡ some (record d { term = set_colour_terminal (colour_value color) d.term })
unfolding put_char set_colour_terminal
terminal_colour_code-sets term_black d = refl
terminal_colour_code-sets term_blue d = refl
terminal_colour_code-sets term_green d = refl
terminal_colour_code-sets term_cyan d = refl
terminal_colour_code-sets term_red d = refl
terminal_colour_code-sets term_magenta d = refl
terminal_colour_code-sets term_brown d = refl
terminal_colour_code-sets term_lgray d = refl
terminal_colour_code-sets term_dgray d = refl
terminal_colour_code-sets term_lblue d = refl
terminal_colour_code-sets term_lgreen d = refl
terminal_colour_code-sets term_lcyan d = refl
terminal_colour_code-sets term_lred d = refl
terminal_colour_code-sets term_lmagenta d = refl
terminal_colour_code-sets term_yellow d = refl
terminal_colour_code-sets term_white d = refl
