-- ===== src/Shell/Commands.antt =====
-- Which command the shell performs.
use mono.Prelude.{
  ℕ, ◌<◌, ◌^◌, ◌≡◌, refl, ap, ◌∙◌, Bool, true, false, List, [], ◌∷◌, length, arith, if◌then◌else◌,
}
use mono.Memory.{Memory, HasString}
use mono.Process.{Machine}
use mono.Romdisk.Find.{compare_strings-same_name}
use mono.Romdisk.Table.{same_name}
use mono.Shell.{
  Image, Outcome, in_sandbox, outcome, shown, kputs, display_romdisk, run_command, if_equal,
  handle_command,
}
use mono.Str.{strcmp}
use mono.Str.Compare.{strcmp_lem, IsText}
use mono.Terminal.{clear_terminal}

pub data Command : Type 0 where
  pings clears lists enters runs : Command

-- "PING", "SANDBOX", "CLEAR", "LS-ROMDISK"
abbrev pub ping_text : List ℕ
ping_text = 80 ∷ 73 ∷ 78 ∷ 71 ∷ []

abbrev pub sandbox_text : List ℕ
sandbox_text = 83 ∷ 65 ∷ 78 ∷ 68 ∷ 66 ∷ 79 ∷ 88 ∷ []

abbrev pub clear_text : List ℕ
clear_text = 67 ∷ 76 ∷ 69 ∷ 65 ∷ 82 ∷ []

abbrev pub ls_text : List ℕ
ls_text = 76 ∷ 83 ∷ 45 ∷ 82 ∷ 79 ∷ 77 ∷ 68 ∷ 73 ∷ 83 ∷ 75 ∷ []

-- The command that a line names: one of four words, or else a program.
unfoldable pub command_of : List ℕ → Command
command_of text =
    if same_name text ping_text
    then pings
    else if same_name text sandbox_text
    then enters
    else if same_name text clear_text
    then clears
    else if same_name text ls_text
    then lists
    else runs

unfoldable pub perform : ℕ → Image → (ℕ → Machine → Machine) → ℕ → ℕ → Machine → Command → Outcome
perform fuel image run args command s pings = outcome (kputs fuel image.pong s)
perform fuel image run args command s enters = in_sandbox s
perform fuel image run args command s clears = outcome (shown s (clear_terminal s.display))
perform fuel image run args command s lists = outcome (display_romdisk fuel image s)
perform fuel image run args command s runs = outcome (run_command fuel image run args command s)

-- The four words stand at the places that the code compares with.
pub record Literals (image : Image) (m : Memory) : Type 0 where
  pub ping : HasString m image.ping ping_text
  pub sandbox : HasString m image.sandbox sandbox_text
  pub clear : HasString m image.clear clear_text
  pub ls_romdisk : HasString m image.ls_romdisk ls_text

module _ (fuel : ℕ) (image : Image) (run : ℕ → Machine → Machine) (args command : ℕ) (text : List ℕ)
    (s : Machine) (chars : IsText text) (typed : HasString s.display.memory command text)
    (short : length text < 2 ^ 32) (enough : length text < fuel)
    (w : Literals image s.display.memory) where
  done_by : Command → Outcome
  done_by c = perform fuel image run args command s c

  -- One comparison, where the word leads to `c` and the other words to `rest`.
  one_word :
      (literal : ℕ) (word : List ℕ) (same : Outcome) (c rest : Command) {o : Outcome}
      → HasString s.display.memory literal word
      → IsText word
      → same ≡ done_by c
      → o ≡ done_by rest
      → if_equal (strcmp fuel command literal s.display.memory) same o
        ≡ done_by (if same_name text word then c else rest)
  one_word literal word same c rest {o} h t e f =
      ap (λ r. if_equal r same o)
        (strcmp_lem fuel command literal s.display.memory text word typed h enough short)
      ∙ ap (λ x. if x then same else o) (compare_strings-same_name text word chars t)
      ∙ chosen (same_name text word)
    where
      chosen : (x : Bool) → (if x then same else o) ≡ done_by (if x then c else rest)
      chosen true = e
      chosen false = f

  -- In a memory in which the four words stand at the literals' places, and a line of bytes in the
  -- command's, with fuel for the line, `handle_command` performs the command that the line names.
  pub handle_command-perform :
      handle_command fuel image run args command s
      ≡ perform fuel image run args command s (command_of text)
  unfolding handle_command perform command_of done_by
  handle_command-perform =
      one_word image.ping ping_text (outcome (kputs fuel image.pong s)) pings
        (if same_name text sandbox_text
          then enters
          else if same_name text clear_text
          then clears
          else if same_name text ls_text
          then lists
          else runs)
        w.ping (omega arith) refl
        (one_word image.sandbox sandbox_text (in_sandbox s) enters
          (if same_name text clear_text
            then clears
            else if same_name text ls_text
            then lists
            else runs)
          w.sandbox (omega arith) refl
          (one_word image.clear clear_text (outcome (shown s (clear_terminal s.display))) clears
            (if same_name text ls_text then lists else runs) w.clear (omega arith) refl
            (one_word image.ls_romdisk ls_text (outcome (display_romdisk fuel image s)) lists runs
              w.ls_romdisk (omega arith) refl refl)))
