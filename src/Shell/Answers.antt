-- ===== src/Shell/Answers.antt =====
-- What each command of the shell, kernel.c, leads to from a terminal that shows a sheet.
use mono.Prelude.{ℕ, ◌≤◌, ◌<◌, ◌≡◌, refl, ap, List, [], ◌∷◌, arith}
use mono.Line.Echo.{Console, OutStack}
use mono.Memory.{HasString}
use mono.Process.{Machine}
use mono.Shell.{
  Image, Outcome, back, in_sandbox, outcome, shown, kputs, display_romdisk, run_command,
}
use mono.Shell.Commands.{Command, pings, clears, lists, enters, runs, perform}
use mono.Shell.Listing.{Displays, kputs-Displays}
use mono.Terminal.{Display, clear_terminal}
use mono.Terminal.Char.{put_all_on_sheet}
use mono.Terminal.Clear.{empty_sheet, clear_terminal-Refines}
use mono.Terminal.Message.{Apart}
use mono.Terminal.Sheet.{Sheet, Sized, Shows, Refines}

-- "\nPONG\n"
abbrev pub pong_text : List ℕ
pong_text = 10 ∷ 80 ∷ 79 ∷ 78 ∷ 71 ∷ 10 ∷ []

-- Back at the prompt, with only the display changed, which shows the sheet.
abbrev pub ReturnsShowing : ℕ → ℕ → Machine → Outcome → Sheet → Type 0
ReturnsShowing rows columns s o t =
    (ns : List ℕ) × (d : Display) × (o ≡ back (record s { display = d }))
    × Shows rows columns ns d t

module _ (fuel : ℕ) (image : Image) (run : ℕ → Machine → Machine) (args command : ℕ)
    (rows columns : ℕ) where
  -- The answer to each command: "PONG", the sandbox, the empty screen, the listing, or the program.
  unfoldable pub Answers : Machine → Sheet → Command → Outcome → Type 0
  Answers s sheet pings o =
      ReturnsShowing rows columns s o (put_all_on_sheet rows columns pong_text sheet)
  Answers s sheet enters o = o ≡ in_sandbox s
  Answers s sheet clears o = ReturnsShowing rows columns s o (empty_sheet sheet)
  Answers s sheet lists o = o ≡ outcome (display_romdisk fuel image s)
  Answers s sheet runs o = o ≡ outcome (run_command fuel image run args command s)

  module _ (z : Sized rows columns) (small : (rows ≤ 21) × (columns ≤ 36))
      (out : OutStack image.stack) (enough : 6 < fuel) where
    pub perform-Answers :
        (c : Command) (s : Machine) (sheet : Sheet) (ns : List ℕ)
        → HasString s.display.memory image.pong pong_text
        → Apart image.pong pong_text
        → Console rows columns ns s.display sheet
        → Answers s sheet c (perform fuel image run args command s c)
    unfolding Answers perform
    perform-Answers pings s sheet ns text apart h = returned (
        kputs-Displays rows columns z small image.stack out fuel image.pong pong_text ns s sheet
          text apart (ground arith) enough (omega arith) h)
      where
        returned :
            Displays rows columns image.stack s
              (kputs fuel image.pong s)
              (put_all_on_sheet rows columns pong_text sheet)
            → ReturnsShowing rows columns s
                (outcome (kputs fuel image.pong s))
                (put_all_on_sheet rows columns pong_text sheet)
        returned (ns', d, e, console, kept) = (ns', d, ap outcome e, console.shows)
    perform-Answers enters s sheet ns text apart h = refl
    perform-Answers clears s sheet ns text apart h =
        cleared
          (clear_terminal-Refines rows columns ns s.display sheet z.few_rows z.few_columns h.shows)
      where
        cleared :
            Refines rows columns (clear_terminal s.display) (empty_sheet sheet)
            → ReturnsShowing rows columns s
                (outcome (shown s (clear_terminal s.display)))
                (empty_sheet sheet)
        cleared (ns', d, e, shows) = (ns', d, ap (λ o. outcome (shown s o)) e, shows)
    perform-Answers lists s sheet ns text apart h = refl
    perform-Answers runs s sheet ns text apart h = refl
