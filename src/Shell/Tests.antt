-- ===== src/Shell/Tests.antt =====
-- "A B" typed on a machine whose romdisk has one file, "A".
use mono.Prelude.{
  ℕ, ◌+◌, ◌-◌, ◌*◌, ◌/◌, ◌%◌, ◌<◌, ◌≤◌, ◌≡◌, refl, List, [], ◌∷◌, length, arith, ltb, leb, ◌==◌,
  ◌&&◌, if◌then◌else◌, false,
}
use mono.Memory.{Memory, IsBytes, HasString, read16, read32}
use mono.Line.Tests.{keyboard}
use mono.Process.{Machine}
use mono.Romdisk.Table.{Entry}
use mono.Shell.{Image, run_command}
use mono.Shell.Commands.{Literals}
use mono.Shell.Run.{Reaches, Ready, run_command-Reaches}
use mono.Str.Split.{split_string}
use mono.Str.Split.Tokens.{words, Fit, Table}
use mono.Str.Split.Result.{Separated, split_string-Separated}
use mono.Terminal.Tests.{small}

-- The table of pointers at 0x4000 leads to the buffers from 0x4080 on.
abbrev pointer_byte : ℕ → ℕ → ℕ
pointer_byte k q = if k == 0 then q % 256 else if k == 1 then q / 256 else 0

abbrev pub filled : Memory
filled a =
    (if leb 0x4000 a && ltb a 0x4080
      then pointer_byte ((a - 0x4000) % 4) (0x4080 + 64 * ((a - 0x4000) / 4))
      else if a == 4096
      then 65
      else if a == 4097
      then 32
      else if a == 4098
      then 66
      else if a == 0x3100
      then 10
      else if a == 0x3101
      then 80
      else if a == 0x3102
      then 79
      else if a == 0x3103
      then 78
      else if a == 0x3104
      then 71
      else if a == 0x3105
      then 10
      else if a == 8199
      then 1
      else if a == 8201
      then 65
      else if a == 8265
      then 24
      else if a == 8269
      then 3
      else if a == 12288
      then 80
      else if a == 12289
      then 73
      else if a == 12290
      then 78
      else if a == 12291
      then 71
      else if a == 12293
      then 83
      else if a == 12294
      then 65
      else if a == 12295
      then 78
      else if a == 12296
      then 68
      else if a == 12297
      then 66
      else if a == 12298
      then 79
      else if a == 12299
      then 88
      else if a == 12301
      then 67
      else if a == 12302
      then 76
      else if a == 12303
      then 69
      else if a == 12304
      then 65
      else if a == 12305
      then 82
      else if a == 12307
      then 76
      else if a == 12308
      then 83
      else if a == 12309
      then 45
      else if a == 12310
      then 82
      else if a == 12311
      then 79
      else if a == 12312
      then 77
      else if a == 12313
      then 68
      else if a == 12314
      then 73
      else if a == 12315
      then 83
      else if a == 12316
      then 75
      else 0)
    % 256

pub filled-IsBytes : IsBytes filled
filled-IsBytes a = omega arith

-- The cells of entry `i`.
pointer_cells :
    (i : ℕ)
    → i < 32
    → (filled (0x4000 + 4 * i) ≡ (0x4080 + 64 * i) % 256)
      × (filled (0x4000 + 4 * i + 1) ≡ (0x4080 + 64 * i) / 256)
      × (filled (0x4000 + 4 * i + 2) ≡ 0)
      × (filled (0x4000 + 4 * i + 3) ≡ 0)
pointer_cells i h = (ground arith, ground arith, ground arith, ground arith)

table : Table 0x4000 0x4080 filled
unfolding read32
table = record {
  leads = λ i l. let c = pointer_cells i l in omega (arith, c.0, c.1, c.2, c.3);
  below = omega arith;
  room = omega arith;
}

typed : HasString filled 0x1000 (65 ∷ 32 ∷ 66 ∷ [])
typed = (refl, omega arith, (refl, omega arith, (refl, omega arith, refl)))

abbrev pub machine : Machine
machine = record {
  display = record small { memory = filled };
  keyboard = keyboard;
  malloc_start = 0x2800000;
}

abbrev pub image : Image
image = record {
  ping = 12288;
  pong = 0x3100;
  sandbox = 12293;
  clear = 12301;
  ls_romdisk = 12307;
  title = 0x3110;
  heading = 0x3120;
  newline = 0x3130;
  quote_before = 0x3140;
  quote_after = 0x3150;
  invalid = 0x3160;
  main_romdisk = 0x2000;
  stack = 0x800;
  start = 0;
}

-- A program that does nothing.
abbrev pub idle : ℕ → Machine → Machine
idle argc s = s

words-Fit : Fit (words 32 34 false [] (65 ∷ 32 ∷ 66 ∷ []))
unfolding Fit words
words-Fit = (omega arith, (omega arith, tt))

words_few : length (words 32 34 false [] (65 ∷ 32 ∷ 66 ∷ [])) ≤ 32
unfolding words
words_few = omega arith

two_words : words 32 34 false [] (65 ∷ 32 ∷ 66 ∷ []) ≡ (65 ∷ []) ∷ (66 ∷ []) ∷ []
unfolding words
two_words = refl

split_string-Separated_example :
    Separated 0x4080
      (if filled 0x1002 == 32
        then length (words 32 34 false [] (65 ∷ 32 ∷ 66 ∷ [])) - 1
        else length (words 32 34 false [] (65 ∷ 32 ∷ 66 ∷ [])))
      (words 32 34 false [] (65 ∷ 32 ∷ 66 ∷ []))
      filled
      (split_string 256 0 0x1000 32 34 0x4000 filled)
split_string-Separated_example =
    split_string-Separated 256 0x1000 32 34 0x4000 0x4080 (omega arith) 65 (32 ∷ 66 ∷ []) filled
      typed (omega arith) table (λ a l u. ground arith) words-Fit words_few (omega arith)

pub literals : Literals image filled
literals = record {
  ping = (refl, omega arith, (refl, omega arith, (refl, omega arith, (refl, omega arith, refl))));
  sandbox = (
    refl,
    omega arith,
    (
      refl,
      omega arith,
      (
        refl,
        omega arith,
        (refl, omega arith, (refl, omega arith, (refl, omega arith, (refl, omega arith, refl)))),
      ),
    ),
  );
  clear = (
    refl,
    omega arith,
    (refl, omega arith, (refl, omega arith, (refl, omega arith, (refl, omega arith, refl)))),
  );
  ls_romdisk = (
    refl,
    omega arith,
    (
      refl,
      omega arith,
      (
        refl,
        omega arith,
        (
          refl,
          omega arith,
          (
            refl,
            omega arith,
            (
              refl,
              omega arith,
              (
                refl,
                omega arith,
                (refl, omega arith, (refl, omega arith, (refl, omega arith, refl))),
              ),
            ),
          ),
        ),
      ),
    ),
  );
}

abbrev pub only_file : Entry
only_file = record { filename = 65 ∷ []; offset = 24; size = 3 }

cells : (filled 0x2007 + 256 * filled 0x2008 ≡ 1) × (filled 0x2049 ≡ 24) × (filled 0x204D ≡ 3)
cells = (refl, refl, refl)

ready :
    Ready 256 image idle 0x4000 0x4080 0x1000 refl 65
      (32 ∷ 66 ∷ [])
      (65 ∷ [])
      ((66 ∷ []) ∷ [])
      (only_file ∷ [])
      filled
unfolding read32 read16
ready = record {
  bytes = filled-IsBytes;
  table = table;
  typed = typed;
  typed_below = omega arith;
  separated = two_words;
  fit = words-Fit;
  few = words_few;
  counted = refl;
  listed = ((refl, omega arith, refl), omega arith, refl, refl, tt);
  disk_below = omega arith;
  enough = (omega arith, omega arith);
}

run_command-Reaches_example :
    Reaches 256 image idle 0x4000 0x4080
      (if filled 0x1002 == 32
        then length {A = List ℕ} ((65 ∷ []) ∷ (66 ∷ []) ∷ []) - 1
        else length {A = List ℕ} ((65 ∷ []) ∷ (66 ∷ []) ∷ []))
      ((65 ∷ []) ∷ (66 ∷ []) ∷ [])
      (65 ∷ [])
      (only_file ∷ [])
      machine
      (run_command 256 image idle 0x4000 0x1000 machine)
run_command-Reaches_example =
    run_command-Reaches 256 image idle 0x4000 0x4080 0x1000 refl 65 (32 ∷ 66 ∷ []) (65 ∷ [])
      ((66 ∷ []) ∷ []) (only_file ∷ []) machine ready
