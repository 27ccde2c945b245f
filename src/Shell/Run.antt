-- ===== src/Shell/Run.antt =====
-- A command that is not a built-in one: its arguments, and the program that its first word names.
use mono.Prelude.{
  ℕ, ◌+◌, ◌-◌, ◌*◌, ◌<◌, ◌≤◌, ◌≡◌, ap, ap₂, subst, ◌∙◌, false, Option, some, List, [], ◌∷◌, length,
  arith, ◌==◌, if◌then◌else◌,
}
use mono.Memory.{Memory, IsBytes, HasString, read32}
use mono.Process.{Machine, in_memory}
use mono.Romdisk.{entries, get_romdisk_file}
use mono.Romdisk.Table.{Entry, HasTable, lookup}
use mono.Romdisk.Find.{get_romdisk_file-lookup}
use mono.Shell.{Image, clear_args, run_found, run_split, run_command}
use mono.Shell.Arguments.{clear_args-Zeros, read32-same}
use mono.Str.Split.{split_string}
use mono.Str.Split.Tokens.{words, HasWords, Fit, Table, HasString-below}
use mono.Str.Split.Result.{split_string-Separated}
use mono.Shell.Keep.{BytesIn, clear_args-IsBytes, split_string-IsBytes, read16-same, HasTable-below}

-- The arguments are in their buffers, nothing below them has changed, and what happens next is what
-- `run_found` does with the entry of the first word.
pub record Reaches (fuel : ℕ) (image : Image) (run : ℕ → Machine → Machine) (args base argc : ℕ)
    (ws : List (List ℕ)) (key : List ℕ) (es : List Entry) (s : Machine) (o : Option Machine)
    : Type 0 where
  pub after : Memory
  pub stand : HasWords after base ws
  pub spares : (a : ℕ) → a < base → after a ≡ s.display.memory a
  pub goes :
      o
      ≡ run_found fuel image run args argc
          (some (lookup image.main_romdisk key es))
          (in_memory (λ _. after) s)

first_word :
    (m : Memory) (base : ℕ) (key : List ℕ) (ws : List (List ℕ))
    → HasWords m base (key ∷ ws)
    → HasString m base key
unfolding HasWords
first_word m base key ws h = h.0

module _ (fuel : ℕ) (image : Image) (run : ℕ → Machine → Machine) (args base command : ℕ)
    (starts : image.start ≡ 0) where
  -- The command's text, the romdisk and the arguments in the memory of the machine.
  pub record Ready (c : ℕ) (text : List ℕ) (key : List ℕ) (ws : List (List ℕ)) (es : List Entry)
      (m : Memory) : Type 0 where
    pub bytes : IsBytes m
    pub table : Table args base m
    pub typed : HasString m command (c ∷ text)
    pub typed_below : command + length (c ∷ text) < base
    pub separated : words 32 34 false [] (c ∷ text) ≡ key ∷ ws
    pub fit : Fit (words 32 34 false [] (c ∷ text))
    pub few : length (words 32 34 false [] (c ∷ text)) ≤ 32
    pub counted : entries image.main_romdisk m ≡ length es
    pub listed : HasTable m (image.main_romdisk + 9) es
    pub disk_below : image.main_romdisk + 9 + 72 * length es ≤ base
    pub enough : (256 ≤ fuel) × (length (c ∷ text) < fuel)

  found :
      (argc : ℕ) (key : List ℕ) (ws : List (List ℕ)) (es : List Entry) (s : Machine) (m' : Memory)
      (o : Option (ℕ × Memory))
      → o ≡ some (argc, m')
      → IsBytes m'
      → read32 m' args ≡ base
      → HasWords m' base (key ∷ ws)
      → ((a : ℕ) → a < base → m' a ≡ s.display.memory a)
      → entries image.main_romdisk m' ≡ length es
      → HasTable m' (image.main_romdisk + 9) es
      → 64 ≤ fuel
      → Reaches fuel image run args base argc
          (key ∷ ws)
          key
          es
          s
          (run_split fuel image run args s o)
  found argc key ws es s m' o e b first h spares counted listed enough = record {
    after = m';
    stand = h;
    spares = spares;
    goes =
        ap (run_split fuel image run args s) e
        ∙ ap (λ r. run_found fuel image run args argc r (in_memory (λ _. m') s))
            (ap (λ p. get_romdisk_file fuel image.main_romdisk p m') first
              ∙ get_romdisk_file-lookup fuel image.main_romdisk base m' key b
                  (first_word m' base key ws h) enough es counted listed);
  }

  -- Let `j` of `split_string` start at 0, and let a command line that is not empty, in at most 32 words
  -- that fit the buffers, stand below the buffers, like their table and the romdisk, in a memory of
  -- bytes, with fuel of 256 and for the line. Then the words are put into the buffers, without the
  -- quotes; nothing below the buffers changes; and the shell goes on with the romdisk's first entry
  -- that has the first word as its name, or with none, and with the number of words, one less if the
  -- line ends in a space.
  pub run_command-Reaches :
      (c : ℕ) (text key : List ℕ) (ws : List (List ℕ)) (es : List Entry) (s : Machine)
      → Ready c text key ws es s.display.memory
      → Reaches fuel image run args base
          (if s.display.memory (command + length text) == 32
            then length (key ∷ ws) - 1
            else length (key ∷ ws))
          (key ∷ ws)
          key
          es
          s
          (run_command fuel image run args command s)
  unfolding run_command
  run_command-Reaches c text key ws es s r =
      let m = s.display.memory in
      let m1 = clear_args args m in
      let z = clear_args-Zeros args base m r.table in
      let low : (a : ℕ) → a < base → m1 a ≡ m a = z.2 in
      let sep =
        split_string-Separated fuel command 32 34 args base (omega arith) c text m1
          (HasString-below command m m1 (c ∷ text) (λ a l. low a (omega (arith, r.typed_below)))
            r.typed)
          r.typed_below z.0 z.1 r.fit r.few r.enough.1 in
      let same : (a : ℕ) → a < base → sep.after a ≡ m a = λ a l. sep.spares a l ∙ low a l in
      let e : split_string fuel image.start command 32 34 args m1
          ≡ some (
            (if m (command + length text) == 32 then length (key ∷ ws) - 1 else length (key ∷ ws)),
            sep.after,
          ) =
        ap (λ j. split_string fuel j command 32 34 args m1) starts
        ∙ sep.ends
        ∙ ap₂ (λ v l. some ((if v == 32 then length {A = List ℕ} l - 1 else length l), sep.after))
            (low (command + length text) (omega (arith, r.typed_below))) r.separated in
      found _ key ws es s sep.after (split_string fuel image.start command 32 34 args m1) e
        (subst BytesIn e (
          split_string-IsBytes fuel image.start command 32 34 args m1
            (clear_args-IsBytes args m r.bytes)))
        (read32-same m sep.after args (λ a l u. same a (omega (arith, r.table.below)))
          ∙ ap (read32 m) (omega arith)
          ∙ r.table.leads 0 (omega arith)
          ∙ omega arith)
        (subst (HasWords sep.after base) r.separated sep.stand) same
        (read16-same m sep.after (image.main_romdisk + 7) (same _ (omega (arith, r.disk_below)))
            (same _ (omega (arith, r.disk_below)))
          ∙ r.counted)
        (HasTable-below (image.main_romdisk + 9) base m sep.after es same
          (omega (arith, r.disk_below)) r.listed)
        (omega (arith, r.enough.0))
