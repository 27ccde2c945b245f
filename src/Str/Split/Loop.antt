-- ===== src/Str/Split/Loop.antt =====
-- The loop of `split_string` makes the words of its text.
use mono.Prelude.{
  ℕ, zero, suc, ◌+◌, ◌*◌, ◌<◌, ◌≤◌, ◌≡◌, ◌≢◌, refl, sym, ap, subst, subst₂, ◌∙◌, inl, inr, Bool,
  true, false, ◌&&◌, Bool-cases, Option, List, [], ◌∷◌, ◌++◌, length, length-append, arith, ◌==◌,
}
use mono.Memory.{Memory, write, HasString, HasString-at}
use mono.Str.Split.{not, split_from}
use mono.Str.Split.Tokens.{
  words, HasWords, Fit, Table, Zeros, Table-write, HasString-below, Splits, Part, Part-snoc,
  Part-same, Part-ends, put_at, words-nonempty, Fit-first,
}
use mono.Str.Split.Steps.{
  split_escape, split_delimiter, split_char, words_escape, words_delimiter, words_char,
}

module _ (str delimiter escape out base : ℕ) (differ : delimiter ≢ escape) where
  -- The loop before index `j`, with `word` in buffer `i` and nothing behind it.
  pub record Before (j i : ℕ) (escaped : Bool) (word s : List ℕ) (m : Memory) : Type 0 where
    pub table : Table out base m
    pub text : HasString m (str + j) s
    pub apart : str + j + length s < base
    pub part : Part m (base + 64 * i) word
    pub zeros : Zeros m (base + 64 * i + length word) (base + 2048)
    pub fit : Fit (words delimiter escape escaped word s)
    pub few : i + length (words delimiter escape escaped word s) ≤ 32

  unfoldable pub Goal : ℕ → ℕ → ℕ → Bool → List ℕ → List ℕ → Memory → Type 0
  Goal fuel j i escaped word s m =
      Splits out base i (words delimiter escape escaped word s) m
        (split_from fuel str delimiter escape out j (length word) i escaped m)

  index_small :
      {j i : ℕ} {escaped : Bool} {word s : List ℕ} {m : Memory}
      → Before j i escaped word s m
      → i < 32
  index_small {j} {i} {escaped} {word} {s} b =
      omega (arith, b.few, words-nonempty delimiter escape escaped word s)

  word_short :
      {j i : ℕ} {escaped : Bool} {word s : List ℕ} {m : Memory}
      → Before j i escaped word s m
      → length word < 64
  word_short {j} {i} {escaped} {word} {s} b = Fit-first delimiter escape escaped word s b.fit

  at_end :
      (fuel j i : ℕ) (escaped : Bool) (word : List ℕ) (m : Memory)
      → Before j i escaped word [] m
      → Goal (suc fuel) j i escaped word [] m
  unfolding Goal split_from words HasWords
  at_end fuel j i escaped word m b =
      let hi = index_small b in
      let hw = word_short b in
      record {
        index = i;
        after = m;
        ends = rw b.text refl;
        count = omega arith;
        stand = (
          Part-ends m (base + 64 * i) word b.part
              (b.zeros (base + 64 * i + length word) (omega arith) (omega arith)),
          tt,
        );
        spares = λ a h. refl;
      }

  -- The character `c` turns the escaping.
  at_escape :
      (fuel j i c : ℕ) (escaped : Bool) (word s : List ℕ) (m : Memory)
      → Before j i escaped word (c ∷ s) m
      → (c == escape) ≡ true
      → (Before (j + 1) i (not escaped) word s m → Goal fuel (j + 1) i (not escaped) word s m)
      → Goal (suc fuel) j i escaped word (c ∷ s) m
  unfolding Goal
  at_escape fuel j i c escaped word s m b e rest =
      let w = words_escape delimiter escape c escaped word s e in
      subst₂ (λ ws o. Splits out base i ws m o) (sym w)
        (sym (
          split_escape fuel str delimiter escape out j (length word) i c escaped m b.text.0 b.text.1
            (omega (arith, b.apart, b.table.room)) (word_short b) differ e))
        (rest (record {
          table = b.table;
          text = HasString-at m s b.text.2 (omega arith);
          apart = omega (arith, b.apart);
          part = b.part;
          zeros = b.zeros;
          fit = subst Fit w b.fit;
          few = subst (λ ws. i + length ws ≤ 32) w b.few;
        }))

  kept :
      (p v j : ℕ) (s : List ℕ) (m : Memory)
      → base ≤ p
      → str + j + 1 + length s < base
      → HasString m (str + j + 1) s
      → HasString (write m p v) (str + (j + 1)) s
  kept p v j s m hp apart h =
      HasString-at (write m p v) s
        (HasString-below (str + j + 1) m (write m p v) s (λ a l. ground arith) h) (omega arith)

  -- The word in buffer `i`, and the words of the rest behind it.
  joined :
      (i : ℕ) (word : List ℕ) (ws : List (List ℕ)) (m : Memory) (o : Option (ℕ × Memory))
      → length word < 64
      → HasString (write m (base + 64 * i + length word) 0) (base + 64 * i) word
      → Splits out base (i + 1) ws (write m (base + 64 * i + length word) 0) o
      → Splits out base i (word ∷ ws) m o
  unfolding HasWords
  joined i word ws m o short first r = record {
    index = r.index;
    after = r.after;
    ends = r.ends;
    count = omega (arith, r.count);
    stand = (
      HasString-below (base + 64 * i) (write m (base + 64 * i + length word) 0) r.after word
          (λ a l. r.spares a (omega arith)) first,
      subst (λ p. HasWords r.after p ws) (omega arith) r.stand,
    );
    spares = λ a l. r.spares a (omega arith) ∙ ground arith;
  }

  -- The character `c` ends the word.
  at_delimiter :
      (fuel j i c : ℕ) (escaped : Bool) (word s : List ℕ) (m : Memory)
      → Before j i escaped word (c ∷ s) m
      → (c == escape) ≡ false
      → (c == delimiter && not escaped) ≡ true
      → ((m' : Memory)
          → Before (j + 1) (i + 1) escaped [] s m'
          → Goal fuel (j + 1) (i + 1) escaped [] s m')
      → Goal (suc fuel) j i escaped word (c ∷ s) m
  unfolding Goal Fit
  at_delimiter fuel j i c escaped word s m b e q rest =
      let w = words_delimiter delimiter escape c escaped word s e q in
      let m' = write m (base + 64 * i + length word) 0 in
      let fit' : Fit (word ∷ words delimiter escape escaped [] s) = subst Fit w b.fit in
      let few' : i + length (word ∷ words delimiter escape escaped [] s) ≤ 32 =
        subst (λ ws. i + length ws ≤ 32) w b.few in
      let mw = put_at out base i (length word) 0 m b.table (index_small b) (word_short b) in
      subst₂ (λ ws o. Splits out base i ws m o) (sym w)
        (sym (
          split_delimiter fuel str delimiter escape out j (length word) i c escaped m b.text.0
            b.text.1 (omega (arith, b.apart, b.table.room)) (word_short b) e q (index_small b)
          ∙ ap (split_from fuel str delimiter escape out (j + 1) 0 (i + 1) escaped) mw))
        (joined i word (words delimiter escape escaped [] s) m
          (split_from fuel str delimiter escape out (j + 1) 0 (i + 1) escaped m') (word_short b)
          (Part-ends m' (base + 64 * i) word
            (Part-same m m' (base + 64 * i) word (λ a l u. ground arith) b.part) (ground arith))
          (rest m' (record {
            table = Table-write out base (base + 64 * i + length word) 0 b.table (omega arith);
            text =
                kept (base + 64 * i + length word) 0 j s m (omega arith) (omega (arith, b.apart))
                  b.text.2;
            apart = omega (arith, b.apart);
            part = tt;
            zeros = λ a l u. ground (arith, b.zeros a (omega arith) u);
            fit = fit'.1;
            few = omega (arith, few');
          })))

  -- The character `c` goes to the word.
  at_char :
      (fuel j i c : ℕ) (escaped : Bool) (word s : List ℕ) (m : Memory)
      → Before j i escaped word (c ∷ s) m
      → (c == escape) ≡ false
      → (c == delimiter && not escaped) ≡ false
      → ((m' : Memory)
          → Before (j + 1) i escaped (word ++ (c ∷ [])) s m'
          → Goal fuel (j + 1) i escaped (word ++ (c ∷ [])) s m')
      → Goal (suc fuel) j i escaped word (c ∷ s) m
  unfolding Goal
  at_char fuel j i c escaped word s m b e q rest =
      let w = words_char delimiter escape c escaped word s e q in
      let m' = write m (base + 64 * i + length word) c in
      let mw = put_at out base i (length word) c m b.table (index_small b) (word_short b) in
      let longer : length (word ++ c ∷ []) ≡ length word + 1 = length-append word (c ∷ []) in
      moved (words delimiter escape escaped (word ++ c ∷ []) s)
        (subst
          (λ k.
            Splits out base i (words delimiter escape escaped (word ++ c ∷ []) s) m'
              (split_from fuel str delimiter escape out (j + 1) k i escaped m'))
          longer
          (rest m' (record {
            table = Table-write out base (base + 64 * i + length word) c b.table (omega arith);
            text =
                kept (base + 64 * i + length word) c j s m (omega arith) (omega (arith, b.apart))
                  b.text.2;
            apart = omega (arith, b.apart);
            part =
                Part-snoc m' (base + 64 * i) c word
                  (Part-same m m' (base + 64 * i) word (λ a l u. ground arith) b.part) b.text.1
                  (ground arith);
            zeros = λ a l u. ground (arith, b.zeros a (omega (arith, longer)) u, longer);
            fit = subst Fit w b.fit;
            few = subst (λ ws. i + length ws ≤ 32) w b.few;
          })))
        (sym w)
        (sym (
          split_char fuel str delimiter escape out j (length word) i c escaped m b.text.0 b.text.1
            (omega (arith, b.apart, b.table.room)) (word_short b) e q
          ∙ ap (split_from fuel str delimiter escape out (j + 1) (length word + 1) i escaped) mw))
    where
      m'' : Memory
      m'' = write m (base + 64 * i + length word) c

      moved :
          (ws : List (List ℕ)) {ws' : List (List ℕ)} {o o' : Option (ℕ × Memory)}
          → Splits out base i ws m'' o
          → ws ≡ ws'
          → o ≡ o'
          → Splits out base i ws' m o'
      moved ws r ew eo =
          subst₂ (λ ws o. Splits out base i ws m o) ew eo
            (record {
              index = r.index;
              after = r.after;
              ends = r.ends;
              count = r.count;
              stand = r.stand;
              spares = λ a l. r.spares a l ∙ ground arith;
            })

  pub split_from-Splits :
      (fuel j i : ℕ) (escaped : Bool) (word s : List ℕ) (m : Memory)
      → length s < fuel
      → Before j i escaped word s m
      → Goal fuel j i escaped word s m
  split_from-Splits zero j i escaped word s m h b = absurd (omega arith)
  split_from-Splits (suc fuel) j i escaped word [] m h b = at_end fuel j i escaped word m b
  split_from-Splits (suc fuel) j i escaped word (c ∷ s) m h b = elim (Bool-cases (c == escape)) [
    | inl e ↦
        at_escape fuel j i c escaped word s m b e
          (split_from-Splits fuel (j + 1) i (not escaped) word s m (omega arith))
    | inr e ↦ elim (Bool-cases (c == delimiter && not escaped)) [
      | inl q ↦
          at_delimiter fuel j i c escaped word s m b e q
            (λ m'. split_from-Splits fuel (j + 1) (i + 1) escaped [] s m' (omega arith))
      | inr q ↦
          at_char fuel j i c escaped word s m b e q
            (λ m'. split_from-Splits fuel (j + 1) i escaped (word ++ c ∷ []) s m' (omega arith))
    ]
  ]
