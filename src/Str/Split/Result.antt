-- ===== src/Str/Split/Result.antt =====
-- What `split_string` returns and leaves in the buffers, where `j` happens to start at 0.
use mono.Prelude.{
  ℕ, suc, ◌+◌, ◌-◌, ◌%◌, ◌^◌, ◌<◌, ◌≤◌, ◌≡◌, ◌≢◌, ap, subst, ◌∙◌, false, Option, some, List, [],
  ◌∷◌, length, arith, ◌==◌, if◌then◌else◌,
}
use mono.Memory.{Memory, HasString, HasString-at}
use mono.Str.Compare.{strlen_nonempty}
use mono.Str.Split.{dec32, split_from, count_words, with_count, split_string}
use mono.Str.Split.Tokens.{words, HasWords, Fit, Table, Zeros, HasString-below, Splits}
use mono.Str.Split.Loop.{Goal, split_from-Splits}

-- The buffers hold the words, and nothing below them has changed; `result` is the number returned.
pub record Separated (base result : ℕ) (ws : List (List ℕ)) (before : Memory)
    (o : Option (ℕ × Memory)) : Type 0 where
  pub after : Memory
  pub ends : o ≡ some (result, after)
  pub stand : HasWords after base ws
  pub spares : (a : ℕ) → a < base → after a ≡ before a

number :
    (x y d i n : ℕ)
    → x ≡ y
    → suc i ≡ n
    → n ≤ 32
    → (if x == d then i else (i + 1) % 2 ^ 16) ≡ (if y == d then n - 1 else n)
number x y d i n e h l = ground arith

module _ (fuel str delimiter escape out base : ℕ) (differ : delimiter ≢ escape) where
  returned :
      (c : ℕ) (s : List ℕ) (ws : List (List ℕ)) (m : Memory)
      → HasString m str (c ∷ s)
      → str + length (c ∷ s) < base
      → base + 2048 ≤ 2 ^ 32
      → length (c ∷ s) < fuel
      → length ws ≤ 32
      → Splits out base 0 ws m (split_from fuel str delimiter escape out 0 0 0 false m)
      → Separated base
          (if m (str + length s) == delimiter then length ws - 1 else length ws)
          ws
          m
          (split_string fuel 0 str delimiter escape out m)
  unfolding split_string
  returned c s ws m text apart room enough few r =
      let kept : HasString r.after str (c ∷ s) =
        HasString-below str m r.after (c ∷ s) (λ a l. r.spares a (omega arith)) text in
      let last : str + dec32 (suc (length s)) ≡ str + length s = omega arith in
      record {
        after = r.after;
        ends =
            ap (count_words fuel str delimiter) r.ends
            ∙ ap (λ o. with_count str delimiter o (r.index, r.after))
                (strlen_nonempty fuel str c r.after s kept (omega arith) (omega arith))
            ∙ ap (λ n. some (n, r.after))
                (number (r.after (str + dec32 (suc (length s)))) (m (str + length s)) delimiter
                  r.index (length ws) (ap r.after last ∙ r.spares (str + length s) (omega arith))
                  (omega (arith, r.count)) few);
        stand = subst (λ p. HasWords r.after p ws) (omega arith) r.stand;
        spares = λ a l. r.spares a (omega arith);
      }

  -- Let `j` start at 0. On a text that is not empty, with a delimiter other than the escape character, a
  -- table of 32 pointers to buffers of 64 zero bytes above the text and the table, at most 32 words that
  -- fit them, and fuel for the text, `split_string` puts each word, without the escape characters, into
  -- its buffer, and changes nothing below the buffers. It returns the number of words, or one less if
  -- the text's last character is the delimiter.
  pub split_string-Separated :
      (c : ℕ) (s : List ℕ) (m : Memory)
      → HasString m str (c ∷ s)
      → str + length (c ∷ s) < base
      → Table out base m
      → Zeros m base (base + 2048)
      → Fit (words delimiter escape false [] (c ∷ s))
      → length (words delimiter escape false [] (c ∷ s)) ≤ 32
      → length (c ∷ s) < fuel
      → Separated base
          (if m (str + length s) == delimiter
            then length (words delimiter escape false [] (c ∷ s)) - 1
            else length (words delimiter escape false [] (c ∷ s)))
          (words delimiter escape false [] (c ∷ s))
          m
          (split_string fuel 0 str delimiter escape out m)
  unfolding Goal
  split_string-Separated c s m text apart table zeros fit few enough =
      returned c s (words delimiter escape false [] (c ∷ s)) m text apart table.room enough few (
        split_from-Splits str delimiter escape out base differ fuel 0 0 false [] (c ∷ s) m enough
          (record {
            table = table;
            text = HasString-at m (c ∷ s) text (omega arith);
            apart = omega (arith, apart);
            part = tt;
            zeros = λ a l u. zeros a (omega arith) u;
            fit = fit;
            few = omega (arith, few);
          }))
