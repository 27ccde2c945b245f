-- ===== src/Str/Split/Steps.antt =====
-- One round of the loop of `split_string`, and of the words of a text.
use mono.Prelude.{
  ℕ, suc, ◌+◌, ◌^◌, ◌<◌, ◌≡◌, ◌≢◌, refl, sym, ap₂, ◌∙◌, Bool, true, false, ◌&&◌, List, [], ◌∷◌,
  ◌++◌, arith, ◌==◌, ==_of_ne,
}
use mono.Memory.{Memory}
use mono.Str.Split.{not, put, split_from}
use mono.Str.Split.Tokens.{words}

module _ (fuel str delimiter escape out j k i c : ℕ) (escaped : Bool) (m : Memory)
    (here : m (str + j) ≡ c) (some_char : c ≢ 0) (hj : j + 1 < 2 ^ 32) (hk : k < 64) where
  pub split_escape :
      delimiter ≢ escape
      → (c == escape) ≡ true
      → split_from (suc fuel) str delimiter escape out j k i escaped m
        ≡ split_from fuel str delimiter escape out (j + 1) k i (not escaped) m
  unfolding split_from
  split_escape differ e =
      rw
        (
          here,
          ==_of_ne c 0 some_char,
          e,
          ==_of_ne c delimiter (λ q. differ (sym q ∙ ground (arith, e))),
        )
        (ap₂ (λ x y. split_from fuel str delimiter escape out x y i (not escaped) m) (omega arith)
          (omega arith))

  pub split_delimiter :
      (c == escape) ≡ false
      → (c == delimiter && not escaped) ≡ true
      → i < 32
      → split_from (suc fuel) str delimiter escape out j k i escaped m
        ≡ split_from fuel str delimiter escape out (j + 1) 0 (i + 1) escaped (put out i k 0 m)
  unfolding split_from
  split_delimiter e q hi =
      rw (here, ==_of_ne c 0 some_char, e, q)
        (ap₂ (λ x y. split_from fuel str delimiter escape out x 0 y escaped (put out i k 0 m))
          (omega arith) (omega arith))

  pub split_char :
      (c == escape) ≡ false
      → (c == delimiter && not escaped) ≡ false
      → split_from (suc fuel) str delimiter escape out j k i escaped m
        ≡ split_from fuel str delimiter escape out (j + 1) (k + 1) i escaped (put out i k c m)
  unfolding split_from
  split_char e q =
      rw (here, ==_of_ne c 0 some_char, e, q)
        (ap₂ (λ x y. split_from fuel str delimiter escape out x y i escaped (put out i k c m))
          (omega arith) (omega arith))

module _ (delimiter escape c : ℕ) (escaped : Bool) (word s : List ℕ) where
  pub words_escape :
      (c == escape) ≡ true
      → words delimiter escape escaped word (c ∷ s) ≡ words delimiter escape (not escaped) word s
  unfolding words
  words_escape e = rw e refl

  pub words_delimiter :
      (c == escape) ≡ false
      → (c == delimiter && not escaped) ≡ true
      → words delimiter escape escaped word (c ∷ s) ≡ word ∷ words delimiter escape escaped [] s
  unfolding words
  words_delimiter e q = rw (e, q) refl

  pub words_char :
      (c == escape) ≡ false
      → (c == delimiter && not escaped) ≡ false
      → words delimiter escape escaped word (c ∷ s)
        ≡ words delimiter escape escaped (word ++ c ∷ []) s
  unfolding words
  words_char e q = rw (e, q) refl
