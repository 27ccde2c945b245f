-- ===== src/Shell/Keep.antt =====
-- What the clearing and the splitting of the arguments keep: bytes, and the table of the romdisk.
use mono.Prelude.{
  ℕ, zero, suc, ◌+◌, ◌*◌, ◌%◌, ◌^◌, ◌<◌, ◌≤◌, ◌≡◌, ap₂, ◌∙◌, Bool, true, false, ◌&&◌, Option, none,
  some, List, [], ◌∷◌, length, arith, ◌==◌, if◌then◌else◌, for_range_inv,
}
use mono.Memory.{Memory, IsBytes, read16, read32}
use mono.Romdisk.{entry_size}
use mono.Romdisk.Table.{Entry, HasTable}
use mono.Shell.{clear_args}
use mono.Shell.Arguments.{read32-same}
use mono.Str.{memset}
use mono.Str.Blocks.{memset_at}
use mono.Str.Split.{not, put, dec32, inc32, split_from, count_words, with_count, split_string}
use mono.Str.Split.Tokens.{HasString-below}
use mono.Str.{strlen}

-- The memory of a result holds bytes.
abbrev pub BytesIn : Option (ℕ × Memory) → Type 0
BytesIn none = Unit {0}
BytesIn (some (i, m)) = IsBytes m

put-IsBytes : (out i k c : ℕ) (m : Memory) → c < 256 → IsBytes m → IsBytes (put out i k c m)
unfolding put
put-IsBytes out i k c m h b a = ground (arith, b a)

memset-IsBytes : (p n : ℕ) (m : Memory) → IsBytes m → IsBytes (memset p 0 n m)
memset-IsBytes p n m b a = ground (arith, memset_at p 0 n m a, b a)

pub clear_args-IsBytes : (args : ℕ) (m : Memory) → IsBytes m → IsBytes (clear_args args m)
unfolding clear_args
clear_args-IsBytes args m b =
    for_range_inv IsBytes (λ i m'. memset (read32 m' (args + 4 * i)) 0 64 m') 32 0 m
      (λ j m' h. memset-IsBytes (read32 m' (args + 4 * j)) 64 m' h) b

BytesIn-if :
    (x : Bool) (o o' : Option (ℕ × Memory)) → BytesIn o → BytesIn o' → BytesIn (if x then o else o')
BytesIn-if true o o' h h' = h
BytesIn-if false o o' h h' = h'

split_from-IsBytes :
    (fuel str d e out j k i : ℕ) (escaped : Bool) (m : Memory)
    → IsBytes m
    → BytesIn (split_from fuel str d e out j k i escaped m)
unfolding split_from
split_from-IsBytes zero str d e out j k i escaped m b = tt
split_from-IsBytes (suc fuel) str d e out j k i escaped m b =
    let c = m (str + j) in
    let escaped' = if c == e then not escaped else escaped in
    let k' = if c == e then dec32 k else k in
    BytesIn-if (c == 0) (some (i, m)) _ b (
      BytesIn-if (c == d && not escaped') _ _
        (split_from-IsBytes fuel str d e out (inc32 j) 0 ((i + 1) % 2 ^ 16) escaped'
          (put out i k' 0 m) (put-IsBytes out i k' 0 m (omega arith) b))
        (split_from-IsBytes fuel str d e out (inc32 j) (inc32 k') i escaped'
          (if c == e then m else put out i k' c m) (either (c == e) k' c (b (str + j)))))
  where
    either : (x : Bool) (k' c : ℕ) → c < 256 → IsBytes (if x then m else put out i k' c m)
    either true k' c h = b
    either false k' c h = put-IsBytes out i k' c m h b

count_words-IsBytes :
    (fuel str d : ℕ) (o : Option (ℕ × Memory)) → BytesIn o → BytesIn (count_words fuel str d o)
count_words-IsBytes fuel str d none h = tt
count_words-IsBytes fuel str d (some (i, m)) h = counted-IsBytes (strlen fuel str m)
  where
    counted-IsBytes : (l : Option ℕ) → BytesIn (with_count str d l (i, m))
    counted-IsBytes none = tt
    counted-IsBytes (some len) = h

pub split_string-IsBytes :
    (fuel start str d e out : ℕ) (m : Memory)
    → IsBytes m
    → BytesIn (split_string fuel start str d e out m)
unfolding split_string
split_string-IsBytes fuel start str d e out m b =
    count_words-IsBytes fuel str d (split_from fuel str d e out start 0 0 false m)
      (split_from-IsBytes fuel str d e out start 0 0 false m b)

pub read16-same :
    (m m' : Memory) (p : ℕ) → m' p ≡ m p → m' (p + 1) ≡ m (p + 1) → read16 m' p ≡ read16 m p
unfolding read16
read16-same m m' p e f = ap₂ (λ x y. x + 256 * y) e f

pub HasTable-below :
    (p base : ℕ) (m m' : Memory) (es : List Entry)
    → ((a : ℕ) → a < base → m' a ≡ m a)
    → p + 72 * length es ≤ base
    → HasTable m p es
    → HasTable m' p es
HasTable-below p base m m' [] same h t = tt
HasTable-below p base m m' (e ∷ es) same h t = (
  HasString-below p m m' e.filename (λ a l. same a (omega (arith, t.1))) t.0,
  t.1,
  read32-same m m' (p + 64) (λ a l u. same a (omega arith)) ∙ t.2,
  read32-same m m' (p + 68) (λ a l u. same a (omega arith)) ∙ t.3,
  HasTable-below (p + entry_size) base m m' es same (omega arith) t.4,
)
