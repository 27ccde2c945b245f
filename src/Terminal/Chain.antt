-- ===== src/Terminal/Chain.antt =====
-- The linked list of rows: what its walks find, and what relinking the head behind the tail does.
use mono.Prelude.{
  ℕ, zero, suc, ◌+◌, ◌<◌, ◌≡◌, ◌≢◌, refl, sym, subst, ap, Option, none, some, List, [], ◌∷◌, ◌++◌,
  arith, length, get_elem?, get_or, ==_of_ne,
}
use mono.Terminal.{find_tail, relink, node_at}

-- From `p` the `next` pointers lead through the nodes of the list to null.
abbrev pub Chain : (ℕ → Option ℕ) → Option ℕ → List ℕ → Type 0
Chain next p [] = p ≡ none
Chain next p (n ∷ ns) = (p ≡ some n) × Chain next (next n) ns

abbrev pub NotIn : ℕ → List ℕ → Type 0
NotIn n [] = Unit {0}
NotIn n (k ∷ ks) = (n ≢ k) × NotIn n ks

abbrev pub Distinct : List ℕ → Type 0
Distinct [] = Unit {0}
Distinct (n ∷ ns) = NotIn n ns × Distinct ns

abbrev pub last : ℕ → List ℕ → ℕ
last n [] = n
last n (k ∷ ks) = last k ks

-- The walk over `j` nodes reaches the node of row `j`.
pub node_at_lem :
    (j : ℕ) (next : ℕ → Option ℕ) (p : Option ℕ) (ns : List ℕ)
    → Chain next p ns
    → node_at j next p ≡ get_elem? ns j
unfolding node_at
node_at_lem zero next p [] c = c
node_at_lem zero next p (n ∷ ns) c = c.0
node_at_lem (suc j) next none [] c = refl
node_at_lem (suc j) next (some n) [] c = cc
node_at_lem (suc j) next none (n ∷ ns) c = cc
node_at_lem (suc j) next (some q) (n ∷ ns) c =
    let e : q ≡ n = cc (c.0) in rw e (node_at_lem j next (next n) ns c.1)

-- The search for the tail ends at the last node.
pub find_tail_lem :
    (f : ℕ) (next : ℕ → Option ℕ) (p tail : Option ℕ) (n : ℕ) (ns : List ℕ)
    → Chain next p (n ∷ ns)
    → length ns + 1 < f
    → find_tail f next p tail ≡ some (last n ns)
unfolding find_tail
find_tail_lem zero next p tail n ns c h = absurd (omega arith)
find_tail_lem (suc f) next none tail n ns c h = cc
find_tail_lem (suc zero) next (some q) tail n ns c h = absurd (omega arith)
find_tail_lem (suc (suc f)) next (some q) tail n [] c h =
    let e : q ≡ n = cc (c.0) in rw (e, find_tail) (rw c.1)
find_tail_lem (suc (suc f)) next (some q) tail n (k ∷ ks) c h =
    let e : q ≡ n = cc (c.0) in
    rw e (find_tail_lem (suc f) next (next n) (some n) k ks c.1 (omega arith))

NotIn-last : (a n : ℕ) (ns : List ℕ) → NotIn a (n ∷ ns) → a ≢ last n ns
NotIn-last a n [] h = h.0
NotIn-last a n (k ∷ ks) h = NotIn-last a k ks h.1

-- Relinking makes the old head the end of the list.
pub relink-Chain :
    (next : ℕ → Option ℕ) (p : Option ℕ) (a n : ℕ) (ns : List ℕ)
    → Chain next p (n ∷ ns)
    → NotIn a (n ∷ ns)
    → Distinct (n ∷ ns)
    → Chain (relink (last n ns) a next) p (n ∷ ns ++ a ∷ [])
relink-Chain next p a n [] c out d = (c.0, (ground arith, ground arith))
relink-Chain next p a n (k ∷ ks) c out d = (
  c.0,
  subst (λ q. Chain (relink (last k ks) a next) q (k ∷ ks ++ a ∷ [])) (sym skip)
      (relink-Chain next (next n) a k ks c.1 out.1 d.1),
)
  where
    skip : relink (last k ks) a next n ≡ next n
    skip = rw (==_of_ne n a (λ e. out.0 (sym e)), ==_of_ne n (last k ks) (NotIn-last n k ks d.0))

NotIn-append : (n : ℕ) (ns ms : List ℕ) → NotIn n ns → NotIn n ms → NotIn n (ns ++ ms)
NotIn-append n [] ms h k = k
NotIn-append n (a ∷ ns) ms h k = (h.0, NotIn-append n ns ms h.1 k)

-- Moving the head behind the tail keeps the nodes distinct.
pub Distinct-rotate : (a : ℕ) (ns : List ℕ) → NotIn a ns → Distinct ns → Distinct (ns ++ a ∷ [])
Distinct-rotate a [] out d = (tt, tt)
Distinct-rotate a (n ∷ ns) out d =
    (NotIn-append n ns (a ∷ []) d.0 ((λ e. out.0 (sym e)), tt), Distinct-rotate a ns out.1 d.1)

pub NotIn-get_or : (a : ℕ) (ns : List ℕ) (j : ℕ) → NotIn a ns → j < length ns → a ≢ get_or ns j 0
NotIn-get_or a [] j out h = elim h [ ]
NotIn-get_or a (n ∷ ns) zero out h = out.0
NotIn-get_or a (n ∷ ns) (suc j) out h = NotIn-get_or a ns j out.1 (omega arith)

-- Distinct nodes at two places are two nodes.
pub Distinct-get_or :
    (ns : List ℕ) (j k : ℕ)
    → Distinct ns
    → j < length ns
    → k < length ns
    → j ≢ k
    → get_or ns j 0 ≢ get_or ns k 0
Distinct-get_or [] j k d hj hk ne = elim hj [ ]
Distinct-get_or (n ∷ ns) zero zero d hj hk ne = absurd (ne refl)
Distinct-get_or (n ∷ ns) zero (suc k) d hj hk ne = NotIn-get_or n ns k d.0 (omega arith)
Distinct-get_or (n ∷ ns) (suc j) zero d hj hk ne =
    λ e. NotIn-get_or n ns j d.0 (omega arith) (sym e)
Distinct-get_or (n ∷ ns) (suc j) (suc k) d hj hk ne =
    Distinct-get_or ns j k d.1 (omega arith) (omega arith) (λ e. ne (ap suc e))
