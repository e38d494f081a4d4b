-- ===== src/Searcher/Firsts.antt =====
-- The nodes that a search yields, and of the registrants among them the first finds.
use topdisc_testbed.Base.{
  ℕ, ◌≡◌, Bool, true, false, not, ◌&&◌, List, [], ◌∷◌, ◌++◌, arith, ap, map, refl, ℕ_discrete,
  if◌then◌else◌, ◌==◌, has, insert, has-insert, has-append_one,
}

-- A node that the search yielded: when, in milliseconds from the start, and whether it is a registrant.
pub record Yield : Type 0 where
  pub id : ℕ
  pub is_reg : Bool
  pub at_ms : ℕ

abbrev pub registrants : List Yield → List (ℕ × ℕ)
registrants [] = []
registrants (y ∷ ys) = if y.is_reg then (y.id, y.at_ms) ∷ registrants ys else registrants ys

abbrev pub ids : List (ℕ × ℕ) → List ℕ
ids xs = map (λ x. x.0) xs

abbrev pub times : List (ℕ × ℕ) → List ℕ
times xs = map (λ x. x.1) xs

-- The finds of other nodes.
abbrev pub forget : ℕ → List (ℕ × ℕ) → List (ℕ × ℕ)
forget a [] = []
forget a ((b, t) ∷ xs) = if b == a then forget a xs else (b, t) ∷ forget a xs

-- Of each node, the first find.
abbrev pub first_finds : List (ℕ × ℕ) → List (ℕ × ℕ)
first_finds [] = []
first_finds ((a, t) ∷ xs) = (a, t) ∷ forget a (first_finds xs)

pub forget-append :
    (x a t : ℕ) (xs : List (ℕ × ℕ))
    → forget x (xs ++ (a, t) ∷ []) ≡ (if a == x then forget x xs else forget x xs ++ (a, t) ∷ [])
forget-append x a t [] = ground arith
forget-append x a t ((b, u) ∷ xs) = ground (arith, forget-append x a t xs)

pub first_finds-append :
    (xs : List (ℕ × ℕ)) (a t : ℕ)
    → first_finds (xs ++ (a, t) ∷ [])
      ≡ (if has (ids xs) a then first_finds xs else first_finds xs ++ (a, t) ∷ [])
unfolding has
first_finds-append [] a t = refl
first_finds-append ((b, u) ∷ xs) a t =
    ground (arith, first_finds-append xs a t, forget-append b a t (first_finds xs))

pub has-forget :
    (a j : ℕ) (xs : List (ℕ × ℕ)) → has (ids (forget a xs)) j ≡ (not (a == j) && has (ids xs) j)
unfolding has
has-forget a j [] = ground arith
has-forget a j ((b, u) ∷ xs) = ground (arith, has-forget a j xs)

pub has-first_finds : (xs : List (ℕ × ℕ)) (j : ℕ) → has (ids (first_finds xs)) j ≡ has (ids xs) j
unfolding has
has-first_finds [] j = refl
has-first_finds ((b, u) ∷ xs) j =
    ground (arith, has-forget b j (first_finds xs), has-first_finds xs j)

pub registrants-append :
    (ys : List Yield) (y : Yield)
    → registrants (ys ++ y ∷ [])
      ≡ (if y.is_reg then registrants ys ++ (y.id, y.at_ms) ∷ [] else registrants ys)
registrants-append [] y = ground arith
registrants-append (z ∷ ys) y = ground (arith, registrants-append ys y)

pub known_new :
    (xs connected : List ℕ) (id j : ℕ)
    → has connected id ≡ true
    → (has xs j && not (has connected j)) ≡ (has (xs ++ id ∷ []) j && not (has connected j))
known_new xs connected id j h = elim (ℕ_discrete id j) [
  | yes q ↦ ground (arith, has-append_one xs id j, ap (has connected) q)
  | no q ↦ ground (arith, has-append_one xs id j)
]

pub unknown_new :
    (xs new connected : List ℕ) (id j : ℕ)
    → has new j ≡ (has xs j && not (has connected j))
    → has connected id ≡ false
    → has (insert id new) j ≡ (has (xs ++ id ∷ []) j && not (has connected j))
unknown_new xs new connected id j e h = elim (ℕ_discrete id j) [
  | yes q ↦ ground (arith, has-insert id j new, has-append_one xs id j, ap (has connected) q)
  | no q ↦ ground (arith, has-insert id j new, has-append_one xs id j)
]
