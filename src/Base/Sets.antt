-- ===== src/Base/Sets.antt =====
-- A Go `map[int]struct{}` as the list of its keys, in the order in which a `range` visits them.
use Prim.Native.Nat.{ℕ, ◌+◌, ◌≤◌, ◌<◌}
use native.Mathlib.Decide.{ℕ_discrete}
use mathlib.Core.Path.{◌≡◌, refl, ap, sym, ◌∙◌}
use mathlib.Core.Bool.{Bool, true, false, not, ◌&&◌, ◌||◌, false≢true}
use mathlib.Core.List.{List, [], ◌∷◌, ◌++◌}
use native.Mathlib.Omega.{arith}
use topdisc_testbed.Base.Tests.{◌==◌, if◌then◌else◌, lt→ltb}
use topdisc_testbed.Base.Lists.{length}
use topdisc_testbed.Base.Sums.{
  bit, count_below, sum_below-ext, sum_below-add, sum_below-zero, count_below-eq,
}

-- `_, ok := m[a]`
unfoldable pub has : List ℕ → ℕ → Bool
has [] a = false
has (x ∷ xs) a = (x == a) || has xs a

-- `m[a] = struct{}{}`
unfoldable pub insert : ℕ → List ℕ → List ℕ
insert a xs = if has xs a then xs else a ∷ xs

-- `delete(m, a)`
unfoldable pub delete : ℕ → List ℕ → List ℕ
delete a [] = []
delete a (x ∷ xs) = if x == a then delete a xs else x ∷ delete a xs

-- No key stands twice.
abbrev pub IsDistinct : List ℕ → Type 0
IsDistinct [] = Unit
IsDistinct (x ∷ xs) = (has xs x ≡ false) × IsDistinct xs

pub has-nil : (a : ℕ) → has [] a ≡ false
unfolding has
has-nil a = refl

pub has-cons : (x a : ℕ) (xs : List ℕ) → has (x ∷ xs) a ≡ ((x == a) || has xs a)
unfolding has
has-cons x a xs = refl

pub has-insert : (a b : ℕ) (xs : List ℕ) → has (insert a xs) b ≡ ((a == b) || has xs b)
unfolding has insert
has-insert a b xs = ground arith

pub has-delete : (a b : ℕ) (xs : List ℕ) → has (delete a xs) b ≡ (not (a == b) && has xs b)
unfolding has delete
has-delete a b [] = ground arith
has-delete a b (x ∷ xs) = ground (arith, has-delete a b xs)

pub has-append : (xs ys : List ℕ) (j : ℕ) → has (xs ++ ys) j ≡ (has xs j || has ys j)
unfolding has
has-append [] ys j = refl
has-append (x ∷ xs) ys j = ground (arith, has-append xs ys j)

pub append-IsDistinct :
    (xs ys : List ℕ)
    → IsDistinct xs
    → IsDistinct ys
    → ((j : ℕ) → has xs j ≡ true → has ys j ≡ false)
    → IsDistinct (xs ++ ys)
unfolding has
append-IsDistinct [] ys d e h = e
append-IsDistinct (x ∷ xs) ys d e h = (
  ground (arith, has-append xs ys x, h x, d.0),
  append-IsDistinct xs ys d.1 e (λ j m. h j (ground arith)),
)

pub length-insert : (a : ℕ) (xs : List ℕ) → has xs a ≡ false → length (insert a xs) ≡ length xs + 1
unfolding insert
length-insert a xs h = ground arith

pub delete-absent : (a : ℕ) (xs : List ℕ) → has xs a ≡ false → delete a xs ≡ xs
unfolding has delete
delete-absent a [] h = refl
delete-absent a (x ∷ xs) h = ground (arith, delete-absent a xs)

pub length-delete :
    (a : ℕ) (xs : List ℕ) → IsDistinct xs → has xs a ≡ true → length (delete a xs) + 1 ≡ length xs
unfolding has delete
length-delete a [] d h = ground arith
length-delete a (x ∷ xs) d h = ground (arith, length-delete a xs, delete-absent a xs)

pub insert-IsDistinct : (a : ℕ) (xs : List ℕ) → IsDistinct xs → IsDistinct (insert a xs)
unfolding insert
insert-IsDistinct a xs d = ground arith

pub delete-IsDistinct : (a : ℕ) (xs : List ℕ) → IsDistinct xs → IsDistinct (delete a xs)
unfolding delete
delete-IsDistinct a [] d = tt
delete-IsDistinct a (x ∷ xs) d = ground (arith, delete-IsDistinct a xs d.1, has-delete a x xs)

-- The size of a set of indices below n, counted over the indices.
pub length-eq-count :
    (n : ℕ) (xs : List ℕ)
    → IsDistinct xs
    → ((j : ℕ) → has xs j ≡ true → j < n)
    → length xs ≡ count_below n (has xs)
unfolding has
length-eq-count n [] d h = sym (sum_below-zero n)
length-eq-count n (x ∷ xs) d h = omega (
  arith,
  length-eq-count n xs d.1 (λ j p. h j (ground arith)),
  count_below-eq n x,
  sum_below-ext n (λ j. bit ((x == j) || has xs j)) (λ j. bit (x == j) + bit (has xs j))
      (λ j p. ground (arith, d.0)),
  sum_below-add n (λ j. bit (x == j)) (λ j. bit (has xs j)),
  ap bit (lt→ltb x n (h x (ground arith))),
)

abbrev pub Within : List ℕ → List ℕ → Type 0
Within xs ys = (j : ℕ) → has xs j ≡ true → has ys j ≡ true

delete-Within :
    (x : ℕ) (xs ys : List ℕ) → IsDistinct (x ∷ xs) → Within (x ∷ xs) ys → Within xs (delete x ys)
unfolding has
delete-Within x xs ys d w j m = elim (ℕ_discrete x j) [
  | yes p ↦ absurd (false≢true (sym d.0 ∙ ap (has xs) p ∙ m))
  | no p ↦ rw (has-delete x j ys) (ground (arith, w j))
]

-- Distinct elements of a list with distinct elements are no more than it has.
pub Within-length :
    (xs ys : List ℕ) → IsDistinct xs → IsDistinct ys → Within xs ys → length xs ≤ length ys
unfolding has
Within-length [] ys d e w = omega arith
Within-length (x ∷ xs) ys d e w = omega (
  arith,
  Within-length xs (delete x ys) d.1 (delete-IsDistinct x ys e) (delete-Within x xs ys d w),
  length-delete x ys e (w x (ground arith)),
)

-- If they are as many, they are all of them.
pub Within-all :
    (xs ys : List ℕ)
    → IsDistinct xs
    → IsDistinct ys
    → Within xs ys
    → length ys ≤ length xs
    → Within ys xs
unfolding has
Within-all [] [] d e w l j m = m
Within-all [] (y ∷ ys) d e w l j m = absurd (omega arith)
Within-all (x ∷ xs) ys d e w l j m = elim (ℕ_discrete x j) [
  | yes p ↦ ground arith
  | no p ↦
      let rest : has xs j ≡ true =
        Within-all xs (delete x ys) d.1 (delete-IsDistinct x ys e) (delete-Within x xs ys d w)
          (omega (arith, length-delete x ys e (w x (ground arith)))) j
          (has-delete x j ys ∙ ground arith) in
      ground arith
]

pub has-append_one : (xs : List ℕ) (a j : ℕ) → has (xs ++ a ∷ []) j ≡ (has xs j || (a == j))
unfolding has
has-append_one xs a j = has-append xs (a ∷ []) j ∙ ground arith

pub append_one-IsDistinct :
    (xs : List ℕ) (a : ℕ) → IsDistinct xs → has xs a ≡ false → IsDistinct (xs ++ a ∷ [])
unfolding has
append_one-IsDistinct xs a d h =
    append-IsDistinct xs (a ∷ []) d (refl, tt)
      (λ j m. elim (ℕ_discrete a j) [
        | yes p ↦ absurd (ground (arith, ap (has xs) p))
        | no p ↦ ground arith
      ])
