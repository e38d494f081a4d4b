-- ===== src/Base/Sort.antt =====
-- `sort.Ints` on a list of distinct keys, by insertion.
use Prim.Native.Nat.{ℕ, ◌+◌, ◌<◌, ◌≤◌}
use mathlib.Core.Path.{◌≡◌, refl, ◌∙◌}
use mathlib.Core.Bool.{true, false, ◌||◌}
use mathlib.Core.List.{List, [], ◌∷◌}
use native.Mathlib.Omega.{arith}
use topdisc_testbed.Base.Tests.{◌==◌, if◌then◌else◌, ltb, if_ind}
use topdisc_testbed.Base.Lists.{length}
use topdisc_testbed.Base.Sets.{has, IsDistinct}

unfoldable pub insert_sorted : ℕ → List ℕ → List ℕ
insert_sorted a [] = a ∷ []
insert_sorted a (x ∷ xs) = if ltb x a then x ∷ insert_sorted a xs else a ∷ x ∷ xs

unfoldable pub sort : List ℕ → List ℕ
sort [] = []
sort (x ∷ xs) = insert_sorted x (sort xs)

-- Every key is below all that stand behind it.
abbrev pub IsIncreasing : List ℕ → Type 0
IsIncreasing [] = Unit
IsIncreasing (x ∷ xs) = ((j : ℕ) → has xs j ≡ true → x < j) × IsIncreasing xs

has-insert_sorted : (a j : ℕ) (xs : List ℕ) → has (insert_sorted a xs) j ≡ ((a == j) || has xs j)
unfolding insert_sorted has
has-insert_sorted a j [] = refl
has-insert_sorted a j (x ∷ xs) = ground (arith, has-insert_sorted a j xs)

pub has-sort : (xs : List ℕ) (j : ℕ) → has (sort xs) j ≡ has xs j
unfolding sort has
has-sort [] j = refl
has-sort (x ∷ xs) j = ground (arith, has-insert_sorted x j (sort xs), has-sort xs j)

insert_sorted-IsIncreasing :
    (a : ℕ) (xs : List ℕ) → has xs a ≡ false → IsIncreasing xs → IsIncreasing (insert_sorted a xs)
unfolding insert_sorted has
insert_sorted-IsIncreasing a [] h s = (λ j e. cc, tt)
insert_sorted-IsIncreasing a (x ∷ xs) h s =
    if_ind IsIncreasing (ltb x a)
      (λ lt. (
        λ j e. ground (arith, has-insert_sorted a j xs, s.0 j),
        insert_sorted-IsIncreasing a xs (ground arith) s.1,
      ))
      (λ ge. (λ j e. ground (arith, s.0 j), s))

pub sort-IsIncreasing : (xs : List ℕ) → IsDistinct xs → IsIncreasing (sort xs)
unfolding sort
sort-IsIncreasing [] d = tt
sort-IsIncreasing (x ∷ xs) d =
    insert_sorted-IsIncreasing x (sort xs) (has-sort xs x ∙ d.0) (sort-IsIncreasing xs d.1)

-- a quantity added up over the keys
unfoldable pub sum_keys : (ℕ → ℕ) → List ℕ → ℕ
sum_keys g [] = 0
sum_keys g (x ∷ xs) = g x + sum_keys g xs

sum_keys-insert_sorted :
    (g : ℕ → ℕ) (a : ℕ) (xs : List ℕ) → sum_keys g (insert_sorted a xs) ≡ g a + sum_keys g xs
unfolding sum_keys insert_sorted
sum_keys-insert_sorted g a [] = refl
sum_keys-insert_sorted g a (x ∷ xs) = ground (arith, sum_keys-insert_sorted g a xs)

pub sum_keys-sort : (g : ℕ → ℕ) (xs : List ℕ) → sum_keys g (sort xs) ≡ sum_keys g xs
unfolding sum_keys sort
sum_keys-sort g [] = refl
sum_keys-sort g (x ∷ xs) = omega (arith, sum_keys-insert_sorted g x (sort xs), sum_keys-sort g xs)

-- As IsIncreasing, for a list in which a number may stand twice.
abbrev pub IsAscending : List ℕ → Type 0
IsAscending [] = Unit
IsAscending (x ∷ xs) = ((j : ℕ) → has xs j ≡ true → x ≤ j) × IsAscending xs

insert_sorted-IsAscending :
    (a : ℕ) (xs : List ℕ) → IsAscending xs → IsAscending (insert_sorted a xs)
unfolding insert_sorted has
insert_sorted-IsAscending a [] s = (λ j e. cc, tt)
insert_sorted-IsAscending a (x ∷ xs) s =
    if_ind IsAscending (ltb x a)
      (λ lt. (
        λ j e. ground (arith, has-insert_sorted a j xs, s.0 j),
        insert_sorted-IsAscending a xs s.1,
      ))
      (λ ge. (λ j e. ground (arith, s.0 j), s))

pub sort-IsAscending : (xs : List ℕ) → IsAscending (sort xs)
unfolding sort
sort-IsAscending [] = tt
sort-IsAscending (x ∷ xs) = insert_sorted-IsAscending x (sort xs) (sort-IsAscending xs)

length-insert_sorted : (a : ℕ) (xs : List ℕ) → length (insert_sorted a xs) ≡ length xs + 1
unfolding insert_sorted
length-insert_sorted a [] = refl
length-insert_sorted a (x ∷ xs) = ground (arith, length-insert_sorted a xs)

pub length-sort : (xs : List ℕ) → length (sort xs) ≡ length xs
unfolding sort
length-sort [] = refl
length-sort (x ∷ xs) = omega (arith, length-insert_sorted x (sort xs), length-sort xs)
