-- ===== src/Ghosts/Counts.antt =====
-- Lists of ghosts: joined lists, and how many elements satisfy a test.
use topdisc_testbed.Base.{
  ℕ, ◌+◌, ◌≡◌, Bool, true, false, List, [], ◌∷◌, ◌++◌, arith, refl, ap, has, length, sum_below, bit,
}

pub none_below : (f : ℕ → ℕ) → 0 ≡ sum_below 0 f
unfolding sum_below
none_below f = refl

-- how many elements satisfy p
pub count : (ℕ → Bool) → List ℕ → ℕ
count p [] = 0
count p (x ∷ xs) = bit (p x) + count p xs

pub count-nil : (p : ℕ → Bool) → count p [] ≡ 0
unfolding count
count-nil p = refl

pub count-append : (p : ℕ → Bool) (xs ys : List ℕ) → count p (xs ++ ys) ≡ count p xs + count p ys
unfolding count
count-append p [] ys = omega arith
count-append p (x ∷ xs) ys = omega (arith, count-append p xs ys)

pub count-all :
    (p : ℕ → Bool) (xs : List ℕ) → ((j : ℕ) → has xs j ≡ true → p j ≡ true) → count p xs ≡ length xs
unfolding count has
count-all p [] h = refl
count-all p (x ∷ xs) h =
    omega (arith, count-all p xs (λ j e. h j (ground arith)), ap bit (h x (ground arith)))

pub count-none :
    (p : ℕ → Bool) (xs : List ℕ) → ((j : ℕ) → has xs j ≡ true → p j ≡ false) → count p xs ≡ 0
unfolding count has
count-none p [] h = refl
count-none p (x ∷ xs) h =
    omega (arith, count-none p xs (λ j e. h j (ground arith)), ap bit (h x (ground arith)))
