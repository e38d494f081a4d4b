-- ===== src/Base/Sums.antt =====
-- Slices of a fixed length as functions of the index, with sums and counts over them.
use Prim.Native.Nat.{ℕ, zero, suc, ◌+◌, ◌≤◌, ◌<◌}
use mathlib.Core.Path.{◌≡◌, refl, ap, sym}
use mathlib.Core.Logic.{◌≢◌}
use mathlib.Core.Bool.{Bool, true, false}
use native.Mathlib.Omega.{arith}
use native.Mathlib.Decide.{ℕ_discrete}
use topdisc_testbed.Base.Tests.{◌==◌, if◌then◌else◌, ltb}

-- `f[i] = v`
abbrev pub update {ℓ} : {A : Type ℓ} → (ℕ → A) → ℕ → A → ℕ → A
update f i v j = if i == j then v else f j

-- `for _, v := range f { sum += v }` over a slice of length n
unfoldable pub sum_below : ℕ → (ℕ → ℕ) → ℕ
sum_below zero f = 0
sum_below (suc n) f = f n + sum_below n f

abbrev pub bit : Bool → ℕ
bit true = 1
bit false = 0

-- how many of the first n indices satisfy p
abbrev pub count_below : ℕ → (ℕ → Bool) → ℕ
count_below n p = sum_below n (λ i. bit (p i))

pub sum_below-ext :
    (n : ℕ) (f g : ℕ → ℕ) → ((i : ℕ) → i < n → f i ≡ g i) → sum_below n f ≡ sum_below n g
unfolding sum_below
sum_below-ext zero f g h = refl
sum_below-ext (suc n) f g h =
    omega (arith, h n (omega arith), sum_below-ext n f g (λ i p. h i (omega arith)))

-- Two slices that differ at one index have sums that differ by as much.
pub sum_below-change :
    (n k : ℕ) (f g : ℕ → ℕ)
    → k < n
    → ((i : ℕ) → i ≢ k → f i ≡ g i)
    → sum_below n f + g k ≡ sum_below n g + f k
unfolding sum_below
sum_below-change zero k f g h e = absurd (omega arith)
sum_below-change (suc n) k f g h e = elim (ℕ_discrete n k) [
  | yes p ↦ omega (arith, sum_below-ext n f g (λ i q. e i (omega arith)), ap f p, ap g p)
  | no p ↦ omega (arith, e n p, sum_below-change n k f g (omega arith) e)
]

pub sum_below-le :
    (n : ℕ) (f g : ℕ → ℕ) → ((i : ℕ) → i < n → f i ≤ g i) → sum_below n f ≤ sum_below n g
unfolding sum_below
sum_below-le zero f g h = omega arith
sum_below-le (suc n) f g h =
    omega (arith, h n (omega arith), sum_below-le n f g (λ i p. h i (omega arith)))

pub le-sum_below : (n k : ℕ) (f : ℕ → ℕ) → k < n → f k ≤ sum_below n f
unfolding sum_below
le-sum_below zero k f h = absurd (omega arith)
le-sum_below (suc n) k f h = elim (ℕ_discrete n k) [
  | yes p ↦ omega (arith, ap f p)
  | no p ↦ omega (arith, le-sum_below n k f (omega arith))
]

pub sum_below-add :
    (n : ℕ) (f g : ℕ → ℕ) → sum_below n (λ i. f i + g i) ≡ sum_below n f + sum_below n g
unfolding sum_below
sum_below-add zero f g = omega arith
sum_below-add (suc n) f g = omega (arith, sum_below-add n f g)

pub sum_below-zero : (n : ℕ) → sum_below n (λ _. 0) ≡ 0
unfolding sum_below
sum_below-zero zero = refl
sum_below-zero (suc n) = omega (arith, sum_below-zero n)

-- A double sum may be taken in either order.
pub sum_below-swap :
    (n m : ℕ) (f : ℕ → ℕ → ℕ)
    → sum_below n (λ i. sum_below m (λ j. f i j)) ≡ sum_below m (λ j. sum_below n (λ i. f i j))
unfolding sum_below
sum_below-swap zero m f = sym (sum_below-zero m)
sum_below-swap (suc n) m f =
    omega
      (arith, sum_below-swap n m f, sum_below-add m (λ j. f n j) (λ j. sum_below n (λ i. f i j)))

pub count_below-eq : (n x : ℕ) → count_below n (λ j. x == j) ≡ bit (ltb x n)
unfolding sum_below
count_below-eq zero x = ground arith
count_below-eq (suc n) x = ground (arith, count_below-eq n x)
