-- ===== src/Base/Bisect.antt =====
-- Binary search: the loop of Go's `sort.Search` and of `Zipf.Draw`.
use Prim.Native.Nat.{ℕ, zero, suc, ◌+◌, ◌/◌, ◌≤◌, ◌<◌}
use mathlib.Core.Path.{◌≡◌}
use mathlib.Core.Bool.{Bool, true, false}
use native.Mathlib.Omega.{arith}
use mathlib.Core.Logic.{inl, inr}
use native.Mathlib.Decide.{dec_lt}
use topdisc_testbed.Base.Tests.{if◌then◌else◌, ltb, ltb→lt, if_ind, Bool-cases}

-- `for lo < hi { mid := (lo + hi) / 2; if p(mid) { hi = mid } else { lo = mid + 1 } }; return lo`.
-- Each round leaves a shorter range, so fuel `hi - lo` is enough.
unfoldable pub bisect : ℕ → (ℕ → Bool) → ℕ → ℕ → ℕ
bisect zero p lo hi = lo
bisect (suc fuel) p lo hi =
    let mid = (lo + hi) / 2 in
    let left = bisect fuel p lo mid in
    let right = bisect fuel p (mid + 1) hi in
    if ltb lo hi then (if p mid then left else right) else lo

-- `sort.Search(n, p)`
unfoldable pub search_first : ℕ → (ℕ → Bool) → ℕ
search_first n p = bisect n p 0 n

-- Once true, p stays true.
abbrev pub Monotone : (ℕ → Bool) → ℕ → Type 0
Monotone p n = (i j : ℕ) → i ≤ j → j < n → p i ≡ true → p j ≡ true

-- `k` is the first of the range from lo to hi that satisfies p, or hi if none does.
pub record IsFirst (p : ℕ → Bool) (lo hi k : ℕ) : Type 0 where
  pub above : lo ≤ k
  pub below : k ≤ hi
  pub before : (j : ℕ) → lo ≤ j → j < k → p j ≡ false
  pub from : k < hi → p k ≡ true

mid-between : (lo hi : ℕ) → lo < hi → (lo ≤ (lo + hi) / 2) × ((lo + hi) / 2 < hi)
mid-between lo hi h = (omega arith, omega arith)

module _ {p : ℕ → Bool} {lo hi mid k : ℕ} (a : lo ≤ mid) (b : mid < hi) (m : Monotone p hi) where
  left-IsFirst : p mid ≡ true → IsFirst p lo mid k → IsFirst p lo hi k
  left-IsFirst t r = record {
    above = r.above;
    below = omega (arith, r.below);
    before = r.before;
    from = λ h. elim (dec_lt k mid) [ yes q ↦ r.from q | no q ↦ m mid k (omega arith) h t ];
  }

  right-IsFirst : p mid ≡ false → IsFirst p (mid + 1) hi k → IsFirst p lo hi k
  right-IsFirst f r = record {
    above = omega (arith, r.above);
    below = r.below;
    before = λ j x y. elim (dec_lt mid j) [
      | yes q ↦ r.before j (omega arith) y
      | no q ↦ elim (Bool-cases (p j)) [
        | inl e ↦ ground (arith, m j mid (omega arith) b e)
        | inr e ↦ e
      ]
    ];
    from = r.from;
  }

pub bisect-IsFirst :
    (fuel : ℕ) (p : ℕ → Bool) (lo hi : ℕ)
    → Monotone p hi
    → lo ≤ hi
    → hi ≤ lo + fuel
    → IsFirst p lo hi (bisect fuel p lo hi)
unfolding bisect
bisect-IsFirst zero p lo hi m h f = record {
  above = omega arith;
  below = h;
  before = λ j a b. absurd (omega arith);
  from = λ b. absurd (omega arith);
}
bisect-IsFirst (suc fuel) p lo hi m h f =
    let mid = (lo + hi) / 2 in
    if_ind (IsFirst p lo hi) (ltb lo hi)
      (λ lt.
        let b = mid-between lo hi (ltb→lt lo hi lt) in
        if_ind (IsFirst p lo hi) (p mid)
          (λ t. left-IsFirst b.0 b.1 m t (
            bisect-IsFirst fuel p lo mid (λ i j a c. m i j a (omega (arith, b.1))) b.0
              (omega (arith, b.1))))
          (λ e.
            right-IsFirst b.0 b.1 m e
              (bisect-IsFirst fuel p (mid + 1) hi m (omega (arith, b.1)) (omega (arith, b.0)))))
      (λ ge. record {
        above = omega arith;
        below = h;
        before = λ j a b. absurd (omega arith);
        from = λ b. absurd (ground arith);
      })

pub search_first-IsFirst : (n : ℕ) (p : ℕ → Bool) → Monotone p n → IsFirst p 0 n (search_first n p)
unfolding search_first
search_first-IsFirst n p m = bisect-IsFirst n p 0 n m (omega arith) (omega arith)
