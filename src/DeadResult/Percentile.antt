-- ===== src/DeadResult/Percentile.antt =====
-- cmd/simnet/deadresult.go: `histPercentile`.
use topdisc_testbed.Base.{
  ℕ, ◌+◌, ◌*◌, ◌/◌, ◌≡◌, ◌≤◌, ◌<◌, refl, true, false, List, [], ◌∷◌, arith, if◌then◌else◌, ◌==◌,
  leb, Bool-cases, inl, inr, has, IsDistinct, find_or, keys, sum_values, sort, has-sort,
  sort-IsIncreasing, IsIncreasing, sum_keys, sum_keys-sort, ◌∙◌, sym,
}
use topdisc_testbed.DeadResult.{scan, hist_percentile}

-- the results at keys up to x
abbrev upto : (ℕ → ℕ) → ℕ → ℕ → ℕ
upto h x k = if leb k x then h k else 0

pub count_le : List (ℕ × ℕ) → ℕ → ℕ
count_le h x = sum_keys (upto (λ k. find_or 0 k h) x) (keys h)

sum_upto-zero :
    (h : ℕ → ℕ) (x : ℕ) (ks : List ℕ)
    → ((j : ℕ) → has ks j ≡ true → x < j)
    → sum_keys (upto h x) ks ≡ 0
unfolding sum_keys has
sum_upto-zero h x [] above = refl
sum_upto-zero h x (k ∷ ks) above =
    ground (arith, above k, sum_upto-zero h x ks (λ j e. above j (ground arith)))

-- The first key of the increasing list at which the count of what was seen reaches `need`.
record IsFirst (h : ℕ → ℕ) (need seen : ℕ) (ks : List ℕ) (r : ℕ) : Type 0 where
  listed : has ks r ≡ true
  enough : need ≤ seen + sum_keys (upto h r) ks
  least : (k : ℕ) → has ks k ≡ true → k < r → seen + sum_keys (upto h k) ks < need

scan-IsFirst :
    (h : ℕ → ℕ) (need seen last : ℕ) (ks : List ℕ)
    → IsIncreasing ks
    → (ks ≡ [] → seen < need)
    → need ≤ seen + sum_keys h ks
    → IsFirst h need seen ks (scan h need seen last ks)
unfolding scan sum_keys has
scan-IsFirst h need seen last [] s low high = absurd (omega (arith, low refl))
scan-IsFirst h need seen last (k ∷ ks) s low high = elim (Bool-cases (leb need (seen + h k))) [
  | inl stop ↦ rw stop (record {
    listed = ground arith;
    enough = ground arith;
    least = λ j e lt. ground (arith, s.0 j);
  })
  | inr more ↦
      let r = scan h need (seen + h k) k ks in
      let ih = scan-IsFirst h need (seen + h k) k ks s.1 (λ _. ground arith) (ground arith) in
      rw more (record {
        listed = ground (arith, ih.listed);
        enough = ground (arith, ih.enough, s.0 r ih.listed);
        least = λ j e lt.
            ground (arith, ih.least j, s.0 j, sum_upto-zero h k ks s.0, ih.listed, s.0 r ih.listed);
      })
]

sum_keys-ext :
    (f g : ℕ → ℕ) (ks : List ℕ)
    → ((j : ℕ) → has ks j ≡ true → f j ≡ g j)
    → sum_keys f ks ≡ sum_keys g ks
unfolding sum_keys has
sum_keys-ext f g [] same = refl
sum_keys-ext f g (k ∷ ks) same =
    omega (arith, same k (ground arith), sum_keys-ext f g ks (λ j e. same j (ground arith)))

-- Looked up key by key, a histogram holds what its entries hold.
sum_keys-find_or :
    (h : List (ℕ × ℕ))
    → IsDistinct (keys h)
    → sum_keys (λ k. find_or 0 k h) (keys h) ≡ sum_values (λ n. n) h
unfolding sum_keys keys find_or sum_values
sum_keys-find_or [] d = refl
sum_keys-find_or ((k, v) ∷ h) d = ground (
  arith,
  sum_keys-find_or h d.1,
  sum_keys-ext (λ j. if k == j then v else find_or 0 j h) (λ j. find_or 0 j h) (keys h)
      (λ j e. ground (arith, d.0)),
)

sum_keys-pos : (g : ℕ → ℕ) (ks : List ℕ) → ks ≡ [] → ¬ (0 < sum_keys g ks)
unfolding sum_keys
sum_keys-pos g [] e lt = omega arith
sum_keys-pos g (k ∷ ks) e lt = cc

percentile-le : (p total : ℕ) → p ≤ 100 → (p * total + 99) / 100 ≤ total
percentile-le p total h = grind arith

-- histPercentile on a histogram that holds something returns the least age at which p percent of
-- the results, rounded up, are reached: the age occurs, so many results are at most as old, and
-- fewer are up to any younger age that occurs.
pub hist_percentile_lem :
    (h : List (ℕ × ℕ)) (p : ℕ)
    → IsDistinct (keys h)
    → p ≤ 100
    → 0 < sum_values (λ n. n) h
    → let need = (p * sum_values (λ n. n) h + 99) / 100 in
      let r = hist_percentile h p in
      (has (keys h) r ≡ true)
      × (need ≤ count_le h r)
      × ((k : ℕ) → has (keys h) k ≡ true → k < r → count_le h k < need)
unfolding hist_percentile count_le
hist_percentile_lem h p d hp pos =
    let g = λ (k : ℕ). find_or 0 k h in
    let total = sum_values (λ n. n) h in
    let need = (p * total + 99) / 100 in
    let r = scan g need 0 0 (sort (keys h)) in
    let sums : sum_keys g (sort (keys h)) ≡ total =
      sum_keys-sort g (keys h) ∙ sum_keys-find_or h d in
    let first : IsFirst g need 0 (sort (keys h)) r =
      scan-IsFirst g need 0 0 (sort (keys h)) (sort-IsIncreasing (keys h) d)
        (λ e. absurd (sum_keys-pos g (sort (keys h)) e (omega arith)))
        (omega (arith, percentile-le p total hp)) in
    rw nonzero (
      sym (has-sort (keys h) r) ∙ first.listed,
      omega (arith, first.enough, sum_keys-sort (upto g r) (keys h)),
      λ k e lt.
          omega
            (arith, first.least k (has-sort (keys h) k ∙ e) lt, sum_keys-sort (upto g k) (keys h)),
    )
  where
    nonzero : (sum_values (λ n. n) h == 0) ≡ false
    nonzero = ground arith
