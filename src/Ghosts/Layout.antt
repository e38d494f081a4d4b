-- ===== src/Ghosts/Layout.antt =====
-- The layout that is sampled keeps within the buckets and spends the count as far as they have room.
use topdisc_testbed.Base.{
  ℕ, zero, suc, ◌+◌, ◌-◌, ◌≡◌, ◌≤◌, ◌<◌, Bool, true, false, ◌&&◌, List, [], ◌∷◌, arith, refl, sym,
  ◌∙◌, ltb, leb, ◌==◌, if_ind, if◌then◌else◌, dec_lt, ltb→lt, leb→le, has, length, get_or, min,
  sum_below, sum_below-change, sum_below-le, sum_below-ext,
}
use topdisc_testbed.Assign.Starts.{InRange, has-get_or}
use topdisc_testbed.Ghosts.{
  bucket_count, ghost_bucket_cap, first_bucket, total, open_from, open_buckets, bump, spread,
  sample_ghost_layout,
}

has-open_from :
    (l : ℕ → ℕ) (k n j : ℕ)
    → has (open_from l k n) j ≡ (leb k j && (ltb j (k + n) && ltb (l j) ghost_bucket_cap))
unfolding open_from has
has-open_from l k zero j = ground arith
has-open_from l k (suc n) j = ground (arith, has-open_from l (k + 1) n j)

-- Buckets that are never opened stay empty, and none is filled past the cap.
abbrev pub InCaps : (ℕ → ℕ) → Type 0
InCaps l = (j : ℕ) → (l j ≤ ghost_bucket_cap) × (j < first_bucket → l j ≡ 0)

full : ℕ → ℕ
full j = if ltb j first_bucket then 0 else ghost_bucket_cap

total-full : total full ≡ 144
unfolding total sum_below full
total-full = refl

total-le : (l : ℕ → ℕ) → InCaps l → total l ≤ 144
unfolding total full
total-le l v =
    omega (arith, sum_below-le bucket_count l full (λ j h. ground (arith, v j)), total-full)

has-none : (xs : List ℕ) (j : ℕ) → length xs ≡ 0 → has xs j ≡ false
unfolding has
has-none [] j e = refl
has-none (x ∷ xs) j e = absurd (omega arith)

no_room :
    (l : ℕ → ℕ) (j : ℕ)
    → length (open_buckets l) ≡ 0
    → first_bucket ≤ j
    → j < bucket_count
    → ghost_bucket_cap ≤ l j
unfolding open_buckets
no_room l j e a b = elim (dec_lt (l j) ghost_bucket_cap) [
  | yes q ↦ ground (
    arith,
    has-none (open_from l first_bucket (bucket_count - first_bucket)) j e,
    has-open_from l first_bucket (bucket_count - first_bucket) j,
  )
  | no q ↦ omega arith
]

total-filled : (l : ℕ → ℕ) → InCaps l → length (open_buckets l) ≡ 0 → total l ≡ 144
unfolding total full open_buckets
total-filled l v e =
    sum_below-ext bucket_count l full (λ j h. elim (dec_lt j first_bucket) [
      | yes q ↦ ground (arith, (v j).1 q)
      | no q ↦ ground (arith, (v j).0, no_room l j e (omega arith) h)
    ])
    ∙ total-full

in_range : (a b c : Bool) → (a && (b && c)) ≡ true → (a ≡ true) × (b ≡ true) × (c ≡ true)
in_range a b c h = ground arith

open-get :
    (l : ℕ → ℕ) (r : ℕ)
    → r < length (open_buckets l)
    → let k = get_or (open_buckets l) r 0 in
      (first_bucket ≤ k) × (k < bucket_count) × (l k < ghost_bucket_cap)
unfolding open_buckets
open-get l r h =
    let k = get_or (open_buckets l) r 0 in
    let o = has-open_from l first_bucket (bucket_count - first_bucket) k in
    let t =
      in_range (leb first_bucket k) (ltb k 17) (ltb (l k) ghost_bucket_cap)
        (sym o ∙ has-get_or (open_buckets l) r h) in
    (leb→le first_bucket k t.0, ltb→lt k 17 t.1, ltb→lt (l k) ghost_bucket_cap t.2)

total-bump : (l : ℕ → ℕ) (k : ℕ) → k < bucket_count → total (bump l k) ≡ total l + 1
unfolding total bump
total-bump l k h =
    ground (arith, sum_below-change bucket_count k (bump l k) l h (λ i n. ground arith))

bump-InCaps :
    (l : ℕ → ℕ) (k : ℕ) → InCaps l → first_bucket ≤ k → l k < ghost_bucket_cap → InCaps (bump l k)
unfolding bump
bump-InCaps l k v a b j = ground (arith, v j)

-- `l'` is what spreading `count` more over `l` gives.
record Spread (l : ℕ → ℕ) (count : ℕ) (l' : ℕ → ℕ) : Type 0 where
  pub caps : InCaps l'
  pub size : total l' ≡ min (total l + count) 144

spread-Spread :
    (intn : ℕ → ℕ → ℕ) (l : ℕ → ℕ) (count : ℕ)
    → InRange intn
    → InCaps l
    → Spread l count (spread intn l count)
unfolding spread
spread-Spread intn l zero r v = record { caps = v; size = omega (arith, total-le l v) }
spread-Spread intn l (suc count) r v =
    let n = length (open_buckets l) in
    let k = get_or (open_buckets l) (intn count n) 0 in
    if_ind (Spread l (suc count)) (n == 0)
      (λ e. record { caps = v; size = omega (arith, total-filled l v (ground arith)) })
      (λ e.
        let o = open-get l (intn count n) (r count n (ground arith)) in
        let s = spread-Spread intn (bump l k) count r (bump-InCaps l k v o.0 o.2) in
        record { caps = s.caps; size = omega (arith, s.size, total-bump l k o.1) })

total-none : total (λ _. 0) ≡ 0
unfolding total sum_below
total-none = refl

-- The layout that is sampled for `count` ghosts fills no bucket past 16 and none below distance
-- 248, and holds them all, or 144 if they are more.
pub sample_ghost_layout-total :
    (intn : ℕ → ℕ → ℕ) (count : ℕ)
    → InRange intn
    → InCaps (sample_ghost_layout intn count)
      × (total (sample_ghost_layout intn count) ≡ min count 144)
unfolding sample_ghost_layout
sample_ghost_layout-total intn count r =
    let s = spread-Spread intn (λ _. 0) count r (λ j. (omega arith, λ h. refl)) in
    (s.caps, omega (arith, s.size, total-none))
