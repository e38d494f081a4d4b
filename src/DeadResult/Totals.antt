-- ===== src/DeadResult/Totals.antt =====
-- The counts of a searcher, and of the tracker after any merges, agree with each other.
use topdisc_testbed.Base.{
  ℕ, ◌+◌, ◌/◌, ◌≡◌, ◌≤◌, refl, Option, none, some, List, [], ◌∷◌, arith, if◌then◌else◌, ◌==◌,
  Bool-cases, inl, inr, sum_values, sum_values-adjust, find_or, adjust,
}
use topdisc_testbed.DeadResult.{
  DeadLocal, Tracker, new_local, count_live, count_dead, record_aged, record_result, add_hist,
  add_buckets, add_local, merge, new_tracker, dead_age,
}

-- The buckets hold every result once, and every dead one; the histogram holds every dead one.
pub record IsBalanced (l : DeadLocal) : Type 0 where
  pub returned_in_buckets : sum_values (λ c. c.0) l.buckets ≡ l.returned
  pub dead_in_buckets : sum_values (λ c. c.1) l.buckets ≡ l.dead
  pub dead_in_hist : sum_values (λ n. n) l.age_hist ≡ l.dead
  pub dead_le : l.dead ≤ l.returned

pub new_local-IsBalanced : (topic : ℕ) → IsBalanced (new_local topic)
unfolding new_local sum_values
new_local-IsBalanced topic = omega arith

record_aged-IsBalanced :
    (l : DeadLocal) (b : ℕ) (age : Option ℕ) → IsBalanced l → IsBalanced (record_aged l b age)
unfolding record_aged
record_aged-IsBalanced l b none h = omega (
  arith,
  h,
  sum_values-adjust (λ c. c.0) (0, 0) count_live 1 b l.buckets refl (λ v. refl),
  sum_values-adjust (λ c. c.1) (0, 0) count_live 0 b l.buckets refl (λ v. omega arith),
)
record_aged-IsBalanced l b (some age) h = omega (
  arith,
  h,
  sum_values-adjust (λ c. c.0) (0, 0) count_dead 1 b l.buckets refl (λ v. refl),
  sum_values-adjust (λ c. c.1) (0, 0) count_dead 1 b l.buckets refl (λ v. refl),
  sum_values-adjust (λ n. n) 0 (λ n. n + 1) 1 (age / 1_000_000_000) l.age_hist refl (λ v. refl),
)

-- Recording a result keeps a searcher's counts in balance.
pub record_result-IsBalanced :
    (l : DeadLocal) (d : Tracker) (id at : ℕ) → IsBalanced l → IsBalanced (record_result l d id at)
unfolding record_result
record_result-IsBalanced l d id at h = record_aged-IsBalanced l _ (dead_age d id at) h

sum_values-add_hist :
    (t l : List (ℕ × ℕ))
    → sum_values (λ n. n) (add_hist t l) ≡ sum_values (λ n. n) t + sum_values (λ n. n) l
unfolding add_hist sum_values
sum_values-add_hist t [] = omega arith
sum_values-add_hist t ((k, v) ∷ l) = omega (
  arith,
  sum_values-add_hist (adjust 0 (λ n. n + v) k t) l,
  sum_values-adjust (λ n. n) 0 (λ n. n + v) v k t refl (λ n. refl),
)

module _ (w : ℕ × ℕ → ℕ) (zero_w : w (0, 0) ≡ 0)
    (add_w : (c v : ℕ × ℕ) → w (c.0 + v.0, c.1 + v.1) ≡ w c + w v) where
  sum_values-add_buckets :
      (t l : List (ℕ × (ℕ × ℕ))) → sum_values w (add_buckets t l) ≡ sum_values w t + sum_values w l
  unfolding add_buckets sum_values
  sum_values-add_buckets t [] = omega arith
  sum_values-add_buckets t ((k, v) ∷ l) = omega (
    arith,
    sum_values-add_buckets (adjust (0, 0) (λ c. (c.0 + v.0, c.1 + v.1)) k t) l,
    sum_values-adjust w (0, 0) (λ c. (c.0 + v.0, c.1 + v.1)) (w v) k t zero_w (λ c. add_w c v),
  )

pub add_local-IsBalanced :
    (l t : DeadLocal) → IsBalanced l → IsBalanced t → IsBalanced (add_local l t)
unfolding add_local
add_local-IsBalanced l t hl ht = omega (
  arith,
  hl,
  ht,
  sum_values-add_hist t.age_hist l.age_hist,
  sum_values-add_buckets (λ c. c.0) refl (λ c v. refl) t.buckets l.buckets,
  sum_values-add_buckets (λ c. c.1) refl (λ c v. refl) t.buckets l.buckets,
)

-- The tracker's counts for a topic; no entry counts as zeros.
pub local_of : List (ℕ × DeadLocal) → ℕ → DeadLocal
local_of m t = find_or (new_local t) t m

local_of-merge :
    (l : DeadLocal) (t : ℕ) (m : List (ℕ × DeadLocal))
    → local_of (adjust (new_local l.topic) (add_local l) l.topic m) t
      ≡ (if l.topic == t then add_local l (local_of m t) else local_of m t)
unfolding local_of find_or adjust
local_of-merge l t [] = ground arith
local_of-merge l t ((k, v) ∷ m) = ground (arith, local_of-merge l t m)

-- the searchers that have ended, in the order in which they took the lock
pub merge_all : Tracker → List DeadLocal → Tracker
merge_all d [] = d
merge_all d (l ∷ ls) = merge_all (merge d l) ls

-- a count of the searchers of one topic, added up
pub sum_topic : (DeadLocal → ℕ) → ℕ → List DeadLocal → ℕ
sum_topic f t [] = 0
sum_topic f t (l ∷ ls) = (if l.topic == t then f l else 0) + sum_topic f t ls

abbrev pub AllBalanced : List DeadLocal → Type 0
AllBalanced [] = Unit
AllBalanced (l ∷ ls) = IsBalanced l × AllBalanced ls

-- What is known of a topic's counts in a tracker.
record IsTotal (d : Tracker) (t returned dead : ℕ) : Type 0 where
  returned_total : (local_of d.topics t).returned ≡ returned
  dead_total : (local_of d.topics t).dead ≡ dead
  balanced : IsBalanced (local_of d.topics t)

merge-IsTotal :
    (d : Tracker) (l : DeadLocal) (t returned dead : ℕ)
    → IsBalanced l
    → IsTotal d t returned dead
    → IsTotal
        (merge d l)
        t
        (returned + (if l.topic == t then l.returned else 0))
        (dead + (if l.topic == t then l.dead else 0))
unfolding merge
merge-IsTotal d l t returned dead hl h = elim (Bool-cases (l.topic == t)) [
  | inl same ↦
      let e = local_of-merge l t d.topics in
      record {
        returned_total = rw (e, same) (unfold add_local in omega (arith, h.returned_total));
        dead_total = rw (e, same) (unfold add_local in omega (arith, h.dead_total));
        balanced = rw (e, same) (add_local-IsBalanced l (local_of d.topics t) hl h.balanced);
      }
  | inr other ↦
      let e = local_of-merge l t d.topics in
      record {
        returned_total = rw (e, other) (omega (arith, h.returned_total));
        dead_total = rw (e, other) (omega (arith, h.dead_total));
        balanced = rw (e, other) h.balanced;
      }
]

merge_all-IsTotal :
    (d : Tracker) (ls : List DeadLocal) (t returned dead : ℕ)
    → AllBalanced ls
    → IsTotal d t returned dead
    → IsTotal
        (merge_all d ls)
        t
        (returned + sum_topic (λ l. l.returned) t ls)
        (dead + sum_topic (λ l. l.dead) t ls)
unfolding merge_all sum_topic
merge_all-IsTotal d [] t returned dead hs h = record {
  returned_total = omega (arith, h.returned_total);
  dead_total = omega (arith, h.dead_total);
  balanced = h.balanced;
}
merge_all-IsTotal d (l ∷ ls) t returned dead hs h =
    let ih =
      merge_all-IsTotal (merge d l) ls t (returned + (if l.topic == t then l.returned else 0))
        (dead + (if l.topic == t then l.dead else 0)) hs.1
        (merge-IsTotal d l t returned dead hs.0 h) in
    record {
      returned_total = omega (arith, ih.returned_total);
      dead_total = omega (arith, ih.dead_total);
      balanced = ih.balanced;
    }

fresh : (now ad_lifetime t : ℕ) → IsTotal (new_tracker now ad_lifetime) t 0 0
unfolding new_tracker local_of find_or
fresh now ad_lifetime t = record {
  returned_total = unfold new_local in refl;
  dead_total = unfold new_local in refl;
  balanced = new_local-IsBalanced t;
}

-- In whatever order searchers in balance are merged into a fresh tracker, each topic ends with the
-- sum of its searchers' results and dead results, and its buckets and its age histogram hold
-- exactly those.
pub merge_all-totals :
    (now ad_lifetime : ℕ) (ls : List DeadLocal) (t : ℕ)
    → AllBalanced ls
    → let l = local_of (merge_all (new_tracker now ad_lifetime) ls).topics t in
      (l.returned ≡ sum_topic (λ k. k.returned) t ls)
      × (l.dead ≡ sum_topic (λ k. k.dead) t ls)
      × (sum_values (λ c. c.0) l.buckets ≡ l.returned)
      × (sum_values (λ c. c.1) l.buckets ≡ l.dead)
      × (sum_values (λ n. n) l.age_hist ≡ l.dead)
merge_all-totals now ad_lifetime ls t hs =
    let h = merge_all-IsTotal (new_tracker now ad_lifetime) ls t 0 0 hs (fresh now ad_lifetime t) in
    (
      omega (arith, h.returned_total),
      omega (arith, h.dead_total),
      h.balanced.returned_in_buckets,
      h.balanced.dead_in_buckets,
      h.balanced.dead_in_hist,
    )
