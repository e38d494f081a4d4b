-- ===== src/DeadResult.antt =====
-- cmd/simnet/deadresult.go: how often searches return registrants that are offline, and for how
-- long they had been. Times are nanoseconds; a result is recorded at or after the start of the
-- series. A `sync.Map` from node ids to times is a function.
pub mod Totals
pub mod Percentile
mod Tests
use topdisc_testbed.Base.{
  ℕ, zero, suc, ◌+◌, ◌-◌, ◌*◌, ◌/◌, Bool, true, false, Option, none, some, List, [], ◌∷◌,
  if◌then◌else◌, ltb, leb, ◌==◌, update, find, find_or, adjust, keys, sum_values, sort,
}

abbrev pub second : ℕ
second = 1_000_000_000

-- `deadBucket`
abbrev pub dead_bucket : ℕ
dead_bucket = 10 * second

pub record DeadLocal : Type 0 where
  pub topic : ℕ
  pub returned : ℕ
  pub dead : ℕ
  -- dead age in whole seconds, results
  pub age_hist : List (ℕ × ℕ)
  -- time bucket since the start, (returned, dead)
  pub buckets : List (ℕ × (ℕ × ℕ))

pub record Tracker : Type 0 where
  pub start : ℕ
  pub ad_lifetime : ℕ
  pub offline_at : ℕ → Option ℕ
  pub topics : List (ℕ × DeadLocal)

-- A lifetime of zero stands for 15 minutes; the scenario's is not negative.
pub new_tracker : ℕ → ℕ → Tracker
new_tracker now ad_lifetime = record {
  start = now;
  ad_lifetime = if ad_lifetime == 0 then 15 * 60 * second else ad_lifetime;
  offline_at = λ _. none;
  topics = [];
}

pub begin : Tracker → ℕ → Tracker
begin d now = record d { start = now }

pub mark_offline : Tracker → ℕ → ℕ → Tracker
mark_offline d id t = record d { offline_at = update d.offline_at id (some t) }

pub mark_online : Tracker → ℕ → Tracker
mark_online d id = record d { offline_at = update d.offline_at id none }

-- How long `id` had been offline at time `at`, if it was.
age_from : Option ℕ → ℕ → Option ℕ
age_from none at = none
age_from (some t) at = if ltb at t then none else some (at - t)

pub dead_age : Tracker → ℕ → ℕ → Option ℕ
unfolding age_from
dead_age d id at = age_from (d.offline_at id) at

-- A searcher's counts before its first result. The maps are made at the first.
pub new_local : ℕ → DeadLocal
new_local topic = record { topic = topic; returned = 0; dead = 0; age_hist = []; buckets = [] }

-- one result returned, and whether it was dead
abbrev pub count_live : ℕ × ℕ → ℕ × ℕ
count_live (r, d) = (r + 1, d)

abbrev pub count_dead : ℕ × ℕ → ℕ × ℕ
count_dead (r, d) = (r + 1, d + 1)

record_aged : DeadLocal → ℕ → Option ℕ → DeadLocal
record_aged l b none = record l {
  returned = l.returned + 1;
  buckets = adjust (0, 0) count_live b l.buckets;
}
record_aged l b (some age) = record l {
  returned = l.returned + 1;
  dead = l.dead + 1;
  age_hist = adjust 0 (λ n. n + 1) (age / second) l.age_hist;
  buckets = adjust (0, 0) count_dead b l.buckets;
}

pub record_result : DeadLocal → Tracker → ℕ → ℕ → DeadLocal
unfolding record_aged
record_result l d id at = record_aged l ((at - d.start) / dead_bucket) (dead_age d id at)

-- The two loops of `merge`: every entry of one map added to the other.
pub add_hist : List (ℕ × ℕ) → List (ℕ × ℕ) → List (ℕ × ℕ)
add_hist t [] = t
add_hist t ((k, v) ∷ l) = add_hist (adjust 0 (λ n. n + v) k t) l

pub add_buckets : List (ℕ × (ℕ × ℕ)) → List (ℕ × (ℕ × ℕ)) → List (ℕ × (ℕ × ℕ))
add_buckets t [] = t
add_buckets t ((k, v) ∷ l) = add_buckets (adjust (0, 0) (λ c. (c.0 + v.0, c.1 + v.1)) k t) l

pub add_local : DeadLocal → DeadLocal → DeadLocal
unfolding add_hist add_buckets
add_local l t = record t {
  returned = t.returned + l.returned;
  dead = t.dead + l.dead;
  age_hist = add_hist t.age_hist l.age_hist;
  buckets = add_buckets t.buckets l.buckets;
}

pub merge : Tracker → DeadLocal → Tracker
unfolding add_local new_local
merge d l = record d { topics = adjust (new_local l.topic) (add_local l) l.topic d.topics }

-- The loop over the sorted keys; `last` is the key passed before, `keys[len(keys)-1]` at the end.
scan : (ℕ → ℕ) → ℕ → ℕ → ℕ → List ℕ → ℕ
scan h need seen last [] = last
scan h need seen last (k ∷ ks) =
    let rest = scan h need (seen + h k) k ks in if leb need (seen + h k) then k else rest

-- `histPercentile`: p is the percentile, 0 to 100.
pub hist_percentile : List (ℕ × ℕ) → ℕ → ℕ
unfolding scan
hist_percentile h p =
    let total = sum_values (λ n. n) h in
    let found = scan (λ k. find_or 0 k h) ((p * total + 99) / 100) 0 0 (sort (keys h)) in
    if total == 0 then 0 else found
