-- ===== src/DeadResult/Tests.antt =====
-- Two searchers of one topic and one of another, and what the tracker makes of them.
use topdisc_testbed.Base.{
  ℕ, ◌+◌, ◌*◌, ◌/◌, ◌≡◌, ◌≤◌, ◌<◌, refl, true, none, some, List, [], ◌∷◌, arith, has, find_or,
  adjust, keys, sum_values, sort, insert_sorted,
}
use topdisc_testbed.DeadResult.{
  DeadLocal, Tracker, second, new_tracker, mark_offline, mark_online, dead_age, age_from, new_local,
  record_result, record_aged, hist_percentile, scan,
}
use topdisc_testbed.DeadResult.Totals.{
  IsBalanced, new_local-IsBalanced, record_result-IsBalanced, local_of, merge_all, sum_topic,
  merge_all-totals,
}
use topdisc_testbed.DeadResult.Percentile.{count_le, hist_percentile_lem}

-- Node 7 went away in second 5.
abbrev tracker : Tracker
tracker = mark_offline (new_tracker 0 0) 7 (5 * second)

program : Unit {0}
unfolding new_tracker mark_offline mark_online dead_age age_from new_local record_result record_aged
    find_or adjust
program = tt

ages :
    (dead_age tracker 7 (8 * second) ≡ some (3 * second))
    × (dead_age tracker 7 (4 * second) ≡ none)
    × (dead_age tracker 8 (8 * second) ≡ none)
    × (dead_age (mark_online tracker 7) 7 (8 * second) ≡ none)
unfolding program
ages = (refl, refl, refl, refl)

-- Node 8 alive, then node 7 dead for 3 s and for 20 s.
abbrev searcher : DeadLocal
searcher =
    record_result
      (record_result (record_result (new_local 1) tracker 8 (6 * second)) tracker 7 (8 * second))
      tracker 7 (25 * second)

searcher_counts :
    (searcher.returned ≡ 3)
    × (searcher.dead ≡ 2)
    × (searcher.age_hist ≡ (3, 1) ∷ (20, 1) ∷ [])
    × (searcher.buckets ≡ (0, (2, 1)) ∷ (2, (1, 1)) ∷ [])
unfolding program
searcher_counts = (refl, refl, refl, refl)

searcher-IsBalanced : IsBalanced searcher
searcher-IsBalanced = record_result-IsBalanced _ tracker 7 (25 * second) (
    record_result-IsBalanced _ tracker 7 (8 * second)
      (record_result-IsBalanced _ tracker 8 (6 * second) (new_local-IsBalanced 1)))

merge_all-totals_example :
    let l =
      local_of (merge_all (new_tracker 0 0) (searcher ∷ new_local 2 ∷ searcher ∷ [])).topics 1 in
    let ls = searcher ∷ new_local 2 ∷ searcher ∷ [] in
    (l.returned ≡ sum_topic (λ k. k.returned) 1 ls)
    × (l.dead ≡ sum_topic (λ k. k.dead) 1 ls)
    × (sum_values (λ c. c.0) l.buckets ≡ l.returned)
    × (sum_values (λ c. c.1) l.buckets ≡ l.dead)
    × (sum_values (λ n. n) l.age_hist ≡ l.dead)
merge_all-totals_example =
    merge_all-totals 0 0 (searcher ∷ new_local 2 ∷ searcher ∷ []) 1
      (searcher-IsBalanced, (new_local-IsBalanced 2, (searcher-IsBalanced, tt)))

-- ages in seconds, out of order
abbrev hist : List (ℕ × ℕ)
hist = (9, 1) ∷ (2, 5) ∷ (4, 4) ∷ []

percentiles :
    (hist_percentile hist 0 ≡ 2)
    × (hist_percentile hist 50 ≡ 2)
    × (hist_percentile hist 90 ≡ 4)
    × (hist_percentile hist 100 ≡ 9)
    × (hist_percentile [] 50 ≡ 0)
unfolding hist_percentile scan find_or keys sum_values sort insert_sorted
percentiles = (refl, refl, refl, refl, refl)

hist_percentile_lem_example :
    let need = (50 * sum_values (λ n. n) hist + 99) / 100 in
    let r = hist_percentile hist 50 in
    (has (keys hist) r ≡ true)
    × (need ≤ count_le hist r)
    × ((k : ℕ) → has (keys hist) k ≡ true → k < r → count_le hist k < need)
unfolding keys has sum_values
hist_percentile_lem_example =
    hist_percentile_lem hist 50 (refl, (refl, (refl, tt))) (omega arith) (omega arith)
