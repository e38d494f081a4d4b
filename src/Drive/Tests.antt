-- ===== src/Drive/Tests.antt =====
-- Two nodes over 100 s: one arrives and leaves for good, one is away for 10 s.
use topdisc_testbed.Base.{ℕ, ◌+◌, ◌*◌, ◌≡◌, Bool, true, false, List, [], ◌∷◌, refl, min, ltb}
use topdisc_testbed.Drive.{
  Event, kill, start, Call, churn_fail_shown, new_churn_log, record_all, calls, planned,
}
use topdisc_testbed.Drive.Counts.{
  merge_nil, merge_left, merge_right, Interleaved, no_node, one_more, called, calls_of,
  record_all-planned,
}

program : Unit {0}
unfolding planned record_all new_churn_log calls
program = tt

abbrev positive : ℕ → Bool
positive x = ltb 0 x

abbrev nanoseconds : ℕ → ℕ
nanoseconds x = x * 1000000000

abbrev nodes : List (ℕ × List (Event ℕ))
nodes =
    (1, record { down_at = 0; up_at = 10 } ∷ record { down_at = 50; up_at = 100 } ∷ [])
    ∷ (2, record { down_at = 20; up_at = 30 } ∷ record { down_at = 100; up_at = 100 } ∷ [])
    ∷ []

two_and_two : planned positive nanoseconds 1000000000 101000000000 nodes ≡ (2, 2)
unfolding program
two_and_two = refl

-- The return of node 2 fails.
abbrev made : List (Call × Bool)
made =
    (record { op = start; idx = 1; at = 11000000000 }, true)
    ∷ (record { op = kill; idx = 2; at = 21000000000 }, true)
    ∷ (record { op = start; idx = 2; at = 31000000000 }, false)
    ∷ (record { op = kill; idx = 1; at = 51000000000 }, true)
    ∷ []

made-Interleaved :
    Interleaved (calls_of positive nanoseconds 1000000000 101000000000 nodes) (called made)
unfolding program
made-Interleaved =
    one_more (one_more no_node (merge_left (merge_left merge_nil)))
      (merge_left (merge_right (merge_right (merge_left merge_nil))))

record_all-planned_example :
    let c = record_all new_churn_log made in
    let p = planned positive nanoseconds 1000000000 101000000000 nodes in
    (c.departs + c.kill_failed ≡ p.0)
    × (c.rejoins + c.start_failed ≡ p.1)
    × (c.printed ≡ min (c.kill_failed + c.start_failed) (churn_fail_shown + 1))
record_all-planned_example =
    record_all-planned positive nanoseconds 1000000000 101000000000 nodes made made-Interleaved
