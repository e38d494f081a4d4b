-- ===== src/Drive.antt =====
-- pkg/coordinator/drive.go: the churn calls that a run makes, and their counts; the counts planned
-- are those of pkg/coordinator/collect.go. `F` is float64 seconds. Times are in nanoseconds.
pub mod Counts
mod Tests
pub use topdisc_testbed.Churn.Schedule.{Event}
use topdisc_testbed.Base.{ℕ, ◌+◌, Bool, true, false, List, [], ◌∷◌, ◌++◌, if◌then◌else◌, leb, ◌==◌}

pub data Op : Type 0 where
  kill : Op
  start : Op

pub record Call : Type 0 where
  pub op : Op
  pub idx : ℕ
  pub at : ℕ

abbrev pub churn_fail_shown : ℕ
churn_fail_shown = 20

-- `printed` counts the lines written.
pub record ChurnLog : Type 0 where
  pub departs : ℕ
  pub rejoins : ℕ
  pub kill_failed : ℕ
  pub start_failed : ℕ
  pub printed : ℕ

pub new_churn_log : ChurnLog
new_churn_log = record { departs = 0; rejoins = 0; kill_failed = 0; start_failed = 0; printed = 0 }

-- The lines for the failure just counted.
pub report : ChurnLog → ChurnLog
report c =
    let n = c.kill_failed + c.start_failed in
    if leb n churn_fail_shown
    then record c { printed = c.printed + 1 }
    else if n == churn_fail_shown + 1
    then record c { printed = c.printed + 1 }
    else c

pub record_call : ChurnLog → Op → Bool → ChurnLog
unfolding report
record_call c kill true = record c { departs = c.departs + 1 }
record_call c start true = record c { rejoins = c.rejoins + 1 }
record_call c kill false = report (record c { kill_failed = c.kill_failed + 1 })
record_call c start false = report (record c { start_failed = c.start_failed + 1 })

-- The calls in the order in which they are counted, each with whether it succeeded.
pub record_all : ChurnLog → List (Call × Bool) → ChurnLog
unfolding record_call
record_all c [] = c
record_all c ((call, ok) ∷ rest) = record_all (record_call c call.op ok) rest

-- `positive x` is `x > 0`, `nanoseconds x` is `time.Duration(x * float64(time.Second))`.
module _ {F : Type 0} (positive : F → Bool) (nanoseconds : F → ℕ) (search_at stop_at : ℕ) where
  pub churn_time : F → ℕ
  churn_time x = search_at + nanoseconds x

  -- The goroutine of one node.
  pub calls : ℕ → List (Event F) → List Call
  unfolding churn_time
  calls idx [] = []
  calls idx (ev ∷ evs) =
      let rest = calls idx evs in
      let down = churn_time ev.down_at in
      let up = churn_time ev.up_at in
      let departs =
        if positive ev.down_at then record { op = kill; idx = idx; at = down } ∷ [] else [] in
      if leb stop_at down
      then []
      else if leb stop_at up
      then departs
      else (departs ++ (record { op = start; idx = idx; at = up } ∷ rest))

  -- The inner loop of `planned`, from the counts so far.
  pub planned_node : ℕ → ℕ → List (Event F) → ℕ × ℕ
  unfolding churn_time
  planned_node departs rejoins [] = (departs, rejoins)
  planned_node departs rejoins (ev ∷ evs) =
      let departs' = if positive ev.down_at then departs + 1 else departs in
      let rest = planned_node departs' (rejoins + 1) evs in
      if leb stop_at (churn_time ev.down_at)
      then (departs, rejoins)
      else if leb stop_at (churn_time ev.up_at)
      then (departs', rejoins)
      else rest

  pub planned_from : ℕ × ℕ → List (ℕ × List (Event F)) → ℕ × ℕ
  unfolding planned_node
  planned_from counts [] = counts
  planned_from counts ((idx, evs) ∷ as_) = planned_from (planned_node counts.0 counts.1 evs) as_

  pub planned : List (ℕ × List (Event F)) → ℕ × ℕ
  unfolding planned_from
  planned assignments = planned_from (0, 0) assignments
