-- ===== src/Drive/Counts.antt =====
-- The calls that are made are as many as planned, in whatever order the nodes' calls interleave.
use topdisc_testbed.Base.{ℕ, ◌+◌, ◌≡◌, Bool, true, false, List, [], ◌∷◌, arith, min}
use topdisc_testbed.Drive.{
  Event, Op, kill, start, Call, churn_fail_shown, ChurnLog, new_churn_log, report, record_call,
  record_all, calls, planned_node, planned_from, planned,
}

-- The calls of one node among those of the others, in its own order.
pub data Merge : List Call → List Call → List Call → Type 0 where
  merge_nil : Merge [] [] []
  merge_left : {c : Call} {xs ys zs : List Call} → Merge xs ys zs → Merge (c ∷ xs) ys (c ∷ zs)
  merge_right : {c : Call} {xs ys zs : List Call} → Merge xs ys zs → Merge xs (c ∷ ys) (c ∷ zs)

pub data Interleaved : List (List Call) → List Call → Type 0 where
  no_node : Interleaved [] []
  one_more :
      {xs : List Call} {xss : List (List Call)} {ys zs : List Call}
      → Interleaved xss ys
      → Merge xs ys zs
      → Interleaved (xs ∷ xss) zs

abbrev kill_bit : Op → ℕ
kill_bit kill = 1
kill_bit start = 0

abbrev start_bit : Op → ℕ
start_bit kill = 0
start_bit start = 1

abbrev kills : List Call → ℕ
kills [] = 0
kills (c ∷ cs) = kill_bit c.op + kills cs

abbrev starts : List Call → ℕ
starts [] = 0
starts (c ∷ cs) = start_bit c.op + starts cs

abbrev pub called : List (Call × Bool) → List Call
called [] = []
called ((c, ok) ∷ rest) = c ∷ called rest

Merge-kills : {xs ys zs : List Call} → Merge xs ys zs → kills zs ≡ kills xs + kills ys
Merge-kills merge_nil = omega arith
Merge-kills (merge_left m) = omega (arith, Merge-kills m)
Merge-kills (merge_right m) = omega (arith, Merge-kills m)

Merge-starts : {xs ys zs : List Call} → Merge xs ys zs → starts zs ≡ starts xs + starts ys
Merge-starts merge_nil = omega arith
Merge-starts (merge_left m) = omega (arith, Merge-starts m)
Merge-starts (merge_right m) = omega (arith, Merge-starts m)

-- The lines printed are those of the failures, up to one past the limit.
abbrev Bounded : ChurnLog → Type 0
Bounded c = c.printed ≡ min (c.kill_failed + c.start_failed) (churn_fail_shown + 1)

record Counted (c : ChurnLog) (cs : List Call) (c' : ChurnLog) : Type 0 where
  all_kills : c'.departs + c'.kill_failed ≡ c.departs + c.kill_failed + kills cs
  all_starts : c'.rejoins + c'.start_failed ≡ c.rejoins + c.start_failed + starts cs
  bounded : Bounded c'

record_call-counts :
    (c : ChurnLog) (o : Op) (ok : Bool)
    → Bounded c
    → let c' = record_call c o ok in
      (c'.departs + c'.kill_failed ≡ c.departs + c.kill_failed + kill_bit o)
      × (c'.rejoins + c'.start_failed ≡ c.rejoins + c.start_failed + start_bit o)
      × Bounded c'
unfolding record_call report
record_call-counts c kill true b = ground (arith, b)
record_call-counts c start true b = ground (arith, b)
record_call-counts c kill false b = ground (arith, b)
record_call-counts c start false b = ground (arith, b)

record_all-Counted :
    (c : ChurnLog) (cs : List (Call × Bool)) → Bounded c → Counted c (called cs) (record_all c cs)
unfolding record_all
record_all-Counted c [] b = record {
  all_kills = omega arith;
  all_starts = omega arith;
  bounded = b;
}
record_all-Counted c ((call, ok) ∷ rest) b =
    let s = record_call-counts c call.op ok b in
    let r = record_all-Counted (record_call c call.op ok) rest s.2 in
    record {
      all_kills = omega (arith, r.all_kills, s.0);
      all_starts = omega (arith, r.all_starts, s.1);
      bounded = r.bounded;
    }

module _ {F : Type 0} (positive : F → Bool) (nanoseconds : F → ℕ) (search_at stop_at : ℕ) where
  node-counts :
      (idx d r : ℕ) (evs : List (Event F))
      → let p = planned_node positive nanoseconds search_at stop_at d r evs in
        let cs = calls positive nanoseconds search_at stop_at idx evs in
        (p.0 ≡ d + kills cs) × (p.1 ≡ r + starts cs)
  unfolding planned_node calls
  node-counts idx d r [] = (omega arith, omega arith)
  node-counts idx d r (ev ∷ evs) =
      ground (arith, node-counts idx d (r + 1) evs, node-counts idx (d + 1) (r + 1) evs)

  -- The calls of every node.
  abbrev pub calls_of : List (ℕ × List (Event F)) → List (List Call)
  calls_of [] = []
  calls_of ((idx, evs) ∷ as_) = calls positive nanoseconds search_at stop_at idx evs ∷ calls_of as_

  all-counts :
      (d r : ℕ) (as_ : List (ℕ × List (Event F))) (cs : List Call)
      → Interleaved (calls_of as_) cs
      → let p = planned_from positive nanoseconds search_at stop_at (d, r) as_ in
        (p.0 ≡ d + kills cs) × (p.1 ≡ r + starts cs)
  unfolding planned_from
  all-counts d r [] _ no_node = (omega arith, omega arith)
  all-counts d r ((idx, evs) ∷ as_) cs (one_more {ys = ys} i m) =
      let p = planned_node positive nanoseconds search_at stop_at d r evs in
      let n = node-counts idx d r evs in
      let rest = all-counts p.0 p.1 as_ ys i in
      (omega (arith, n.0, rest.0, Merge-kills m), omega (arith, n.1, rest.1, Merge-starts m))

-- In whatever order the nodes' churn calls interleave and whichever of them fail, the log counts as
-- many departures and returns, failed ones included, as planned, and has printed one line for each
-- failure up to 21 lines.
pub record_all-planned :
    {F : Type 0} (positive : F → Bool) (nanoseconds : F → ℕ) (search_at stop_at : ℕ)
    (assignments : List (ℕ × List (Event F))) (cs : List (Call × Bool))
    → Interleaved (calls_of positive nanoseconds search_at stop_at assignments) (called cs)
    → let c = record_all new_churn_log cs in
      let p = planned positive nanoseconds search_at stop_at assignments in
      (c.departs + c.kill_failed ≡ p.0)
      × (c.rejoins + c.start_failed ≡ p.1)
      × (c.printed ≡ min (c.kill_failed + c.start_failed) (churn_fail_shown + 1))
unfolding planned new_churn_log
record_all-planned positive nanoseconds search_at stop_at assignments cs i =
    let k = all-counts positive nanoseconds search_at stop_at 0 0 assignments (called cs) i in
    let c = record_all-Counted new_churn_log cs (omega arith) in
    (omega (arith, k.0, c.all_kills), omega (arith, k.1, c.all_starts), c.bounded)
