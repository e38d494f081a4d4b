-- ===== src/Trace/Tests.antt =====
-- A node that was restarted once.
use topdisc_testbed.Base.{
  ℕ, ◌≡◌, Option, none, some, [], ◌∷◌, arith, refl, pos, negsuc, ◌+ℤ◌, ◌-ℤ◌, find_or, adjust, keys,
  has,
}
use topdisc_testbed.Trace.{
  Wire, amount, TraceSample, Trace, Merged, add_names, add_counters, plus_counters, carry,
  earliest_capable, moved_by, moved_back, merge_conn, merge_one, merge_all, merge_traces, drops_of,
}
use topdisc_testbed.Trace.Totals.{
  counted_by, dropped_by, listed_by, found_at, found_by, merge_traces-totals,
}
use topdisc_testbed.Trace.Series.{readings, Climbs, merge_traces-Climbs}

-- Type 1 has the counter 0, type 2 too if it is not none.
abbrev counters : ℕ → Option ℕ → Wire
counters n more = (1, λ _. some n) ∷ (2, λ _. more) ∷ []

abbrev sample : ℕ → Option ℕ → TraceSample
sample n more = record { wire = counters n more; rest = 0 }

abbrev first_run : Trace
first_run = record {
  session = some 0;
  lists = λ _. 7 ∷ [];
  samples = sample 3 (some 1) ∷ sample 8 (some 2) ∷ [];
  wire = counters 9 (some 2);
  peer_drops = some 1;
  first_capable_ms = some (pos 40);
  conn =
      some
        (record { start_ms = pos 100; found = record { id = 5; at_ms = pos 10 } ∷ []; rest = 0 });
  rest = 0;
}

abbrev second_run : Trace
second_run = record {
  session = some 1;
  lists = λ _. 8 ∷ [];
  samples = sample 2 none ∷ sample 4 (some 1) ∷ [];
  wire = counters 5 (some 1);
  peer_drops = some 2;
  first_capable_ms = some (negsuc 0);
  conn =
      some
        (record { start_ms = pos 300; found = record { id = 6; at_ms = pos 20 } ∷ []; rest = 0 });
  rest = 0;
}

abbrev both : Merged
both = merge_traces (first_run ∷ []) second_run

-- The first sample after the restart does not have the counter of type 2, and loses its total.
both_lem :
    (readings 1 0 both.samples ≡ 3 ∷ 8 ∷ 11 ∷ 13 ∷ [])
    × (readings 2 0 both.samples ≡ 1 ∷ 2 ∷ 0 ∷ 3 ∷ [])
    × (both.first_capable_ms ≡ some (pos 40))
unfolding merge_traces merge_all merge_one merge_conn carry plus_counters add_counters add_names
    earliest_capable moved_by moved_back find_or adjust ◌+ℤ◌ ◌-ℤ◌
both_lem = (refl, refl, refl)

merge_traces-totals_example :
    ((typ name : ℕ) → amount both.wire typ name ≡ counted_by (first_run ∷ second_run ∷ []) typ name)
    × (both.peer_drops ≡ drops_of (dropped_by (first_run ∷ second_run ∷ [])) (some 2))
    × ((key : ℕ) → both.lists key ≡ listed_by key (first_run ∷ second_run ∷ []))
    × (found_at both.conn ≡ found_by (first_run ∷ second_run ∷ []))
unfolding keys has
merge_traces-totals_example =
    merge_traces-totals (first_run ∷ []) second_run ((refl, (refl, tt)), ((refl, (refl, tt)), tt))

merge_traces-Climbs_example :
    Climbs 1 0 0 (counted_by (first_run ∷ second_run ∷ []) 1 0) (readings 1 0 both.samples)
unfolding keys has find_or
merge_traces-Climbs_example =
    merge_traces-Climbs 1 0 (first_run ∷ []) second_run
      ((refl, (refl, tt)), ((refl, (refl, tt)), tt))
      ((refl, (refl, tt)), omega arith, ((refl, (refl, tt)), omega arith, tt))
