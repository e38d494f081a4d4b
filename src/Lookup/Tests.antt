-- ===== src/Lookup/Tests.antt =====
-- A search for two registrants, the even nodes, among five arrivals.
use topdisc_testbed.Base.{◌%◌, ◌≡◌, true, false, List, [], ◌∷◌, refl, ◌==◌, length, inl, has}
use topdisc_testbed.Lookup.{
  waited, Arrival, arrives, exhausted, halted, Query, run_one, Planned, scheduled,
}
use topdisc_testbed.Lookup.Search.{Sound, run_one-Sound}

program : Unit {0}
unfolding run_one scheduled has
program = tt

abbrev evens : Query
evens = record { is_registrant = λ id. id % 2 == 0; target = 2; initial = 0; interval = 0 }

abbrev five : List Arrival
five =
    arrives 4 10 waited
    ∷ arrives 3 20 waited
    ∷ arrives 4 30 waited
    ∷ arrives 8 40 waited
    ∷ arrives 6 50 waited
    ∷ []

-- The fourth arrival reaches the target.
found_two : run_one evens five ≡ record {
  results = 2;
  found = record { id = 4; at_ms = 10 } ∷ record { id = 8; at_ms = 40 } ∷ [];
  hit_target = true;
  stopped = false;
}
unfolding program
found_two = refl

run_one-Sound_example : Sound evens (run_one evens five)
run_one-Sound_example = run_one-Sound evens five (inl refl)

abbrev plan : List Planned
plan =
    record { at = 5; begins = true; arrivals = five }
    ∷ record { at = 60; begins = true; arrivals = exhausted ∷ [] }
    ∷ record { at = 90; begins = true; arrivals = halted ∷ [] }
    ∷ []

two_recorded : length (scheduled evens 100 plan) ≡ 2
unfolding program
two_recorded = refl
