-- ===== src/Fleet/Tests.antt =====
-- Fleets of a few nodes, with float64 in thousandths.
use topdisc_testbed.Base.{
  ℕ, ◌≡◌, ◌+◌, ◌*◌, ◌/◌, ◌%◌, ltb, List, [], ◌∷◌, arith, refl, find_or, adjust, has, find, keys,
}
use topdisc_testbed.Fleet.{
  Float64, count_pinned, total_weight, whole_parts, given_whole, remainders, best_from, best_of,
  hand_out, by_weight, fleet,
}
use topdisc_testbed.Fleet.Totals.{instances, fleet-instances}
use topdisc_testbed.Placement.Regions.{
  failed, no_free_instance, add_slots, free_slots, region_order, take_slot, take, or_fail,
  place_pinned, home_first, pinned_below, pin_first, pinned_nodes, place_with, place,
}

-- A remainder is one more than its thousandths, so that -1 is 0.
abbrev thousandths : Float64
thousandths = record {
  Float = ℕ;
  zero_float = 0;
  minus_one = 0;
  add = λ x y. x + y;
  share = λ n w total. n * w * 1000 / total;
  trunc = λ x. x / 1000;
  frac = λ x. x % 1000 + 1;
  gt = λ x y. ltb y x;
}

program : Unit {0}
unfolding count_pinned total_weight whole_parts given_whole remainders best_from best_of hand_out
    by_weight fleet find_or adjust
program = tt

fleet-instances_example :
    instances (fleet thousandths 5 1 ((4, 2) ∷ []) ((1, 1) ∷ (2, 1) ∷ (3, 2) ∷ [])) ≡ 5
unfolding given_whole total_weight
fleet-instances_example =
    fleet-instances thousandths 5 1 ((4, 2) ∷ []) ((1, 1) ∷ (2, 1) ∷ (3, 2) ∷ []) (λ n. omega arith)

-- The largest remainder, that of the last region, takes the node that the whole parts leave.
fleet_by_weight :
    fleet thousandths 3 1 [] ((1, 2) ∷ (2, 2) ∷ (3, 1) ∷ []) ≡ (1, 1) ∷ (2, 1) ∷ (3, 1) ∷ []
unfolding program
fleet_by_weight = refl

abbrev pins : List (ℕ × ℕ)
pins = (0, 1) ∷ (1, 1) ∷ (2, 2) ∷ []

-- All three nodes are pinned, and the third one's region gets no instance.
fleet_pin_lost : fleet thousandths 3 1 pins [] ≡ (1, 3) ∷ []
unfolding program
fleet_pin_lost = refl

-- So the placement on that fleet fails.
place_on_fleet :
    place 3 (record { region = 1; nodes = 3 } ∷ []) 1 pins (λ m. m) ≡ failed (no_free_instance 2 2)
unfolding has find find_or adjust keys add_slots free_slots region_order take_slot take or_fail
    place_pinned home_first pinned_below pin_first pinned_nodes place_with place
place_on_fleet = refl
