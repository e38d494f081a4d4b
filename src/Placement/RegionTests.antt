-- ===== src/Placement/RegionTests.antt =====
-- Three nodes on the machines of two regions.
use topdisc_testbed.Base.{
  ℕ, ◌≡◌, Option, none, some, List, [], ◌∷◌, refl, has, find, find_or, adjust, keys,
}
use topdisc_testbed.Placement.Regions.{
  Host, Placed, placed, failed, panicked, no_free_instance, too_few_instances, add_slots,
  free_slots, region_order, take_slot, take, or_fail, place_pinned, home_first, skip_if_empty,
  advance, take_next, place_rest, pinned_below, pin_first, pinned_nodes, place_unpinned, place_with,
  place,
}

abbrev hosts : List Host
hosts = record { region = 1; nodes = 2 } ∷ record { region = 2; nodes = 1 } ∷ []

abbrev pins : List (ℕ × ℕ)
pins = (1, 1) ∷ (9, 1) ∷ []

-- The machine and the slot of a node.
abbrev slot_of : Placed → ℕ → Option (ℕ × ℕ)
slot_of (placed p) i = some (p.host_of i, p.local i)
slot_of (failed e) i = none
slot_of panicked i = none

program : Unit {0}
unfolding has find find_or adjust keys add_slots free_slots region_order take_slot take or_fail
    place_pinned home_first skip_if_empty advance take_next place_rest pinned_below pin_first
    pinned_nodes place_unpinned place_with place
program = tt

place_home : slot_of (place 3 hosts 2 pins (λ m. m)) 0 ≡ some (1, 0)
unfolding program
place_home = refl

place_pinned_node : slot_of (place 3 hosts 2 pins (λ m. m)) 1 ≡ some (0, 0)
unfolding program
place_pinned_node = refl

place_other : slot_of (place 3 hosts 2 pins (λ m. m)) 2 ≡ some (0, 1)
unfolding program
place_other = refl

place_too_few : place 4 hosts 2 pins (λ m. m) ≡ failed too_few_instances
unfolding program
place_too_few = refl

place_full_region : place 3 hosts 2 ((1, 2) ∷ (0, 2) ∷ []) (λ m. m) ≡ failed (no_free_instance 0 2)
unfolding program
place_full_region = refl

place_nobody : place 0 hosts 2 pins (λ m. m) ≡ panicked
unfolding program
place_nobody = refl
