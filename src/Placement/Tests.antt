-- ===== src/Placement/Tests.antt =====
-- Three /24s on two machines.
use topdisc_testbed.Base.{ℕ, ◌≡◌, ◌≢◌, ◌<◌, refl, true, List, [], ◌∷◌, arith, has, get_or, length}
use topdisc_testbed.Placement.{Placing, nowhere, put, put_all, roomiest, ok, err, place_by_prefix}
use topdisc_testbed.Placement.ByPrefix.{has_any, same_group, AllDisjoint, place_by_prefix_sound}

abbrev caps : List ℕ
caps = 2 ∷ 3 ∷ []

abbrev groups : List (ℕ × List ℕ)
groups = (7, (3 ∷ [])) ∷ (9, (0 ∷ 2 ∷ [])) ∷ (8, (1 ∷ 4 ∷ [])) ∷ []

-- The larger /24s first, 8 before 9: machine 1, machine 0, and node 3 beside 1 and 4.
abbrev placing : Placing
placing = put (put_all (put_all nowhere 1 (1 ∷ 4 ∷ [])) 0 (0 ∷ 2 ∷ [])) 1 3

program : Unit {0}
unfolding place_by_prefix put_all put roomiest
program = tt

place_by_prefix-groups : place_by_prefix caps groups ≡ ok placing
unfolding program
place_by_prefix-groups = refl

-- No machine holds four nodes of one /24.
too_large : place_by_prefix caps ((7, (0 ∷ 1 ∷ 2 ∷ 3 ∷ [])) ∷ []) ≡ err 7 4
unfolding program
too_large = refl

place_by_prefix_sound_example :
    ((i j : ℕ) → same_group groups i j ≡ true → placing.host_of i ≡ placing.host_of j)
    × ((i : ℕ) → has_any groups i ≡ true → placing.host_of i < length caps)
    × ((i : ℕ) → has_any groups i ≡ true → placing.local i < get_or caps (placing.host_of i) 0)
    × ((i j : ℕ)
        → has_any groups i ≡ true
        → has_any groups j ≡ true
        → i ≢ j
        → placing.host_of i ≡ placing.host_of j
        → placing.local i ≢ placing.local j)
unfolding has has_any
place_by_prefix_sound_example = place_by_prefix_sound caps groups disjoint place_by_prefix-groups
  where
    disjoint : AllDisjoint groups
    disjoint = (
      (refl, tt),
      λ i e. ground arith,
      ((refl, (refl, tt)), λ i e. ground arith, ((refl, (refl, tt)), λ i e. refl, tt)),
    )
