-- ===== src/Assign/Tests.antt =====
-- Five nodes over a window of 90 s, and four nodes of two topics.
use native.Mathlib.Nat.{mod-lt}
use topdisc_testbed.Base.{
  ℕ, zero, suc, ◌+◌, ◌-◌, ◌*◌, ◌/◌, ◌%◌, ◌≡◌, ◌≤◌, ◌<◌, ◌↔◌, Bool, true, false, List, [], ◌∷◌,
  arith, refl, ltb, has, length, get_or, IsDistinct, sort, insert, insert_sorted, search_first,
  bisect, IsAscending,
}
use topdisc_testbed.Assign.{
  milliseconds, start_offsets, PhaseConfig, phases, bootstrap_picks, legacy_set, zipf_draw,
}
use topdisc_testbed.Assign.Starts.{InRange, get_or_mono, phases_ordered}
use topdisc_testbed.Assign.Bootstrap.{IsPermutation, Picked, bootstrap_picks-Picked}
use topdisc_testbed.Assign.Members.{count_topic, count_topic_if}
use topdisc_testbed.Assign.Legacy.{legacy_set-count}

-- A draw that counts down from the bound.
abbrev draws : ℕ → ℕ → ℕ
draws k b = b - (1 + k * 10000 % b)

draws-InRange : InRange draws
draws-InRange k b h = omega (arith, mod-lt (k * 10000) {m = b})

abbrev ph : PhaseConfig
ph = record {
  start_window = 90000000000;
  bootstrap_wait = 60000000000;
  register_stagger = 0;
  register_wait = 30000000000;
  search_stagger = 1000000000;
  search_timeout = 120000000000;
}

program : Unit {0}
unfolding sort insert insert_sorted has search_first bisect start_offsets phases bootstrap_picks
    legacy_set zipf_draw
program = tt

offsets_of_five : start_offsets draws 5 90000000000 ≡ 0 ∷ 60000 ∷ 70000 ∷ 80000 ∷ 90000 ∷ []
unfolding program
offsets_of_five = refl

phases_ordered_example :
    let p = phases ph 7 5 (start_offsets draws 5 ph.start_window) 3 in
    (7 ≤ p.start_at)
    × (p.start_at + milliseconds ph.bootstrap_wait ≤ p.register_at)
    × (p.register_base ≤ p.register_at)
    × (p.register_at + milliseconds ph.register_wait ≤ p.search_at)
    × ((p.search_at ≤ p.stop_at)
        ↔ (3 * milliseconds ph.search_stagger ≤ milliseconds ph.search_timeout))
    × ((j : ℕ)
        → j < 5
        → (phases ph 7 5 (start_offsets draws 5 ph.start_window) j).stop_at ≡ p.stop_at)
phases_ordered_example = phases_ordered draws ph 7 5 3 draws-InRange (omega arith)

-- The numbers below m, in descending order.
abbrev descending : ℕ → List ℕ
descending zero = []
descending (suc m) = m ∷ descending m

descending-below : (m j : ℕ) → has (descending m) j ≡ true → j < m
unfolding has
descending-below zero j h = ground arith
descending-below (suc m) j h = ground (arith, descending-below m j)

length-descending : (m : ℕ) → length (descending m) ≡ m
length-descending zero = refl
length-descending (suc m) = omega (arith, length-descending m)

descending-IsDistinct : (m : ℕ) → IsDistinct (descending m)
descending-IsDistinct zero = tt
descending-IsDistinct (suc m) = (ground (arith, descending-below m m), descending-IsDistinct m)

descending-IsPermutation : IsPermutation descending
descending-IsPermutation m = (length-descending m, descending-IsDistinct m, descending-below m)

abbrev offsets : List ℕ
offsets = 0 ∷ 10000 ∷ 20000 ∷ 45000 ∷ 50000 ∷ []

-- Nodes 1 and 2 are up for 30 s when node 4 starts.
picks_of_four : bootstrap_picks descending offsets 4 3 ≡ 2 ∷ 1 ∷ []
unfolding program
picks_of_four = refl

offsets-IsAscending : IsAscending offsets
unfolding has
offsets-IsAscending = (
  λ j h. ground arith,
  (λ j h. ground arith, (λ j h. ground arith, (λ j h. ground arith, (λ j h. ground arith, tt)))),
)

offsets_ascend : (i j : ℕ) → i ≤ j → j < 5 → get_or offsets i 0 ≤ get_or offsets j 0
offsets_ascend i j a b = get_or_mono offsets i j offsets-IsAscending a b

bootstrap_picks-Picked_example : Picked offsets 4 3 (bootstrap_picks descending offsets 4 3)
bootstrap_picks-Picked_example =
    bootstrap_picks-Picked descending offsets 5 4 3 descending-IsPermutation offsets_ascend
      (omega arith)

abbrev topics : List ℕ
topics = 6 ∷ 2 ∷ 6 ∷ 6 ∷ 2 ∷ 6 ∷ []

-- Half of each topic: two of the four nodes of topic 6.
abbrev half : ℕ → ℕ
half m = m / 2

legacy_of_six : legacy_set true half (λ _. descending) topics 5 ≡ true
unfolding program
legacy_of_six = refl

legacy_set-count_example :
    (count_topic_if topics 6 (legacy_set true half (λ _. descending) topics)
      ≡ half (count_topic topics 6))
    × ((i : ℕ) → legacy_set false half (λ _. descending) topics i ≡ false)
legacy_set-count_example =
    legacy_set-count half (λ _. descending) topics 6 (λ m. omega arith)
      (λ _. descending-IsPermutation)

-- Shares 20, 50, 90 and 100 of 100, and the draw 60.
abbrev below_sixty : ℕ → Bool
below_sixty k = ltb (get_or (20 ∷ 50 ∷ 90 ∷ 100 ∷ []) k 0) 60

draw_of_sixty : zipf_draw 4 below_sixty ≡ 2
unfolding program
draw_of_sixty = refl
