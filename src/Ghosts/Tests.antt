-- ===== src/Ghosts/Tests.antt =====
-- A pool of eight ghosts, alternately at distances 256 and 255, and a layout of five.
use native.Mathlib.Nat.{mod-lt}
use topdisc_testbed.Base.{ℕ, ◌+◌, ◌%◌, ◌≡◌, [], ◌∷◌, arith, refl, ◌==◌, sum_below, if◌then◌else◌}
use topdisc_testbed.Assign.Starts.{InRange}
use topdisc_testbed.Ghosts.{bucket_count, sample_ghost_layout, assign_ghosts}
use topdisc_testbed.Ghosts.Fill.{Filled, assign_ghosts-Filled}

program : Unit {0}
unfolding assign_ghosts sample_ghost_layout sum_below
program = tt

abbrev intn : ℕ → ℕ → ℕ
intn t b = (t + 1) % b

intn-InRange : InRange intn
intn-InRange k b h = omega (arith, mod-lt (k + 1) {m = b})

abbrev dist : ℕ → ℕ
dist j = if j % 2 == 0 then 256 else 255

abbrev layout : ℕ → ℕ
layout k = if k == 16 then 5 else (if k == 15 then 2 else 0)

-- Four of the five at distance 256 are there.
five_and_two :
    assign_ghosts (λ k. intn) dist 8 layout
    ≡ record { ghosts = 3 ∷ 7 ∷ 2 ∷ 6 ∷ 0 ∷ 4 ∷ []; unplaced = 1 }
unfolding program
five_and_two = refl

assign_ghosts-Filled_example :
    Filled dist 8 layout bucket_count (assign_ghosts (λ k. intn) dist 8 layout)
assign_ghosts-Filled_example = assign_ghosts-Filled dist (λ k. intn) 8 layout (λ k. intn-InRange)
