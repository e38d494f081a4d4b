-- ===== src/Drops/Tests.antt =====
-- A counter that is reset between the samples.
use topdisc_testbed.Base.{ℕ, ◌+◌, ◌≡◌, ◌≤◌, Bool, true, false, List, [], ◌∷◌, refl}
use topdisc_testbed.Drops.{increase, covered}
use topdisc_testbed.Drops.Rises.{Passage, counts, resets, Falls, increase-counted}

-- 5, 9, one that measured nothing, and 3 after a reset.
abbrev samples : List (Bool × ℕ)
samples = (true, 5) ∷ (true, 9) ∷ (false, 0) ∷ (true, 3) ∷ []

-- 2 of them were counted after the second reading and before the reset.
abbrev history : List Passage
history = counts 4 ∷ resets 2 3 ∷ []

increase-counted_example : (increase samples + 2 ≤ 9) × (Falls 5 history → increase samples + 2 ≡ 9)
increase-counted_example = increase-counted samples 5 history refl

covered_samples : covered (true ∷ true ∷ false ∷ true ∷ []) ≡ true
unfolding covered
covered_samples = refl
