-- ===== src/Drops/Rises.antt =====
-- The rise that is counted, against what the counter counted in truth.
use topdisc_testbed.Base.{
  ℕ, ◌≡◌, ◌+◌, ◌≤◌, ◌<◌, Bool, true, false, some, List, [], ◌∷◌, arith, refl, ap,
}
use topdisc_testbed.Drops.{rise, rise_since, increase_from, increase}

-- The values of the samples that measured the counter.
abbrev pub readings : List (Bool × ℕ) → List ℕ
readings [] = []
readings ((true, x) ∷ hs) = x ∷ readings hs
readings ((false, x) ∷ hs) = readings hs

-- What a counter did between two readings: it counted some, or it counted some, was reset and then
-- counted some more.
pub data Passage : Type 0 where
  counts : ℕ → Passage
  resets : (before after : ℕ) → Passage

abbrev pub values : ℕ → List Passage → List ℕ
values prev [] = []
values prev (counts d ∷ history) = (prev + d) ∷ values (prev + d) history
values prev (resets before after ∷ history) = after ∷ values after history

-- All that it counted, and what of it the resets took.
abbrev pub counted : List Passage → ℕ
counted [] = 0
counted (counts d ∷ history) = d + counted history
counted (resets before after ∷ history) = before + after + counted history

abbrev pub reset_away : List Passage → ℕ
reset_away [] = 0
reset_away (counts d ∷ history) = reset_away history
reset_away (resets before after ∷ history) = before + reset_away history

-- After each reset, the next reading is below the one before.
abbrev pub Falls : ℕ → List Passage → Type 0
Falls prev [] = Unit
Falls prev (counts d ∷ history) = Falls (prev + d) history
Falls prev (resets before after ∷ history) = (after < prev) × Falls after history

rises : ℕ → List ℕ → ℕ
rises prev [] = 0
rises prev (x ∷ xs) = rise prev x + rises x xs

rises-values :
    (prev : ℕ) (history : List Passage)
    → (rises prev (values prev history) + reset_away history ≤ counted history)
      × (Falls prev history
          → rises prev (values prev history) + reset_away history ≡ counted history)
unfolding rises rise
rises-values prev [] = (omega arith, λ f. refl)
rises-values prev (counts d ∷ history) =
    let (le, eq) = rises-values (prev + d) history in
    (ground (arith, le), λ f. ground (arith, eq f))
rises-values prev (resets before after ∷ history) =
    let (le, eq) = rises-values after history in
    (ground (arith, le), λ f. ground (arith, eq f.1, f.0))

increase_from-rises :
    (prev : ℕ) (hs : List (Bool × ℕ)) → increase_from (some prev) hs ≡ rises prev (readings hs)
unfolding increase_from rises rise_since
increase_from-rises prev [] = refl
increase_from-rises prev ((true, x) ∷ hs) = omega (arith, increase_from-rises x hs)
increase_from-rises prev ((false, x) ∷ hs) = increase_from-rises prev hs

rises_all : List ℕ → ℕ
rises_all [] = 0
rises_all (x ∷ xs) = rises x xs

increase-first :
    (hs : List (Bool × ℕ)) (first : ℕ) (rest : List ℕ)
    → readings hs ≡ first ∷ rest
    → increase hs ≡ rises first rest
unfolding increase increase_from rise_since rises_all
increase-first [] first rest e = absurd (ground arith)
increase-first ((true, x) ∷ hs) first rest e =
    omega (arith, increase_from-rises x hs, ap rises_all e)
increase-first ((false, x) ∷ hs) first rest e = increase-first hs first rest e

-- Whatever samples did not measure it, the rise of a counter and what its resets took are together
-- at most what it counted between the first reading and the last, and exactly this if after every
-- reset the next reading is a fall.
pub increase-counted :
    (hs : List (Bool × ℕ)) (first : ℕ) (history : List Passage)
    → readings hs ≡ first ∷ values first history
    → (increase hs + reset_away history ≤ counted history)
      × (Falls first history → increase hs + reset_away history ≡ counted history)
increase-counted hs first history e =
    let r = increase-first hs first (values first history) e in
    let (le, eq) = rises-values first history in (omega (arith, r, le), λ f. omega (arith, r, eq f))
