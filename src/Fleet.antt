-- ===== src/Fleet.antt =====
-- pkg/scenario/scenario.go, `Fleet`: how many instances each region gets. Regions are numbers, a
-- count by region is an association list, and float64 is an interface.
mod Totals
mod Tests
use topdisc_testbed.Base.{
  ℕ, zero, suc, ◌+◌, ◌-◌, Bool, true, false, List, [], ◌∷◌, if◌then◌else◌, ltb, adjust, get_or, set,
}

-- The float64 operations that `Fleet` uses.
pub record Float64 : Type 1 where
  pub Float : Type 0
  pub zero_float : Float
  pub minus_one : Float
  pub add : Float → Float → Float
  pub share : ℕ → Float → Float → Float  -- float64(n) * w / total
  pub trunc : Float → ℕ
  pub frac : Float → Float  -- exact - float64(int(exact))
  pub gt : Float → Float → Bool

-- The loop over the pinned nodes, with the nodes left and the counts.
unfoldable pub count_pinned : ℕ → List (ℕ × ℕ) → List (ℕ × ℕ) → ℕ × List (ℕ × ℕ)
count_pinned n [] out = (n, out)
count_pinned n ((idx, r) ∷ pins) out =
    if ltb idx n
    then count_pinned (n - 1) pins (adjust 0 (λ k. k + 1) r out)
    else count_pinned n pins out

module _ (f : Float64) where
  open f use {Float, zero_float, minus_one, add, share, trunc, frac, gt}

  unfoldable pub total_weight : List (ℕ × Float) → Float
  total_weight [] = zero_float
  total_weight ((k, v) ∷ w) = add v (total_weight w)

  -- The whole parts, their sum, and the remainders, in the order of the sorted regions.
  unfoldable pub whole_parts : ℕ → Float → List (ℕ × Float) → List (ℕ × ℕ) → List (ℕ × ℕ)
  whole_parts n total [] out = out
  whole_parts n total ((k, v) ∷ w) out =
      whole_parts n total w (adjust 0 (λ c. c + trunc (share n v total)) k out)

  unfoldable pub given_whole : ℕ → Float → List (ℕ × Float) → ℕ
  given_whole n total [] = 0
  given_whole n total ((k, v) ∷ w) = trunc (share n v total) + given_whole n total w

  unfoldable pub remainders : ℕ → Float → List (ℕ × Float) → List Float
  remainders n total [] = []
  remainders n total ((k, v) ∷ w) = frac (share n v total) ∷ remainders n total w

  -- `for i := range rem { if rem[i] > rem[best] { best = i } }`, from place i on.
  unfoldable pub best_from : List Float → ℕ → ℕ → Float → ℕ
  best_from [] i best most = best
  best_from (x ∷ rem) i best most =
      if gt x most then best_from rem (i + 1) i x else best_from rem (i + 1) best most

  unfoldable pub best_of : List Float → ℕ
  best_of [] = 0
  best_of (x ∷ rem) = best_from (x ∷ rem) 0 0 x

  -- `for given < n`, with n - given rounds left.
  unfoldable pub hand_out : ℕ → List ℕ → List Float → List (ℕ × ℕ) → List (ℕ × ℕ)
  hand_out zero keys rem out = out
  hand_out (suc left) keys rem out =
      let best = best_of rem in
      hand_out left keys (set rem best minus_one) (adjust 0 (λ c. c + 1) (get_or keys best 0) out)

  abbrev regions_of : List (ℕ × Float) → List ℕ
  regions_of [] = []
  regions_of ((k, v) ∷ w) = k ∷ regions_of w

  -- The nodes that are not pinned, by weight, or all in the home region if there is none.
  unfoldable pub by_weight : ℕ → ℕ → List (ℕ × Float) → List (ℕ × ℕ) → List (ℕ × ℕ)
  by_weight home n [] out = adjust 0 (λ c. c + n) home out
  by_weight home n (x ∷ w) out =
      let all = x ∷ w in
      let total = total_weight all in
      hand_out (n - given_whole n total all) (regions_of all) (remainders n total all)
        (whole_parts n total all out)

  -- `node_regions` in the order in which the range goes over the map, `weights` sorted by region.
  unfoldable pub fleet : ℕ → ℕ → List (ℕ × ℕ) → List (ℕ × Float) → List (ℕ × ℕ)
  fleet nodes home node_regions weights =
      let (n, out) = count_pinned nodes node_regions [] in by_weight home n weights out
