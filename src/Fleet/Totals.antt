-- ===== src/Fleet/Totals.antt =====
-- The instances add up to the nodes.
use topdisc_testbed.Base.{
  ℕ, zero, suc, ◌≡◌, ◌+◌, ◌-◌, ◌≤◌, List, [], ◌∷◌, arith, refl, ◌∙◌, ltb, adjust, get_or, set,
  sum_values, sum_values-adjust, if_ind, ltb→lt,
}
use topdisc_testbed.Fleet.{
  Float64, count_pinned, total_weight, whole_parts, given_whole, best_of, hand_out, by_weight,
  fleet,
}

abbrev pub instances : List (ℕ × ℕ) → ℕ
instances out = sum_values (λ c. c) out

-- An empty count weighs nothing, so the sum grows by what is added.
instances-adjust :
    (e r : ℕ) (out : List (ℕ × ℕ)) → instances (adjust 0 (λ c. c + e) r out) ≡ instances out + e
instances-adjust e r out = sum_values-adjust (λ c. c) 0 (λ c. c + e) e r out refl (λ c. refl)

count_pinned-instances :
    (n : ℕ) (pins out : List (ℕ × ℕ))
    → (count_pinned n pins out).0 + instances (count_pinned n pins out).1 ≡ n + instances out
unfolding count_pinned
count_pinned-instances n [] out = refl
count_pinned-instances n ((idx, r) ∷ pins) out =
    if_ind (λ (x : ℕ × List (ℕ × ℕ)). x.0 + instances x.1 ≡ n + instances out) (ltb idx n)
      (λ lt. omega (
        arith,
        count_pinned-instances (n - 1) pins (adjust 0 (λ k. k + 1) r out),
        instances-adjust 1 r out,
        ltb→lt idx n lt,
      ))
      (λ _. count_pinned-instances n pins out)

module _ (f : Float64) where
  open f use {Float}

  whole_parts-instances :
      (n : ℕ) (total : Float) (w : List (ℕ × Float)) (out : List (ℕ × ℕ))
      → instances (whole_parts f n total w out) ≡ instances out + given_whole f n total w
  unfolding whole_parts given_whole
  whole_parts-instances n total [] out = omega arith
  whole_parts-instances n total ((k, v) ∷ w) out = omega (
    arith,
    whole_parts-instances n total w (adjust 0 (λ c. c + f.trunc (f.share n v total)) k out),
    instances-adjust (f.trunc (f.share n v total)) k out,
  )

  hand_out-instances :
      (left : ℕ) (keys : List ℕ) (rem : List Float) (out : List (ℕ × ℕ))
      → instances (hand_out f left keys rem out) ≡ instances out + left
  unfolding hand_out
  hand_out-instances zero keys rem out = omega arith
  hand_out-instances (suc left) keys rem out =
      let best = best_of f rem in
      omega (
        arith,
        hand_out-instances left keys (set rem best f.minus_one)
            (adjust 0 (λ c. c + 1) (get_or keys best 0) out),
        instances-adjust 1 (get_or keys best 0) out,
      )

  -- The whole parts of the shares add up to at most what is shared.
  abbrev pub RoundsDown : List (ℕ × Float) → Type 0
  RoundsDown w = (n : ℕ) → given_whole f n (total_weight f w) w ≤ n

  by_weight-instances :
      (home n : ℕ) (w : List (ℕ × Float)) (out : List (ℕ × ℕ))
      → RoundsDown w
      → instances (by_weight f home n w out) ≡ n + instances out
  unfolding by_weight
  by_weight-instances home n [] out h = omega (arith, instances-adjust n home out)
  by_weight-instances home n (x ∷ w) out h = omega (
    arith,
    h n,
    hand_out-instances _ _ _ (whole_parts f n (total_weight f (x ∷ w)) (x ∷ w) out),
    whole_parts-instances n (total_weight f (x ∷ w)) (x ∷ w) out,
  )

  -- Whatever nodes are pinned and in whatever order they are visited, the regions get as many
  -- instances together as there are nodes, if the whole parts of the shares add up to no more than
  -- what is shared.
  pub fleet-instances :
      (nodes home : ℕ) (node_regions : List (ℕ × ℕ)) (weights : List (ℕ × Float))
      → RoundsDown weights
      → instances (fleet f nodes home node_regions weights) ≡ nodes
  unfolding fleet sum_values
  fleet-instances nodes home node_regions weights h =
      by_weight-instances home (count_pinned nodes node_regions []).0 weights
        (count_pinned nodes node_regions []).1 h
      ∙ count_pinned-instances nodes node_regions []
      ∙ omega arith
