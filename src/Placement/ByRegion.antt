-- ===== src/Placement/ByRegion.antt =====
-- The loop over the nodes that are not pinned, and the placement that `place` returns.
use topdisc_testbed.Base.{
  ℕ, zero, suc, ◌⊎◌, inr, ◌≡◌, ◌≢◌, ◌+◌, ◌<◌, ◌≤◌, Bool, true, false, ◌||◌, Option, none, some,
  List, [], ◌∷◌, arith, refl, sym, ◌∙◌, ap, subst, ◌==◌, update, has, find, keys, length, or_else,
  ℕ_discrete, if_ind, IsDistinct, find-absent, has-keys, is_some,
}
use topdisc_testbed.Placement.Regions.{
  Host, Spread, Placed, panicked, failed, placed, no_free_instance, too_few_instances, take_slot,
  take, place_pinned, advance, take_next, place_rest, unplaced, place_unpinned,
}
use topdisc_testbed.Placement.Apart.{host_at, free_slots-AreFree}
use topdisc_testbed.Placement.Given.{Given, MayBeGiven, take-Given}
use topdisc_testbed.Placement.Advance.{HasNext, advance-HasNext, place_unpinned-cases}
use topdisc_testbed.Placement.Pinned.{or_fail-Given, place_pinned-Given}

module _ (hosts : List Host) (wanted : ℕ → Option ℕ) where
  take_next-Given :
      (p : Spread) (order : List ℕ) (idx : ℕ) (done : ℕ → Bool)
      → HasNext p.free order
      → Given hosts wanted p done
      → done idx ≡ false
      → wanted idx ≡ none
      → MayBeGiven hosts wanted (λ j. done j || (idx == j)) (take_next p order idx)
  unfolding take_next take take_slot
  take_next-Given p [] idx done n g new w = tt
  take_next-Given p (r ∷ rs) idx done n g new w =
      let (s, rest, e) = n in
      let t : MayBeGiven hosts wanted (λ j. done j || (idx == j)) (take_slot p r (s ∷ rest) idx) =
        take-Given hosts wanted p r idx done (s ∷ rest) e g new (λ x q. absurd (ground arith)) in
      subst
        (λ x.
          MayBeGiven hosts wanted (λ j. done j || (idx == j))
            (some (
              or_else (take_slot p r x idx)
                (record p { host_of = update p.host_of idx 0; local = update p.local idx 0 }))))
        (sym e) t

  module _ (P : Placed → Type 0) (few : P (failed too_few_instances)) (pinned : List ℕ)
      (w : (j : ℕ) → has pinned j ≡ false → wanted j ≡ none) where
    place_rest-Given :
        (n idx : ℕ) (order : List ℕ) (p : Spread) (done : ℕ → Bool)
        → ((j : ℕ) → j < idx → done j ≡ true)
        → ((j : ℕ) → has pinned j ≡ true → done j ≡ true)
        → ((j : ℕ) → idx ≤ j → has pinned j ≡ false → done j ≡ false)
        → Given hosts wanted p done
        → ((q : Spread) (all : ℕ → Bool)
            → ((j : ℕ) → j < idx + n → all j ≡ true)
            → Given hosts wanted q all
            → P (placed q))
        → P (place_rest n idx pinned order p)
    unfolding place_rest
    place_rest-Given zero idx order p done a b c g h = h p done (λ j l. a j (omega (arith, l))) g
    place_rest-Given (suc n) idx order p done a b c g h =
        if_ind P (has pinned idx)
          (λ pin.
            place_rest-Given n (idx + 1) order p done
              (λ j l. elim (ℕ_discrete idx j) [
                | yes q ↦ b j (ap (has pinned) (sym q) ∙ pin)
                | no q ↦ a j (omega arith)
              ])
              b (λ j l. c j (omega (arith, l))) g
              (λ q all f. h q all (λ j l. f j (omega (arith, l)))))
          (λ pin.
            or_fail-Given hosts wanted P too_few_instances (λ j. done j || (idx == j))
              (take_next p (advance p.free order) idx) _ few
              (take_next-Given p (advance p.free order) idx done (advance-HasNext p.free order) g
                (c idx (omega arith) pin) (w idx pin))
              (λ q g'.
                place_rest-Given n (idx + 1) (advance p.free order) q (λ j. done j || (idx == j))
                  (λ j l. elim (ℕ_discrete idx j) [
                    | yes q ↦ ground arith
                    | no q ↦ ground (arith, a j (omega arith))
                  ])
                  (λ j f. ground (arith, b j f)) (λ j l f. ground (arith, c j (omega (arith, l)) f))
                  g' (λ q all f. h q all (λ j l. f j (omega (arith, l))))))

-- The range over a map visits each of its entries once.
pub record Visits (pins visited : List (ℕ × ℕ)) : Type 0 where
  pub once : IsDistinct (keys visited)
  pub same : (j : ℕ) → find j visited ≡ find j pins

pub record IsPlacement (n : ℕ) (hosts : List Host) (pins : List (ℕ × ℕ)) (p : Spread) : Type 0 where
  pub slot :
      (i : ℕ)
      → i < n
      → (p.host_of i < length hosts) × (p.local i < (host_at hosts (p.host_of i)).nodes)
  pub apart : (i j : ℕ) → i < n → j < n → i ≢ j → p.host_of i ≡ p.host_of j → p.local i ≢ p.local j
  pub region : (i r : ℕ) → i < n → find i pins ≡ some r → (host_at hosts (p.host_of i)).region ≡ r

abbrev pub MayPlace : ℕ → List Host → List (ℕ × ℕ) → Placed → Type 0
MayPlace n hosts pins panicked = (hosts ≡ []) ⊎ (n ≡ 0)
MayPlace n hosts pins (failed (no_free_instance idx r)) = find idx pins ≡ some r
MayPlace n hosts pins (failed too_few_instances) = Unit
MayPlace n hosts pins (placed p) = IsPlacement n hosts pins p

module _ (n : ℕ) (hosts : List Host) (home : ℕ) (pins visited : List (ℕ × ℕ))
    (v : Visits pins visited) where
  start-Given : Given hosts (λ i. find i pins) (unplaced hosts) (λ _. false)
  start-Given = record {
    are_free = free_slots-AreFree hosts;
    slot = λ i f. absurd (ground arith);
    region = λ i r f. absurd (ground arith);
    taken = λ i r f. absurd (ground arith);
    apart = λ i j f. absurd (ground arith);
  }

  same_keys : (j : ℕ) → has (keys visited) j ≡ has (keys pins) j
  same_keys j = has-keys j visited ∙ ap is_some (v.same j) ∙ sym (has-keys j pins)

  pub placement-IsPlacement :
      (order : List ℕ)
      → MayPlace n hosts pins (place_pinned visited (unplaced hosts) (place_unpinned n pins order))
  placement-IsPlacement order =
      place_pinned-Given hosts (λ i. find i pins) (MayPlace n hosts pins) visited (unplaced hosts)
        (λ _. false) _ v.once (λ j f. refl) (λ j s f q. v.same j ∙ q) (λ j s f. sym (v.same j) ∙ f)
        start-Given
        (λ q all a g.
          place_unpinned-cases (MayPlace n hosts pins) n pins order q (λ e. inr e)
            (place_rest-Given hosts (λ i. find i pins) (MayPlace n hosts pins) tt (keys pins)
              (λ j f. find-absent j pins f) n 0 order q all (λ j l. absurd (omega arith))
              (λ j f. a j ∙ same_keys j ∙ f) (λ j l f. a j ∙ same_keys j ∙ f) g
              (λ q all f g. record {
                slot = λ i l. (
                  (g.slot i (f i (omega (arith, l)))).machine,
                  (g.slot i (f i (omega (arith, l)))).slot,
                );
                apart = λ i j l m. g.apart i j (f i (omega (arith, l))) (f j (omega (arith, m)));
                region = λ i r l. g.region i r (f i (omega (arith, l)));
              })))
