-- ===== src/Placement/Fails.antt =====
-- `place` fails only for want of machines.
use topdisc_testbed.Base.{
  ℕ, zero, suc, ◌≡◌, ◌+◌, ◌<◌, ◌≤◌, true, List, [], ◌∷◌, arith, refl, sym, ◌∙◌, ap, subst, ◌==◌,
  has, keys, length, ℕ_discrete, if_ind, IsDistinct, if◌then◌else◌, adjust, adjust-IsDistinct, bit,
  count_below, length-eq-count, sum_below, sum_below-ext, sum_values, find_or,
}
use native.Mathlib.Nat.{zero-add}
use native.Mathlib.Numerals.{add-one}
use topdisc_testbed.Placement.Regions.{
  Host, Slot, Spread, Placed, panicked, failed, placed, no_free_instance, too_few_instances, slots,
  take_slot, take, or_fail, place_pinned, advance, take_next, place_rest, place_unpinned, unplaced,
  home_first, region_order,
}
use topdisc_testbed.Placement.Apart.{slots-adjust}
use topdisc_testbed.Placement.Stock.{
  Free, capacity, capacity_in, free_count, Covers, none_free, free_count-take,
  free_count-free_slots, length-slots-free_slots, free_slots-IsDistinct, region_order-Covers,
  has-home_first,
}
use topdisc_testbed.Placement.Advance.{HasNext, advance-HasNext, taken, take-Covers, advance-Covers}

-- The visited nodes that are pinned to region r.
abbrev pub pinned_in : ℕ → List (ℕ × ℕ) → ℕ
pinned_in r [] = 0
pinned_in r ((idx, s) ∷ pins) = (if s == r then 1 else 0) + pinned_in r pins

-- What must lack where `place` fails.
abbrev pub FailsShort : ℕ → List Host → List (ℕ × ℕ) → Placed → Type 0
FailsShort n hosts visited panicked = Unit
FailsShort n hosts visited (failed (no_free_instance idx r)) =
    capacity_in r hosts < pinned_in r visited
FailsShort n hosts visited (failed too_few_instances) = capacity hosts < n
FailsShort n hosts visited (placed p) = Unit

-- How many of the n nodes from idx on are not pinned.
abbrev unpinned : ℕ → ℕ → List ℕ → ℕ
unpinned zero idx pinned = 0
unpinned (suc n) idx pinned = (if has pinned idx then 0 else 1) + unpinned n (idx + 1) pinned

unpinned-count :
    (n idx : ℕ) (pinned : List ℕ)
    → unpinned n idx pinned + count_below (idx + n) (has pinned) ≡ n + count_below idx (has pinned)
unfolding sum_below
unpinned-count zero idx pinned = let same : idx + 0 ≡ idx = omega arith in rw same (omega arith)
unpinned-count (suc n) idx pinned =
    let next : idx + suc n ≡ idx + 1 + n = omega arith in
    let one : count_below (idx + 1) (has pinned)
        ≡ bit (has pinned idx) + count_below idx (has pinned) =
      rw add-one refl in
    rw next (ground (arith, unpinned-count n (idx + 1) pinned, one))

module _ (n : ℕ) (hosts : List Host) (visited : List (ℕ × ℕ)) where
  abbrev Short : Placed → Type 0
  Short = FailsShort n hosts visited

  -- With k slots taken.
  abbrev Taken : Free → ℕ → Type 0
  Taken free k = IsDistinct (keys free) × (free_count free + k ≡ capacity hosts)

  take-Taken :
      (free : Free) (r k : ℕ) (s : Slot) (rest : List Slot)
      → slots free r ≡ s ∷ rest
      → Taken free k
      → Taken (adjust [] (λ _. rest) r free) (k + 1)
  take-Taken free r k s rest e (d, sum) = (
    adjust-IsDistinct [] (λ _. rest) r free d,
    omega (arith, sum, free_count-take r s rest free e),
  )

  next_slot-Short :
      (p : Spread) (order : List ℕ) (idx k : ℕ) (next : Spread → Placed)
      → HasNext p.free order
      → Covers order p.free
      → Taken p.free k
      → k + 1 ≤ n
      → ((q : Spread) → Taken q.free (k + 1) → Covers order q.free → Short (next q))
      → Short (or_fail too_few_instances (take_next p order idx) next)
  unfolding or_fail take_next has
  next_slot-Short p [] idx k next h c (d, sum) l go =
      omega (arith, sum, none_free p.free d (λ r. c r refl))
  next_slot-Short p (r ∷ rs) idx k next (s, rest, e) c t l go =
      let (q, found, f) = taken p r idx s rest e in
      rw found (
        go q (subst (λ x. Taken x (k + 1)) (sym f) (take-Taken p.free r k s rest e t))
          (subst (Covers (r ∷ rs)) (sym f) (take-Covers p.free r s rest (r ∷ rs) e c)))

  place_rest-Short :
      (left idx : ℕ) (pinned order : List ℕ) (p : Spread) (k : ℕ)
      → Taken p.free k
      → Covers order p.free
      → k + unpinned left idx pinned ≤ n
      → Short (place_rest left idx pinned order p)
  unfolding place_rest
  place_rest-Short zero idx pinned order p k t c l = tt
  place_rest-Short (suc left) idx pinned order p k t c l =
      if_ind Short (has pinned idx)
        (λ pin. place_rest-Short left (idx + 1) pinned order p k t c (ground arith))
        (λ pin.
          let room : k + 1 + unpinned left (idx + 1) pinned ≤ n = ground arith in
          next_slot-Short p (advance p.free order) idx k _ (advance-HasNext p.free order)
            (advance-Covers p.free order c) t (omega arith)
            (λ q t' c'.
              place_rest-Short left (idx + 1) pinned (advance p.free order) q (k + 1) t' c' room))

  -- Each region's slots are free or used by the nodes that are pinned to it.
  abbrev Split : Free → (ℕ → ℕ) → Type 0
  Split free used = (r : ℕ) → length (slots free r) + used r ≡ capacity_in r hosts

  abbrev one_more : (ℕ → ℕ) → ℕ → ℕ → ℕ
  one_more used r j = (if r == j then 1 else 0) + used j

  take-Split :
      (free : Free) (r : ℕ) (s : Slot) (rest : List Slot) (used : ℕ → ℕ)
      → slots free r ≡ s ∷ rest
      → Split free used
      → Split (adjust [] (λ _. rest) r free) (one_more used r)
  take-Split free r s rest used e sp j = elim (ℕ_discrete r j) [
    | yes p ↦ ground (
      arith,
      sp r,
      ap (λ l. length l) (slots-adjust (λ _. rest) r j free),
      ap (λ l. length l) e,
      ap used p,
      ap (λ x. capacity_in x hosts) p,
    )
    | no p ↦ ground (arith, sp j, ap (λ l. length l) (slots-adjust (λ _. rest) r j free))
  ]

  module _ (order : List ℕ) (next : Spread → Placed) where
    pin-Short :
        (idx r k : ℕ) (pins : List (ℕ × ℕ)) (p : Spread) (used : ℕ → ℕ) (s : List Slot)
        → slots p.free r ≡ s
        → Taken p.free k
        → Split p.free used
        → ((j : ℕ) → used j + pinned_in j ((idx, r) ∷ pins) ≡ pinned_in j visited)
        → Covers order p.free
        → ((q : Spread)
            → Taken q.free (k + 1)
            → Split q.free (one_more used r)
            → Covers order q.free
            → Short (place_pinned pins q next))
        → Short (place_pinned ((idx, r) ∷ pins) p next)
    unfolding place_pinned or_fail take take_slot
    pin-Short idx r k pins p used [] e t sp u c go =
        rw e (ground (arith, sp r, u r, ap (λ l. length l) e))
    pin-Short idx r k pins p used (s ∷ rest) e t sp u c go =
        let (q, found, f) = taken p r idx s rest e in
        subst (λ o. Short (or_fail (no_free_instance idx r) o (λ q. place_pinned pins q next)))
          (sym found)
          (go q (subst (λ x. Taken x (k + 1)) (sym f) (take-Taken p.free r k s rest e t))
            (subst (λ x. Split x (one_more used r)) (sym f) (take-Split p.free r s rest used e sp))
            (subst (Covers order) (sym f) (take-Covers p.free r s rest order e c)))

    place_pinned-Short :
        (pins : List (ℕ × ℕ)) (p : Spread) (k : ℕ) (used : ℕ → ℕ)
        → Taken p.free k
        → Split p.free used
        → ((j : ℕ) → used j + pinned_in j pins ≡ pinned_in j visited)
        → Covers order p.free
        → ((q : Spread) → Taken q.free (k + length pins) → Covers order q.free → Short (next q))
        → Short (place_pinned pins p next)
    unfolding place_pinned
    place_pinned-Short [] p k used t sp u c go =
        let same : k ≡ k + 0 = omega arith in go p (subst (Taken p.free) same t) c
    place_pinned-Short ((idx, r) ∷ pins) p k used t sp u c go =
        pin-Short idx r k pins p used (slots p.free r) refl t sp u c (λ q t' sp' c'.
          place_pinned-Short pins q (k + 1) (one_more used r) t' sp' (λ j. ground (arith, u j)) c'
            (λ q' t'' c''.
              let same : k + 1 + length pins ≡ k + suc (length pins) = omega arith in
              go q' (subst (Taken q'.free) same t'') c''))

length-keys : (pins : List (ℕ × ℕ)) → length (keys pins) ≡ length pins
unfolding keys
length-keys [] = refl
length-keys (pin ∷ pins) = omega (arith, length-keys pins)

-- The pinned nodes and the others are as many as there are nodes.
pinned_and_others :
    (n : ℕ) (pins visited : List (ℕ × ℕ))
    → IsDistinct (keys visited)
    → ((j : ℕ) → has (keys visited) j ≡ has (keys pins) j)
    → ((j : ℕ) → has (keys pins) j ≡ true → j < n)
    → length visited + unpinned n 0 (keys pins) ≡ n
unfolding sum_below
pinned_and_others n pins visited d same l = omega (
  arith,
  unpinned-count n 0 (keys pins),
  length-eq-count n (keys visited) d (λ j h. l j (sym (same j) ∙ h)),
  length-keys visited,
  sum_below-ext n (λ j. bit (has (keys visited) j)) (λ j. bit (has (keys pins) j))
      (λ j h. ap bit (same j)),
  ap (λ m. count_below m (has (keys pins))) (zero-add n),
)

after_pins :
    (n : ℕ) (hosts : List Host) (pins visited : List (ℕ × ℕ)) (order : List ℕ) (q : Spread)
    → IsDistinct (keys visited)
    → ((j : ℕ) → has (keys visited) j ≡ has (keys pins) j)
    → ((j : ℕ) → 0 < n → has (keys pins) j ≡ true → j < n)
    → IsDistinct (keys q.free) × (free_count q.free + (0 + length visited) ≡ capacity hosts)
    → Covers order q.free
    → FailsShort n hosts visited (place_unpinned n pins order q)
unfolding place_unpinned
after_pins zero hosts [] visited order q d same l t c = tt
after_pins zero hosts (pin ∷ pins) visited order q d same l t c = tt
after_pins (suc n) hosts pins visited order q d same l t c =
    place_rest-Short (suc n) hosts visited (suc n) 0 (keys pins) order q (0 + length visited) t c
      (omega (arith, pinned_and_others (suc n) pins visited d same (λ j h. l j (omega arith) h)))

pub place_pinned-FailsShort :
    (n : ℕ) (hosts : List Host) (home : ℕ) (pins visited : List (ℕ × ℕ))
    → IsDistinct (keys visited)
    → ((j : ℕ) → has (keys visited) j ≡ has (keys pins) j)
    → ((j : ℕ) → 0 < n → has (keys pins) j ≡ true → j < n)
    → FailsShort n hosts visited (
        place_pinned visited
          (unplaced hosts)
          (place_unpinned n pins (home_first home (region_order 0 hosts []) [])))
unfolding sum_values keys find_or has
place_pinned-FailsShort n hosts home pins visited d same l =
    let order = home_first home (region_order 0 hosts []) [] in
    place_pinned-Short n hosts visited order (place_unpinned n pins order) visited (unplaced hosts)
      0 (λ j. 0)
      (free_slots-IsDistinct 0 hosts [] tt, omega (arith, free_count-free_slots 0 hosts []))
      (λ r. omega (arith, length-slots-free_slots 0 hosts [] r)) (λ j. omega arith)
      (λ r h.
        region_order-Covers 0 hosts [] r refl
          (ground (arith, has-home_first home (region_order 0 hosts []) [] r)))
      (λ q t c. after_pins n hosts pins visited order q d same l t c)
