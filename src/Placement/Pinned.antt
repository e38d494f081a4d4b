-- ===== src/Placement/Pinned.antt =====
-- The loop over the pinned nodes keeps every node in a slot of its own.
use topdisc_testbed.Base.{
  ℕ, ◌≡◌, ◌≢◌, Bool, true, false, ◌||◌, Option, none, some, List, [], ◌∷◌, arith, refl, ◌∙◌, ap,
  ◌==◌, has, find, keys, IsDistinct, find-present,
}
use topdisc_testbed.Placement.Regions.{
  Host, Spread, Placed, PlaceError, no_free_instance, failed, slots, take_slot, take, or_fail,
  place_pinned,
}
use topdisc_testbed.Placement.Given.{Given, MayBeGiven, take-Given}

absent_ne : (xs : List ℕ) (i j : ℕ) → has xs i ≡ false → has xs j ≡ true → i ≢ j
absent_ne xs i j a b e = absurd (ground (arith, ap (has xs) e))

module _ (hosts : List Host) (wanted : ℕ → Option ℕ) where
  module _ (P : Placed → Type 0) where
    pub or_fail-Given :
        (e : PlaceError) (done : ℕ → Bool) (o : Option Spread) (next : Spread → Placed)
        → P (failed e)
        → MayBeGiven hosts wanted done o
        → ((q : Spread) → Given hosts wanted q done → P (next q))
        → P (or_fail e o next)
    unfolding or_fail
    or_fail-Given e done none next f g h = f
    or_fail-Given e done (some q) next f g h = h q g

    pub place_pinned-Given :
        (pins : List (ℕ × ℕ)) (p : Spread) (done : ℕ → Bool) (next : Spread → Placed)
        → IsDistinct (keys pins)
        → ((j : ℕ) → has (keys pins) j ≡ true → done j ≡ false)
        → ((j s : ℕ) → has (keys pins) j ≡ true → wanted j ≡ some s → find j pins ≡ some s)
        → ((j s : ℕ) → find j pins ≡ some s → P (failed (no_free_instance j s)))
        → Given hosts wanted p done
        → ((q : Spread) (all : ℕ → Bool)
            → ((j : ℕ) → all j ≡ (done j || has (keys pins) j))
            → Given hosts wanted q all
            → P (next q))
        → P (place_pinned pins p next)
    unfolding place_pinned take keys find has
    place_pinned-Given [] p done next d new w bad g h = h p done (λ j. ground arith) g
    place_pinned-Given ((idx, r) ∷ pins) p done next d new w bad g h =
        or_fail-Given _ (λ j. done j || (idx == j)) (take_slot p r (slots p.free r) idx) _
          (bad idx r (ground arith))
          (take-Given hosts wanted p r idx done (slots p.free r) refl g (new idx (ground arith))
            (λ s q. ground (arith, w idx s)))
          (λ q g'.
            place_pinned-Given pins q (λ j. done j || (idx == j)) next d.1
              (λ j f. let ne = absent_ne (keys pins) idx j d.0 f in ground (arith, new j))
              (λ j s f q. let ne = absent_ne (keys pins) idx j d.0 f in ground (arith, w j s))
              (λ j s f.
                let ne = absent_ne (keys pins) idx j d.0 (find-present j pins s f) in
                bad j s (ground arith))
              g' (λ q all a g. h q all (λ j. a j ∙ ground arith) g))
