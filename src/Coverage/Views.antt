-- ===== src/Coverage/Views.antt =====
-- The two counts of a snapshot agree with each other and with what the hosts see.
use topdisc_testbed.Base.{
  ℕ, ◌≡◌, ◌+◌, Bool, true, false, not, ◌&&◌, List, [], ◌∷◌, arith, refl, ◌∙◌, ap, if_ind, ◌==◌, has,
  IsDistinct, length, adjust, ℕ_discrete, find_or, keys, bit, sum_values, sum_values-adjust,
  find_or-adjust, has-keys-adjust,
}
use topdisc_testbed.Coverage.{
  Host, RegistrationCoverage, skips, view, snapshot_from, snapshot_registration_coverage,
}

abbrev pub total : List (ℕ × ℕ) → ℕ
total by = sum_values (λ c. c) by

abbrev pub host_ids : List Host → List ℕ
host_ids [] = []
host_ids (h ∷ all) = h.id ∷ host_ids all

-- The host sees a registrant other than itself.
abbrev pub sees : ℕ → List ℕ → List ℕ → ℕ → Bool
sees host registrants visible r = not (r == host) && (has registrants r && has visible r)

-- How many of the hosts see it.
abbrev pub seen_by : (ℕ → List ℕ) → List ℕ → List Host → ℕ → ℕ
seen_by visible registrants [] r = 0
seen_by visible registrants (h ∷ all) r =
    bit (sees h.id registrants (visible h.idx) r) + seen_by visible registrants all r

module _ (host : ℕ) (registrants : List ℕ) where
  view-total :
      (visible seen : List ℕ) (by : List (ℕ × ℕ))
      → length (view host registrants visible seen by).0 + total by
        ≡ length seen + total (view host registrants visible seen by).1
  unfolding view
  view-total [] seen by = refl
  view-total (id ∷ visible) seen by =
      if_ind (λ (x : List ℕ × List (ℕ × ℕ)). length x.0 + total by ≡ length seen + total x.1)
        (skips host registrants seen id) (λ _. view-total visible seen by)
        (λ _. omega (
          arith,
          view-total visible (id ∷ seen) (adjust 0 (λ c. c + 1) id by),
          sum_values-adjust (λ c. c) 0 (λ c. c + 1) 1 id by refl (λ c. refl),
        ))

  -- The count of a registrant rises by one if it is seen, and was not before.
  view-count :
      (visible seen : List ℕ) (by : List (ℕ × ℕ)) (r : ℕ)
      → find_or 0 r (view host registrants visible seen by).1
        ≡ find_or 0 r by + bit (not (has seen r) && sees host registrants visible r)
  unfolding view has skips
  view-count [] seen by r = ground arith
  view-count (id ∷ visible) seen by r =
      if_ind
        (λ (x : List ℕ × List (ℕ × ℕ)).
          find_or 0 r x.1
          ≡ find_or 0 r by + bit (not (has seen r) && sees host registrants (id ∷ visible) r))
        (skips host registrants seen id)
        (λ s. view-count visible seen by r ∙ elim (ℕ_discrete id r) [
          | yes p ↦ ground (arith, ap (has registrants) p, ap (has seen) p)
          | no p ↦ ground arith
        ])
        (λ s.
          view-count visible (id ∷ seen) (adjust 0 (λ c. c + 1) id by) r ∙ elim (ℕ_discrete id r) [
            | yes p ↦ ground (
              arith,
              ap (has registrants) p,
              ap (has seen) p,
              ap (λ i. find_or 0 i by) p,
              find_or-adjust 0 (λ c. c + 1) id r by,
            )
            | no p ↦ ground (arith, find_or-adjust 0 (λ c. c + 1) id r by)
          ])

module _ (visible : ℕ → List ℕ) (registrants : List ℕ) where
  snapshot_from-count :
      (all : List Host) (cov : RegistrationCoverage) (r : ℕ)
      → find_or 0 r (snapshot_from visible registrants all cov).by_registrant
        ≡ find_or 0 r cov.by_registrant + seen_by visible registrants all r
  unfolding snapshot_from has
  snapshot_from-count [] cov r = omega arith
  snapshot_from-count (h ∷ all) cov r = omega (
    arith,
    snapshot_from-count all _ r,
    view-count h.id registrants (visible h.idx) [] cov.by_registrant r,
  )

  -- A host that is not counted yet adds the size of its view.
  add_host :
      (h n : ℕ) (by : List (ℕ × ℕ))
      → has (keys by) h ≡ false
      → total (adjust 0 (λ _. n) h by) ≡ total by + n
  unfolding sum_values adjust keys has
  add_host h n [] e = omega arith
  add_host h n ((j, v) ∷ by) e = ground (arith, add_host h n by)

  snapshot_from-total :
      (all : List Host) (cov : RegistrationCoverage)
      → IsDistinct (host_ids all)
      → ((j : ℕ) → has (host_ids all) j ≡ true → has (keys cov.by_host) j ≡ false)
      → total cov.by_host ≡ total cov.by_registrant
      → total (snapshot_from visible registrants all cov).by_host
        ≡ total (snapshot_from visible registrants all cov).by_registrant
  unfolding snapshot_from has
  snapshot_from-total [] cov d new e = e
  snapshot_from-total (h ∷ all) cov d new e =
      let v = view h.id registrants (visible h.idx) [] cov.by_registrant in
      snapshot_from-total all _ d.1
        (λ j f. has-keys-adjust 0 (λ _. length v.0) h.id j cov.by_host ∙ elim (ℕ_discrete h.id j) [
          | yes p ↦ absurd (ground (arith, d.0, ap (has (host_ids all)) p))
          | no p ↦ ground (arith, new j)
        ])
        (omega (
          arith,
          add_host h.id (length v.0) cov.by_host (new h.id (ground arith)),
          view-total h.id registrants (visible h.idx) [] cov.by_registrant,
          e,
        ))

  -- A snapshot counts for every registrant the other hosts whose tables hold it, and for any other
  -- node none. The views of the hosts add up to the same number as the counts of the registrants.
  pub snapshot_counts :
      (all : List Host)
      → IsDistinct (host_ids all)
      → ((r : ℕ)
          → find_or 0 r (snapshot_registration_coverage all visible registrants).by_registrant
            ≡ seen_by visible registrants all r)
        × (total (snapshot_registration_coverage all visible registrants).by_host
            ≡ total (snapshot_registration_coverage all visible registrants).by_registrant)
  unfolding snapshot_registration_coverage find_or keys has sum_values
  snapshot_counts all d = (
    λ r. snapshot_from-count all (record { by_registrant = []; by_host = [] }) r ∙ omega arith,
    snapshot_from-total all (record { by_registrant = []; by_host = [] }) d (λ j f. refl) refl,
  )
