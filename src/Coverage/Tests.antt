-- ===== src/Coverage/Tests.antt =====
-- Three hosts, of which two are registrants.
use topdisc_testbed.Base.{ℕ, ◌≡◌, List, [], ◌∷◌, refl, has, find_or, adjust, if◌then◌else◌, ◌==◌}
use topdisc_testbed.Coverage.{Host, skips, view, snapshot_from, snapshot_registration_coverage}
use topdisc_testbed.Coverage.Views.{total, seen_by, snapshot_counts}

abbrev all : List Host
all = record { idx = 0; id = 10 } ∷ record { idx = 1; id = 11 } ∷ record { idx = 2; id = 12 } ∷ []

-- Host 0 sees 11 twice and itself; host 2 sees both registrants and a node that is none.
abbrev visible : ℕ → List ℕ
visible idx = if idx == 0 then 11 ∷ 11 ∷ 10 ∷ [] else if idx == 2 then 10 ∷ 11 ∷ 12 ∷ [] else []

snapshot_counts_example :
    ((r : ℕ)
      → find_or 0 r (snapshot_registration_coverage all visible (10 ∷ 11 ∷ [])).by_registrant
        ≡ seen_by visible (10 ∷ 11 ∷ []) all r)
    × (total (snapshot_registration_coverage all visible (10 ∷ 11 ∷ [])).by_host
        ≡ total (snapshot_registration_coverage all visible (10 ∷ 11 ∷ [])).by_registrant)
unfolding has
snapshot_counts_example = snapshot_counts visible (10 ∷ 11 ∷ []) all (refl, (refl, (refl, tt)))

snapshot_fan_out :
    (snapshot_registration_coverage all visible (10 ∷ 11 ∷ [])).by_registrant
    ≡ (11, 2) ∷ (10, 1) ∷ []
unfolding has adjust skips view snapshot_from snapshot_registration_coverage
snapshot_fan_out = refl
