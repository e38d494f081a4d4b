-- ===== src/Coverage.antt =====
-- cmd/simnet/coverage.go: which registrants the nodes' topic tables hold after the registrations.
mod Views
mod Tests
use topdisc_testbed.Base.{
  ℕ, ◌+◌, Bool, true, false, not, ◌&&◌, ◌||◌, List, [], ◌∷◌, if◌then◌else◌, ◌==◌, has, insert,
  length, adjust,
}

-- What a snapshot reads of a `nodeRec`: its place and its id.
pub record Host : Type 0 where
  pub idx : ℕ
  pub id : ℕ

pub record RegistrationCoverage : Type 0 where
  pub by_registrant : List (ℕ × ℕ)
  pub by_host : List (ℕ × ℕ)

-- The three tests of the loop over the nodes visible at a host.
unfoldable pub skips : ℕ → List ℕ → List ℕ → ℕ → Bool
skips host registrants seen id = (id == host) || (not (has registrants id) || has seen id)

-- The loop, with `seen` and `cov.ByRegistrant`.
unfoldable pub view : ℕ → List ℕ → List ℕ → List ℕ → List (ℕ × ℕ) → List ℕ × List (ℕ × ℕ)
view host registrants [] seen by = (seen, by)
view host registrants (id ∷ visible) seen by =
    if skips host registrants seen id
    then view host registrants visible seen by
    else view host registrants visible (id ∷ seen) (adjust 0 (λ c. c + 1) id by)

-- `visible idx` are the ids of localTopicNodes(idx, topic).
unfoldable pub snapshot_from :
    (ℕ → List ℕ) → List ℕ → List Host → RegistrationCoverage → RegistrationCoverage
snapshot_from visible registrants [] cov = cov
snapshot_from visible registrants (host ∷ all) cov =
    let (seen, by) = view host.id registrants (visible host.idx) [] cov.by_registrant in
    snapshot_from visible registrants all
      (record { by_registrant = by; by_host = adjust 0 (λ _. length seen) host.id cov.by_host })

unfoldable pub snapshot_registration_coverage :
    List Host → (ℕ → List ℕ) → List ℕ → RegistrationCoverage
snapshot_registration_coverage all visible registrants =
    snapshot_from visible registrants all (record { by_registrant = []; by_host = [] })

-- `visible idx t` are the ids of localTopicNodes(idx, topics[t]).
unfoldable pub snapshot_multi_topic_coverage :
    List Host → List (ℕ × List ℕ) → (ℕ → ℕ → List ℕ) → List (ℕ × RegistrationCoverage)
snapshot_multi_topic_coverage all [] visible = []
snapshot_multi_topic_coverage all ((t, registrants) ∷ topics) visible =
    (t, snapshot_registration_coverage all (λ idx. visible idx t) registrants)
    ∷ snapshot_multi_topic_coverage all topics visible
