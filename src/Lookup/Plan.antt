-- ===== src/Lookup/Plan.antt =====
-- The searches of a plan.
use topdisc_testbed.Base.{
  ℕ, ◌≡◌, ◌<◌, true, false, not, List, [], ◌∷◌, arith, refl, leb, length, if_ind,
}
use topdisc_testbed.Lookup.{Query, Outcome, run_one, Planned, scheduled}
use topdisc_testbed.Lookup.Search.{OneMode, Sound, run_one-Sound}

-- The outcomes are sound, and none of a search that was stopped.
abbrev pub AllRecorded : Query → List Outcome → Type 0
AllRecorded q [] = Unit
AllRecorded q (o ∷ os) = (Sound q o × (o.stopped ≡ false)) × AllRecorded q os

-- Every search begins before the deadline, and none is stopped.
abbrev pub AllRun : Query → ℕ → List Planned → Type 0
AllRun q deadline [] = Unit
AllRun q deadline (l ∷ ls) =
    ((l.at < deadline) × (l.begins ≡ true) × ((run_one q l.arrivals).stopped ≡ false))
    × AllRun q deadline ls

-- The outcomes are those of the first searches of the plan.
abbrev pub ArePrefix : Query → List Planned → List Outcome → Type 0
ArePrefix q ls [] = Unit
ArePrefix q [] (o ∷ os) = ⊥
ArePrefix q (l ∷ ls) (o ∷ os) = (o ≡ run_one q l.arrivals) × ArePrefix q ls os

scheduled-AllRecorded :
    (q : Query) (deadline : ℕ) (ls : List Planned)
    → OneMode q
    → AllRecorded q (scheduled q deadline ls)
unfolding scheduled
scheduled-AllRecorded q deadline [] m = tt
scheduled-AllRecorded q deadline (l ∷ ls) m =
    if_ind (AllRecorded q) (leb deadline l.at) (λ _. tt)
      (λ _.
        if_ind (AllRecorded q) (not l.begins) (λ _. tt)
          (λ _.
            if_ind (AllRecorded q) (run_one q l.arrivals).stopped (λ _. tt)
              (λ e. ((run_one-Sound q l.arrivals m, e), scheduled-AllRecorded q deadline ls m))))

scheduled-ArePrefix :
    (q : Query) (deadline : ℕ) (ls : List Planned) → ArePrefix q ls (scheduled q deadline ls)
unfolding scheduled
scheduled-ArePrefix q deadline [] = tt
scheduled-ArePrefix q deadline (l ∷ ls) =
    if_ind (ArePrefix q (l ∷ ls)) (leb deadline l.at) (λ _. tt)
      (λ _.
        if_ind (ArePrefix q (l ∷ ls)) (not l.begins) (λ _. tt)
          (λ _.
            if_ind (ArePrefix q (l ∷ ls)) (run_one q l.arrivals).stopped (λ _. tt)
              (λ e. (refl, scheduled-ArePrefix q deadline ls))))

scheduled-length :
    (q : Query) (deadline : ℕ) (ls : List Planned)
    → AllRun q deadline ls
    → length (scheduled q deadline ls) ≡ length ls
unfolding scheduled
scheduled-length q deadline [] r = refl
scheduled-length q deadline (l ∷ ls) r = ground (arith, scheduled-length q deadline ls r.1, r.0)

-- Scheduled records the searches of the plan in order up to the first that does not run to its end,
-- each of them sound and none that was stopped; if all begin before the deadline and none is
-- stopped, it records them all.
pub scheduled_sound :
    (q : Query) (deadline : ℕ) (ls : List Planned)
    → OneMode q
    → AllRecorded q (scheduled q deadline ls)
      × ArePrefix q ls (scheduled q deadline ls)
      × (AllRun q deadline ls → length (scheduled q deadline ls) ≡ length ls)
scheduled_sound q deadline ls m = (
  scheduled-AllRecorded q deadline ls m,
  scheduled-ArePrefix q deadline ls,
  scheduled-length q deadline ls,
)
