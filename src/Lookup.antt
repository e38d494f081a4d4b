-- ===== src/Lookup.antt =====
-- pkg/workload/lookup.go: one search for the registrants of a topic, and the searches of a node at
-- given times. What the iterator, the timers and the stop channel do is a list of arrivals, in the
-- order in which `select` sees them; at its end the time limit is reached.
pub mod Search
pub mod Plan
mod Tests
use topdisc_testbed.Base.{
  ℕ, ◌+◌, Bool, true, false, not, ◌&&◌, List, [], ◌∷◌, ◌++◌, if◌then◌else◌, ltb, leb, has, length,
}
use topdisc_testbed.Session.{Found}

-- What the wait for the next interval comes to, where there is one.
pub data Pace : Type 0 where
  waited : Pace
  timed_out : Pace
  interrupted : Pace

pub data Arrival : Type 0 where
  -- the next node, when it came, and what the wait after it comes to
  arrives : ℕ → ℕ → Pace → Arrival
  exhausted : Arrival
  halted : Arrival

-- `isRegistrant` (nil counts every node), and the numbers that runOne takes.
pub record Query : Type 0 where
  pub is_registrant : ℕ → Bool
  pub target : ℕ
  pub initial : ℕ
  pub interval : ℕ

pub record Progress : Type 0 where
  pub seen : List ℕ
  pub found : List Found

-- What `done` makes a Lookup of, and whether the search was stopped.
pub record Outcome : Type 0 where
  pub results : ℕ
  pub found : List Found
  pub hit_target : Bool
  pub stopped : Bool

pub finished : Progress → Bool → Bool → Outcome
finished p hit stop = record {
  results = length p.seen;
  found = p.found;
  hit_target = hit;
  stopped = stop;
}

-- One round of the loop returns, or goes on.
pub data Round : Type 0 where
  returns : Outcome → Round
  goes_on : Progress → Round

-- `if target > 0 && len(seen) >= target`
pub check_target : Query → Progress → Round
unfolding finished
check_target q p =
    if ltb 0 q.target && leb q.target (length p.seen)
    then returns (finished p true false)
    else goes_on p

pub after_wait : Query → Progress → Pace → Round
unfolding finished check_target
after_wait q p waited = check_target q p
after_wait q p timed_out = returns (finished p false false)
after_wait q p interrupted = returns (finished p false true)

pub count_node : Progress → ℕ → ℕ → Progress
count_node p id at = record {
  seen = id ∷ p.seen;
  found = p.found ++ (record { id = id; at_ms = at } ∷ []);
}

pub round : Query → Progress → Arrival → Round
unfolding finished check_target after_wait count_node
round q p exhausted = returns (finished p false false)
round q p halted = returns (finished p false true)
round q p (arrives id at pace) =
    let p' = count_node p id at in
    if q.is_registrant id && not (has p.seen id)
    then (if ltb 0 q.interval && leb q.initial (length p'.seen)
        then after_wait q p' pace
        else check_target q p')
    else check_target q p

-- The end of a round; `next` is the rest of the search.
pub conclude : Round → (Progress → Outcome) → Outcome
conclude (returns o) next = o
conclude (goes_on p) next = next p

pub run_from : Query → Progress → List Arrival → Outcome
unfolding round finished conclude
run_from q p [] = finished p false false
run_from q p (a ∷ rest) = conclude (round q p a) (λ p'. run_from q p' rest)

pub run_one : Query → List Arrival → Outcome
unfolding run_from
run_one q arrivals = run_from q (record { seen = []; found = [] }) arrivals

-- A planned search: its time, whether the wait for it ends in time, and what arrives.
pub record Planned : Type 0 where
  pub at : ℕ
  pub begins : Bool
  pub arrivals : List Arrival

-- The outcomes that `Scheduled` records.
pub scheduled : Query → ℕ → List Planned → List Outcome
unfolding run_one
scheduled q deadline [] = []
scheduled q deadline (l ∷ ls) =
    let rest = scheduled q deadline ls in
    let o = run_one q l.arrivals in
    if leb deadline l.at
    then []
    else if not l.begins
    then []
    else if o.stopped
    then []
    else (o ∷ rest)
