-- ===== src/Crawl.antt =====
-- cmd/crawl/main.go: the registry of every node that the crawl has seen, the prober and the sweeps.
-- Times are nanoseconds, an id, a source and the label of an error are numbers. The events are those
-- that are written to the log, without the time at which each is written.
mod Schedule
mod World
mod Valid
mod Stages
mod Steps
mod Ends
mod Reach
mod Log
mod Sessions
mod Down
mod Sweeps
mod Tests
use topdisc_testbed.Base.{
  ℕ, zero, suc, ◌+◌, ◌-◌, ◌*◌, ◌/◌, Bool, true, false, not, ◌&&◌, ◌||◌, Option, none, some, List,
  [], ◌∷◌, ◌++◌, if◌then◌else◌, ltb, leb, ◌==◌, length, find, adjust,
}

-- What the registry reads of an `enode.Node`.
pub record Node : Type 0 where
  pub id : ℕ
  pub seq : ℕ
  pub ip : Option ℕ
  pub udp : ℕ

pub record NodeState : Type 0 where
  pub node : Node
  pub up : Bool
  pub ever_up : Bool
  pub attempts : ℕ
  pub misses : ℕ
  pub last_pong : ℕ
  pub up_since : ℕ
  pub pongs : ℕ
  pub next : ℕ
  pub queued : Bool

-- The sizes of the two pools are left out.
pub record ProbeConfig : Type 0 where
  pub probe : ℕ
  pub probe_dead : ℕ
  pub misses : ℕ
  pub new_tries : ℕ

pub record Counters : Type 0 where
  pub pings : ℕ
  pub pongs : ℕ
  pub dead_pings : ℕ
  pub dead_pongs : ℕ
  pub samples : ℕ
  pub sample_err : ℕ

pub record Registry : Type 0 where
  pub nodes : List (ℕ × NodeState)
  pub counters : Counters
  pub errs : List (ℕ × ℕ)

-- What a sweep counts over the nodes; the counters that it copies are left out.
pub record Sweep : Type 0 where
  pub known : ℕ
  pub ever_up : ℕ
  pub up : ℕ
  pub late : ℕ
  pub new : ℕ
  pub dead : ℕ

pub data Event : Type 0 where
  seen : Node → ℕ → Event
  enr : Node → ℕ → Event
  went_up : ℕ → Event
  pong : ℕ → ℕ → Event  -- the round trip in ms
  miss : ℕ → ℕ → Event
  replied : ℕ → List ℕ → List ℕ → Option ℕ → Event  -- from, distances, nodes, error
  went_down : ℕ → ℕ → ℕ → ℕ → ℕ → Event  -- id, misses, seconds since up, pongs, error

unfoldable pub new_registry : Registry
new_registry = record {
  nodes = [];
  counters = record {
    pings = 0;
    pongs = 0;
    dead_pings = 0;
    dead_pongs = 0;
    samples = 0;
    sample_err = 0;
  };
  errs = [];
}

unfoldable pub new_state : Node → NodeState
new_state n = record {
  node = n;
  up = false;
  ever_up = false;
  attempts = 0;
  misses = 0;
  last_pong = 0;
  up_since = 0;
  pongs = 0;
  next = 0;
  queued = false;
}

-- `r.nodes[id] = st`
unfoldable pub put : ℕ → NodeState → List (ℕ × NodeState) → List (ℕ × NodeState)
put id st nodes = adjust st (λ _. st) id nodes

unfoldable pub fast : NodeState → ℕ → Bool
fast st new_tries = st.ever_up || ltb st.attempts new_tries

unfoldable pub observe_known : Registry → Node → ℕ → Option NodeState → Registry × List Event
observe_known r n src none = (record r { nodes = put n.id (new_state n) r.nodes }, seen n src ∷ [])
observe_known r n src (some st) =
    if ltb st.node.seq n.seq
    then (record r { nodes = put n.id (record st { node = n }) r.nodes }, enr n src ∷ [])
    else (r, [])

unfoldable pub observe : Registry → Node → ℕ → Registry × List Event
observe r n src = observe_known r n src (find n.id r.nodes)

unfoldable pub fast_known : Option NodeState → ℕ → Bool
fast_known none new_tries = false
fast_known (some st) new_tries = fast st new_tries

-- `ping` up to the request: whether the node is on the fast schedule, which it counts.
unfoldable pub ping_begin : ProbeConfig → Registry → ℕ → Registry × Bool
ping_begin cfg r id =
    let quick = fast_known (find id r.nodes) cfg.new_tries in
    (
      record r {
        counters =
            if quick
            then record c { pings = c.pings + 1 }
            else record c { dead_pings = c.dead_pings + 1 };
      },
      quick,
    )
  where
    c : Counters
    c = r.counters

-- What comes back: the node's sequence number, or an error's label.
pub data Answer : Type 0 where
  answer : ℕ → Answer
  failure : ℕ → Answer

-- An answer at time t to a ping sent at `sent`: the node's state and the events.
unfoldable pub answered : ℕ → NodeState → ℕ → ℕ → NodeState × List Event
answered id st sent t =
    let s = record st { queued = false; last_pong = t; misses = 0; pongs = st.pongs + 1 } in
    let raw = if st.ever_up then pong id ((t - sent) / 1000000) ∷ [] else [] in
    if st.up
    then (s, raw)
    else (record s { up = true; ever_up = true; up_since = t; pongs = 1 }, raw ++ (went_up id ∷ []))

unfoldable pub missed : NodeState → NodeState
missed st = record st {
  queued = false;
  misses = st.misses + 1;
  attempts = if st.ever_up then st.attempts else st.attempts + 1;
}

-- `st.up && st.misses >= cfg.misses && t.Sub(st.lastPong) >= 2*cfg.probe`
unfoldable pub goes_down : ProbeConfig → NodeState → ℕ → Bool
goes_down cfg st t = st.up && (leb cfg.misses st.misses && leb (st.last_pong + 2 * cfg.probe) t)

unfoldable pub unanswered : ProbeConfig → ℕ → NodeState → ℕ → ℕ → NodeState × List Event
unanswered cfg id st t e =
    let s = missed st in
    let raw = if st.ever_up then miss id e ∷ [] else [] in
    if goes_down cfg s t
    then (
      record s { up = false },
      raw ++ (went_down id s.misses ((t - s.up_since) / 1000000000) s.pongs e ∷ []),
    )
    else (s, raw)

-- When the node is due again.
unfoldable pub reschedule : ProbeConfig → NodeState → ℕ → NodeState
reschedule cfg st t = record st {
  next = t + (if fast st cfg.new_tries then cfg.probe else cfg.probe_dead);
}

unfoldable pub count_pong : Bool → Counters → Counters
count_pong true c = record c { pongs = c.pongs + 1 }
count_pong false c = record c { dead_pongs = c.dead_pongs + 1 }

-- `ping` from the reply on, for a node of the registry: with it the events, and whether the node's
-- record is fetched anew.
unfoldable pub ping_known :
    ProbeConfig → Registry → ℕ → NodeState → Bool → ℕ → ℕ → Answer → Registry × List Event × Bool
ping_known cfg r id st quick sent t (answer seq) =
    let (s, events) = answered id st sent t in
    (
      record r {
        nodes = put id (reschedule cfg s t) r.nodes;
        counters = count_pong quick r.counters;
      },
      events,
      ltb st.node.seq seq,
    )
ping_known cfg r id st quick sent t (failure e) =
    let (s, events) = unanswered cfg id st t e in
    (
      record r {
        nodes = put id (reschedule cfg s t) r.nodes;
        errs = if st.ever_up then adjust 0 (λ k. k + 1) e r.errs else r.errs;
      },
      events,
      false,
    )

-- A node that the registry does not hold is a nil dereference.
unfoldable pub ping_reply :
    ProbeConfig
    → Registry
    → ℕ
    → Option NodeState
    → Bool
    → ℕ
    → ℕ
    → Answer
    → Option (Registry × List Event × Bool)
ping_reply cfg r id none quick sent t a = none
ping_reply cfg r id (some st) quick sent t a = some (ping_known cfg r id st quick sent t a)

unfoldable pub ping_end :
    ProbeConfig → Registry → ℕ → Bool → ℕ → ℕ → Answer → Option (Registry × List Event × Bool)
ping_end cfg r id quick sent t a = ping_reply cfg r id (find id r.nodes) quick sent t a
