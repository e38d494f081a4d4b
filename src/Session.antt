-- ===== src/Session.antt =====
-- cmd/node/session.go: the online periods of a node process and what it keeps of them. The p2p
-- server is not part of this: whether it starts and what its counters read are arguments. `L` and
-- `O` are the records of a lookup and of an operation, which are only joined. Times are in
-- milliseconds; a negative `firstCapableMs`, for never, is `none`.
pub mod Periods
pub mod Accounts
mod Tests
use topdisc_testbed.Base.{
  ℕ, ◌+◌, Bool, true, false, not, ◌&&◌, ◌||◌, Option, none, some, List, [], ◌∷◌, ◌++◌, map,
  if◌then◌else◌, ltb, has, adjust,
}

-- `discover.WireCounter`
pub record Counter : Type 0 where
  pub tx_msgs : ℕ
  pub tx_bytes : ℕ
  pub rx_msgs : ℕ
  pub rx_bytes : ℕ
  pub timeouts : ℕ
  pub ghost_timeouts : ℕ
  pub own_ghost_timeouts : ℕ

abbrev pub counter_zero : Counter
counter_zero = record {
  tx_msgs = 0;
  tx_bytes = 0;
  rx_msgs = 0;
  rx_bytes = 0;
  timeouts = 0;
  ghost_timeouts = 0;
  own_ghost_timeouts = 0;
}

pub add_counter : Counter → Counter → Counter
add_counter a b = record {
  tx_msgs = a.tx_msgs + b.tx_msgs;
  tx_bytes = a.tx_bytes + b.tx_bytes;
  rx_msgs = a.rx_msgs + b.rx_msgs;
  rx_bytes = a.rx_bytes + b.rx_bytes;
  timeouts = a.timeouts + b.timeouts;
  ghost_timeouts = a.ghost_timeouts + b.ghost_timeouts;
  own_ghost_timeouts = a.own_ghost_timeouts + b.own_ghost_timeouts;
}

-- The copy of `a` is `a`; then the entries of `b` in the order of the range.
pub add_wire : List (ℕ × Counter) → List (ℕ × Counter) → List (ℕ × Counter)
add_wire a [] = a
add_wire a ((k, v) ∷ b) = add_wire (adjust counter_zero (λ c. add_counter c v) k a) b

-- `discover.TopicLoad`
pub record TopicLoad : Type 0 where
  pub regtopic : Counter
  pub topic_query : Counter

abbrev pub load_zero : TopicLoad
load_zero = record { regtopic = counter_zero; topic_query = counter_zero }

pub add_topic_load : TopicLoad → TopicLoad → TopicLoad
add_topic_load o v = record {
  regtopic = add_counter o.regtopic v.regtopic;
  topic_query = add_counter o.topic_query v.topic_query;
}

pub add_load : List (ℕ × TopicLoad) → List (ℕ × TopicLoad) → List (ℕ × TopicLoad)
unfolding add_topic_load
add_load a [] = a
add_load a ((k, v) ∷ b) = add_load (adjust load_zero (λ o. add_topic_load o v) k a) b

pub min_capable : Option ℕ → Option ℕ → Option ℕ
min_capable none b = b
min_capable (some a) none = some a
min_capable (some a) (some b) = if ltb b a then some b else some a

-- `workload.Found`
pub record Found : Type 0 where
  pub id : ℕ
  pub at_ms : ℕ

pub record Span : Type 0 where
  pub start_ms : ℕ
  pub end_ms : ℕ

-- What a session reads of its server when it is closed (`snapshotCounters`).
pub record Readings (O : Type 0) : Type 0 where
  pub wire : List (ℕ × Counter)
  pub ops : List O
  pub topic_load : List (ℕ × TopicLoad)

pub record Session (L O : Type 0) : Type 0 where
  pub started : ℕ
  pub first_capable : Option ℕ
  -- none while no dialer search was opened
  pub conn_start : Option ℕ
  pub conn_seen : List ℕ
  pub conn_found : List Found
  pub lookups : List L
  pub wire : List (ℕ × Counter)
  pub ops : List O
  pub topic_load : List (ℕ × TopicLoad)

pub record Node (L O : Type 0) : Type 0 where
  pub done : Bool
  pub lookups_done : List L
  pub ops_done : List O
  pub wire_done : List (ℕ × Counter)
  pub topic_load_done : List (ℕ × TopicLoad)
  pub first_capable : Option ℕ
  pub sessions : List Span
  pub conn_done : List Found
  pub conn_last : Option (Session L O)
  pub cur : Option (Session L O)
  pub last : Option (Session L O)

pub data Failure : Type 0 where
  err_up : Failure
  err_down : Failure
  err_stopped : Failure
  -- what the server's Start reports
  err_start : Failure

pub abs_found : ℕ → List Found → List Found
abs_found start fs = map (λ (f : Found). record { id = f.id; at_ms = start + f.at_ms }) fs

module _ {L O : Type 0} where
  pub new_session : ℕ → Session L O
  new_session now = record {
    started = now;
    first_capable = none;
    conn_start = none;
    conn_seen = [];
    conn_found = [];
    lookups = [];
    wire = [];
    ops = [];
    topic_load = [];
  }

  pub new_node : Node L O
  new_node = record {
    done = false;
    lookups_done = [];
    ops_done = [];
    wire_done = [];
    topic_load_done = [];
    first_capable = none;
    sessions = [];
    conn_done = [];
    conn_last = none;
    cur = none;
    last = none;
  }

  -- After the test of `n.done`; `starts` is whether the server starts.
  pub up_from : Node L O → ℕ → Bool → Option (Session L O) → Node L O × Option Failure
  unfolding new_session
  up_from n now starts (some s) = (n, some err_up)
  up_from n now starts none =
      if starts then (record n { cur = some (new_session now) }, none) else (n, some err_start)

  pub up : Node L O → ℕ → Bool → Node L O × Option Failure
  unfolding up_from
  up n now starts = if n.done then (n, some err_stopped) else up_from n now starts n.cur

  pub snapshot_counters : Session L O → Readings O → Session L O
  snapshot_counters s r = record s { wire = r.wire; ops = r.ops; topic_load = r.topic_load }

  -- `if !s.connStart.IsZero()`
  pub fold_conn : Node L O → Session L O → Option ℕ → Node L O
  unfolding abs_found
  fold_conn n s none = n
  fold_conn n s (some start) = record n {
    conn_done = n.conn_done ++ abs_found start s.conn_found;
    conn_last = some s;
  }

  pub fold : Node L O → Session L O → ℕ → Node L O
  unfolding fold_conn add_wire add_load min_capable
  fold n s end_ =
      let totals = record n {
        lookups_done = n.lookups_done ++ s.lookups;
        ops_done = n.ops_done ++ s.ops;
        wire_done = add_wire n.wire_done s.wire;
        topic_load_done = add_load n.topic_load_done s.topic_load;
        first_capable = min_capable n.first_capable s.first_capable;
      } in
      let joined = fold_conn totals s s.conn_start in
      record joined {
        sessions = n.sessions ++ (record { start_ms = s.started; end_ms = end_ } ∷ []);
        last = some s;
        cur = none;
      }

  -- `downLocked`
  pub down_from : Node L O → ℕ → Readings O → Option (Session L O) → Node L O × Option Failure
  unfolding fold snapshot_counters
  down_from n now r none = (n, some err_down)
  down_from n now r (some s) = (fold n (snapshot_counters s r) now, none)

  pub down : Node L O → ℕ → Readings O → Node L O × Option Failure
  unfolding down_from
  down n now r = down_from n now r n.cur

  -- The trace that `finish` writes before it takes the node down is not part of this.
  pub finish : Node L O → ℕ → Readings O → Node L O
  unfolding down
  finish n now r = if n.done then n else (down (record n { done = true }) now r).0

  -- The callback of the dialer's iterator, `since` after the search began.
  pub conn_seen_node : Session L O → ℕ → ℕ → Session L O
  conn_seen_node s id since = if has s.conn_seen id then s else record s {
    conn_seen = id ∷ s.conn_seen;
    conn_found = s.conn_found ++ (record { id = id; at_ms = since } ∷ []);
  }
