-- ===== src/Searcher/State.antt =====
-- cmd/simnet/search.go: what a searcher is configured with, reads and keeps.
use topdisc_testbed.Base.{
  ℕ, Bool, true, false, Option, none, List, [], if◌then◌else◌, ◌&&◌, ltb, ◌==◌,
}
use topdisc_testbed.ConnTable.{ConnTable}
use topdisc_testbed.DeadResult.{DeadLocal, Tracker, new_local}

pub data SearchModel : Type 0 where
  conn scheduled continuous : SearchModel

abbrev pub is_scheduled : SearchModel → Bool
is_scheduled scheduled = true
is_scheduled _ = false

abbrev pub is_continuous : SearchModel → Bool
is_continuous continuous = true
is_continuous _ = false

-- `searchPacing` with the other arguments: the node's index and id, and the ids that were in its
-- routing table at the start. `has_conns` and `has_dead` say whether the pointers are set.
pub record Pacing : Type 0 where
  pub node : ℕ
  pub self : ℕ
  pub topic : ℕ
  pub target : ℕ
  pub connected : List ℕ
  pub model : SearchModel
  pub has_conns : Bool
  pub has_dead : Bool
  pub resumable : Bool
  pub redial_wait : ℕ
  pub target_count : ℕ
  pub request_timeout : ℕ
  pub initial_results : ℕ
  pub result_interval : ℕ
  pub max_pause : ℕ
  pub pause_novel_only : Bool
  pub schedule : List ℕ
  pub start : ℕ

-- `fLookup`
unfoldable pub f_lookup_of : ℕ → ℕ → ℕ
f_lookup_of target_count target =
    let f = if target_count == 0 then 30 else target_count in
    if ltb 0 target && ltb target f then target else f

abbrev pub f_lookup : Pacing → ℕ
f_lookup p = f_lookup_of p.target_count p.target

-- What an event finds: the time, iterContacts(iter), whether the node's discovery runs, the tracker
-- of dead results, and the table as the checks, the dial, the check after the dial and the checks at
-- the end of a session find it.
pub record View : Type 0 where
  pub now : ℕ
  pub contacts : ℕ × ℕ
  pub disc_up : Bool
  pub tracker : Tracker
  pub checked : ConnTable
  pub dialing : ConnTable
  pub dialed : ConnTable
  pub closing : ConnTable

-- The results of a searcher: what was yielded, of it the registrants, each once and in the order in
-- which they first came, and those of them that were new to the node. -1 is `none`.
pub record Finds : Type 0 where
  pub total_yields : ℕ
  pub time_first : ℕ
  pub registered : ℕ
  pub extra : ℕ
  pub seen_reg : List ℕ
  pub unique_at_ms : List ℕ
  pub unique_ids : List ℕ
  pub already_conn_reg : ℕ
  pub seen_new_reg : List ℕ
  pub new_at_ms : List ℕ
  pub target_contacts : Option (ℕ × ℕ)
  pub dead_local : DeadLocal

pub record Dials : Type 0 where
  pub outbound_conns : ℕ
  pub dial_attempts : ℕ
  pub dial_refused : ℕ
  pub slots_filled_at_ms : ℕ
  pub last_dial : ℕ → Option ℕ

-- `iter`, whether it is open, and the contacts of the sessions that are closed.
pub record SearchSession : Type 0 where
  pub is_open : Bool
  pub search_queries : ℕ
  pub search_contacted : ℕ
  pub last_queries : ℕ
  pub last_contacted : ℕ

pub record Lookups : Type 0 where
  pub schedule_idx : ℕ
  pub lookup_start : ℕ
  pub lookup_seen : List ℕ
  pub lookups : ℕ
  pub lookups_hit_target : ℕ
  pub lookup_latency_ms : List ℕ
  pub lookup_results : List ℕ
  pub lookup_queries : List ℕ
  pub lookup_contacted : List ℕ

pub record Searcher : Type 0 where
  pub finds : Finds
  pub dials : Dials
  pub session : SearchSession
  pub looks : Lookups
  pub pace_start : Option ℕ
  pub hit_deadline : Bool

unfoldable pub new_searcher : Pacing → Searcher
new_searcher p = record {
  finds = record {
    total_yields = 0;
    time_first = 0;
    registered = 0;
    extra = 0;
    seen_reg = [];
    unique_at_ms = [];
    unique_ids = [];
    already_conn_reg = 0;
    seen_new_reg = [];
    new_at_ms = [];
    target_contacts = none;
    dead_local = new_local p.topic;
  };
  dials = record {
    outbound_conns = 0;
    dial_attempts = 0;
    dial_refused = 0;
    slots_filled_at_ms = 0;
    last_dial = λ _. none;
  };
  session = record {
    is_open = false;
    search_queries = 0;
    search_contacted = 0;
    last_queries = 0;
    last_contacted = 0;
  };
  looks = record {
    schedule_idx = 0;
    lookup_start = 0;
    lookup_seen = [];
    lookups = 0;
    lookups_hit_target = 0;
    lookup_latency_ms = [];
    lookup_results = [];
    lookup_queries = [];
    lookup_contacted = [];
  };
  pace_start = none;
  hit_deadline = false;
}
