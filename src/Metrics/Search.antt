-- ===== src/Metrics/Search.antt =====
-- pkg/coordinator/metrics.go: the result of one searcher, its lookups and its dialer's search merged.
-- A set of ids is the list of its keys.
use topdisc_testbed.Base.{
  ℕ, ◌+◌, ◌-◌, ◌*◌, Bool, true, false, not, ◌&&◌, ◌||◌, Option, none, some, List, [], ◌∷◌, ◌++◌,
  if◌then◌else◌, length, has, max, ltb, ℤ, pos, negsuc, ◌+ℤ◌, ◌-ℤ◌, ltb_ℤ, ◌==◌,
}

-- One entry of `found`.
pub record Find : Type 0 where
  pub id : ℕ
  pub at_ms : ℤ

pub record SearchStats : Type 0 where
  pub passes : ℕ
  pub queries : ℕ
  pub contacted : ℕ
  pub received : ℕ
  pub duplicate : ℕ
  pub filtered : ℕ
  pub yielded : ℕ
  pub max_topic_per_reply : ℕ
  pub max_aux_per_reply : ℕ
  pub queries_by_bucket : List ℕ
  pub active_trace : List (ℤ × ℕ)

pub record RawLookup : Type 0 where
  pub start_ms : ℤ
  pub latency_ms : ℤ
  pub results : ℕ
  pub hit_target : Bool
  pub queries : ℤ
  pub contacted : ℤ
  pub search : Option SearchStats
  pub found : List Find

pub record RawConn : Type 0 where
  pub start_ms : ℤ
  pub found : List Find
  pub slots_filled_ms : ℤ
  pub search : Option SearchStats

-- What the result of a searcher reads of a trace.
pub record RawTrace : Type 0 where
  pub id : ℕ
  pub legacy : Bool
  pub search_at_ms : ℤ
  pub lookups : List RawLookup
  pub outbound : ℕ
  pub conn : Option RawConn

-- `for i, q := range st.QueriesByBucket`, which lengthens the sums where they are shorter.
unfoldable pub add_buckets : List ℕ → List ℕ → List ℕ
add_buckets sums [] = sums
add_buckets [] (q ∷ qs) = q ∷ add_buckets [] qs
add_buckets (s ∷ sums) (q ∷ qs) = (s + q) ∷ add_buckets sums qs

abbrev no_stats : SearchStats
no_stats = record {
  passes = 0;
  queries = 0;
  contacted = 0;
  received = 0;
  duplicate = 0;
  filtered = 0;
  yielded = 0;
  max_topic_per_reply = 0;
  max_aux_per_reply = 0;
  queries_by_bucket = [];
  active_trace = [];
}

abbrev trace_of : List (ℤ × ℕ) → List (ℤ × ℕ) → List (ℤ × ℕ)
trace_of [] new = new
trace_of (a ∷ as') new = a ∷ as'

unfoldable pub plus_stats : SearchStats → SearchStats → SearchStats
plus_stats dst st = record {
  passes = dst.passes + st.passes;
  queries = dst.queries + st.queries;
  contacted = dst.contacted + st.contacted;
  received = dst.received + st.received;
  duplicate = dst.duplicate + st.duplicate;
  filtered = dst.filtered + st.filtered;
  yielded = dst.yielded + st.yielded;
  max_topic_per_reply = max dst.max_topic_per_reply st.max_topic_per_reply;
  max_aux_per_reply = max dst.max_aux_per_reply st.max_aux_per_reply;
  queries_by_bucket = add_buckets dst.queries_by_bucket st.queries_by_bucket;
  active_trace = trace_of dst.active_trace st.active_trace;
}

-- A nil pointer is `none`.
unfoldable pub add_stats : Option SearchStats → Option SearchStats → Option SearchStats
add_stats dst none = dst
add_stats none (some st) = some (plus_stats no_stats st)
add_stats (some dst) (some st) = some (plus_stats dst st)

-- The fields of a `searchResult` that the merge fills, with `seen`, `first` and `last` beside them.
pub record Merge : Type 0 where
  pub lookups : ℕ
  pub lookups_hit_target : ℕ
  pub hit_timeout : Bool
  pub lookup_latency_ms : List ℤ
  pub lookup_results : List ℕ
  pub lookup_queries : List ℤ
  pub lookup_contacted : List ℤ
  pub search_stats : Option SearchStats
  pub found : ℕ
  pub found_registrant : ℕ
  pub unique_found_ids : List ℕ
  pub unique_found_at_ms : List ℤ
  pub unique_found_online : List Bool
  pub new_found_at_ms : List ℤ
  pub outbound_conns : ℕ
  pub slots_filled_at_ms : ℤ
  pub seen : List ℕ
  pub first : ℤ
  pub last : ℤ

abbrev pub no_merge : Merge
no_merge = record {
  lookups = 0;
  lookups_hit_target = 0;
  hit_timeout = false;
  lookup_latency_ms = [];
  lookup_results = [];
  lookup_queries = [];
  lookup_contacted = [];
  search_stats = none;
  found = 0;
  found_registrant = 0;
  unique_found_ids = [];
  unique_found_at_ms = [];
  unique_found_online = [];
  new_found_at_ms = [];
  outbound_conns = 0;
  slots_filled_at_ms = pos 0;
  seen = [];
  first = negsuc 0;
  last = pos 0;
}

-- `if first < 0 || at < first`
unfoldable pub earlier : ℤ → ℤ → ℤ
earlier first at = if ltb_ℤ first (pos 0) || ltb_ℤ at first then at else first

-- `if v > last`
unfoldable pub later : ℤ → ℤ → ℤ
later last v = if ltb_ℤ last v then v else last

abbrev when_known : ℤ → List ℤ → List ℤ
when_known n ns = if ltb_ℤ n (pos 0) then ns else ns ++ n ∷ []

-- `short` cuts an id, `churned` says whether the run has absences, and `online` whether a node was up
-- when the searches stopped.
module _ (short : ℕ → ℕ) (churned : Bool) (online : ℕ → Bool) where
  -- The part of the two loops over `found` that they share.
  unfoldable pub note_find : ℕ → ℤ → Merge → Merge
  note_find id at r =
      let r' : Merge = record r {
        found_registrant = r.found_registrant + 1;
        first = earlier r.first at;
      } in
      if has r.seen id then r' else record r' {
        seen = r.seen ++ id ∷ [];
        unique_found_ids = r.unique_found_ids ++ short id ∷ [];
        unique_found_at_ms = r.unique_found_at_ms ++ at ∷ [];
        unique_found_online =
            if churned then r.unique_found_online ++ online id ∷ [] else r.unique_found_online;
        new_found_at_ms = r.new_found_at_ms ++ at ∷ [];
      }

  -- `for _, f := range l.Found`; `since` is the lookup's start after the search's.
  unfoldable pub note_lookup_finds : ℤ → List Find → Merge → Merge
  note_lookup_finds since [] r = r
  note_lookup_finds since (f ∷ fs) r =
      note_lookup_finds since fs (note_find f.id (since +ℤ f.at_ms) r)

  unfoldable pub note_lookup : ℤ → RawLookup → Merge → Merge
  note_lookup search_at l r = note_lookup_finds (l.start_ms -ℤ search_at) l.found (record r {
    lookups = r.lookups + 1;
    lookups_hit_target = if l.hit_target then r.lookups_hit_target + 1 else r.lookups_hit_target;
    hit_timeout = if l.hit_target then r.hit_timeout else true;
    lookup_latency_ms = r.lookup_latency_ms ++ l.latency_ms ∷ [];
    lookup_results = r.lookup_results ++ l.results ∷ [];
    lookup_queries = when_known l.queries r.lookup_queries;
    lookup_contacted = when_known l.contacted r.lookup_contacted;
    search_stats = add_stats r.search_stats l.search;
    found = r.found + l.results;
    last = later r.last (l.start_ms +ℤ l.latency_ms -ℤ search_at);
  })

  unfoldable pub note_lookups : ℤ → List RawLookup → Merge → Merge
  note_lookups search_at [] r = r
  note_lookups search_at (l ∷ ls) r = note_lookups search_at ls (note_lookup search_at l r)

  -- `for _, f := range c.Found`: only providers count.
  unfoldable pub note_conn_finds : List ℕ → ℤ → List Find → Merge → Merge
  note_conn_finds prov since [] r = r
  note_conn_finds prov since (f ∷ fs) r =
      let at = since +ℤ f.at_ms in
      note_conn_finds prov since fs (
        if has prov f.id
        then note_find f.id at (record r { found = r.found + 1; last = later r.last at })
        else r)

  unfoldable pub note_conn : List ℕ → ℤ → ℕ → Option RawConn → Merge → Merge
  note_conn prov search_at outbound none r = r
  note_conn prov search_at outbound (some c) r =
      let r' = note_conn_finds prov (c.start_ms -ℤ search_at) c.found r in
      record r' {
        outbound_conns = outbound;
        slots_filled_at_ms =
            if ltb_ℤ c.slots_filled_ms (pos 0)
            then r'.slots_filled_at_ms
            else c.start_ms +ℤ c.slots_filled_ms -ℤ search_at;
        search_stats = add_stats r'.search_stats c.search;
      }

  -- The merge of a trace against the providers of its topic.
  unfoldable pub merge_finds : List ℕ → RawTrace → Merge
  merge_finds prov t =
      note_conn prov t.search_at_ms t.outbound t.conn
        (note_lookups t.search_at_ms t.lookups no_merge)

-- The rest of a `searchResult`, with the merge.
pub record SearchResult : Type 0 where
  pub target : ℕ
  pub target_online : ℕ
  pub unique_registrant : ℕ
  pub new_registrant : ℕ
  pub found_registrant_ids : List ℕ
  pub time_to_first_ns : ℤ
  pub time_to_completion_ns : ℤ
  pub merged : Merge

-- `for id := range prov { if id != t.ID && online(id, stopMs) { r.TargetOnline++ } }`
unfoldable pub target_online_of : (ℕ → Bool) → ℕ → List ℕ → ℕ
target_online_of online self [] = 0
target_online_of online self (id ∷ prov) =
    if not (id == self) && online id
    then target_online_of online self prov + 1
    else target_online_of online self prov

-- Milliseconds in nanoseconds.
abbrev pub ns_of : ℤ → ℤ
ns_of (pos n) = pos (n * 1_000_000)
ns_of (negsuc n) = negsuc (n * 1_000_000 + 999_999)

abbrev has_conn : Option RawConn → Bool
has_conn none = false
has_conn (some c) = true

-- Whether a trace gives a result: a TopDisc searcher, or an older one that searched.
unfoldable pub is_searcher : RawTrace → Bool
is_searcher t = not t.legacy || has_conn t.conn || ltb 0 (length t.lookups)

unfoldable pub search_result :
    (ℕ → ℕ) → Bool → (ℕ → Bool) → List ℕ → List ℕ → RawTrace → SearchResult
search_result short churned online registrants providers t =
    let prov = if t.legacy then providers else registrants in
    let r = merge_finds short churned online prov t in
    record {
      target = if has prov t.id then length prov - 1 else length prov;
      target_online = target_online_of online t.id prov;
      unique_registrant = length r.seen;
      new_registrant = length r.seen;
      found_registrant_ids = r.unique_found_ids;
      time_to_first_ns = if ltb_ℤ r.first (pos 0) then negsuc 0 else ns_of r.first;
      time_to_completion_ns = ns_of r.last;
      merged = r;
    }
