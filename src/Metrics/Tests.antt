-- ===== src/Metrics/Tests.antt =====
-- Searchers' results on small traces.
use topdisc_testbed.Base.{
  All, ◌≤ℤ◌, ℕ, ◌≡◌, ◌/◌, ◌≤◌, ◌↔◌, Bool, true, false, none, some, List, [], ◌∷◌, arith, refl,
  length, has, delete, IsDistinct, Within, pos, negsuc, ltb, ◌+ℤ◌, ◌-ℤ◌,
}
use topdisc_testbed.Metrics.Search.{
  Find, RawLookup, RawConn, RawTrace, SearchResult, search_result, merge_finds, note_conn,
  note_conn_finds, note_find, note_lookups, note_lookup, note_lookup_finds, earlier,
}
use topdisc_testbed.Metrics.Finds.{finds_of, ids, times, Lists}
use topdisc_testbed.Metrics.Recall.{FirstIn, search_result-Tells, search_result_recall}

abbrev at : ℕ → ℕ → Find
at id ms = record { id = id; at_ms = pos ms }

abbrev first_lookup : RawLookup
first_lookup = record {
  start_ms = pos 1010;
  latency_ms = pos 50;
  results = 3;
  hit_target = false;
  queries = pos 4;
  contacted = negsuc 0;
  search = none;
  found = at 11 20 ∷ at 12 5 ∷ at 11 40 ∷ [];
}

abbrev dialer : RawConn
dialer = record {
  start_ms = pos 1002;
  found = at 99 1 ∷ at 13 2 ∷ at 12 9 ∷ [];
  slots_filled_ms = pos 30;
  search = none;
}

-- The node 14 looks for the registrants 11 to 14 from 1000 ms on.
abbrev searcher : RawTrace
searcher = record {
  id = 14;
  legacy = false;
  search_at_ms = pos 1000;
  lookups = first_lookup ∷ [];
  outbound = 2;
  conn = some dialer;
}

abbrev members : List ℕ
members = 11 ∷ 12 ∷ 13 ∷ 14 ∷ []

abbrev halved : ℕ → ℕ
halved id = id / 2

abbrev up_at_end : ℕ → Bool
up_at_end id = ltb 11 id

abbrev reported : SearchResult
reported = search_result halved true up_at_end members [] searcher

reported_lem : (reported.unique_registrant ≡ 3) × (reported.time_to_first_ns ≡ pos 4_000_000)
unfolding search_result merge_finds note_conn note_conn_finds note_find note_lookups note_lookup
    note_lookup_finds earlier has ◌+ℤ◌ ◌-ℤ◌
reported_lem = (refl, refl)

search_result-Tells_example :
    Lists halved true up_at_end (finds_of members searcher) reported.merged
    × (reported.unique_registrant ≡ length reported.merged.seen)
    × (reported.found_registrant_ids ≡ reported.merged.unique_found_ids)
    × (All (λ a. pos 0 ≤ℤ a) (times (finds_of members searcher))
        → FirstIn (times (finds_of members searcher)) reported.time_to_first_ns)
unfolding has ◌+ℤ◌ ◌-ℤ◌
search_result-Tells_example = search_result-Tells halved true up_at_end members [] searcher

members-IsDistinct : IsDistinct members
unfolding has
members-IsDistinct = (refl, (refl, (refl, (refl, tt))))

search_result_recall_example :
    (reported.unique_registrant ≤ reported.target)
    × (reported.target_online ≤ reported.target)
    × ((reported.target ≤ reported.unique_registrant)
        ↔ Within (delete 14 members) (ids (finds_of members searcher)))
unfolding has delete
search_result_recall_example =
    search_result_recall halved true up_at_end members [] searcher members-IsDistinct
      (λ j m. ground arith)
