-- ===== src/Searcher/Tests.antt =====
-- Small runs of a searcher.
use topdisc_testbed.Base.{
  ℕ, ◌≡◌, ◌*◌, true, false, List, [], ◌∷◌, arith, refl, insert, has, All, some,
}
use topdisc_testbed.ConnTable.{
  ConnTable, new_conn_table, index_ids, dial, dial_index, connect, refill, outbound_full,
  should_park, is_offline,
}
use topdisc_testbed.DeadResult.{new_tracker, second}
use topdisc_testbed.Searcher.State.{
  SearchModel, conn, scheduled, Pacing, View, Searcher, f_lookup_of, new_searcher,
}
use topdisc_testbed.Searcher.Yields.{
  note_yield, note_registrant, note_novel, recently_dialed, note_dial, dials_it, try_dial,
}
use topdisc_testbed.Searcher.Loop.{
  SearchEvent, node, deadline, due, drained, close_iter, open_search, next_session, finish_search,
  count_lookup, wait_rejoin, end_session, pause, pace, must_stop, after_dial, consume, step,
  run_events, run_one_searcher,
}
use topdisc_testbed.Searcher.Agree.{Agrees, yields, run_one_searcher-Agrees}
use topdisc_testbed.Searcher.Scheduled.{LookupsAgree, run_one_searcher-LookupsAgree}
use topdisc_testbed.Searcher.Cooldown.{tries, IsGuarded, AreApart, tries-AreApart}

-- Node 0, with the id 10, dials up to two of the ids 20 and 30; it knew 30 before.
abbrev pacing_of : SearchModel → Pacing
pacing_of m = record {
  node = 0;
  self = 10;
  topic = 0;
  target = 2;
  connected = 30 ∷ [];
  model = m;
  has_conns = true;
  has_dead = false;
  resumable = true;
  redial_wait = 35 * second;
  target_count = 0;
  request_timeout = 5 * second;
  initial_results = 0;
  result_interval = 0;
  max_pause = 0;
  pause_novel_only = false;
  schedule = 2 * second ∷ 9 * second ∷ [];
  start = second;
}

abbrev table : ConnTable
table = new_conn_table (10 ∷ 20 ∷ 30 ∷ []) 4 2

abbrev at : ℕ → View
at seconds = record {
  now = seconds * second;
  contacts = (3, 2);
  disc_up = true;
  tracker = new_tracker 0 0;
  checked = table;
  dialing = table;
  dialed = table;
  closing = table;
}

-- 20 comes twice and then again after the redial wait; 99 is no registrant.
abbrev events : List (View × SearchEvent)
events =
    (at 2, node 20 true)
    ∷ (at 3, node 99 false)
    ∷ (at 4, node 20 true)
    ∷ (at 40, node 20 true)
    ∷ (at 41, node 30 true)
    ∷ (at 42, deadline)
    ∷ []

abbrev last_state : Searcher
last_state = (run_one_searcher (pacing_of conn) (at 1) events).0

dials_tried :
    (last_state.dials.dial_attempts ≡ 3)
    × (last_state.finds.seen_reg ≡ 20 ∷ 30 ∷ [])
    × (last_state.finds.already_conn_reg ≡ 1)
    × (last_state.finds.target_contacts ≡ some (3, 2))
unfolding run_one_searcher run_events step consume next_session open_search finish_search close_iter
    end_session wait_rejoin after_dial pace pause must_stop count_lookup note_yield note_registrant
    note_novel recently_dialed note_dial dials_it try_dial new_searcher f_lookup_of new_conn_table
    index_ids dial dial_index connect refill outbound_full should_park is_offline has insert
dials_tried = (refl, refl, refl, refl)

run_one_searcher-Agrees_example :
    let p = pacing_of conn in
    let (s, place) = next_session p (at 1) (new_searcher p) in
    Agrees p (yields p events s place) last_state
run_one_searcher-Agrees_example = run_one_searcher-Agrees (pacing_of conn) (at 1) events

-- The first lookup ends with its timer, the second with the search.
abbrev lookup_events : List (View × SearchEvent)
lookup_events =
    (at 2, due) ∷ (at 3, node 20 true) ∷ (at 7, due) ∷ (at 9, due) ∷ (at 10, drained) ∷ []

run_one_searcher-LookupsAgree_example :
    LookupsAgree
      (pacing_of scheduled)
      (run_one_searcher (pacing_of scheduled) (at 1) lookup_events).0.looks
run_one_searcher-LookupsAgree_example =
    run_one_searcher-LookupsAgree (pacing_of scheduled) refl (at 1) lookup_events

tries-AreApart_example :
    let p = pacing_of conn in
    let (s, place) = next_session p (at 1) (new_searcher p) in
    All (IsGuarded p) (tries p events s place) × AreApart p (tries p events s place)
tries-AreApart_example = tries-AreApart (pacing_of conn) (at 1) events (omega arith)
