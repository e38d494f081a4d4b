-- ===== src/Searcher/Loop.antt =====
-- cmd/simnet/search.go: the loops of `runOneSearcher` as steps between its waits. The find counts of
-- the checkpoints and the iterator's statistics are left out.
use topdisc_testbed.Base.{
  ℕ, ◌+◌, ◌-◌, ◌/◌, Bool, true, false, not, ◌&&◌, ◌||◌, Option, none, some, List, [], ◌∷◌, ◌++◌,
  if◌then◌else◌, ltb, leb, ◌==◌, has, insert, length,
}
use topdisc_testbed.ConnTable.{ms, is_offline, should_park}
use topdisc_testbed.DeadResult.{Tracker, merge}
use topdisc_testbed.Searcher.State.{
  is_scheduled, is_continuous, Pacing, f_lookup, View, Finds, SearchSession, Lookups, Searcher,
  new_searcher,
}
use topdisc_testbed.Searcher.Yields.{note_yield, try_dial}

-- Where the searcher waits: for the start of a lookup, for a node, for the pace of a continuous
-- search (with `novel`), for the pause after a node, for its rejoin, for a lost peer; or no more.
pub data Place : Type 0 where
  waiting consuming pausing away parked ended : Place
  pacing : Bool → Place

-- A timer that ran out, a node with has(id, topicIdx), the end of the iterator, a wake, the deadline.
pub data SearchEvent : Type 0 where
  due drained woken deadline : SearchEvent
  node : ℕ → Bool → SearchEvent

unfoldable pub close_iter : ℕ × ℕ → SearchSession → SearchSession
close_iter (queries, contacted) s =
    if s.is_open
    then record {
      is_open = false;
      search_queries = s.search_queries + queries;
      search_contacted = s.search_contacted + contacted;
      last_queries = queries;
      last_contacted = contacted;
    }
    else s

abbrev paced_from : View → Option ℕ → Option ℕ
paced_from v none = some v.now
paced_from v (some t) = some t

module _ (p : Pacing) where
  abbrev pub lookup_only : Bool
  lookup_only = is_scheduled p.model || is_continuous p.model

  -- openSearch, with the start of a lookup.
  unfoldable pub open_search : View → Searcher → Searcher
  open_search v s = record s {
    session = record (s.session) { is_open = true };
    looks =
        if is_scheduled p.model
        then record (s.looks) { lookup_start = v.now; lookup_seen = [] }
        else s.looks;
  }

  -- The head of `sessions`.
  unfoldable pub next_session : View → Searcher → Searcher × Place
  next_session v s =
      if is_scheduled p.model
      then (s, if leb (length p.schedule) s.looks.schedule_idx then ended else waiting)
      else (open_search v s, consuming)

  -- The start of the lookup has come.
  unfoldable pub start_lookup : View → Searcher → Searcher × Place
  start_lookup v s = (
    open_search v
        (record s { looks = record (s.looks) { schedule_idx = s.looks.schedule_idx + 1 } }),
    consuming,
  )

  -- `break sessions`, up to the merge of the dead results.
  unfoldable pub finish_search : View → Searcher → Searcher × Place
  finish_search v s = (record s { session = close_iter v.contacts s.session }, ended)

  abbrev pub is_away : View → Bool
  is_away v = (p.has_conns && is_offline v.closing p.node) || not v.disc_up

  unfoldable pub count_lookup : View → SearchSession → Lookups → Lookups
  count_lookup v s l = record l {
    lookups = l.lookups + 1;
    lookups_hit_target =
        if ltb 0 p.target_count && leb (f_lookup p) (length l.lookup_seen)
        then l.lookups_hit_target + 1
        else l.lookups_hit_target;
    lookup_latency_ms = l.lookup_latency_ms ++ (v.now - l.lookup_start) / ms ∷ [];
    lookup_results = l.lookup_results ++ length l.lookup_seen ∷ [];
    lookup_queries = l.lookup_queries ++ s.last_queries ∷ [];
    lookup_contacted = l.lookup_contacted ++ s.last_contacted ∷ [];
  }

  -- `for offline()`, and `continue sessions` after it.
  unfoldable pub wait_rejoin : View → Searcher → Searcher × Place
  wait_rejoin v s = if is_away v then (s, away) else next_session v s

  -- What follows the loop `consume`.
  unfoldable pub end_session : View → Searcher → Searcher × Place
  end_session v s =
      let closed : SearchSession = close_iter v.contacts s.session in
      let s' : Searcher = record s {
        session = closed;
        looks = if is_scheduled p.model then count_lookup v closed s.looks else s.looks;
      } in
      if is_continuous p.model && not (is_away v)
      then (s', ended)
      else if lookup_only
      then wait_rejoin v s'
      else if not p.has_conns || (not p.resumable || not (should_park v.closing p.node))
      then (s', ended)
      else (s', parked)

  unfoldable pub pause : Bool → Searcher → Searcher × Place
  pause novel s =
      if ltb 0 p.max_pause && (novel || not p.pause_novel_only)
      then (s, pausing)
      else (s, consuming)

  -- The pace of a continuous searcher, from the first of the results that are not at once.
  unfoldable pub pace : View → Bool → Searcher → Searcher × Place
  pace v novel s =
      let found = length s.finds.seen_reg in
      if is_continuous p.model
        && (novel && (ltb 0 p.result_interval && leb p.initial_results found))
      then (let s' : Searcher = record s { pace_start = paced_from v s.pace_start } in
          if ltb p.initial_results found then (s', pacing novel) else pause novel s')
      else pause novel s

  -- Whether a node that is full, or away, leaves the loop before it dials.
  unfoldable pub must_stop : View → Bool
  must_stop v =
      p.has_conns
      && (if lookup_only then is_offline v.checked p.node else should_park v.checked p.node)

  -- What follows the dial: the tests for the target.
  unfoldable pub after_dial : View → Bool → Searcher → Searcher × Place
  after_dial v novel s =
      if is_scheduled p.model
      then (if ltb 0 p.target_count && leb (f_lookup p) (length s.looks.lookup_seen)
          then end_session v s
          else pace v novel s)
      else if not (is_continuous p.model)
          && (ltb 0 p.target_count && leb p.target_count (length s.finds.seen_reg))
      then finish_search v s
      else pace v novel s

  unfoldable pub consume : View → ℕ → Bool → Searcher → Searcher × Place
  consume v id is_reg s =
      let since = v.now - p.start in
      let timed : Finds = record (s.finds) {
        time_first = if s.finds.time_first == 0 then since else s.finds.time_first;
      } in
      if id == p.self
      then (record s { finds = timed }, consuming)
      else (let noted : Searcher = record s {
        finds = note_yield p v s.session is_reg id timed;
        looks =
            if is_reg && is_scheduled p.model
            then record (s.looks) { lookup_seen = insert id s.looks.lookup_seen }
            else s.looks;
      } in
          let novel = is_reg && not (has s.finds.seen_reg id) in
          let (d, full) = try_dial p v is_reg id s.dials in
          if must_stop v
          then end_session v noted
          else if full
          then end_session v (record noted { dials = d })
          else after_dial v novel (record noted { dials = d }))

  -- A wait that an event does not end goes on.
  unfoldable pub step : View → SearchEvent → Searcher → Place → Searcher × Place
  step v deadline s ended = (s, ended)
  step v deadline s at = finish_search v (record s { hit_deadline = true })
  step v due s waiting = start_lookup v s
  step v due s consuming =
      if is_scheduled p.model && ltb 0 p.request_timeout then end_session v s else (s, consuming)
  step v due s (pacing novel) = pause novel s
  step v due s pausing = (s, consuming)
  step v drained s consuming = end_session v s
  step v (node id is_reg) s consuming = consume v id is_reg s
  step v woken s away = wait_rejoin v s
  step v woken s parked = next_session v s
  step v e s at = (s, at)

  -- A run from the first session on.
  unfoldable pub run_events : List (View × SearchEvent) → Searcher → Place → Searcher × Place
  run_events [] s at = (s, at)
  run_events ((v, e) ∷ events) s at = let (s', at') = step v e s at in run_events events s' at'

  unfoldable pub run_one_searcher : View → List (View × SearchEvent) → Searcher × Place
  run_one_searcher v events =
      let (s, at) = next_session v (new_searcher p) in run_events events s at

  -- `deadTracker.merge(&dl)`
  unfoldable pub merge_dead : Tracker → Searcher → Tracker
  merge_dead t s = if p.has_dead then merge t s.finds.dead_local else t
