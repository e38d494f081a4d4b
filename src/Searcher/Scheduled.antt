-- ===== src/Searcher/Scheduled.antt =====
-- The lookups of a scheduled searcher.
use topdisc_testbed.Base.{
  ℕ, ◌≡◌, ◌+◌, ◌-◌, ◌/◌, ◌≤◌, ◌<◌, ◌⊎◌, inl, inr, Bool, true, false, not, ◌&&◌, ◌||◌, List, [], ◌∷◌,
  ◌++◌, arith, refl, if◌then◌else◌, if_ind, ltb, leb, ◌==◌, insert, length, length-append, bit, All,
  All-append, leb-eq-false, Bool-cases,
}
use topdisc_testbed.ConnTable.{ms}
use topdisc_testbed.Searcher.State.{
  SearchModel, conn, scheduled, continuous, is_scheduled, is_continuous, Pacing, f_lookup, View,
  SearchSession, Lookups, Searcher, new_searcher,
}
use topdisc_testbed.Searcher.Yields.{try_dial}
use topdisc_testbed.Searcher.Loop.{
  Place, SearchEvent, is_away, next_session, start_lookup, finish_search, wait_rejoin, end_session,
  count_lookup, pause, pace, must_stop, after_dial, consume, step, run_events, run_one_searcher,
  open_search, waiting, consuming, pausing, away, parked, ended, pacing, due, drained, woken,
  deadline, node,
}
use topdisc_testbed.Searcher.Counts.{f_lookup_positive}

exclusive : (m : SearchModel) → is_scheduled m ≡ true → is_continuous m ≡ false
exclusive conn h = refl
exclusive scheduled h = refl
exclusive continuous h = absurd (ground arith)

length-insert-le : (a : ℕ) (xs : List ℕ) → length (insert a xs) ≤ length xs + 1
unfolding insert
length-insert-le a xs = ground arith

module _ (p : Pacing) where
  abbrev hits : ℕ → Bool
  hits r = ltb 0 p.target_count && leb (f_lookup p) r

  -- The lookups that found as many registrants as they looked for.
  abbrev pub hit : List ℕ → ℕ
  hit [] = 0
  hit (r ∷ rs) = bit (ltb 0 p.target_count && leb (f_lookup p) r) + hit rs

  hit-append : (rs : List ℕ) (r : ℕ) → hit (rs ++ r ∷ []) ≡ hit rs + bit (hits r)
  hit-append [] r = omega arith
  hit-append (x ∷ rs) r = omega (arith, hit-append rs r)

  -- No more than they looked for, if they looked for a number.
  abbrev pub Stops : ℕ → Type 0
  Stops r = (p.target_count ≡ 0) ⊎ (r ≤ f_lookup p)

  -- One entry of each list for every lookup that ended, in the slices that began.
  abbrev pub LookupsAgree : Lookups → Type 0
  LookupsAgree l =
      (l.lookups ≡ length l.lookup_results)
      × (l.lookups ≡ length l.lookup_latency_ms)
      × (l.lookups ≡ length l.lookup_queries)
      × (l.lookups ≡ length l.lookup_contacted)
      × (l.lookups_hit_target ≡ hit l.lookup_results)
      × All Stops l.lookup_results
      × (l.lookups ≤ l.schedule_idx)
      × (l.schedule_idx ≤ length p.schedule)

  abbrev Closing : Lookups → Type 0
  Closing l = LookupsAgree l × (l.lookups < l.schedule_idx) × Stops (length l.lookup_seen)

  abbrev Running : Lookups → Type 0
  Running l =
      LookupsAgree l
      × (l.lookups < l.schedule_idx)
      × ((p.target_count ≡ 0) ⊎ (length l.lookup_seen < f_lookup p))

  abbrev LooksAt : Lookups → Place → Type 0
  LooksAt l waiting = LookupsAgree l × (l.schedule_idx < length p.schedule)
  LooksAt l consuming = Running l
  LooksAt l pausing = Running l
  LooksAt l (pacing novel) = Running l
  LooksAt l away = LookupsAgree l
  LooksAt l parked = LookupsAgree l
  LooksAt l ended = LookupsAgree l

  abbrev Looks : Searcher × Place → Type 0
  Looks x = LooksAt x.0.looks x.1

  count_lookup-LookupsAgree :
      (v : View) (s : SearchSession) (l : Lookups) → Closing l → LookupsAgree (count_lookup p v s l)
  unfolding count_lookup
  count_lookup-LookupsAgree v s l ((rs, lat, qs, cs, h, st, le, len), lt, sm) =
      let r : ℕ = length l.lookup_seen in
      (
        omega (arith, rs, length-append l.lookup_results (r ∷ [])),
        omega (arith, lat, length-append l.lookup_latency_ms ((v.now - l.lookup_start) / ms ∷ [])),
        omega (arith, qs, length-append l.lookup_queries (s.last_queries ∷ [])),
        omega (arith, cs, length-append l.lookup_contacted (s.last_contacted ∷ [])),
        ground (arith, h, hit-append l.lookup_results r),
        All-append Stops l.lookup_results (r ∷ []) st (sm, tt),
        omega arith,
        len,
      )

  module _ (sch : is_scheduled p.model ≡ true) where
    next_session-Looks :
        (v : View) (s : Searcher) → LookupsAgree s.looks → Looks (next_session p v s)
    unfolding next_session
    next_session-Looks v s a = rw sch (
        if_ind (λ at. LooksAt s.looks at) (leb (length p.schedule) s.looks.schedule_idx) (λ _. a)
          (λ e. (a, leb-eq-false _ _ e)))

    open_search-Running :
        (v : View) (s : Searcher)
        → LookupsAgree s.looks
        → s.looks.lookups < s.looks.schedule_idx
        → Running (open_search p v s).looks
    unfolding open_search
    open_search-Running v s a h = rw sch (a, h, inr (f_lookup_positive p.target_count p.target))

    wait_rejoin-Looks : (v : View) (s : Searcher) → LookupsAgree s.looks → Looks (wait_rejoin p v s)
    unfolding wait_rejoin
    wait_rejoin-Looks v s a = if_ind Looks (is_away p v) (λ _. a) (λ _. next_session-Looks v s a)

    end_session-Looks : (v : View) (s : Searcher) → Closing s.looks → Looks (end_session p v s)
    unfolding end_session
    end_session-Looks v s c =
        rw (exclusive p.model sch, sch)
          (wait_rejoin-Looks v _ (count_lookup-LookupsAgree v _ s.looks c))

    pause-Looks : (novel : Bool) (s : Searcher) → Running s.looks → Looks (pause p novel s)
    unfolding pause
    pause-Looks novel s a =
        if_ind Looks (ltb 0 p.max_pause && (novel || not p.pause_novel_only)) (λ _. a) (λ _. a)

    pace-Looks :
        (v : View) (novel : Bool) (s : Searcher) → Running s.looks → Looks (pace p v novel s)
    unfolding pace
    pace-Looks v novel s a = rw (exclusive p.model sch) (pause-Looks novel s a)

    after_dial-Looks :
        (v : View) (novel : Bool) (s : Searcher) → Closing s.looks → Looks (after_dial p v novel s)
    unfolding after_dial
    after_dial-Looks v novel s (a, lt, sm) = rw sch (
        if_ind Looks (hits (length s.looks.lookup_seen)) (λ _. end_session-Looks v s (a, lt, sm))
          (λ e. pace-Looks v novel s (a, lt, room (length s.looks.lookup_seen) e)))
      where
        room : (n : ℕ) → hits n ≡ false → (p.target_count ≡ 0) ⊎ (n < f_lookup p)
        room n e = elim (Bool-cases (ltb 0 p.target_count)) [
          | inl h ↦ inr (leb-eq-false _ _ (ground arith))
          | inr h ↦ inl (ground arith)
        ]

    seen-Stops :
        (id : ℕ) (xs : List ℕ)
        → (p.target_count ≡ 0) ⊎ (length xs < f_lookup p)
        → Stops (length (insert id xs)) × Stops (length xs)
    seen-Stops id xs (inl z) = (inl z, inl z)
    seen-Stops id xs (inr h) = (inr (omega (arith, length-insert-le id xs)), inr (omega arith))

    consume-Looks :
        (v : View) (id : ℕ) (is_reg : Bool) (s : Searcher)
        → Running s.looks
        → Looks (consume p v id is_reg s)
    unfolding consume
    consume-Looks v id is_reg s (a, lt, room) =
        if_ind Looks (id == p.self) (λ _. (a, lt, room))
          (λ _.
            if_ind Looks (must_stop p v) (λ _. end_session-Looks v _ closing)
              (λ _.
                if_ind Looks (try_dial p v is_reg id s.dials).1 (λ _. end_session-Looks v _ closing)
                  (λ _. after_dial-Looks v _ _ closing)))
      where
        closing : Closing (
            if is_reg && is_scheduled p.model
            then record (s.looks) { lookup_seen = insert id s.looks.lookup_seen }
            else s.looks)
        closing =
            if_ind Closing (is_reg && is_scheduled p.model)
              (λ _. (a, lt, (seen-Stops id s.looks.lookup_seen room).0))
              (λ _. (a, lt, (seen-Stops id s.looks.lookup_seen room).1))

    step-Looks :
        (v : View) (e : SearchEvent) (s : Searcher) (at : Place)
        → LooksAt s.looks at
        → Looks (step p v e s at)
    unfolding step finish_search start_lookup
    step-Looks v deadline s ended a = a
    step-Looks v deadline s waiting a = a.0
    step-Looks v deadline s consuming a = a.0
    step-Looks v deadline s pausing a = a.0
    step-Looks v deadline s (pacing novel) a = a.0
    step-Looks v deadline s away a = a
    step-Looks v deadline s parked a = a
    step-Looks v due s waiting ((rs, lat, qs, cs, h, st, le, len), lt) =
        open_search-Running v _ (rs, lat, qs, cs, h, st, omega arith, omega arith) (omega arith)
    step-Looks v due s consuming a =
        if_ind Looks (is_scheduled p.model && ltb 0 p.request_timeout)
          (λ _. end_session-Looks v s (a.0, a.1, (seen-Stops 0 s.looks.lookup_seen a.2).1)) (λ _. a)
    step-Looks v due s (pacing novel) a = pause-Looks novel s a
    step-Looks v due s pausing a = a
    step-Looks v drained s consuming a =
        end_session-Looks v s (a.0, a.1, (seen-Stops 0 s.looks.lookup_seen a.2).1)
    step-Looks v (node id is_reg) s consuming a = consume-Looks v id is_reg s a
    step-Looks v woken s away a = wait_rejoin-Looks v s a
    step-Looks v woken s parked a = next_session-Looks v s a
    step-Looks v e s at a = a

    run_events-Looks :
        (events : List (View × SearchEvent)) (s : Searcher) (at : Place)
        → LooksAt s.looks at
        → Looks (run_events p events s at)
    unfolding run_events
    run_events-Looks [] s at a = a
    run_events-Looks ((v, e) ∷ events) s at a = run_events-Looks events _ _ (step-Looks v e s at a)

    at_last : (x : Searcher × Place) → Looks x → LookupsAgree x.0.looks
    at_last (s, waiting) a = a.0
    at_last (s, consuming) a = a.0
    at_last (s, pausing) a = a.0
    at_last (s, pacing novel) a = a.0
    at_last (s, away) a = a
    at_last (s, parked) a = a
    at_last (s, ended) a = a

    -- A scheduled searcher never ends more lookups than the slices that began, nor begins more than
    -- there are. Each lookup that ended has its latency, its number of registrants, its queries and
    -- its contacts. If the lookups have a target, none finds more registrants than that, and those
    -- counted as hits are those that found as many.
    pub run_one_searcher-LookupsAgree :
        (v : View) (events : List (View × SearchEvent))
        → LookupsAgree (run_one_searcher p v events).0.looks
    unfolding run_one_searcher new_searcher
    run_one_searcher-LookupsAgree v events = at_last (run_one_searcher p v events) (
        run_events-Looks events _ _ (
          next_session-Looks v (new_searcher p)
            (refl, refl, refl, refl, refl, tt, omega arith, omega arith)))
