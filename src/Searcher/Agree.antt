-- ===== src/Searcher/Agree.antt =====
-- The accounts of a searcher stay in agreement at every step.
use mathlib.Core.List.{append-nil, append_assoc}
use topdisc_testbed.Base.{
  ℕ, ◌-◌, Bool, not, ◌&&◌, ◌||◌, List, [], ◌∷◌, ◌++◌, subst, Bool-cases, inl, inr, has, arith, refl,
  if◌then◌else◌, if_ind, ltb, leb, ◌==◌, length,
}
use topdisc_testbed.ConnTable.{should_park}
use topdisc_testbed.Searcher.State.{
  is_scheduled, is_continuous, Pacing, f_lookup, View, Searcher, new_searcher,
}
use topdisc_testbed.Searcher.Yields.{note_yield, try_dial}
use topdisc_testbed.Searcher.Loop.{
  is_away, lookup_only, Place, SearchEvent, next_session, start_lookup, finish_search, wait_rejoin,
  end_session, pause, pace, must_stop, after_dial, consume, step, run_events, run_one_searcher,
  open_search, waiting, consuming, pausing, away, parked, ended, pacing, due, drained, woken,
  deadline, node,
}
use topdisc_testbed.Searcher.Firsts.{Yield}
use topdisc_testbed.Searcher.Counts.{
  yielded, FindsAgree, DialsAgree, note_yield-FindsAgree, try_dial-DialsAgree, f_lookup_positive,
}

module _ (p : Pacing) where
  -- The accounts of a searcher agree with the nodes that it was given.
  abbrev pub Agrees : List Yield → Searcher → Type 0
  Agrees ys s = FindsAgree p ys s.finds × DialsAgree p s.dials

  abbrev AgreesAt : List Yield → Searcher × Place → Type 0
  AgreesAt ys x = Agrees ys x.0

  next_session-Agrees :
      (ys : List Yield) (v : View) (s : Searcher) → Agrees ys s → AgreesAt ys (next_session p v s)
  unfolding next_session open_search
  next_session-Agrees ys v s a = if_ind (AgreesAt ys) (is_scheduled p.model) (λ _. a) (λ _. a)

  wait_rejoin-Agrees :
      (ys : List Yield) (v : View) (s : Searcher) → Agrees ys s → AgreesAt ys (wait_rejoin p v s)
  unfolding wait_rejoin
  wait_rejoin-Agrees ys v s a =
      if_ind (AgreesAt ys) (is_away p v) (λ _. a) (λ _. next_session-Agrees ys v s a)

  end_session-Agrees :
      (ys : List Yield) (v : View) (s : Searcher) → Agrees ys s → AgreesAt ys (end_session p v s)
  unfolding end_session
  end_session-Agrees ys v s a =
      if_ind (AgreesAt ys) (is_continuous p.model && not (is_away p v)) (λ _. a)
        (λ _.
          if_ind (AgreesAt ys) (lookup_only p) (λ _. wait_rejoin-Agrees ys v _ a)
            (λ _.
              if_ind (AgreesAt ys)
                (not p.has_conns || (not p.resumable || not (should_park v.closing p.node)))
                (λ _. a) (λ _. a)))

  pause-Agrees :
      (ys : List Yield) (novel : Bool) (s : Searcher) → Agrees ys s → AgreesAt ys (pause p novel s)
  unfolding pause
  pause-Agrees ys novel s a =
      if_ind (AgreesAt ys) (ltb 0 p.max_pause && (novel || not p.pause_novel_only)) (λ _. a)
        (λ _. a)

  pace-Agrees :
      (ys : List Yield) (v : View) (novel : Bool) (s : Searcher)
      → Agrees ys s
      → AgreesAt ys (pace p v novel s)
  unfolding pace
  pace-Agrees ys v novel s a =
      if_ind (AgreesAt ys)
        (is_continuous p.model
          && (novel
              && (ltb 0 p.result_interval && leb p.initial_results (length s.finds.seen_reg))))
        (λ _.
          if_ind (AgreesAt ys) (ltb p.initial_results (length s.finds.seen_reg)) (λ _. a)
            (λ _. pause-Agrees ys novel _ a))
        (λ _. pause-Agrees ys novel s a)

  after_dial-Agrees :
      (ys : List Yield) (v : View) (novel : Bool) (s : Searcher)
      → Agrees ys s
      → AgreesAt ys (after_dial p v novel s)
  unfolding after_dial finish_search
  after_dial-Agrees ys v novel s a =
      if_ind (AgreesAt ys) (is_scheduled p.model)
        (λ _.
          if_ind (AgreesAt ys)
            (ltb 0 p.target_count && leb (f_lookup p) (length s.looks.lookup_seen))
            (λ _. end_session-Agrees ys v s a) (λ _. pace-Agrees ys v novel s a))
        (λ _.
          if_ind (AgreesAt ys)
            (not (is_continuous p.model)
              && (ltb 0 p.target_count && leb p.target_count (length s.finds.seen_reg)))
            (λ _. a) (λ _. pace-Agrees ys v novel s a))

  -- The node that a wait gives to be consumed, if any.
  abbrev taken : View → SearchEvent → Place → List Yield
  taken v (node id is_reg) consuming = if id == p.self then [] else yielded p v id is_reg ∷ []
  taken v e at = []

  -- What the searcher is given in a run.
  unfoldable pub yields : List (View × SearchEvent) → Searcher → Place → List Yield
  yields [] s at = []
  yields ((v, e) ∷ events) s at =
      let (s', at') = step p v e s at in taken v e at ++ yields events s' at'

  consume-Agrees :
      (ys : List Yield) (v : View) (id : ℕ) (is_reg : Bool) (s : Searcher)
      → Agrees ys s
      → AgreesAt (ys ++ taken v (node id is_reg) consuming) (consume p v id is_reg s)
  unfolding consume
  consume-Agrees ys v id is_reg s (f, d) =
      let ys' = ys ++ yielded p v id is_reg ∷ [] in
      let f' : FindsAgree p ys' (note_yield p v s.session is_reg id _) =
        note_yield-FindsAgree p v s.session is_reg id
          (record (s.finds) {
            time_first = if s.finds.time_first == 0 then v.now - p.start else s.finds.time_first;
          })
          ys f in
      let d' : DialsAgree p (try_dial p v is_reg id s.dials).0 =
        try_dial-DialsAgree p v is_reg id s.dials d in
      elim (Bool-cases (id == p.self)) [
        | inl own ↦ rw (own, append-nil) (f, d)
        | inr other ↦ rw other (
            if_ind (AgreesAt ys') (must_stop p v) (λ _. end_session-Agrees ys' v _ (f', d))
              (λ _.
                if_ind (AgreesAt ys') (try_dial p v is_reg id s.dials).1
                  (λ _. end_session-Agrees ys' v _ (f', d'))
                  (λ _. after_dial-Agrees ys' v _ _ (f', d'))))
      ]

  -- A step that takes no node.
  none_taken : (ys : List Yield) (x : Searcher × Place) → AgreesAt ys x → AgreesAt (ys ++ []) x
  none_taken ys x a = rw append-nil a

  step-Agrees :
      (ys : List Yield) (v : View) (e : SearchEvent) (s : Searcher) (at : Place)
      → Agrees ys s
      → AgreesAt (ys ++ taken v e at) (step p v e s at)
  unfolding step finish_search start_lookup open_search
  step-Agrees ys v deadline s ended a = none_taken ys (step p v deadline s ended) (a)
  step-Agrees ys v deadline s at a = none_taken ys (step p v deadline s at) (a)
  step-Agrees ys v due s waiting a = none_taken ys (step p v due s waiting) (a)
  step-Agrees ys v due s consuming a = none_taken ys (step p v due s consuming) (
      if_ind (AgreesAt ys) (is_scheduled p.model && ltb 0 p.request_timeout)
        (λ _. end_session-Agrees ys v s a) (λ _. a))
  step-Agrees ys v due s (pacing novel) a =
      none_taken ys (step p v due s (pacing novel)) (pause-Agrees ys novel s a)
  step-Agrees ys v due s pausing a = none_taken ys (step p v due s pausing) (a)
  step-Agrees ys v drained s consuming a =
      none_taken ys (step p v drained s consuming) (end_session-Agrees ys v s a)
  step-Agrees ys v (node id is_reg) s consuming a = consume-Agrees ys v id is_reg s a
  step-Agrees ys v woken s away a =
      none_taken ys (step p v woken s away) (wait_rejoin-Agrees ys v s a)
  step-Agrees ys v woken s parked a =
      none_taken ys (step p v woken s parked) (next_session-Agrees ys v s a)
  step-Agrees ys v e s at a = none_taken ys (step p v e s at) (a)

  run_events-Agrees :
      (ys : List Yield) (events : List (View × SearchEvent)) (s : Searcher) (at : Place)
      → Agrees ys s
      → AgreesAt (ys ++ yields events s at) (run_events p events s at)
  unfolding run_events yields
  run_events-Agrees ys [] s at a = none_taken ys (s, at) a
  run_events-Agrees ys ((v, e) ∷ events) s at a =
      let (s', at') = step p v e s at in
      subst (λ l. AgreesAt l (run_events p events s' at'))
        (append_assoc ys (taken v e at) (yields events s' at'))
        (run_events-Agrees (ys ++ taken v e at) events s' at' (step-Agrees ys v e s at a))

  new_searcher-Agrees : Agrees [] (new_searcher p)
  unfolding new_searcher has
  new_searcher-Agrees = (
    (
      refl,
      refl,
      refl,
      (
        refl,
        tt,
        refl,
        refl,
        refl,
        (λ j. refl),
        refl,
        refl,
        ground (arith, f_lookup_positive p.target_count p.target),
      ),
    ),
    omega arith,
  )

  -- Whatever the search yields and whenever the node leaves and returns, the accounts of a searcher
  -- agree with the nodes that it was given and that are not itself: each is counted, as a registrant
  -- or as extra. The registrants are listed by their first finds, in this order and each with its time;
  -- those known at the start are counted, and the others are kept with their own times. The contacts
  -- for the target are taken exactly when that many registrants are found; and the dials that connect
  -- and those refused are at most those tried.
  pub run_one_searcher-Agrees :
      (v : View) (events : List (View × SearchEvent))
      → let (s, at) = next_session p v (new_searcher p) in
        Agrees (yields events s at) (run_one_searcher p v events).0
  unfolding run_one_searcher
  run_one_searcher-Agrees v events =
      run_events-Agrees [] events _ _ (next_session-Agrees [] v _ new_searcher-Agrees)
