-- ===== src/Searcher/Dialing.antt =====
-- Under which conditions a searcher dials.
use topdisc_testbed.Base.{
  ℕ, ◌≡◌, ◌≢◌, ◌+◌, ◌⊎◌, inl, inr, Bool, true, false, not, ◌&&◌, ◌||◌, some, arith, refl, sym,
  subst, if_ind, ltb, leb, ◌==◌, update, length, ==-eq-false,
}
use topdisc_testbed.ConnTable.{dial, should_park}
use topdisc_testbed.Searcher.State.{
  is_scheduled, is_continuous, Pacing, f_lookup, View, Dials, Searcher,
}
use topdisc_testbed.Searcher.Yields.{try_dial, dials_it, note_dial, recently_dialed}
use topdisc_testbed.Searcher.Loop.{
  Place, SearchEvent, lookup_only, is_away, next_session, start_lookup, finish_search, wait_rejoin,
  end_session, pause, pace, must_stop, after_dial, consume, step, open_search, waiting, consuming,
  pausing, away, parked, ended, pacing, due, drained, woken, deadline, node,
}

module _ (p : Pacing) where
  -- The dials that a step leaves, whatever place it goes to.
  abbrev Leaves : Dials → Searcher × Place → Type 0
  Leaves d x = x.0.dials ≡ d

  next_session-Leaves : (v : View) (s : Searcher) → Leaves s.dials (next_session p v s)
  unfolding next_session open_search
  next_session-Leaves v s = if_ind (Leaves s.dials) (is_scheduled p.model) (λ _. refl) (λ _. refl)

  wait_rejoin-Leaves : (v : View) (s : Searcher) → Leaves s.dials (wait_rejoin p v s)
  unfolding wait_rejoin
  wait_rejoin-Leaves v s =
      if_ind (Leaves s.dials) (is_away p v) (λ _. refl) (λ _. next_session-Leaves v s)

  end_session-Leaves : (v : View) (s : Searcher) → Leaves s.dials (end_session p v s)
  unfolding end_session
  end_session-Leaves v s =
      if_ind (Leaves s.dials) (is_continuous p.model && not (is_away p v)) (λ _. refl)
        (λ _.
          if_ind (Leaves s.dials) (lookup_only p) (λ _. wait_rejoin-Leaves v _)
            (λ _.
              if_ind (Leaves s.dials)
                (not p.has_conns || (not p.resumable || not (should_park v.closing p.node)))
                (λ _. refl) (λ _. refl)))

  pause-Leaves : (novel : Bool) (s : Searcher) → Leaves s.dials (pause p novel s)
  unfolding pause
  pause-Leaves novel s =
      if_ind (Leaves s.dials) (ltb 0 p.max_pause && (novel || not p.pause_novel_only)) (λ _. refl)
        (λ _. refl)

  pace-Leaves : (v : View) (novel : Bool) (s : Searcher) → Leaves s.dials (pace p v novel s)
  unfolding pace
  pace-Leaves v novel s =
      if_ind (Leaves s.dials)
        (is_continuous p.model
          && (novel
              && (ltb 0 p.result_interval && leb p.initial_results (length s.finds.seen_reg))))
        (λ _.
          if_ind (Leaves s.dials) (ltb p.initial_results (length s.finds.seen_reg)) (λ _. refl)
            (λ _. pause-Leaves novel _))
        (λ _. pause-Leaves novel s)

  after_dial-Leaves :
      (v : View) (novel : Bool) (s : Searcher) → Leaves s.dials (after_dial p v novel s)
  unfolding after_dial finish_search
  after_dial-Leaves v novel s =
      if_ind (Leaves s.dials) (is_scheduled p.model)
        (λ _.
          if_ind (Leaves s.dials)
            (ltb 0 p.target_count && leb (f_lookup p) (length s.looks.lookup_seen))
            (λ _. end_session-Leaves v s) (λ _. pace-Leaves v novel s))
        (λ _.
          if_ind (Leaves s.dials)
            (not (is_continuous p.model)
              && (ltb 0 p.target_count && leb p.target_count (length s.finds.seen_reg)))
            (λ _. refl) (λ _. pace-Leaves v novel s))

  -- A dial of the node `id`, a registrant, with the conditions under which it is tried.
  pub record Tries (v : View) (id : ℕ) (d e : Dials) : Type 0 where
    pub other : id ≢ p.self
    pub slot_free : should_park v.checked p.node ≡ false
    pub cooled : recently_dialed d.last_dial id p.redial_wait v.now ≡ false
    pub counted : e.dial_attempts ≡ d.dial_attempts + 1
    pub noted : e.last_dial ≡ update d.last_dial id (some v.now)

  abbrev pub Same : Dials → Dials → Type 0
  Same d e = (e.dial_attempts ≡ d.dial_attempts) × (e.last_dial ≡ d.last_dial)

  note_dial-Same : (v : View) (ok full : Bool) (d : Dials) → Same d (note_dial p v ok full d).0
  unfolding note_dial
  note_dial-Same v true full d = (refl, refl)
  note_dial-Same v false true d = (refl, refl)
  note_dial-Same v false false d = (refl, refl)

  guards :
      (v : View) (is_reg : Bool) (id : ℕ) (d : Dials)
      → dials_it p v is_reg id d ≡ true
      → must_stop p v ≡ false
      → (should_park v.checked p.node ≡ false)
        × (recently_dialed d.last_dial id p.redial_wait v.now ≡ false)
  unfolding dials_it must_stop
  guards v is_reg id d h m = (ground arith, ground arith)

  try_dial-Tries :
      (v : View) (is_reg : Bool) (id : ℕ) (d : Dials)
      → id ≢ p.self
      → must_stop p v ≡ false
      → Same d (try_dial p v is_reg id d).0 ⊎ Tries v id d (try_dial p v is_reg id d).0
  unfolding try_dial
  try_dial-Tries v is_reg id d ne m =
      let (c, ok, full) = dial v.dialing p.node id v.now in
      if_ind (λ (x : Dials × Bool). Same d x.0 ⊎ Tries v id d x.0) (dials_it p v is_reg id d)
        (λ h.
          let (free, cool) = guards v is_reg id d h m in
          let (n, l) = note_dial-Same v ok full (record d {
            last_dial = update d.last_dial id (some v.now);
            dial_attempts = d.dial_attempts + 1;
          }) in
          inr (record { other = ne; slot_free = free; cooled = cool; counted = n; noted = l }))
        (λ _. inl (refl, refl))

  abbrev pub Dialing : View → ℕ → Dials → Searcher × Place → Type 0
  Dialing v id d x = Same d x.0.dials ⊎ Tries v id d x.0.dials

  kept :
      (v : View) (id : ℕ) (d c : Dials) (x : Searcher × Place)
      → Leaves c x
      → Same d c ⊎ Tries v id d c
      → Dialing v id d x
  kept v id d c x e = subst (λ c. Same d c ⊎ Tries v id d c) (sym e)

  end_session-Dialing :
      (v : View) (id : ℕ) (d : Dials) (s : Searcher)
      → Same d s.dials ⊎ Tries v id d s.dials
      → Dialing v id d (end_session p v s)
  end_session-Dialing v id d s = kept v id d s.dials (end_session p v s) (end_session-Leaves v s)

  after_dial-Dialing :
      (v : View) (id : ℕ) (novel : Bool) (d : Dials) (s : Searcher)
      → Same d s.dials ⊎ Tries v id d s.dials
      → Dialing v id d (after_dial p v novel s)
  after_dial-Dialing v id novel d s =
      kept v id d s.dials (after_dial p v novel s) (after_dial-Leaves v novel s)

  consume-Dialing :
      (v : View) (id : ℕ) (is_reg : Bool) (s : Searcher)
      → Dialing v id s.dials (consume p v id is_reg s)
  unfolding consume
  consume-Dialing v id is_reg s =
      if_ind (Dialing v id s.dials) (id == p.self) (λ _. inl (refl, refl))
        (λ ne.
          if_ind (Dialing v id s.dials) (must_stop p v)
            (λ _. end_session-Dialing v id s.dials _ (inl (refl, refl)))
            (λ m.
              let tried : Same s.dials (try_dial p v is_reg id s.dials).0
                  ⊎ Tries v id s.dials (try_dial p v is_reg id s.dials).0 =
                try_dial-Tries v is_reg id s.dials (==-eq-false id p.self ne) m in
              if_ind (Dialing v id s.dials) (try_dial p v is_reg id s.dials).1
                (λ _. end_session-Dialing v id s.dials _ tried)
                (λ _. after_dial-Dialing v id _ s.dials _ tried)))

  -- The node of an event.
  abbrev pub node_of : SearchEvent → ℕ
  node_of (node id is_reg) = id
  node_of _ = 0

  pub step-Dialing :
      (v : View) (e : SearchEvent) (s : Searcher) (at : Place)
      → Dialing v (node_of e) s.dials (step p v e s at)
  unfolding step finish_search start_lookup open_search
  step-Dialing v deadline s ended = inl (refl, refl)
  step-Dialing v deadline s at = inl (refl, refl)
  step-Dialing v due s waiting = inl (refl, refl)
  step-Dialing v due s consuming =
      if_ind (Dialing v 0 s.dials) (is_scheduled p.model && ltb 0 p.request_timeout)
        (λ _. end_session-Dialing v 0 s.dials s (inl (refl, refl))) (λ _. inl (refl, refl))
  step-Dialing v due s (pacing novel) =
      kept v 0 s.dials s.dials (pause p novel s) (pause-Leaves novel s) (inl (refl, refl))
  step-Dialing v due s pausing = inl (refl, refl)
  step-Dialing v drained s consuming = end_session-Dialing v 0 s.dials s (inl (refl, refl))
  step-Dialing v (node id is_reg) s consuming = consume-Dialing v id is_reg s
  step-Dialing v woken s away =
      kept v 0 s.dials s.dials (wait_rejoin p v s) (wait_rejoin-Leaves v s) (inl (refl, refl))
  step-Dialing v woken s parked =
      kept v 0 s.dials s.dials (next_session p v s) (next_session-Leaves v s) (inl (refl, refl))
  step-Dialing v e s at = inl (refl, refl)
