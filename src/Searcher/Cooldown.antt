-- ===== src/Searcher/Cooldown.antt =====
-- A searcher leaves a node that it dialed alone for a while.
use topdisc_testbed.Base.{
  ℕ, ◌≡◌, ◌≢◌, ◌+◌, ◌≤◌, ◌⊎◌, inl, inr, true, false, Option, some, List, [], ◌∷◌, arith, refl, sym,
  ap, ◌∙◌, if◌then◌else◌, ltb, update, All, ℕ_discrete,
}
use topdisc_testbed.ConnTable.{should_park}
use topdisc_testbed.Searcher.State.{Pacing, View, Searcher, new_searcher}
use topdisc_testbed.Searcher.Yields.{recently_dialed}
use topdisc_testbed.Searcher.Loop.{Place, SearchEvent, next_session, step}
use topdisc_testbed.Searcher.Dialing.{node_of, step-Dialing}

no_more : (n m : ℕ) → m ≡ n → ltb n m ≡ false
no_more n m e = ground arith

one_more : (n m : ℕ) → m ≡ n + 1 → ltb n m ≡ true
one_more n m e = ground arith

update_self : (f : ℕ → Option ℕ) (i k now : ℕ) → i ≡ k → update f k (some now) i ≡ some now
update_self f i k now e = ground arith

update_other : (f : ℕ → Option ℕ) (i k now : ℕ) → i ≢ k → update f k (some now) i ≡ f i
update_other f i k now e = ground arith

module _ (p : Pacing) where
  -- The dials of a run: the node and what the event found.
  pub tries : List (View × SearchEvent) → Searcher → Place → List (ℕ × View)
  tries [] s at = []
  tries ((v, e) ∷ events) s at =
      let (s', at') = step p v e s at in
      if ltb s.dials.dial_attempts s'.dials.dial_attempts
      then (node_of p e, v) ∷ tries events s' at'
      else tries events s' at'

  -- The clock does not go back.
  abbrev pub IsAscendingFrom : ℕ → List (View × SearchEvent) → Type 0
  IsAscendingFrom t [] = Unit
  IsAscendingFrom t ((v, e) ∷ events) = (t ≤ v.now) × IsAscendingFrom v.now events

  abbrev pub Waits : ℕ → ℕ → ℕ × View → Type 0
  Waits id t (id', v) = (id ≢ id') ⊎ (t + p.redial_wait ≤ v.now)

  -- No two of the same node are less than `redial_wait` apart.
  abbrev pub AreApart : List (ℕ × View) → Type 0
  AreApart [] = Unit
  AreApart ((id, v) ∷ rest) = All (Waits id v.now) rest × AreApart rest

  waited :
      (last : ℕ → Option ℕ) (id t t' now : ℕ)
      → last id ≡ some t'
      → t ≤ t'
      → t' ≤ now
      → recently_dialed last id p.redial_wait now ≡ false
      → t + p.redial_wait ≤ now
  unfolding recently_dialed
  waited last id t t' now e l m h = ground arith

  later :
      (events : List (View × SearchEvent)) (s : Searcher) (at : Place) (id t t' now : ℕ)
      → s.dials.last_dial id ≡ some t'
      → t ≤ t'
      → t' ≤ now
      → IsAscendingFrom now events
      → All (Waits id t) (tries events s at)
  unfolding tries
  later [] s at id t t' now e l m a = tt
  later ((v, ev) ∷ events) s at id t t' now e l m (n, a) = elim (step-Dialing p v ev s at) [
    | inl (same, kept) ↦
        rw (no_more _ _ same)
          (later events _ _ id t t' v.now (ap (λ f. f id) kept ∙ e) l (omega arith) a)
    | inr tried ↦ rw (one_more _ _ tried.counted) (elim (ℕ_discrete id (node_of p ev)) [
      | yes q ↦ (
        inr (
            waited s.dials.last_dial (node_of p ev) t t' v.now (ap s.dials.last_dial (sym q) ∙ e) l
              (omega arith) tried.cooled),
        later events _ _ id t v.now v.now
            (ap (λ f. f id) tried.noted ∙ update_self s.dials.last_dial id (node_of p ev) v.now q)
            (omega arith) (omega arith) a,
      )
      | no q ↦ (
        inl q,
        later events _ _ id t t' v.now
            (ap (λ f. f id) tried.noted
              ∙ update_other s.dials.last_dial id (node_of p ev) v.now q
              ∙ e)
            l (omega arith) a,
      )
    ])
  ]

  -- The node is not the searcher itself, and the searcher is up and has a free slot in the table as
  -- it was checked.
  abbrev pub IsGuarded : ℕ × View → Type 0
  IsGuarded (id, v) = (id ≢ p.self) × (should_park v.checked p.node ≡ false)

  tries-Spaced :
      (events : List (View × SearchEvent)) (s : Searcher) (at : Place) (now : ℕ)
      → IsAscendingFrom now events
      → All IsGuarded (tries events s at) × AreApart (tries events s at)
  unfolding tries
  tries-Spaced [] s at now a = (tt, tt)
  tries-Spaced ((v, ev) ∷ events) s at now (n, a) =
      let (guarded, apart) =
        tries-Spaced events (step p v ev s at).0 (step p v ev s at).1 v.now a in
      elim (step-Dialing p v ev s at) [
        | inl (same, kept) ↦ rw (no_more _ _ same) (guarded, apart)
        | inr tried ↦ rw (one_more _ _ tried.counted) (
          ((tried.other, tried.slot_free), guarded),
          (
            later events _ _ (node_of p ev) v.now v.now v.now
                (ap (λ f. f (node_of p ev)) tried.noted
                  ∙ update_self s.dials.last_dial (node_of p ev) (node_of p ev) v.now refl)
                (omega arith) (omega arith) a,
            apart,
          ),
        )
      ]

  -- Where the clock does not go back, a searcher dials, from any session on, only other nodes, only
  -- when the table as it checked it has the searcher up with a free outbound slot, and no node again
  -- before the redial wait has passed since it last tried.
  pub tries-AreApart :
      (v : View) (events : List (View × SearchEvent))
      → IsAscendingFrom v.now events
      → let (s, at) = next_session p v (new_searcher p) in
        All IsGuarded (tries events s at) × AreApart (tries events s at)
  tries-AreApart v events a = tries-Spaced events _ _ v.now a
