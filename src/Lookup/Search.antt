-- ===== src/Lookup/Search.antt =====
-- A search counts distinct registrants, and reports the target exactly when it is reached.
use topdisc_testbed.Base.{
  ℕ, ◌≡◌, ◌≤◌, ◌<◌, ◌⊎◌, Bool, true, false, not, ◌&&◌, ◌||◌, List, [], ◌∷◌, ◌++◌, arith, refl, sym,
  ◌∙◌, ltb, leb, ◌==◌, has, length, length-append, IsDistinct, if_ind,
}
use topdisc_testbed.Session.{Found}
use topdisc_testbed.Lookup.{
  Pace, waited, timed_out, interrupted, Arrival, arrives, exhausted, halted, Query, Progress,
  Outcome, finished, Round, returns, goes_on, check_target, after_wait, count_node, round, conclude,
  run_from, run_one,
}

abbrev pub ids : List Found → List ℕ
ids [] = []
ids (f ∷ fs) = f.id ∷ ids fs

has-ids :
    (fs : List Found) (f : Found) (j : ℕ)
    → has (ids (fs ++ (f ∷ []))) j ≡ (has (ids fs) j || (f.id == j))
unfolding has
has-ids [] f j = ground arith
has-ids (g ∷ fs) f j = ground (arith, has-ids fs f j)

ids-IsDistinct :
    (fs : List Found) (f : Found)
    → IsDistinct (ids fs)
    → has (ids fs) f.id ≡ false
    → IsDistinct (ids (fs ++ (f ∷ [])))
unfolding has
ids-IsDistinct [] f d h = (refl, tt)
ids-IsDistinct (g ∷ fs) f d h =
    (ground (arith, has-ids fs f g.id, d.0), ids-IsDistinct fs f d.1 (ground arith))

-- Each search paces its results or has a target, not both.
abbrev pub OneMode : Query → Type 0
OneMode q = (q.interval ≡ 0) ⊎ (q.target ≡ 0)

-- The results so far.
record Counted (q : Query) (p : Progress) : Type 0 where
  distinct : IsDistinct (ids p.found)
  counted : (j : ℕ) → has (ids p.found) j ≡ true → q.is_registrant j ≡ true
  listed : length p.found ≡ length p.seen
  same : (j : ℕ) → has (ids p.found) j ≡ has p.seen j

-- The target is not reached yet.
record Searching (q : Query) (p : Progress) : Type 0 where
  so_far : Counted q p
  short : 0 < q.target → length p.seen < q.target

pub record Sound (q : Query) (o : Outcome) : Type 0 where
  pub distinct : IsDistinct (ids o.found)
  pub counted : (j : ℕ) → has (ids o.found) j ≡ true → q.is_registrant j ≡ true
  pub results : o.results ≡ length o.found
  pub hit : o.hit_target ≡ (ltb 0 q.target && (o.results == q.target))
  pub limit : 0 < q.target → o.results ≤ q.target

module _ (q : Query) (m : OneMode q) where
  -- A round keeps searching short of the target, or returns a sound outcome.
  abbrev SoundRound : Round → Type 0
  SoundRound (returns o) = Sound q o
  SoundRound (goes_on p) = Searching q p

  finished-Sound : (p : Progress) (stop : Bool) → Searching q p → Sound q (finished p false stop)
  unfolding finished
  finished-Sound p stop s = record {
    distinct = s.so_far.distinct;
    counted = s.so_far.counted;
    results = sym s.so_far.listed;
    hit = ground (arith, s.short);
    limit = λ h. omega (arith, s.short h);
  }

  check_target-Sound :
      (p : Progress)
      → Counted q p
      → (0 < q.target → length p.seen ≤ q.target)
      → SoundRound (check_target q p)
  unfolding check_target finished
  check_target-Sound p c le =
      if_ind SoundRound (ltb 0 q.target && leb q.target (length p.seen))
        (λ e. record {
          distinct = c.distinct;
          counted = c.counted;
          results = sym c.listed;
          hit = ground (arith, le);
          limit = le;
        })
        (λ e. record { so_far = c; short = λ h. ground (arith, le h) })

  count_node-Counted :
      (p : Progress) (id at : ℕ)
      → Counted q p
      → q.is_registrant id ≡ true
      → has p.seen id ≡ false
      → Counted q (count_node p id at)
  unfolding count_node has
  count_node-Counted p id at c r h =
      let f : Found = record { id = id; at_ms = at } in
      record {
        distinct = ids-IsDistinct p.found f c.distinct (c.same id ∙ h);
        counted = λ j e. ground (arith, has-ids p.found f j, c.counted j);
        listed = omega (arith, length-append p.found (f ∷ []), c.listed);
        same = λ j. ground (arith, has-ids p.found f j, c.same j);
      }

  after_wait-Sound :
      (p : Progress) (pace : Pace)
      → Counted q p
      → (0 < q.target → length p.seen ≤ q.target)
      → 0 < q.interval
      → SoundRound (after_wait q p pace)
  unfolding after_wait
  after_wait-Sound p waited c le h = check_target-Sound p c le
  after_wait-Sound p timed_out c le h =
      finished-Sound p false (record { so_far = c; short = λ k. ground arith })
  after_wait-Sound p interrupted c le h =
      finished-Sound p true (record { so_far = c; short = λ k. ground arith })

  round-Sound : (p : Progress) (a : Arrival) → Searching q p → SoundRound (round q p a)
  unfolding round
  round-Sound p exhausted s = finished-Sound p false s
  round-Sound p halted s = finished-Sound p true s
  round-Sound p (arrives id at pace) s =
      if_ind SoundRound (q.is_registrant id && not (has p.seen id))
        (λ e.
          let c = count_node-Counted p id at s.so_far (ground arith) (ground arith) in
          let le : 0 < q.target → length (count_node p id at).seen ≤ q.target =
            λ h. unfold count_node in omega (arith, s.short h) in
          if_ind SoundRound (ltb 0 q.interval && leb q.initial (length (count_node p id at).seen))
            (λ t. after_wait-Sound (count_node p id at) pace c le (ground arith))
            (λ t. check_target-Sound (count_node p id at) c le))
        (λ e. check_target-Sound p s.so_far (λ h. omega (arith, s.short h)))

  conclude-Sound :
      (r : Round) (next : Progress → Outcome)
      → SoundRound r
      → ((p : Progress) → Searching q p → Sound q (next p))
      → Sound q (conclude r next)
  unfolding conclude
  conclude-Sound (returns o) next h k = h
  conclude-Sound (goes_on p) next h k = k p h

  run_from-Sound :
      (p : Progress) (rest : List Arrival) → Searching q p → Sound q (run_from q p rest)
  unfolding run_from
  run_from-Sound p [] s = finished-Sound p false s
  run_from-Sound p (a ∷ rest) s =
      conclude-Sound (round q p a) (λ p'. run_from q p' rest) (round-Sound p a s)
        (λ p' h. run_from-Sound p' rest h)

-- Whatever arrives, runOne returns distinct nodes, registrants all, and counts them. It reports the
-- target as hit exactly when there is one and so many were found, and finds no more than that; a
-- search has a target or an interval between results, not both.
pub run_one-Sound : (q : Query) (arrivals : List Arrival) → OneMode q → Sound q (run_one q arrivals)
unfolding run_one has
run_one-Sound q arrivals m =
    run_from-Sound q m (record { seen = []; found = [] }) arrivals
      (record {
        so_far = record {
          distinct = tt;
          counted = λ j e. ground arith;
          listed = refl;
          same = λ j. refl;
        };
        short = λ h. h;
      })
