-- ===== src/Searcher/Counts.antt =====
-- What a searcher counts agrees with what it was given, whatever comes.
use mathlib.Core.List.{map-append}
use topdisc_testbed.Base.{
  ℕ, ◌≡◌, ◌+◌, ◌≤◌, ◌<◌, Bool, true, false, not, ◌&&◌, Option, none, some, List, [], ◌∷◌, ◌++◌,
  arith, ap, subst, refl, sym, ◌∙◌, if◌then◌else◌, if_ind, leb, ◌==◌, has, length, length-append,
  length-insert, append_one-IsDistinct, IsDistinct, is_some,
}
use topdisc_testbed.ConnTable.{dial}
use topdisc_testbed.DeadResult.{record_result}
use topdisc_testbed.Searcher.State.{
  Pacing, f_lookup_of, f_lookup, View, Finds, Dials, SearchSession,
}
use topdisc_testbed.Searcher.Firsts.{
  Yield, registrants, ids, times, first_finds, first_finds-append, has-first_finds,
  registrants-append, known_new, unknown_new,
}
use topdisc_testbed.Searcher.Yields.{
  since_ms, note_novel, note_registrant, note_yield, note_dial, try_dial, dials_it,
}

pub f_lookup_positive : (target_count target : ℕ) → 0 < f_lookup_of target_count target
unfolding f_lookup_of
f_lookup_positive target_count target = ground arith

module _ (p : Pacing) where
  -- Those that the node did not know at the start.
  abbrev pub unknown : List (ℕ × ℕ) → List (ℕ × ℕ)
  unknown [] = []
  unknown ((a, t) ∷ xs) = if has p.connected a then unknown xs else (a, t) ∷ unknown xs

  unknown-append :
      (xs : List (ℕ × ℕ)) (a t : ℕ)
      → unknown (xs ++ (a, t) ∷ [])
        ≡ (if has p.connected a then unknown xs else unknown xs ++ (a, t) ∷ [])
  unknown-append [] a t = ground arith
  unknown-append ((b, u) ∷ xs) a t = ground (arith, unknown-append xs a t)

  abbrev pub Listed : List (ℕ × ℕ) → Finds → Type 0
  Listed xs f =
      (f.seen_reg ≡ ids (first_finds xs))
      × IsDistinct f.seen_reg
      × (f.unique_ids ≡ f.seen_reg)
      × (f.unique_at_ms ≡ times (first_finds xs))
      × (f.new_at_ms ≡ times (unknown (first_finds xs)))
      × ((j : ℕ) → has f.seen_new_reg j ≡ (has f.seen_reg j && not (has p.connected j)))
      × (length f.seen_new_reg ≡ length f.new_at_ms)
      × (f.already_conn_reg + length f.seen_new_reg ≡ length f.seen_reg)
      × (is_some f.target_contacts ≡ leb (f_lookup p) (length f.seen_reg))

  -- The accounts against what was yielded: every node counts as a registrant or as extra; the
  -- registrants are listed by their first finds, each with its time, those that were not known with
  -- their own times; and the contacts are taken when the target is reached.
  abbrev pub FindsAgree : List Yield → Finds → Type 0
  FindsAgree ys f =
      (f.total_yields ≡ length ys)
      × (f.registered ≡ length (registrants ys))
      × (f.registered + f.extra ≡ f.total_yields)
      × Listed (registrants ys) f

  reached-novel :
      (xs : List ℕ) (id : ℕ) (o : Option (ℕ × ℕ)) (c : ℕ × ℕ)
      → is_some o ≡ leb (f_lookup p) (length xs)
      → is_some (if (length xs + 1 == f_lookup p) && not (is_some o) then some c else o)
        ≡ leb (f_lookup p) (length (xs ++ id ∷ []))
  reached-novel xs id none c e = ground (arith, length-append xs (id ∷ []))
  reached-novel xs id (some d) c e = ground (arith, length-append xs (id ∷ []))

  length-one : {A : Type 0} (xs : List A) (x : A) → length (xs ++ x ∷ []) ≡ length xs + 1
  length-one xs x = omega (arith, length-append xs (x ∷ []))

  note_novel-Listed :
      (v : View) (s : SearchSession) (id : ℕ) (f : Finds) (xs : List (ℕ × ℕ))
      → has f.seen_reg id ≡ false
      → Listed xs f
      → Listed (xs ++ (id, since_ms p v) ∷ []) (note_novel p v s id f)
  unfolding note_novel
  note_novel-Listed v s id f xs fresh (seen, d, names, at, new_at, new, count, total, r) =
      let t = since_ms p v in
      let firsts = first_finds xs in
      let fresh' : has (ids xs) id ≡ false =
        sym (has-first_finds xs id) ∙ ap (λ l. has l id) (sym seen) ∙ fresh in
      let more : first_finds (xs ++ (id, t) ∷ []) ≡ firsts ++ (id, t) ∷ [] =
        first_finds-append xs id t ∙ rw fresh' refl in
      let seen' : f.seen_reg ++ id ∷ [] ≡ ids (first_finds (xs ++ (id, t) ∷ [])) =
        ap (λ l. l ++ id ∷ []) seen
        ∙ sym (map-append (λ x. x.0) firsts ((id, t) ∷ []))
        ∙ ap ids (sym more) in
      let names' : f.unique_ids ++ id ∷ [] ≡ f.seen_reg ++ id ∷ [] = ap (λ l. l ++ id ∷ []) names in
      let at' : f.unique_at_ms ++ t ∷ [] ≡ times (first_finds (xs ++ (id, t) ∷ [])) =
        ap (λ l. l ++ t ∷ []) at
        ∙ sym (map-append (λ x. x.1) firsts ((id, t) ∷ []))
        ∙ ap times (sym more) in
      let d' : IsDistinct (f.seen_reg ++ id ∷ []) = append_one-IsDistinct f.seen_reg id d fresh in
      let grown : length (f.seen_reg ++ id ∷ []) ≡ length f.seen_reg + 1 =
        length-one f.seen_reg id in
      if_ind (Listed (xs ++ (id, t) ∷ [])) (has p.connected id)
        (λ known. (
          seen',
          d',
          names',
          at',
          new_at ∙ ap times (sym (ap unknown more ∙ unknown-append firsts id t ∙ rw known refl)),
          (λ j. new j ∙ known_new f.seen_reg p.connected id j known),
          count,
          omega (arith, total, grown),
          reached-novel f.seen_reg id f.target_contacts _ r,
        ))
        (λ new_one.
          let absent : has f.seen_new_reg id ≡ false = new id ∙ ground arith in
          let unknown' : unknown (first_finds (xs ++ (id, t) ∷ []))
              ≡ unknown firsts ++ (id, t) ∷ [] =
            ap unknown more ∙ unknown-append firsts id t ∙ rw new_one refl in
          (
            seen',
            d',
            names',
            at',
            ap (λ l. l ++ t ∷ []) new_at
                ∙ sym (map-append (λ x. x.1) (unknown firsts) ((id, t) ∷ []))
                ∙ ap times (sym unknown'),
            (λ j. unknown_new f.seen_reg f.seen_new_reg p.connected id j (new j) new_one),
            omega (arith, count, length-insert id f.seen_new_reg absent, length-one f.new_at_ms t),
            omega (arith, total, grown, length-insert id f.seen_new_reg absent),
            reached-novel f.seen_reg id f.target_contacts _ r,
          ))

  note_novel-counts :
      (v : View) (s : SearchSession) (id : ℕ) (f : Finds)
      → ((note_novel p v s id f).total_yields ≡ f.total_yields)
        × ((note_novel p v s id f).registered ≡ f.registered)
        × ((note_novel p v s id f).extra ≡ f.extra)
  unfolding note_novel
  note_novel-counts v s id f = (ground arith, ground arith, ground arith)

  again-Listed :
      (id t : ℕ) (f : Finds) (xs : List (ℕ × ℕ))
      → has f.seen_reg id ≡ true
      → Listed xs f
      → Listed (xs ++ (id, t) ∷ []) f
  again-Listed id t f xs old l =
      let old' : has (ids xs) id ≡ true =
        sym (has-first_finds xs id) ∙ ap (λ l. has l id) (sym l.0) ∙ old in
      let same : first_finds (xs ++ (id, t) ∷ []) ≡ first_finds xs =
        first_finds-append xs id t ∙ rw old' refl in
      (
        l.0 ∙ ap ids (sym same),
        l.1,
        l.2,
        l.3 ∙ ap times (sym same),
        l.4 ∙ ap (λ x. times (unknown x)) (sym same),
        l.5,
        l.6,
        l.7,
        l.8,
      )

  abbrev pub yielded : View → ℕ → Bool → Yield
  yielded v id is_reg = record { id = id; is_reg = is_reg; at_ms = since_ms p v }

  pub note_yield-FindsAgree :
      (v : View) (s : SearchSession) (is_reg : Bool) (id : ℕ) (f : Finds) (ys : List Yield)
      → FindsAgree ys f
      → FindsAgree (ys ++ yielded v id is_reg ∷ []) (note_yield p v s is_reg id f)
  unfolding note_yield note_registrant
  note_yield-FindsAgree v s false id f ys (total, reg, sum, l) =
      let same = registrants-append ys (yielded v id false) in
      (
        omega (arith, total, length-one ys (yielded v id false)),
        reg ∙ ap length (sym same),
        omega (arith, sum),
        subst (λ xs. Listed xs f) (sym same) l,
      )
  note_yield-FindsAgree v s true id f ys (total, reg, sum, l) =
      let t = since_ms p v in
      let more = registrants-append ys (yielded v id true) in
      let longer : length (registrants (ys ++ yielded v id true ∷ []))
          ≡ length (registrants ys) + 1 =
        ap length more ∙ length-one (registrants ys) (id, t) in
      let all = length-one ys (yielded v id true) in
      let told : Finds = record f {
        total_yields = f.total_yields + 1;
        dead_local =
            if p.has_dead then record_result f.dead_local v.tracker id v.now else f.dead_local;
      } in
      if_ind
        (λ (x : Finds).
          FindsAgree (ys ++ yielded v id true ∷ []) (record x { registered = x.registered + 1 }))
        (has f.seen_reg id)
        (λ old. (
          omega (arith, total, all),
          omega (arith, reg, longer),
          omega (arith, sum),
          subst (λ xs. Listed xs f) (sym more) (again-Listed id t f (registrants ys) old l),
        ))
        (λ fresh.
          let x : Finds = note_novel p v s id told in
          let c = note_novel-counts v s id told in
          (
            omega (arith, total, all, c.0),
            omega (arith, reg, longer, c.1),
            omega (arith, sum, c.0, c.1, c.2),
            subst (λ xs. Listed xs x) (sym more)
                (note_novel-Listed v s id told (registrants ys) fresh l),
          ))

  -- Every attempt succeeds, is refused, or neither.
  abbrev pub DialsAgree : Dials → Type 0
  DialsAgree d = d.outbound_conns + d.dial_refused ≤ d.dial_attempts

  note_dial-DialsAgree :
      (v : View) (ok full : Bool) (d : Dials)
      → d.outbound_conns + d.dial_refused + 1 ≤ d.dial_attempts
      → DialsAgree (note_dial p v ok full d).0
  unfolding note_dial
  note_dial-DialsAgree v true full d h = omega arith
  note_dial-DialsAgree v false true d h = omega arith
  note_dial-DialsAgree v false false d h = omega arith

  pub try_dial-DialsAgree :
      (v : View) (is_reg : Bool) (id : ℕ) (d : Dials)
      → DialsAgree d
      → DialsAgree (try_dial p v is_reg id d).0
  unfolding try_dial
  try_dial-DialsAgree v is_reg id d h =
      let (c, ok, full) = dial v.dialing p.node id v.now in
      if_ind (λ (x : Dials × Bool). DialsAgree x.0) (dials_it p v is_reg id d)
        (λ _. note_dial-DialsAgree v ok full _ (omega (arith, h))) (λ _. h)
