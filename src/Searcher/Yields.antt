-- ===== src/Searcher/Yields.antt =====
-- cmd/simnet/search.go: what a searcher does with a node that the search yields.
use topdisc_testbed.Base.{
  ℕ, ◌+◌, ◌-◌, ◌/◌, Bool, true, false, not, ◌&&◌, Option, none, some, [], ◌∷◌, ◌++◌, if◌then◌else◌,
  ltb, ◌==◌, has, insert, length, update, is_some,
}
use topdisc_testbed.ConnTable.{ms, dial, outbound_full}
use topdisc_testbed.DeadResult.{record_result}
use topdisc_testbed.Searcher.State.{
  is_scheduled, is_continuous, Pacing, f_lookup, View, Finds, Dials, SearchSession,
}

abbrev pub since_ms : Pacing → View → ℕ
since_ms p v = (v.now - p.start) / ms

-- A registrant that was not seen before.
unfoldable pub note_novel : Pacing → View → SearchSession → ℕ → Finds → Finds
note_novel p v s id f =
    let counted : Finds = record f {
      seen_reg = f.seen_reg ++ id ∷ [];
      target_contacts =
          if (length f.seen_reg + 1 == f_lookup p) && not (is_some f.target_contacts)
          then some (s.search_queries + v.contacts.0, s.search_contacted + v.contacts.1)
          else f.target_contacts;
      unique_at_ms = f.unique_at_ms ++ since_ms p v ∷ [];
      unique_ids = f.unique_ids ++ id ∷ [];
    } in
    if has p.connected id
    then record counted { already_conn_reg = f.already_conn_reg + 1 }
    else record counted {
      seen_new_reg = insert id f.seen_new_reg;
      new_at_ms = f.new_at_ms ++ since_ms p v ∷ [];
    }

unfoldable pub note_registrant : Pacing → View → SearchSession → ℕ → Finds → Finds
note_registrant p v s id f =
    let told : Finds = record f {
      dead_local =
          if p.has_dead then record_result f.dead_local v.tracker id v.now else f.dead_local;
    } in
    let noted = if has f.seen_reg id then told else note_novel p v s id told in
    record noted { registered = noted.registered + 1 }

-- From `totalYields++` on; `is_reg` is has(id, topicIdx).
unfoldable pub note_yield : Pacing → View → SearchSession → Bool → ℕ → Finds → Finds
note_yield p v s is_reg id f =
    let f' : Finds = record f { total_yields = f.total_yields + 1 } in
    if is_reg then note_registrant p v s id f' else record f' { extra = f.extra + 1 }

abbrev dialed_within : Option ℕ → ℕ → ℕ → Bool
dialed_within none wait now = false
dialed_within (some t) wait now = ltb (now - t) wait

-- `recentlyDialed`
unfoldable pub recently_dialed : (ℕ → Option ℕ) → ℕ → ℕ → ℕ → Bool
recently_dialed last id wait now = if wait == 0 then false else dialed_within (last id) wait now

-- What the dial returned: (ok, targetFull), and whether the slots are full now.
unfoldable pub note_dial : Pacing → View → Bool → Bool → Dials → Dials × Bool
note_dial p v true target_full d =
    let full = outbound_full v.dialed p.node in
    (
      record d {
        outbound_conns = d.outbound_conns + 1;
        slots_filled_at_ms =
            if full && (d.slots_filled_at_ms == 0) then since_ms p v else d.slots_filled_at_ms;
      },
      full,
    )
note_dial p v false true d = (record d { dial_refused = d.dial_refused + 1 }, false)
note_dial p v false false d = (d, false)

-- Whether the yielded node is dialed.
unfoldable pub dials_it : Pacing → View → Bool → ℕ → Dials → Bool
dials_it p v is_reg id d =
    is_reg
    && (not (is_scheduled p.model)
        && (not (is_continuous p.model)
            && (p.has_conns && not (recently_dialed d.last_dial id p.redial_wait v.now))))

unfoldable pub try_dial : Pacing → View → Bool → ℕ → Dials → Dials × Bool
try_dial p v is_reg id d =
    let (c, ok, target_full) = dial v.dialing p.node id v.now in
    if dials_it p v is_reg id d
    then note_dial p v ok target_full (record d {
      last_dial = update d.last_dial id (some v.now);
      dial_attempts = d.dial_attempts + 1;
    })
    else (d, false)
