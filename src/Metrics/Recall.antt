-- ===== src/Metrics/Recall.antt =====
-- What a searcher's result reports: its recall, and the time to the first find.
use topdisc_testbed.Base.{
  ℕ, ◌≡◌, ◌-◌, ◌≤◌, ◌↔◌, ◌⊎◌, inl, inr, Bool, List, [], ◌∷◌, arith, refl, sym, ◌∙◌, if◌then◌else◌,
  if_ind, length, has, delete, length-delete, delete-absent, delete-IsDistinct, IsDistinct, Within,
  Within-length, Within-all, All, ℤ, pos, negsuc, ltb_ℤ, ◌≤ℤ◌,
}
use topdisc_testbed.Metrics.Search.{
  Find, RawTrace, Merge, merge_finds, SearchResult, target_online_of, ns_of, search_result,
}
use topdisc_testbed.Metrics.Finds.{
  finds_of, ids, times, Among, IsEarliest, Lists, merge_finds-Tells,
}

abbrev pub scored : List ℕ → List ℕ → RawTrace → List ℕ
scored registrants providers t = if t.legacy then providers else registrants

-- -1 if there are no times, else the least in nanoseconds.
abbrev pub FirstIn : List ℤ → ℤ → Type 0
FirstIn ts ns =
    ((ts ≡ []) × (ns ≡ negsuc 0)) ⊎ ((m : ℤ) × Among m ts × All (λ a. m ≤ℤ a) ts × (ns ≡ ns_of m))

first-FirstIn :
    (ts : List ℤ) (t : ℤ)
    → All (λ a. pos 0 ≤ℤ a) ts
    → IsEarliest ts t
    → FirstIn ts (if ltb_ℤ t (pos 0) then negsuc 0 else ns_of t)
first-FirstIn ts t ns early = elim (early ns).1 [
  | inl (e, n) ↦ inl (e, ground arith)
  | inr (m, n) ↦ inr (t, m, (early ns).0, ground arith)
]

target_online-le :
    (online : ℕ → Bool) (self : ℕ) (prov : List ℕ)
    → target_online_of online self prov ≤ length (delete self prov)
unfolding target_online_of delete
target_online-le online self [] = omega arith
target_online-le online self (id ∷ prov) = ground (arith, target_online-le online self prov)

length-others :
    (self : ℕ) (prov : List ℕ)
    → IsDistinct prov
    → length (delete self prov) ≡ (if has prov self then length prov - 1 else length prov)
length-others self prov d =
    if_ind (λ n. length (delete self prov) ≡ n) (has prov self)
      (λ p. omega (arith, length-delete self prov d p)) (λ p. rw (delete-absent self prov p) refl)

module _ (short : ℕ → ℕ) (churned : Bool) (online : ℕ → Bool) (registrants providers : List ℕ)
    (t : RawTrace) where
  abbrev prov : List ℕ
  prov = scored registrants providers t

  abbrev result : SearchResult
  result = search_result short churned online registrants providers t

  abbrev found : List Find
  found = finds_of prov t

  -- The result lists the nodes that were found, each once, with the cut ids and, in a run with
  -- absences, whether they were up at the end, in the same order, and as many times; it counts the
  -- finds and these nodes. If no find is from before the search, the time to the first is that of the
  -- earliest find, or -1 if there is none.
  pub search_result-Tells :
      Lists short churned online found result.merged
      × (result.unique_registrant ≡ length result.merged.seen)
      × (result.found_registrant_ids ≡ result.merged.unique_found_ids)
      × (All (λ a. pos 0 ≤ℤ a) (times found) → FirstIn (times found) result.time_to_first_ns)
  unfolding search_result
  search_result-Tells =
      let (lists, early) =
        merge_finds-Tells short churned online (scored registrants providers t) t in
      (lists, refl, refl, λ after. first-FirstIn (times found) _ after early)

  -- Where the finds are of providers other than the searcher, and no provider is listed twice, a
  -- searcher finds no more nodes than its target, and as many exactly if it found every other
  -- provider. Those that are up at the end are no more than the target either.
  pub search_result_recall :
      IsDistinct prov
      → Within (ids found) (delete t.id prov)
      → (result.unique_registrant ≤ result.target)
        × (result.target_online ≤ result.target)
        × ((result.target ≤ result.unique_registrant) ↔ Within (delete t.id prov) (ids found))
  unfolding search_result
  search_result_recall d own =
      let r : Merge = merge_finds short churned online prov t in
      let (lists, _) = merge_finds-Tells short churned online prov t in
      let others : List ℕ = delete t.id prov in
      let e : IsDistinct others = delete-IsDistinct t.id prov d in
      let size : length others ≡ (if has prov t.id then length prov - 1 else length prov) =
        length-others t.id prov d in
      let within : Within r.seen others = λ j m. own j (sym (lists.2 j) ∙ m) in
      (
        omega (arith, size, Within-length r.seen others lists.1 e within),
        omega (arith, size, target_online-le online t.id prov),
        (
          (λ full j m.
              sym (lists.2 j)
              ∙ Within-all r.seen others lists.1 e within (omega (arith, size)) j m),
          (λ all.
              omega
                (arith, size, Within-length others r.seen e lists.1 (λ j m. lists.2 j ∙ all j m))),
        ),
      )
