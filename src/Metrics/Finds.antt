-- ===== src/Metrics/Finds.antt =====
-- What the merge tells of the finds of a trace.
use topdisc_testbed.Base.{
  ℕ, ◌≡◌, ◌+◌, ◌||◌, Bool, true, false, Option, none, some, List, [], ◌∷◌, ◌++◌, ◌⊎◌, inl, inr,
  arith, refl, sym, ap, ◌∙◌, subst, if◌then◌else◌, if_ind, length, length-append, map, has,
  has-append_one, append_one-IsDistinct, IsDistinct, All, All-append, ℤ, pos, negsuc, ◌+ℤ◌, ◌-ℤ◌,
  ltb_ℤ, ◌≤ℤ◌, ◌==◌, ℕ_discrete,
}
use mathlib.Core.List.{append_assoc, append-nil, map-append}
use topdisc_testbed.Metrics.Search.{
  Find, RawLookup, RawConn, RawTrace, Merge, no_merge, earlier, later, note_find, note_lookup_finds,
  note_lookup, note_lookups, note_conn_finds, note_conn, merge_finds,
}

-- The two ifs of a test go the same way.
if_both :
    {A B : Type 0} (b : Bool) (P : A → B → Type 0) {x y : A} {z w : B}
    → P x z
    → P y w
    → P (if b then x else y) (if b then z else w)
if_both true P p q = p
if_both false P p q = q

-- Finds with their time after the start of the search.
abbrev pub moved : ℤ → List Find → List Find
moved since [] = []
moved since (f ∷ fs) = record { id = f.id; at_ms = since +ℤ f.at_ms } ∷ moved since fs

abbrev pub of_lookups : ℤ → List RawLookup → List Find
of_lookups search_at [] = []
of_lookups search_at (l ∷ ls) = moved (l.start_ms -ℤ search_at) l.found ++ of_lookups search_at ls

abbrev pub provided : List ℕ → List Find → List Find
provided prov [] = []
provided prov (f ∷ fs) = if has prov f.id then f ∷ provided prov fs else provided prov fs

abbrev pub of_conn : List ℕ → ℤ → Option RawConn → List Find
of_conn prov search_at none = []
of_conn prov search_at (some c) = moved (c.start_ms -ℤ search_at) (provided prov c.found)

-- The finds of a trace: all of the lookups', and the dialer's among the providers.
abbrev pub finds_of : List ℕ → RawTrace → List Find
finds_of prov t = of_lookups t.search_at_ms t.lookups ++ of_conn prov t.search_at_ms t.conn

abbrev pub ids : List Find → List ℕ
ids [] = []
ids (f ∷ fs) = f.id ∷ ids fs

abbrev pub times : List Find → List ℤ
times [] = []
times (f ∷ fs) = f.at_ms ∷ times fs

abbrev pub Among : ℤ → List ℤ → Type 0
Among t [] = ⊥
Among t (a ∷ as') = (a ≡ t) ⊎ Among t as'

-- -1 if there are no times, else the least of them.
abbrev pub IsLeast : List ℤ → ℤ → Type 0
IsLeast ts t = All (λ a. t ≤ℤ a) ts × (((ts ≡ []) × (t ≡ negsuc 0)) ⊎ (Among t ts × (pos 0 ≤ℤ t)))

-- The least, where none is negative.
abbrev pub IsEarliest : List ℤ → ℤ → Type 0
IsEarliest ts t = All (λ a. pos 0 ≤ℤ a) ts → IsLeast ts t

ids-append : (xs ys : List Find) → ids (xs ++ ys) ≡ ids xs ++ ids ys
ids-append [] ys = refl
ids-append (f ∷ xs) ys = ap (λ r. f.id ∷ r) (ids-append xs ys)

has_ids-last :
    (xs : List Find) (f : Find) (j : ℕ)
    → has (ids (xs ++ f ∷ [])) j ≡ (has (ids xs) j || (f.id == j))
unfolding has
has_ids-last xs f j = ap (λ ys. has ys j) (ids-append xs (f ∷ [])) ∙ has-append_one (ids xs) f.id j

has_ids-seen :
    (xs : List Find) (f : Find) (j : ℕ)
    → has (ids xs) f.id ≡ true
    → has (ids xs) j ≡ has (ids (xs ++ f ∷ [])) j
has_ids-seen xs f j h = elim (ℕ_discrete f.id j) [
  | yes p ↦ ground (arith, has_ids-last xs f j, ap (has (ids xs)) p)
  | no p ↦ ground (arith, has_ids-last xs f j)
]

times-append : (xs ys : List Find) → times (xs ++ ys) ≡ times xs ++ times ys
times-append [] ys = refl
times-append (f ∷ xs) ys = ap (λ r. f.at_ms ∷ r) (times-append xs ys)

Among-append : (t : ℤ) (xs ys : List ℤ) → Among t xs → Among t (xs ++ ys)
Among-append t [] ys h = elim h [ ]
Among-append t (x ∷ xs) ys (inl p) = inl p
Among-append t (x ∷ xs) ys (inr h) = inr (Among-append t xs ys h)

Among-last : (t : ℤ) (xs : List ℤ) → Among t (xs ++ t ∷ [])
Among-last t [] = inl refl
Among-last t (x ∷ xs) = inr (Among-last t xs)

All-weaken : (t u : ℤ) (xs : List ℤ) → u ≤ℤ t → All (λ a. t ≤ℤ a) xs → All (λ a. u ≤ℤ a) xs
All-weaken t u [] h a = tt
All-weaken t u (x ∷ xs) h (p, a) = (omega arith, All-weaken t u xs h a)

All-last : (P : ℤ → Type 0) (xs : List ℤ) (x : ℤ) → All P (xs ++ x ∷ []) → All P xs × P x
All-last P [] x (p, _) = (tt, p)
All-last P (y ∷ xs) x (q, h) = let (a, p) = All-last P xs x h in ((q, a), p)

-- One more time, later in the list.
earlier-IsEarliest :
    (ts : List ℤ) (t a : ℤ) → IsEarliest ts t → IsEarliest (ts ++ a ∷ []) (earlier t a)
unfolding earlier
earlier-IsEarliest ts t a h ns =
    let (before, p) = All-last (λ a. pos 0 ≤ℤ a) ts a ns in
    let (least, some_or) = h before in
    if_ind (IsLeast (ts ++ a ∷ [])) (ltb_ℤ t (pos 0) || ltb_ℤ a t)
      (λ b. (
        All-append (λ b. a ≤ℤ b) ts (a ∷ []) (bounded some_or least b) (omega arith, tt),
        inr (Among-last a ts, p),
      ))
      (λ b. (
        All-append (λ b. t ≤ℤ b) ts (a ∷ []) least (ground arith, tt),
        elim some_or [
          | inl (e, n) ↦ absurd (ground arith)
          | inr (m, n) ↦ inr (Among-append t ts (a ∷ []) m, n)
        ],
      ))
  where
    bounded :
        ((ts ≡ []) × (t ≡ negsuc 0)) ⊎ (Among t ts × (pos 0 ≤ℤ t))
        → All (λ b. t ≤ℤ b) ts
        → (ltb_ℤ t (pos 0) || ltb_ℤ a t) ≡ true
        → All (λ b. a ≤ℤ b) ts
    bounded (inl (e, n)) l b = subst (All (λ b. a ≤ℤ b)) (sym e) tt
    bounded (inr (m, n)) l b = All-weaken t a ts (ground arith) l

abbrev flags : Bool → (ℕ → Bool) → List ℕ → List Bool
flags churned online seen = if churned then map online seen else []

flags-nil : (churned : Bool) (online : ℕ → Bool) → [] ≡ flags churned online []
flags-nil true online = refl
flags-nil false online = refl

-- What the merge says of the finds `xs`: how many they are, which nodes they are of, each once, with
-- the cut ids, the flags and the times beside them, and the earliest time.
module _ (short : ℕ → ℕ) (churned : Bool) (online : ℕ → Bool) where
  abbrev pub Lists : List Find → Merge → Type 0
  Lists xs r =
      (r.found_registrant ≡ length xs)
      × IsDistinct r.seen
      × ((j : ℕ) → has r.seen j ≡ has (ids xs) j)
      × (r.unique_found_ids ≡ map short r.seen)
      × (r.unique_found_online ≡ flags churned online r.seen)
      × (length r.unique_found_at_ms ≡ length r.seen)
      × (r.new_found_at_ms ≡ r.unique_found_at_ms)

  abbrev pub Tells : List Find → Merge → Type 0
  Tells xs r = Lists xs r × IsEarliest (times xs) r.first

  flags-append :
      (seen : List ℕ) (id : ℕ) (was : List Bool)
      → was ≡ flags churned online seen
      → (if churned then was ++ online id ∷ [] else was) ≡ flags churned online (seen ++ id ∷ [])
  flags-append seen id was e = flags_of churned e
    where
      flags_of :
          (c : Bool)
          → was ≡ flags c online seen
          → (if c then was ++ online id ∷ [] else was) ≡ flags c online (seen ++ id ∷ [])
      flags_of true e = ap (λ s. s ++ online id ∷ []) e ∙ sym (map-append online seen (id ∷ []))
      flags_of false e = e

  note_find-Tells :
      (xs : List Find) (id : ℕ) (at : ℤ) (r : Merge)
      → Tells xs r
      → Tells (xs ++ record { id = id; at_ms = at } ∷ []) (note_find short churned online id at r)
  unfolding note_find
  note_find-Tells xs id at r ((count, d, same, cut, up, n, new), early) =
      let f : Find = record { id = id; at_ms = at } in
      let more : r.found_registrant + 1 ≡ length (xs ++ f ∷ []) =
        omega (arith, count, length-append xs (f ∷ [])) in
      let first : IsEarliest (times (xs ++ f ∷ [])) (earlier r.first at) =
        subst (λ ts. IsEarliest ts (earlier r.first at)) (sym (times-append xs (f ∷ [])))
          (earlier-IsEarliest (times xs) r.first at early) in
      let old : (j : ℕ) → has (ids xs) id ≡ true → has (ids xs) j ≡ has (ids (xs ++ f ∷ [])) j =
        λ j. has_ids-seen xs f j in
      if_ind (Tells (xs ++ f ∷ [])) (has r.seen id)
        (λ p. ((more, d, (λ j. same j ∙ old j (sym (same id) ∙ p)), cut, up, n, new), first))
        (λ p. (
          (
            more,
            append_one-IsDistinct r.seen id d p,
            (λ j. ground (arith, same j, has_ids-last xs f j, has-append_one r.seen id j)),
            ap (λ s. s ++ short id ∷ []) cut ∙ sym (map-append short r.seen (id ∷ [])),
            flags-append r.seen id r.unique_found_online up,
            omega (
              arith,
              n,
              length-append r.seen (id ∷ []),
              length-append r.unique_found_at_ms (at ∷ []),
            ),
            ap (λ s. s ++ at ∷ []) new,
          ),
          first,
        ))

  note_lookup_finds-Tells :
      (since : ℤ) (fs xs : List Find) (r : Merge)
      → Tells xs r
      → Tells (xs ++ moved since fs) (note_lookup_finds short churned online since fs r)
  unfolding note_lookup_finds
  note_lookup_finds-Tells since [] xs r t = subst (λ ys. Tells ys r) (sym (append-nil xs)) t
  note_lookup_finds-Tells since (f ∷ fs) xs r t =
      let one : List Find = record { id = f.id; at_ms = since +ℤ f.at_ms } ∷ [] in
      let r' : Merge = note_find short churned online f.id (since +ℤ f.at_ms) r in
      subst (λ ys. Tells ys (note_lookup_finds short churned online since fs r'))
        (append_assoc xs one (moved since fs))
        (note_lookup_finds-Tells since fs (xs ++ one) r'
          (note_find-Tells xs f.id (since +ℤ f.at_ms) r t))

  note_lookups-Tells :
      (search_at : ℤ) (ls : List RawLookup) (xs : List Find) (r : Merge)
      → Tells xs r
      → Tells (xs ++ of_lookups search_at ls) (note_lookups short churned online search_at ls r)
  unfolding note_lookups note_lookup
  note_lookups-Tells search_at [] xs r t = subst (λ ys. Tells ys r) (sym (append-nil xs)) t
  note_lookups-Tells search_at (l ∷ ls) xs r t =
      let found : List Find = moved (l.start_ms -ℤ search_at) l.found in
      let r' : Merge = note_lookup short churned online search_at l r in
      subst (λ ys. Tells ys (note_lookups short churned online search_at ls r'))
        (append_assoc xs found (of_lookups search_at ls))
        (note_lookups-Tells search_at ls (xs ++ found) r'
          (note_lookup_finds-Tells (l.start_ms -ℤ search_at) l.found xs _ t))

  note_conn_finds-Tells :
      (prov : List ℕ) (since : ℤ) (fs xs : List Find) (r : Merge)
      → Tells xs r
      → Tells
          (xs ++ moved since (provided prov fs))
          (note_conn_finds short churned online prov since fs r)
  unfolding note_conn_finds
  note_conn_finds-Tells prov since [] xs r t = subst (λ ys. Tells ys r) (sym (append-nil xs)) t
  note_conn_finds-Tells prov since (f ∷ fs) xs r t =
      let at : ℤ = since +ℤ f.at_ms in
      let one : List Find = record { id = f.id; at_ms = at } ∷ [] in
      let r' : Merge =
        note_find short churned online f.id at
          (record r { found = r.found + 1; last = later r.last at }) in
      if_both (has prov f.id)
        (λ ys r.
          Tells (xs ++ moved since ys) (note_conn_finds short churned online prov since fs r))
        (subst (λ ys. Tells ys (note_conn_finds short churned online prov since fs r'))
          (append_assoc xs one (moved since (provided prov fs)))
          (note_conn_finds-Tells prov since fs (xs ++ one) r' (note_find-Tells xs f.id at _ t)))
        (note_conn_finds-Tells prov since fs xs r t)

  note_conn-Tells :
      (prov : List ℕ) (search_at : ℤ) (outbound : ℕ) (c : Option RawConn) (xs : List Find)
      (r : Merge)
      → Tells xs r
      → Tells
          (xs ++ of_conn prov search_at c)
          (note_conn short churned online prov search_at outbound c r)
  unfolding note_conn
  note_conn-Tells prov search_at outbound none xs r t =
      subst (λ ys. Tells ys r) (sym (append-nil xs)) t
  note_conn-Tells prov search_at outbound (some c) xs r t =
      note_conn_finds-Tells prov (c.start_ms -ℤ search_at) c.found xs r t

  pub merge_finds-Tells :
      (prov : List ℕ) (t : RawTrace)
      → Tells (finds_of prov t) (merge_finds short churned online prov t)
  unfolding merge_finds has
  merge_finds-Tells prov t =
      note_conn-Tells prov t.search_at_ms t.outbound t.conn (of_lookups t.search_at_ms t.lookups) _
        (note_lookups-Tells t.search_at_ms t.lookups [] no_merge (
          (refl, tt, (λ j. refl), refl, flags-nil churned online, refl, refl),
          (λ h. (tt, inl (refl, refl))),
        ))
