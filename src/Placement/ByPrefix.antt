-- ===== src/Placement/ByPrefix.antt =====
-- What placeByPrefix guarantees of the placement that it returns.
use topdisc_testbed.Base.{
  ℕ, zero, suc, ◌+◌, ◌-◌, ◌≡◌, ◌≢◌, ◌≤◌, ◌<◌, refl, Bool, true, false, ◌&&◌, ◌||◌, Option, none,
  some, List, [], ◌∷◌, if◌then◌else◌, ltb, leb, length, arith, has, IsDistinct, Bool-cases,
  Option-cases, inl, inr, leb→le, if_ind, get_or, subst, ◌∙◌,
}
use topdisc_testbed.Placement.{
  Placing, nowhere, put, put_all, before, insert_group, sort_groups, choose, roomiest, ok,
  place_groups, place_by_prefix,
}
use topdisc_testbed.Placement.Slots.{IsSound, put_all-IsSound}

-- the node is in one of the groups
unfoldable pub has_any : List (ℕ × List ℕ) → ℕ → Bool
has_any [] i = false
has_any ((pre, g) ∷ gs) i = has g i || has_any gs i

-- both nodes are in one group
unfoldable pub same_group : List (ℕ × List ℕ) → ℕ → ℕ → Bool
same_group [] i j = false
same_group ((pre, g) ∷ gs) i j = (has g i && has g j) || same_group gs i j

-- No node stands twice, in one group or in two.
abbrev pub AllDisjoint : List (ℕ × List ℕ) → Type 0
AllDisjoint [] = Unit
AllDisjoint ((pre, g) ∷ gs) =
    IsDistinct g × ((i : ℕ) → has g i ≡ true → has_any gs i ≡ false) × AllDisjoint gs

has_any-insert_group :
    (x : ℕ × List ℕ) (ys : List (ℕ × List ℕ)) (i : ℕ)
    → has_any (insert_group x ys) i ≡ (has x.1 i || has_any ys i)
unfolding has_any insert_group
has_any-insert_group x [] i = refl
has_any-insert_group x (y ∷ ys) i = ground (arith, has_any-insert_group x ys i)

same_group-insert_group :
    (x : ℕ × List ℕ) (ys : List (ℕ × List ℕ)) (i j : ℕ)
    → same_group (insert_group x ys) i j ≡ ((has x.1 i && has x.1 j) || same_group ys i j)
unfolding same_group insert_group
same_group-insert_group x [] i j = refl
same_group-insert_group x (y ∷ ys) i j = ground (arith, same_group-insert_group x ys i j)

insert_group-AllDisjoint :
    (x : ℕ × List ℕ) (ys : List (ℕ × List ℕ))
    → IsDistinct x.1
    → ((i : ℕ) → has x.1 i ≡ true → has_any ys i ≡ false)
    → AllDisjoint ys
    → AllDisjoint (insert_group x ys)
unfolding has_any insert_group
insert_group-AllDisjoint x [] d apart h = (d, apart, tt)
insert_group-AllDisjoint x (y ∷ ys) d apart h = elim (Bool-cases (before y x)) [
  | inl first ↦ rw first (
    h.0,
    λ i e. ground (arith, has_any-insert_group x ys i, h.1 i, apart i),
    insert_group-AllDisjoint x ys d (λ i e. ground (arith, apart i)) h.2,
  )
  | inr later ↦ rw later (d, apart, h)
]

sort_groups-same :
    (gs : List (ℕ × List ℕ)) (i j : ℕ)
    → (has_any (sort_groups gs) i ≡ has_any gs i)
      × (same_group (sort_groups gs) i j ≡ same_group gs i j)
unfolding sort_groups has_any same_group
sort_groups-same [] i j = (refl, refl)
sort_groups-same (x ∷ gs) i j = ground (
  arith,
  sort_groups-same gs i j,
  has_any-insert_group x (sort_groups gs) i,
  same_group-insert_group x (sort_groups gs) i j,
)

sort_groups-AllDisjoint : (gs : List (ℕ × List ℕ)) → AllDisjoint gs → AllDisjoint (sort_groups gs)
unfolding sort_groups
sort_groups-AllDisjoint [] h = tt
sort_groups-AllDisjoint (x ∷ gs) h =
    insert_group-AllDisjoint x (sort_groups gs) h.0
      (λ i e. ground (arith, h.1 i, sort_groups-same gs i i)) (sort_groups-AllDisjoint gs h.2)

-- A machine that the choice may name: it exists, and holds `size` nodes more.
abbrev IsRoomy : (ℕ → ℕ) → (ℕ → ℕ) → ℕ → ℕ → Option ℕ → Type 0
IsRoomy caps used size hosts none = Unit
IsRoomy caps used size hosts (some h) = (h < hosts) × (used h + size ≤ caps h)

choose-IsRoomy :
    (caps used : ℕ → ℕ) (size c hosts : ℕ) (best : Option ℕ)
    → c < hosts
    → IsRoomy caps used size hosts best
    → IsRoomy caps used size hosts (choose caps used size c best)
unfolding choose
choose-IsRoomy caps used size c hosts none lt h =
    if_ind (IsRoomy caps used size hosts) (leb (used c + size) (caps c))
      (λ fits. (lt, leb→le _ _ fits)) (λ _. tt)
choose-IsRoomy caps used size c hosts (some b) lt h =
    if_ind (IsRoomy caps used size hosts)
      (leb (used c + size) (caps c) && ltb (caps b - used b) (caps c - used c))
      (λ fits. (lt, ground arith)) (λ _. h)

roomiest-IsRoomy :
    (caps used : ℕ → ℕ) (size : ℕ) (best : Option ℕ) (c left hosts : ℕ)
    → c + left ≡ hosts
    → IsRoomy caps used size hosts best
    → IsRoomy caps used size hosts (roomiest caps used size best c left)
unfolding roomiest
roomiest-IsRoomy caps used size best c zero hosts e h = h
roomiest-IsRoomy caps used size best c (suc left) hosts e h =
    roomiest-IsRoomy caps used size (choose caps used size c best) (c + 1) left hosts (omega arith)
      (choose-IsRoomy caps used size c hosts best (omega arith) h)

host_of-put_all :
    (p : Placing) (h : ℕ) (g : List ℕ) (i : ℕ)
    → ((put_all p h g).host_of i ≡ (if has g i then h else p.host_of i))
unfolding put_all has
host_of-put_all p h [] i = refl
host_of-put_all p h (j ∷ g) i = ground (arith, host_of-put_all (put p h j) h g i, put)

-- What a run of the loop over the groups adds to a sound placement.
record Placed (caps : ℕ → ℕ) (hosts : ℕ) (p q : Placing) (done : ℕ → Bool) (gs : List (ℕ × List ℕ))
    : Type 0 where
  sound : IsSound caps hosts q (λ j. has_any gs j || done j)
  kept : (i : ℕ) → done i ≡ true → q.host_of i ≡ p.host_of i
  whole : (i j : ℕ) → same_group gs i j ≡ true → q.host_of i ≡ q.host_of j

-- A first group put on one machine, then the others.
Placed-cons :
    (caps : ℕ → ℕ) (hosts : ℕ) (p q : Placing) (done : ℕ → Bool) (h pre : ℕ) (g : List ℕ)
    (gs : List (ℕ × List ℕ))
    → ((i : ℕ) → has g i ≡ true → done i ≡ false)
    → Placed caps hosts (put_all p h g) q (λ j. has g j || done j) gs
    → Placed caps hosts p q done ((pre, g) ∷ gs)
unfolding has_any same_group
Placed-cons caps hosts p q done h pre g gs new rest = record {
  sound = record {
    in_use = λ i e. rest.sound.in_use i (ground arith);
    real_host = λ i e. rest.sound.real_host i (ground arith);
    apart = λ i j ei ej. rest.sound.apart i j (ground arith) (ground arith);
    fits = rest.sound.fits;
  };
  kept = λ i e. ground (arith, rest.kept i, host_of-put_all p h g i, new i);
  whole = λ i j e. ground (
    arith,
    rest.whole i j,
    rest.kept i,
    rest.kept j,
    host_of-put_all p h g i,
    host_of-put_all p h g j,
  );
}

Placed-nil :
    (caps : ℕ → ℕ) (hosts : ℕ) (p q : Placing) (done : ℕ → Bool)
    → IsSound caps hosts p done
    → p ≡ q
    → Placed caps hosts p q done []
unfolding has_any same_group
Placed-nil caps hosts p q done s e =
    subst (λ r. Placed caps hosts p r done []) e
      (record { sound = s; kept = λ i _. refl; whole = λ i j f. cc })

place_groups-Placed :
    (caps : List ℕ) (p q : Placing) (done : ℕ → Bool) (gs : List (ℕ × List ℕ))
    → IsSound (λ h. get_or caps h 0) (length caps) p done
    → AllDisjoint gs
    → ((i : ℕ) → has_any gs i ≡ true → done i ≡ false)
    → place_groups caps p gs ≡ ok q
    → Placed (λ h. get_or caps h 0) (length caps) p q done gs
unfolding place_groups
place_groups-Placed caps p q done [] s d new e =
    Placed-nil (λ h. get_or caps h 0) (length caps) p q done s (cc)
place_groups-Placed caps p q done ((pre, g) ∷ gs) s d new e =
    elim (Option-cases (roomiest room p.used (length g) none 0 (length caps))) [
      | inl none_fits ↦ cc (rw (none_fits, place_groups) at e)
      | inr (h, found) ↦
          let roomy : IsRoomy room p.used (length g) (length caps) (some h) =
            subst (IsRoomy room p.used (length g) (length caps)) found (
              roomiest-IsRoomy room p.used (length g) none 0 (length caps) (length caps)
                (omega arith) tt) in
          Placed-cons room (length caps) p q done h pre g gs
            (λ i f. new i (unfold has_any in ground arith))
            (place_groups-Placed caps (put_all p h g) q (λ j. has g j || done j) gs
              (put_all-IsSound room (length caps) p done h g s roomy.0 d.0
                (λ i f. new i (unfold has_any in ground arith)) roomy.1)
              d.2 (λ i f. unfold has_any in ground (arith, d.1 i, new i))
              (rw (found, place_groups) at e))
    ]
  where
    room : ℕ → ℕ
    room h = get_or caps h 0

-- A placement that placeByPrefix returns gives every node of every /24 a slot of a machine that
-- exists, keeps all nodes of a /24 on one machine, puts no two nodes in one slot, and fills no
-- machine past its capacity; no node may stand twice in the groups.
pub place_by_prefix_sound :
    (caps : List ℕ) (groups : List (ℕ × List ℕ)) {q : Placing}
    → AllDisjoint groups
    → place_by_prefix caps groups ≡ ok q
    → ((i j : ℕ) → same_group groups i j ≡ true → q.host_of i ≡ q.host_of j)
      × ((i : ℕ) → has_any groups i ≡ true → q.host_of i < length caps)
      × ((i : ℕ) → has_any groups i ≡ true → q.local i < get_or caps (q.host_of i) 0)
      × ((i j : ℕ)
          → has_any groups i ≡ true
          → has_any groups j ≡ true
          → i ≢ j
          → q.host_of i ≡ q.host_of j
          → q.local i ≢ q.local j)
unfolding place_by_prefix
place_by_prefix_sound caps groups {q} d e =
    let gs = sort_groups groups in
    let r =
      place_groups-Placed caps nowhere q (λ _. false) gs nothing (sort_groups-AllDisjoint groups d)
        (λ i f. refl) e in
    let placed = λ (i : ℕ) (f : has_any groups i ≡ true).
      placed_too (has_any gs i) ((sort_groups-same groups i i).0 ∙ f) in
    (
      λ i j f. r.whole i j ((sort_groups-same groups i j).1 ∙ f),
      λ i f. r.sound.real_host i (placed i f),
      λ i f. omega (arith, r.sound.in_use i (placed i f), r.sound.fits (q.host_of i)),
      λ i j fi fj. r.sound.apart i j (placed i fi) (placed j fj),
    )
  where
    nothing : IsSound (λ h. get_or caps h 0) (length caps) nowhere (λ _. false)
    nothing = record {
      in_use = λ i f. cc;
      real_host = λ i f. cc;
      apart = λ i j f. cc;
      fits = λ h. omega arith;
    }

    placed_too : (b : Bool) → b ≡ true → (b || false) ≡ true
    placed_too b f = ground arith
