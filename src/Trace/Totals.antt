-- ===== src/Trace/Totals.antt =====
-- The merged trace has what all sessions have together.
use topdisc_testbed.Base.{
  ℕ, ◌≡◌, ◌+◌, ◌≤◌, false, Option, none, some, List, [], ◌∷◌, ◌++◌, arith, refl, sym, ap, ◌∙◌,
  if◌then◌else◌, ◌==◌, adjust, find_or, find_or-adjust, keys, has, IsDistinct, or_else, ℤ, ◌+ℤ◌,
  ◌-ℤ◌, ℕ_discrete,
}
use mathlib.Core.List.{append_assoc, append-nil}
use topdisc_testbed.Trace.{
  Names, Wire, added, conn_of, drops_of, no_names, amount, add_names, add_counters, Found, Conn,
  Trace, Merging, moved_by, merge_conn, merge_one, merge_all, nothing_yet, moved_back, merge_traces,
  wire_of,
}

find_or-absent :
    (typ : ℕ) (wire : Wire) → has (keys wire) typ ≡ false → find_or no_names typ wire ≡ no_names
unfolding find_or keys has
find_or-absent typ [] h = refl
find_or-absent typ ((k, names) ∷ wire) h = ground (arith, find_or-absent typ wire)

added-amount : (n was : Option ℕ) → or_else (added n was) 0 ≡ or_else was 0 + or_else n 0
added-amount none was = omega arith
added-amount (some n) was = refl

amount-adjust :
    (k : ℕ) (names : Names) (c : Wire) (typ name : ℕ)
    → amount (adjust no_names (add_names names) k c) typ name
      ≡ (if k == typ then amount c typ name + or_else (names name) 0 else amount c typ name)
unfolding add_names
amount-adjust k names c typ name =
    ap (λ (f : Names). or_else (f name) 0) (find_or-adjust no_names (add_names names) k typ c)
    ∙ elim (ℕ_discrete k typ) [
      | yes p ↦ ground (
        arith,
        added-amount (names name) (find_or no_names k c name),
        ap (λ t. find_or no_names t c name) p,
      )
      | no p ↦ ground arith
    ]

pub amount-cons :
    (k : ℕ) (names : Names) (wire : Wire) (typ name : ℕ)
    → amount ((k, names) ∷ wire) typ name
      ≡ (if k == typ then or_else (names name) 0 else amount wire typ name)
unfolding find_or
amount-cons k names wire typ name = ground arith

amount-absent :
    (typ name : ℕ) (wire : Wire) → has (keys wire) typ ≡ false → amount wire typ name ≡ 0
amount-absent typ name wire h = ap (λ (f : Names). or_else (f name) 0) (find_or-absent typ wire h)

-- Adding an object adds its counters, if it has each type once.
pub add_counters-amount :
    (c wire : Wire) (typ name : ℕ)
    → IsDistinct (keys wire)
    → amount (add_counters c wire) typ name ≡ amount c typ name + amount wire typ name
unfolding add_counters keys
add_counters-amount c [] typ name d = unfold find_or in omega arith
add_counters-amount c ((k, names) ∷ wire) typ name d =
    add_counters-amount (adjust no_names (add_names names) k c) wire typ name d.1
    ∙ elim (ℕ_discrete k typ) [
      | yes p ↦ ground (
        arith,
        amount-adjust k names c typ name,
        amount-cons k names wire typ name,
        amount-absent k name wire d.0,
        ap (λ t. amount wire t name) p,
      )
      | no p ↦ ground (arith, amount-adjust k names c typ name, amount-cons k names wire typ name)
    ]

abbrev pub AllDistinct : List Trace → Type 0
AllDistinct [] = Unit
AllDistinct (t ∷ ts) = IsDistinct (keys t.wire) × AllDistinct ts

-- What the traces counted together.
abbrev pub counted_by : List Trace → ℕ → ℕ → ℕ
counted_by [] typ name = 0
counted_by (t ∷ ts) typ name = amount t.wire typ name + counted_by ts typ name

abbrev pub dropped_by : List Trace → ℕ
dropped_by [] = 0
dropped_by (t ∷ ts) = or_else t.peer_drops 0 + dropped_by ts

abbrev pub listed_by : ℕ → List Trace → List ℕ
listed_by key [] = []
listed_by key (t ∷ ts) = t.lists key ++ listed_by key ts

-- The dialers' finds with the time of day.
abbrev pub found_at : Option Conn → List Found
found_at none = []
found_at (some c) = moved_by c.start_ms c.found

abbrev pub found_by : List Trace → List Found
found_by [] = []
found_by (t ∷ ts) = found_at t.conn ++ found_by ts

abbrev pub Kept : Merging → Merging → Type 0
Kept m n = (n.wire ≡ m.wire) × (n.drops ≡ m.drops) × (n.lists ≡ m.lists) × (n.samples ≡ m.samples)

pub merge_conn-Kept : (c : Option Conn) (m : Merging) → Kept m (merge_conn c m)
unfolding merge_conn
merge_conn-Kept none m = (refl, refl, refl, refl)
merge_conn-Kept (some c) m = (refl, refl, refl, refl)

merge_conn-found :
    (c : Option Conn) (m : Merging) → (merge_conn c m).conn_found ≡ m.conn_found ++ found_at c
unfolding merge_conn
merge_conn-found none m = sym (append-nil m.conn_found)
merge_conn-found (some c) m = refl

merge_all-wire :
    (ts : List Trace) (m : Merging) (typ name : ℕ)
    → AllDistinct ts
    → amount (merge_all ts m).wire typ name ≡ amount m.wire typ name + counted_by ts typ name
unfolding merge_all merge_one
merge_all-wire [] m typ name d = omega arith
merge_all-wire (t ∷ ts) m typ name (d, ds) =
    merge_all-wire ts (merge_one t m) typ name ds
    ∙ omega (
      arith,
      ap (λ w. amount w typ name) (merge_conn-Kept t.conn _).0,
      add_counters-amount m.wire t.wire typ name d,
    )

merge_all-drops : (ts : List Trace) (m : Merging) → (merge_all ts m).drops ≡ m.drops + dropped_by ts
unfolding merge_all merge_one
merge_all-drops [] m = omega arith
merge_all-drops (t ∷ ts) m =
    merge_all-drops ts (merge_one t m) ∙ omega (arith, (merge_conn-Kept t.conn _).1)

merge_all-lists :
    (ts : List Trace) (m : Merging) (key : ℕ)
    → (merge_all ts m).lists key ≡ m.lists key ++ listed_by key ts
unfolding merge_all merge_one
merge_all-lists [] m key = sym (append-nil (m.lists key))
merge_all-lists (t ∷ ts) m key =
    merge_all-lists ts (merge_one t m) key
    ∙ ap (λ (l : ℕ → List ℕ). l key ++ listed_by key ts) (merge_conn-Kept t.conn _).2
    ∙ append_assoc (m.lists key) (t.lists key) (listed_by key ts)

merge_all-found :
    (ts : List Trace) (m : Merging) → (merge_all ts m).conn_found ≡ m.conn_found ++ found_by ts
unfolding merge_all merge_one
merge_all-found [] m = sym (append-nil m.conn_found)
merge_all-found (t ∷ ts) m =
    merge_all-found ts (merge_one t m)
    ∙ ap (λ fs. fs ++ found_by ts) (merge_conn-found t.conn _)
    ∙ append_assoc m.conn_found (found_at t.conn) (found_by ts)

-- Without a dialer there are no finds.
abbrev Present : Option Conn → List Found → Type 0
Present none found = found ≡ []
Present (some c) found = Unit

merge_conn-Present :
    (c : Option Conn) (m : Merging)
    → Present m.conn m.conn_found
    → Present (merge_conn c m).conn (merge_conn c m).conn_found
unfolding merge_conn
merge_conn-Present none m h = h
merge_conn-Present (some c) m h = tt

merge_all-Present :
    (ts : List Trace) (m : Merging)
    → Present m.conn m.conn_found
    → Present (merge_all ts m).conn (merge_all ts m).conn_found
unfolding merge_all merge_one
merge_all-Present [] m h = h
merge_all-Present (t ∷ ts) m h =
    merge_all-Present ts (merge_one t m) (merge_conn-Present t.conn _ h)

there_and_back : (a b : ℤ) → a +ℤ (b -ℤ a) ≡ b
unfolding ◌+ℤ◌ ◌-ℤ◌
there_and_back a b = ground arith

moved_by-moved_back :
    (start : ℤ) (found : List Found) → moved_by start (moved_back start found) ≡ found
unfolding moved_by moved_back
moved_by-moved_back start [] = refl
moved_by-moved_back start (f ∷ found) =
    ap (λ (t : ℤ). record f { at_ms = t } ∷ moved_by start (moved_back start found))
      (there_and_back start f.at_ms)
    ∙ ap (λ r. f ∷ r) (moved_by-moved_back start found)

found_at-conn_of :
    (o : Option Conn) (found : List Found) → Present o found → found_at (conn_of o found) ≡ found
found_at-conn_of none found h = sym h
found_at-conn_of (some c) found h = moved_by-moved_back c.start_ms found

counted-last :
    (ts : List Trace) (t : Trace) (typ name : ℕ)
    → amount t.wire typ name ≤ counted_by (ts ++ t ∷ []) typ name
counted-last [] t typ name = omega arith
counted-last (u ∷ ts) t typ name = omega (arith, counted-last ts t typ name)

wire_of-amount :
    (w last : Wire) (typ name : ℕ)
    → amount last typ name ≤ amount w typ name
    → amount (wire_of w last) typ name ≡ amount w typ name
unfolding find_or
wire_of-amount [] last typ name h = omega arith
wire_of-amount (c ∷ w) last typ name h = refl

-- If no trace has a message type twice, the merged trace has every counter at the sum over the
-- sessions, and their dropped packets if the last trace has such a count; the entries of each list
-- one session after the other; and the dialers' finds of all sessions at the time of day at which
-- they were made.
pub merge_traces-totals :
    (earlier : List Trace) (last : Trace)
    → AllDistinct (earlier ++ last ∷ [])
    → let all = earlier ++ last ∷ [] in
      let merged = merge_traces earlier last in
      ((typ name : ℕ) → amount merged.wire typ name ≡ counted_by all typ name)
      × (merged.peer_drops ≡ drops_of (dropped_by all) last.peer_drops)
      × ((key : ℕ) → merged.lists key ≡ listed_by key all)
      × (found_at merged.conn ≡ found_by all)
unfolding merge_traces find_or
merge_traces-totals earlier last d =
    let all : List Trace = earlier ++ last ∷ [] in
    let m : Merging = merge_all all nothing_yet in
    (
      (λ typ name.
          let sum : amount m.wire typ name ≡ counted_by all typ name =
            merge_all-wire all nothing_yet typ name d ∙ omega arith in
          wire_of-amount m.wire last.wire typ name
            (omega (arith, sum, counted-last earlier last typ name))
          ∙ sum),
      ap (λ n. drops_of n last.peer_drops) (merge_all-drops all nothing_yet ∙ omega arith),
      (λ key. merge_all-lists all nothing_yet key),
      found_at-conn_of m.conn m.conn_found (merge_all-Present all nothing_yet refl)
          ∙ merge_all-found all nothing_yet,
    )
