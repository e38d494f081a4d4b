-- ===== src/Session/Accounts.antt =====
-- What a node keeps of its sessions: the counters are their sums, the records their lists in order,
-- the first capable record the earliest.
use mathlib.Core.List.{append-nil, append_assoc}
use topdisc_testbed.Base.{
  ℕ, ◌+◌, ◌≡◌, Bool, false, Option, none, some, List, [], ◌∷◌, ◌++◌, arith, refl, sym, ◌∙◌, ap, leb,
  length, length-append, ◌||◌, has, find_or, adjust, keys, find_or-adjust, IsDistinct,
}
use topdisc_testbed.Session.{
  Counter, counter_zero, add_counter, add_wire, add_load, min_capable, Session, Node, new_node,
  fold, fold_conn,
}

add_counter-zero : (c : Counter) → add_counter counter_zero c ≡ c
unfolding add_counter
add_counter-zero c = ground arith

add_zero : (c : Counter) → c ≡ add_counter c counter_zero
unfolding add_counter
add_zero c = ground arith

add_counter_assoc :
    (a b c : Counter) → add_counter (add_counter a b) c ≡ add_counter a (add_counter b c)
unfolding add_counter
add_counter_assoc a b c = ground arith

find_or-absent :
    (d : Counter) (k : ℕ) (m : List (ℕ × Counter)) → has (keys m) k ≡ false → find_or d k m ≡ d
unfolding find_or keys has
find_or-absent d k [] h = refl
find_or-absent d k ((j, v) ∷ m) h = ground (arith, find_or-absent d k m)

-- The counters of message `k`.
abbrev pub wire_at : ℕ → List (ℕ × Counter) → Counter
wire_at k m = find_or counter_zero k m

abbrev pub capable_by : ℕ → Option ℕ → Bool
capable_by t none = false
capable_by t (some a) = leb a t

capable_by-min_capable :
    (t : ℕ) (a b : Option ℕ) → capable_by t (min_capable a b) ≡ (capable_by t a || capable_by t b)
unfolding min_capable
capable_by-min_capable t none b = refl
capable_by-min_capable t (some a) none = ground arith
capable_by-min_capable t (some a) (some b) = ground arith

pub wire_at-add_wire :
    (k : ℕ) (a b : List (ℕ × Counter))
    → IsDistinct (keys b)
    → wire_at k (add_wire a b) ≡ add_counter (wire_at k a) (wire_at k b)
unfolding add_wire find_or keys
wire_at-add_wire k a [] d = add_zero (find_or counter_zero k a)
wire_at-add_wire k a ((j, v) ∷ b) d =
    wire_at-add_wire k (adjust counter_zero (λ c. add_counter c v) j a) b d.1
    ∙ ground (
      arith,
      find_or-adjust counter_zero (λ c. add_counter c v) j k a,
      find_or-absent counter_zero k b,
      d.0,
      add_zero (add_counter (wire_at k a) v),
    )

module _ {L O : Type 0} where
  -- The sessions, closed one after the other, each with the time of its end.
  unfoldable pub fold_all : Node L O → List (Session L O × ℕ) → Node L O
  fold_all n [] = n
  fold_all n ((s, end_) ∷ ss) = fold_all (fold n s end_) ss

  -- Of each session no message stands twice in the map of its counters.
  abbrev pub AllMaps : List (Session L O × ℕ) → Type 0
  AllMaps [] = Unit
  AllMaps ((s, end_) ∷ ss) = IsDistinct (keys s.wire) × AllMaps ss

  -- The counters of message k, added up over the sessions.
  abbrev pub sum_wire : ℕ → List (Session L O × ℕ) → Counter
  sum_wire k [] = counter_zero
  sum_wire k ((s, end_) ∷ ss) = add_counter (wire_at k s.wire) (sum_wire k ss)

  abbrev pub all_lookups : List (Session L O × ℕ) → List L
  all_lookups [] = []
  all_lookups ((s, end_) ∷ ss) = s.lookups ++ all_lookups ss

  -- A capable record was held by the time t.
  abbrev pub any_capable : ℕ → List (Session L O × ℕ) → Bool
  any_capable t [] = false
  any_capable t ((s, end_) ∷ ss) = capable_by t s.first_capable || any_capable t ss

  fold_conn-keeps :
      (n : Node L O) (s : Session L O) (o : Option ℕ)
      → let n' = fold_conn n s o in
        (n'.wire_done ≡ n.wire_done)
        × (n'.lookups_done ≡ n.lookups_done)
        × (n'.first_capable ≡ n.first_capable)
  unfolding fold_conn
  fold_conn-keeps n s none = (refl, refl, refl)
  fold_conn-keeps n s (some x) = (refl, refl, refl)

  record Folded (n : Node L O) (s : Session L O) (n' : Node L O) : Type 0 where
    wire : n'.wire_done ≡ add_wire n.wire_done s.wire
    lookups : n'.lookups_done ≡ n.lookups_done ++ s.lookups
    capable : n'.first_capable ≡ min_capable n.first_capable s.first_capable
    count : length n'.sessions ≡ length n.sessions + 1

  fold-Folded : (n : Node L O) (s : Session L O) (end_ : ℕ) → Folded n s (fold n s end_)
  unfolding fold
  fold-Folded n s end_ =
      let totals = record n {
        lookups_done = n.lookups_done ++ s.lookups;
        ops_done = n.ops_done ++ s.ops;
        wire_done = add_wire n.wire_done s.wire;
        topic_load_done = add_load n.topic_load_done s.topic_load;
        first_capable = min_capable n.first_capable s.first_capable;
      } in
      let k = fold_conn-keeps totals s s.conn_start in
      record {
        wire = k.0;
        lookups = k.1;
        capable = k.2;
        count = length-append n.sessions (record { start_ms = s.started; end_ms = end_ } ∷ []);
      }

  record Totals (n : Node L O) (ss : List (Session L O × ℕ)) (n' : Node L O) : Type 0 where
    wire : (k : ℕ) → wire_at k n'.wire_done ≡ add_counter (wire_at k n.wire_done) (sum_wire k ss)
    lookups : n'.lookups_done ≡ n.lookups_done ++ all_lookups ss
    capable :
        (t : ℕ) → capable_by t n'.first_capable ≡ (capable_by t n.first_capable || any_capable t ss)
    count : length n'.sessions ≡ length n.sessions + length ss

  fold_all-Totals :
      (n : Node L O) (ss : List (Session L O × ℕ)) → AllMaps ss → Totals n ss (fold_all n ss)
  unfolding fold_all
  fold_all-Totals n [] d = record {
    wire = λ k. add_zero (wire_at k n.wire_done);
    lookups = sym (append-nil n.lookups_done);
    capable = λ t. ground arith;
    count = omega arith;
  }
  fold_all-Totals n ((s, end_) ∷ ss) d =
      let f = fold-Folded n s end_ in
      let r = fold_all-Totals (fold n s end_) ss d.1 in
      record {
        wire = λ k.
            r.wire k
            ∙ ap (λ c. add_counter c (sum_wire k ss))
                (ap (wire_at k) f.wire ∙ wire_at-add_wire k n.wire_done s.wire d.0)
            ∙ add_counter_assoc (wire_at k n.wire_done) (wire_at k s.wire) (sum_wire k ss);
        lookups =
            r.lookups
            ∙ ap (λ l. l ++ all_lookups ss) f.lookups
            ∙ append_assoc n.lookups_done s.lookups (all_lookups ss);
        capable = λ t. ground (
          arith,
          r.capable t,
          ap (capable_by t) f.capable,
          capable_by-min_capable t n.first_capable s.first_capable,
        );
        count = omega (arith, r.count, f.count);
      }

-- A node that closes the sessions of a list, one after the other, ends with the sum of their
-- counters for every message, their lookups in order and one period for each, and had held a
-- capable record by a given time exactly if one of the sessions had.
pub fold_all-totals :
    (L O : Type 0) (ss : List (Session L O × ℕ))
    → AllMaps ss
    → ((k : ℕ) → wire_at k (fold_all new_node ss).wire_done ≡ sum_wire k ss)
      × ((fold_all new_node ss).lookups_done ≡ all_lookups ss)
      × (length (fold_all new_node ss).sessions ≡ length ss)
      × ((t : ℕ) → capable_by t (fold_all new_node ss).first_capable ≡ any_capable t ss)
unfolding new_node find_or
fold_all-totals L O ss d =
    let r = fold_all-Totals new_node ss d in
    (λ k. r.wire k ∙ add_counter-zero (sum_wire k ss), r.lookups, omega (arith, r.count), r.capable)
