-- ===== src/ConnTable/Operations.antt =====
-- Every method of the table keeps the invariant.
use topdisc_testbed.Base.{
  ℕ, ◌+◌, ◌≡◌, refl, ◌<◌, Bool, true, false, Option, inl, inr, none, some, List, [], ◌∷◌, ◌||◌, leb,
  ◌==◌, has, length, arith, if_ind, or-eq-false, ==-eq-false, leb-eq-false, Option-cases, update,
  sum_below-zero,
}
use topdisc_testbed.ConnTable.{
  ConnTable, connect, refill, dial_index, dial, drop_conn, slot_lost, leave, split_peers,
  drop_dialed, drop_dialers, depart, rejoin, index_ids, new_conn_table, disconnect,
}
use topdisc_testbed.ConnTable.Valid.{IsValid, connect-IsValid, unlink-IsValid}

refill-IsValid :
    (c : ConnTable) (from now : ℕ) (q : List ℕ) → IsValid c → IsValid (refill c from now q)
unfolding refill
refill-IsValid c from now [] v = v
refill-IsValid c from now (t ∷ q) v = v

dial_index-IsValid :
    (c : ConnTable) (from now j : ℕ)
    → IsValid c
    → from < c.size
    → j < c.size
    → IsValid (dial_index c from now j).0
unfolding dial_index
dial_index-IsValid c from now j v hf hj =
    if_ind P ((j == from) || c.offline from) (λ _. v)
      λ reachable.
        if_ind P (has (c.peers from) j) (λ _. v)
          λ new.
            if_ind P (leb c.max_out (c.out from)) (λ _. v)
              λ free.
                if_ind P (c.offline j || leb c.max_in (c.inbound j)) (λ _. v)
                  λ room. refill-IsValid (connect c from j) from now (c.lost_at from) (
                    connect-IsValid c v from j hf hj
                      (==-eq-false j from (or-eq-false _ _ reachable).0) new (leb-eq-false _ _ free)
                      (leb-eq-false _ _ (or-eq-false _ _ room).1))
  where
    P : ConnTable × Bool × Bool → Type 0
    P r = IsValid r.0

-- `dial` keeps the invariant, whatever node it is told to reach.
pub dial-IsValid :
    (c : ConnTable) (from to now : ℕ) → IsValid c → from < c.size → IsValid (dial c from to now).0
unfolding dial
dial-IsValid c from to now v hf = elim (Option-cases (c.idx_of to)) [
  | inl e ↦ rw (e, dial) v
  | inr (j, e) ↦ rw (e, dial) (dial_index-IsValid c from now j v hf (v.index_range to j e))
]

pub drop_conn-IsValid :
    (c : ConnTable) (from to : ℕ) (wake_dialer : Bool) (now : ℕ)
    → IsValid c
    → IsValid (drop_conn c from to wake_dialer now).0
unfolding drop_conn slot_lost
drop_conn-IsValid c from to wake_dialer now v =
    if_ind {A = ConnTable × Bool} (λ r. IsValid r.0) (has (c.out_peers from) to)
      (λ old.
        if_ind IsValid wake_dialer (λ _. unlink-IsValid c v from to old)
          (λ _. unlink-IsValid c v from to old))
      (λ _. v)

pub leave-IsValid : (c : ConnTable) (i now : ℕ) → IsValid c → IsValid (leave c i now)
unfolding leave
leave-IsValid c i now v = v

pub rejoin-IsValid : (c : ConnTable) (i : ℕ) → IsValid c → IsValid (rejoin c i)
unfolding rejoin
rejoin-IsValid c i v = v

drop_dialed-IsValid :
    (c : ConnTable) (i now : ℕ) (js : List ℕ) → IsValid c → IsValid (drop_dialed c i now js)
unfolding drop_dialed
drop_dialed-IsValid c i now [] v = v
drop_dialed-IsValid c i now (j ∷ js) v =
    drop_dialed-IsValid (drop_conn c i j false now).0 i now js (drop_conn-IsValid c i j false now v)

drop_dialers-IsValid :
    (c : ConnTable) (i now : ℕ) (js : List ℕ) → IsValid c → IsValid (drop_dialers c i now js)
unfolding drop_dialers disconnect
drop_dialers-IsValid c i now [] v = v
drop_dialers-IsValid c i now (j ∷ js) v =
    drop_dialers-IsValid (disconnect c j i now).0 i now js (drop_conn-IsValid c j i true now v)

pub depart-IsValid : (c : ConnTable) (i now : ℕ) → IsValid c → IsValid (depart c i now)
unfolding depart
depart-IsValid c i now v =
    let (dialed, dialers) = split_peers (c.out_peers i) (c.peers i) in
    drop_dialers-IsValid _ i now dialers
      (drop_dialed-IsValid (leave c i now) i now dialed (leave-IsValid c i now v))

-- The index of an id lies below the end of the list.
index_ids-lt :
    (i : ℕ) (all : List ℕ) (m : ℕ → Option ℕ) (n : ℕ)
    → i + length all ≡ n
    → ((id j : ℕ) → m id ≡ some j → j < n)
    → (id j : ℕ) → index_ids i all m id ≡ some j
    → j < n
unfolding index_ids
index_ids-lt i [] m n e h = h
index_ids-lt i (x ∷ all) m n e h =
    index_ids-lt (i + 1) all (update m x (some i)) n (omega arith)
      λ id j found. ground (arith, h id j)

pub new_conn_table-IsValid :
    (all : List ℕ) (max_peers dial_ratio : ℕ) → IsValid (new_conn_table all max_peers dial_ratio)
unfolding new_conn_table has
new_conn_table-IsValid all max_peers dial_ratio = record {
  out_count = λ i. refl;
  in_count = λ j. omega (arith, sum_below-zero (length all));
  out_bound = λ i. omega arith;
  in_bound = λ j. omega arith;
  distinct = λ i. tt;
  symmetric = λ i j. refl;
  one_way = λ i j h. refl;
  in_range = λ i j h. cc;
  index_range = index_ids-lt 0 all (λ _. none) (length all) (omega arith) (λ id j h. cc);
}
