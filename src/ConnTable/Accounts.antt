-- ===== src/ConnTable/Accounts.antt =====
-- The refill accounting: every refilled slot and every slot still waiting was lost before.
use topdisc_testbed.Base.{
  ℕ, ◌+◌, ◌≡◌, refl, ap, ◌≤◌, ◌<◌, Bool, List, [], ◌∷◌, ◌++◌, ◌||◌, ◌==◌, leb, has, sum_below-zero,
  length, arith, inl, inr, Option-cases, if_ind, update, sum_below, sum_below-change, length-append,
}
use topdisc_testbed.ConnTable.{
  ConnTable, connect, unlink, refill, slot_lost, dial_index, dial, drop_conn, leave, rejoin,
  new_conn_table,
}
use topdisc_testbed.ConnTable.Valid.{IsValid}
use topdisc_testbed.ConnTable.Operations.{new_conn_table-IsValid}
use topdisc_testbed.ConnTable.Reach.{
  Step, dialed, dropped, left, rejoined, Reach, here, next, Reach-IsValid,
}

-- the lost slots that wait to be refilled, over all nodes
pub waiting : ConnTable → ℕ
waiting c = sum_below c.size (λ i. length (c.lost_at i))

pub record IsSettled (c : ConnTable) : Type 0 where
  pub refilled : c.refills + waiting c ≤ c.losses
  pub lost : c.losses ≤ c.disconnects

-- `lostAt[k]` replaced: the sum changes by the difference of the lengths.
waiting-update :
    (c : ConnTable) (k : ℕ) (q : List ℕ)
    → k < c.size
    → waiting (record c { lost_at = update c.lost_at k q }) + length (c.lost_at k)
      ≡ waiting c + length q
unfolding waiting
waiting-update c k q h = ground (
  arith,
  sum_below-change c.size k (λ i. length (c.lost_at i)) (λ i. length (update c.lost_at k q i)) h
      (λ i ne. ground arith),
)

refill-IsSettled :
    (c : ConnTable) (from now : ℕ) (q : List ℕ)
    → from < c.size
    → c.lost_at from ≡ q
    → IsSettled c
    → IsSettled (refill c from now q)
unfolding refill waiting
refill-IsSettled c from now [] h e s = s
refill-IsSettled c from now (t ∷ q) h e s = record {
  refilled = omega (arith, s.refilled, moved, ap length e);
  lost = s.lost;
}
  where
    moved : waiting (refill c from now (t ∷ q)) + length (c.lost_at from) ≡ waiting c + length q
    moved = waiting-update c from q h

connect-IsSettled : (c : ConnTable) (from j : ℕ) → IsSettled c → IsSettled (connect c from j)
unfolding connect waiting
connect-IsSettled c from j s = record { refilled = s.refilled; lost = s.lost }

dial_index-IsSettled :
    (c : ConnTable) (from now j : ℕ)
    → from < c.size
    → IsSettled c
    → IsSettled (dial_index c from now j).0
unfolding dial_index waiting
dial_index-IsSettled c from now j h s =
    if_ind P ((j == from) || c.offline from) (λ _. s)
      λ _.
        if_ind P (has (c.peers from) j) (λ _. record { refilled = s.refilled; lost = s.lost })
          λ _.
            if_ind P (leb c.max_out (c.out from)) (λ _. s)
              λ _.
                if_ind P (c.offline j || leb c.max_in (c.inbound j))
                  (λ _. record { refilled = s.refilled; lost = s.lost })
                  (λ _.
                    refill-IsSettled (connect c from j) from now (c.lost_at from) (in_size h) same
                      (connect-IsSettled c from j s))
  where
    P : ConnTable × Bool × Bool → Type 0
    P r = IsSettled r.0

    in_size : from < c.size → from < (connect c from j).size
    in_size p = unfold connect in p

    same : (connect c from j).lost_at from ≡ c.lost_at from
    same = unfold connect in refl

dial-IsSettled :
    (c : ConnTable) (from to now : ℕ)
    → from < c.size
    → IsSettled c
    → IsSettled (dial c from to now).0
unfolding dial
dial-IsSettled c from to now h s = elim (Option-cases (c.idx_of to)) [
  | inl e ↦ rw (e, dial) s
  | inr (j, e) ↦ rw (e, dial) (dial_index-IsSettled c from now j h s)
]

-- Waking the dialer is a slot lost.
slot_lost-IsSettled :
    (c : ConnTable) (from now : ℕ)
    → from < c.size
    → c.refills + waiting c ≤ c.losses
    → c.losses < c.disconnects
    → IsSettled (slot_lost c from now)
unfolding slot_lost waiting
slot_lost-IsSettled c from now h r l = record {
  refilled = omega (
    arith,
    waiting-update c from (c.lost_at from ++ now ∷ []) h,
    length-append (c.lost_at from) (now ∷ []),
  );
  lost = omega arith;
}

drop_conn-IsSettled :
    (c : ConnTable) (from to : ℕ) (wake_dialer : Bool) (now : ℕ)
    → IsValid c
    → IsSettled c
    → IsSettled (drop_conn c from to wake_dialer now).0
unfolding drop_conn unlink waiting
drop_conn-IsSettled c from to wake_dialer now v s =
    if_ind {A = ConnTable × Bool} (λ r. IsSettled r.0) (has (c.out_peers from) to)
      (λ old.
        if_ind IsSettled wake_dialer
          (λ _.
            slot_lost-IsSettled (unlink c from to) from now (v.in_range from to old).0 s.refilled
              (omega (arith, s.lost)))
          (λ _. record { refilled = s.refilled; lost = omega (arith, s.lost) }))
      (λ _. s)

leave-IsSettled : (c : ConnTable) (i now : ℕ) → i < c.size → IsSettled c → IsSettled (leave c i now)
unfolding leave waiting
leave-IsSettled c i now h s = record {
  refilled = omega (arith, s.refilled, waiting-update c i [] h);
  lost = s.lost;
}

rejoin-IsSettled : (c : ConnTable) (i : ℕ) → IsSettled c → IsSettled (rejoin c i)
unfolding rejoin waiting
rejoin-IsSettled c i s = record { refilled = s.refilled; lost = s.lost }

Step-IsSettled : {c d : ConnTable} → Step c d → IsValid c → IsSettled c → IsSettled d
Step-IsSettled (dialed c from to now h) v s = dial-IsSettled c from to now h s
Step-IsSettled (dropped c from to wake_dialer now) v s =
    drop_conn-IsSettled c from to wake_dialer now v s
Step-IsSettled (left c i now h) v s = leave-IsSettled c i now h s
Step-IsSettled (rejoined c i h) v s = rejoin-IsSettled c i s

Reach-IsSettled : {c d : ConnTable} → IsValid c → IsSettled c → Reach c d → IsSettled d
Reach-IsSettled v s here = s
Reach-IsSettled v s (next r st) = Step-IsSettled st (Reach-IsValid v r) (Reach-IsSettled v s r)

new_conn_table-IsSettled :
    (all : List ℕ) (max_peers dial_ratio : ℕ) → IsSettled (new_conn_table all max_peers dial_ratio)
unfolding new_conn_table waiting
new_conn_table-IsSettled all max_peers dial_ratio = record {
  refilled = omega (arith, sum_below-zero (length all));
  lost = omega arith;
}

-- In every reachable table the refills counted and the slots still waiting make up at most the
-- slots that were lost, and no more slots were lost than connections dropped.
pub refills_settled :
    (all : List ℕ) (max_peers dial_ratio : ℕ) {c : ConnTable}
    → Reach (new_conn_table all max_peers dial_ratio) c
    → (c.refills + waiting c ≤ c.losses) × (c.losses ≤ c.disconnects)
refills_settled all max_peers dial_ratio r =
    let s =
      Reach-IsSettled (new_conn_table-IsValid all max_peers dial_ratio)
        (new_conn_table-IsSettled all max_peers dial_ratio) r in
    (s.refilled, s.lost)
