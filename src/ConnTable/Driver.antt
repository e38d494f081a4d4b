-- ===== src/ConnTable/Driver.antt =====
-- cmd/simnet/conn_model.go: `dropRandom` and one tick of `runDisconnectDriver`.
-- `pick` is the node that `rng.Intn` gives in a round and `first` the key at which the range over a
-- node's outbound peers stops at once: Go leaves both open, and so does the model.
use topdisc_testbed.Base.{
  ℕ, zero, suc, ◌+◌, ◌-◌, ◌*◌, ◌≡◌, refl, ◌≤◌, true, false, Option, none, some, List, ltb, has,
  arith, ◌∙◌, sym, subst, inl, inr, Bool-cases, if◌then◌else◌, update, sum_below-change,
  length-delete,
}
use topdisc_testbed.ConnTable.{ConnTable, live, unlink, slot_lost, drop_conn, disconnect}
use topdisc_testbed.ConnTable.Valid.{IsValid}
use topdisc_testbed.ConnTable.Operations.{drop_conn-IsValid}

-- One round of the loop: the table, and the connections dropped so far.
attempt : Option ℕ → ℕ → ℕ → ConnTable → ℕ → ConnTable × ℕ
attempt none i now c dropped = (c, dropped)
attempt (some target) i now c dropped =
    let (d, ok) = disconnect c i target now in (d, if ok then dropped + 1 else dropped)

module _ (pick : ℕ → ℕ) (first : ℕ → List ℕ → Option ℕ) (now : ℕ) where
  -- The loop with `rounds` attempts left.
  drop_rounds : ℕ → ℕ → ConnTable → ℕ → ConnTable × ℕ
  unfolding attempt
  drop_rounds zero count c dropped = (c, dropped)
  drop_rounds (suc rounds) count c dropped =
      let i = pick rounds in
      let rest =
        let (d, n) = attempt (first rounds (c.out_peers i)) i now c dropped in
        drop_rounds rounds count d n in
      if ltb dropped count then rest else (c, dropped)

  pub drop_random : ConnTable → ℕ → ConnTable × ℕ
  unfolding drop_rounds
  drop_random c count = drop_rounds (count * 20) count c 0

  -- One tick: `scale` is `int(float64(live) * frac)`.
  pub disconnect_tick : (ℕ → ℕ) → ConnTable → ConnTable × ℕ
  unfolding drop_random live
  disconnect_tick scale c = let n = scale (live c) in drop_random c (if ltb n 1 then 1 else n)

-- What dropping `n` connections does to a table.
pub record Drops (c d : ConnTable) (n : ℕ) : Type 0 where
  pub valid : IsValid d
  pub counted : d.disconnects ≡ c.disconnects + n
  pub lost : d.losses ≡ c.losses + n
  pub fewer : live d + n ≡ live c
  pub same_size : d.size ≡ c.size

live-unlink :
    (c : ConnTable) (from to : ℕ)
    → IsValid c
    → has (c.out_peers from) to ≡ true
    → live (unlink c from to) + 1 ≡ live c
unfolding live unlink
live-unlink c from to v old = ground (
  arith,
  v.out_count from,
  length-delete to (c.out_peers from) (v.distinct from) old,
  sum_below-change c.size from c.out (update c.out from (c.out from - 1)) (v.in_range from to old).0
      (λ i ne. ground arith),
)

live-drop_conn :
    (c : ConnTable) (from to now : ℕ)
    → IsValid c
    → (drop_conn c from to true now).1 ≡ true
    → live (drop_conn c from to true now).0 + 1 ≡ live c
unfolding drop_conn slot_lost live
live-drop_conn c from to now v h = elim (Bool-cases (has (c.out_peers from) to)) [
  | inl old ↦ rw old (live-unlink c from to v old)
  | inr new ↦ cc (rw new at h)
]

disconnect-Drops :
    (c : ConnTable) (from to now : ℕ)
    → IsValid c
    → (disconnect c from to now).1 ≡ true
    → Drops c (disconnect c from to now).0 1
unfolding disconnect
disconnect-Drops c from to now v h = record {
  valid = drop_conn-IsValid c from to true now v;
  counted = unfold drop_conn slot_lost unlink in ground arith;
  lost = unfold drop_conn slot_lost unlink in ground arith;
  fewer = live-drop_conn c from to now v h;
  same_size = unfold drop_conn slot_lost unlink in ground arith;
}

disconnect-missed :
    (c : ConnTable) (from to now : ℕ)
    → (disconnect c from to now).1 ≡ false
    → (disconnect c from to now).0 ≡ c
unfolding disconnect drop_conn
disconnect-missed c from to now h = ground arith

Drops-none : {c : ConnTable} → IsValid c → Drops c c 0
Drops-none v = record {
  valid = v;
  counted = omega arith;
  lost = omega arith;
  fewer = omega arith;
  same_size = refl;
}

Drops-trans : {c d e : ConnTable} {n m : ℕ} → Drops c d n → Drops d e m → Drops c e (n + m)
Drops-trans p q = record {
  valid = q.valid;
  counted = omega (arith, p.counted, q.counted);
  lost = omega (arith, p.lost, q.lost);
  fewer = omega (arith, p.fewer, q.fewer);
  same_size = q.same_size ∙ p.same_size;
}

-- A round drops one connection or none, and counts it.
attempt-Drops :
    (target : Option ℕ) (i now : ℕ) (c : ConnTable) (dropped : ℕ)
    → IsValid c
    → (n : ℕ) × Drops c (attempt target i now c dropped).0 n
      × ((attempt target i now c dropped).1 ≡ dropped + n)
      × (n ≤ 1)
unfolding attempt
attempt-Drops none i now c dropped v = (0, Drops-none v, omega arith, omega arith)
attempt-Drops (some target) i now c dropped v = elim (Bool-cases (disconnect c i target now).1) [
  | inl ok ↦ (1, disconnect-Drops c i target now v ok, rw ok refl, omega arith)
  | inr missed ↦ (
    0,
    subst (λ d. Drops c d 0) (sym (disconnect-missed c i target now missed)) (Drops-none v),
    rw missed (omega arith),
    omega arith,
  )
]

module _ (pick : ℕ → ℕ) (first : ℕ → List ℕ → Option ℕ) (now : ℕ) where
  drop_rounds-Drops :
      (rounds count : ℕ) (c : ConnTable) (dropped : ℕ)
      → IsValid c
      → dropped ≤ count
      → (n : ℕ) × Drops c (drop_rounds pick first now rounds count c dropped).0 n
        × ((drop_rounds pick first now rounds count c dropped).1 ≡ dropped + n)
        × (dropped + n ≤ count)
  unfolding drop_rounds
  drop_rounds-Drops zero count c dropped v h = (0, Drops-none v, omega arith, omega arith)
  drop_rounds-Drops (suc rounds) count c dropped v h = elim (Bool-cases (ltb dropped count)) [
    | inr stop ↦ rw stop (0, Drops-none v, omega arith, omega arith)
    | inl more ↦
        let i = pick rounds in
        let target = first rounds (c.out_peers i) in
        let (n, one, e, small) = attempt-Drops target i now c dropped v in
        let (m, others, e', bound) =
          drop_rounds-Drops rounds count (attempt target i now c dropped).0
            (attempt target i now c dropped).1 one.valid (ground arith) in
        rw more (n + m, Drops-trans one others, omega arith, omega arith)
  ]

  -- dropRandom takes away exactly as many connections as it returns, never more than asked for:
  -- so many more are counted as disconnects and as lost slots, so many fewer outbound slots are in
  -- use, and the table stays valid, whatever nodes and connections the random choices name.
  pub drop_random-Drops :
      (c : ConnTable) (count : ℕ)
      → IsValid c
      → let (d, n) = drop_random pick first now c count in Drops c d n × (n ≤ count)
  unfolding drop_random
  drop_random-Drops c count v =
      let (n, drops, e, bound) = drop_rounds-Drops (count * 20) count c 0 v (omega arith) in
      (subst (Drops c _) (omega arith) drops, omega arith)
