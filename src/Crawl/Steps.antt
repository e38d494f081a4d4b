-- ===== src/Crawl/Steps.antt =====
-- What every step of the crawler keeps.
use topdisc_testbed.Base.{
  ℕ, ◌≡◌, ◌+◌, ◌≤◌, Bool, false, Option, none, some, List, ◌∷◌, arith, refl, has, IsDistinct, find,
  keys, erase, sum_values, if◌then◌else◌, ltb, sym, ◌∙◌, subst, sum_values-erase, has-keys-erase,
  erase-IsDistinct, if_ind, ℕ_discrete, ap, find-present,
}
use topdisc_testbed.Crawl.{
  Node, NodeState, ProbeConfig, Registry, Counters, Event, put, new_state, observe, observe_known,
  ping_begin, fast_known,
}
use topdisc_testbed.Crawl.Schedule.{Reply, drop_dead, drop_known, findnode}
use topdisc_testbed.Crawl.World.{Stage, offered, waiting, flying}
use topdisc_testbed.Crawl.Valid.{IsState, MayBeState, AreNodes, is_queued, put-AreNodes}
use topdisc_testbed.Crawl.Stages.{fast_ping, dead_ping, is_queued-put}

pub record IsValid (r : Registry) (out : List (ℕ × Stage)) : Type 0 where
  pub nodes : AreNodes r.nodes
  pub once : IsDistinct (keys out)
  pub queued : (j : ℕ) → has (keys out) j ≡ is_queued (find j r.nodes)
  pub pings_counted : r.counters.pongs + sum_values fast_ping out ≤ r.counters.pings
  pub dead_counted : r.counters.dead_pongs + sum_values dead_ping out ≤ r.counters.dead_pings

module _ (r : Registry) (out : List (ℕ × Stage)) (v : IsValid r out) where
  stays-queued :
      (id : ℕ) (st : NodeState)
      → st.queued ≡ is_queued (find id r.nodes)
      → (j : ℕ) → has (keys out) j ≡ is_queued (find j (put id st r.nodes))
  stays-queued id st e j = elim (ℕ_discrete id j) [
    | yes p ↦
        v.queued j
        ∙ ap (λ i. is_queued (find i r.nodes)) (sym p)
        ∙ sym e
        ∙ sym (is_queued-put id j st r.nodes ∙ ground arith)
    | no p ↦ v.queued j ∙ sym (is_queued-put id j st r.nodes ∙ ground arith)
  ]

  leaves-queue :
      (id : ℕ) (st : NodeState)
      → st.queued ≡ false
      → (j : ℕ) → has (keys (erase id out)) j ≡ is_queued (find j (put id st r.nodes))
  leaves-queue id st e j =
      has-keys-erase id j out ∙ ground (arith, v.queued j, is_queued-put id j st r.nodes)

  abbrev MayBeValid : ℕ → Option Registry → Type 0
  MayBeValid id none = Unit
  MayBeValid id (some r') = IsValid r' (erase id out)

  -- The node observed, with the state that the registry has of it.
  observe_known-IsValid :
      (n : Node) (src : ℕ) (o : Option NodeState)
      → find n.id r.nodes ≡ o
      → IsValid (observe_known r n src o).0 out
  unfolding observe_known new_state
  observe_known-IsValid n src none e = record {
    nodes =
        put-AreNodes n.id (new_state n) r.nodes v.nodes (record { named = refl; alive = λ h. h });
    once = v.once;
    queued = stays-queued n.id (new_state n) (sym (ap is_queued e));
    pings_counted = v.pings_counted;
    dead_counted = v.dead_counted;
  }
  observe_known-IsValid n src (some st) e =
      let old = subst (MayBeState n.id) e (v.nodes.each n.id) in
      if_ind (λ (x : Registry × List Event). IsValid x.0 out) (ltb st.node.seq n.seq)
        (λ _. record {
          nodes =
              put-AreNodes n.id (record st { node = n }) r.nodes v.nodes
                (record { named = refl; alive = old.alive });
          once = v.once;
          queued = stays-queued n.id (record st { node = n }) (sym (ap is_queued e));
          pings_counted = v.pings_counted;
          dead_counted = v.dead_counted;
        })
        (λ _. v)

  -- A node that leaves `out`: its ping, if one was out, is no longer counted.
  pub leaves-IsValid :
      (id : ℕ) (st : NodeState) (stage : Stage) (c : Counters) (errs : List (ℕ × ℕ))
      → find id out ≡ some stage
      → IsState id st
      → st.queued ≡ false
      → c.pongs + sum_values fast_ping out ≤ c.pings + fast_ping stage
      → c.dead_pongs + sum_values dead_ping out ≤ c.dead_pings + dead_ping stage
      → IsValid (record { nodes = put id st r.nodes; counters = c; errs = errs }) (erase id out)
  leaves-IsValid id st stage c errs e s q p d = record {
    nodes = put-AreNodes id st r.nodes v.nodes s;
    once = erase-IsDistinct id out v.once;
    queued = leaves-queue id st q;
    pings_counted = omega (arith, sum_values-erase fast_ping id out stage v.once e);
    dead_counted = omega (arith, sum_values-erase dead_ping id out stage v.once e);
  }

  drop_known-IsValid :
      (id : ℕ) (o : Option NodeState)
      → find id out ≡ some (offered false)
      → find id r.nodes ≡ o
      → MayBeValid id (drop_known r id o)
  unfolding drop_known
  drop_known-IsValid id none e f = tt
  drop_known-IsValid id (some st) e f =
      let old = subst (MayBeState id) f (v.nodes.each id) in
      leaves-IsValid id (record st { queued = false }) (offered false) r.counters r.errs e
        (record { named = old.named; alive = old.alive }) refl (omega (arith, v.pings_counted))
        (omega (arith, v.dead_counted))

  pub drop_dead-IsValid :
      (id : ℕ) (r' : Registry)
      → find id out ≡ some (offered false)
      → drop_dead r id ≡ some r'
      → IsValid r' (erase id out)
  unfolding drop_dead
  drop_dead-IsValid id r' e d =
      subst (MayBeValid id) d (drop_known-IsValid id (find id r.nodes) e refl)

  still-queued :
      (id : ℕ) (stage next : Stage)
      → find id out ≡ some stage
      → (j : ℕ) → has (keys ((id, next) ∷ erase id out)) j ≡ is_queued (find j r.nodes)
  unfolding keys has
  still-queued id stage next e j = elim (ℕ_discrete id j) [
    | yes p ↦ ground (arith, v.queued j, ap (λ i. has (keys out) i) p, find-present id out stage e)
    | no p ↦ ground (arith, v.queued j, has-keys-erase id j out)
  ]

  begins-IsValid :
      (id sent : ℕ) (quick : Bool)
      → find id out ≡ some waiting
      → IsValid
          (record r {
            counters =
                if quick
                then record r.counters { pings = r.counters.pings + 1 }
                else record r.counters { dead_pings = r.counters.dead_pings + 1 };
          })
          ((id, flying quick sent) ∷ erase id out)
  unfolding keys has sum_values
  begins-IsValid id sent quick e = record {
    nodes = v.nodes;
    once = (has-keys-erase id id out ∙ ground arith, erase-IsDistinct id out v.once);
    queued = still-queued id waiting (flying quick sent) e;
    pings_counted =
        ground (arith, v.pings_counted, sum_values-erase fast_ping id out waiting v.once e);
    dead_counted =
        ground (arith, v.dead_counted, sum_values-erase dead_ping id out waiting v.once e);
  }

  pub ping_begin-IsValid :
      (cfg : ProbeConfig) (id sent : ℕ)
      → find id out ≡ some waiting
      → IsValid (ping_begin cfg r id).0 ((id, flying (ping_begin cfg r id).1 sent) ∷ erase id out)
  unfolding ping_begin
  ping_begin-IsValid cfg id sent e =
      begins-IsValid id sent (fast_known (find id r.nodes) cfg.new_tries) e

  pub observe-IsValid : (n : Node) (src : ℕ) → IsValid (observe r n src).0 out
  unfolding observe
  observe-IsValid n src = observe_known-IsValid n src (find n.id r.nodes) refl

  pub findnode-IsValid : (reply : Reply) → IsValid (findnode r reply) out
  unfolding findnode
  findnode-IsValid reply = record {
    nodes = v.nodes;
    once = v.once;
    queued = v.queued;
    pings_counted = v.pings_counted;
    dead_counted = v.dead_counted;
  }

  pub accept-IsValid :
      (id : ℕ) (live : Bool)
      → find id out ≡ some (offered live)
      → IsValid r ((id, waiting) ∷ erase id out)
  unfolding keys has sum_values
  accept-IsValid id live e = record {
    nodes = v.nodes;
    once = (has-keys-erase id id out ∙ ground arith, erase-IsDistinct id out v.once);
    queued = still-queued id (offered live) waiting e;
    pings_counted =
        omega (arith, v.pings_counted, sum_values-erase fast_ping id out (offered live) v.once e);
    dead_counted =
        omega (arith, v.dead_counted, sum_values-erase dead_ping id out (offered live) v.once e);
  }
