-- ===== src/Crawl/Reach.antt =====
-- The crawler in any interleaving of its goroutines.
use topdisc_testbed.Base.{
  ℕ, ◌≡◌, Bool, false, some, List, arith, refl, ap, find, find-present, Option-cases, inl, inr,
  keys, sum_values, has,
}
use topdisc_testbed.Crawl.{
  NodeState, ProbeConfig, Registry, Event, Answer, new_registry, ping_reply, ping_known, ping_end,
}
use topdisc_testbed.Crawl.Schedule.{drop_dead, drop_known}
use topdisc_testbed.Crawl.World.{
  Stage, offered, flying, World, Step, Reached, starts, steps, observes, ticks, accepts, drops,
  begins, ends, finds, writes, tick, after_observe, after_begin,
}
use topdisc_testbed.Crawl.Valid.{is_queued}
use topdisc_testbed.Crawl.Steps.{
  IsValid, observe-IsValid, accept-IsValid, drop_dead-IsValid, ping_begin-IsValid, findnode-IsValid,
}
use topdisc_testbed.Crawl.Ends.{ping_end-IsValid, tick-IsValid}

Step-IsValid :
    {cfg : ProbeConfig} {w w' : World}
    → Step cfg w w'
    → IsValid w.registry w.out
    → IsValid w'.registry w'.out
unfolding after_observe tick after_begin
Step-IsValid (observes w n src) v = observe-IsValid w.registry w.out v n src
Step-IsValid {cfg = cfg} (ticks w t) v = tick-IsValid w.registry w.out v cfg t
Step-IsValid (accepts w id live e) v = accept-IsValid w.registry w.out v id live e
Step-IsValid (drops w id r e d) v = drop_dead-IsValid w.registry w.out v id r e d
Step-IsValid {cfg = cfg} (begins w id sent e) v =
    ping_begin-IsValid w.registry w.out v cfg id sent e
Step-IsValid {cfg = cfg} (ends w id sent t quick a r events refresh e d) v =
    ping_end-IsValid w.registry w.out v cfg id sent t quick a r events refresh e d
Step-IsValid (finds w reply) v = findnode-IsValid w.registry w.out v reply
Step-IsValid (writes w before after e es q) v = v

-- However the goroutines interleave, the registry holds each node once and under its own id, and none
-- that is up and never answered. No node is offered, waits or has a ping out twice at a time, and
-- those that are so are exactly the queued ones. On either schedule, answers and pings that are out
-- are no more than the pings counted.
pub world_always-IsValid :
    (cfg : ProbeConfig) {w : World} → Reached cfg w → IsValid w.registry w.out
unfolding new_registry keys find sum_values has
world_always-IsValid cfg starts = record {
  nodes = record { distinct = tt; each = λ j. tt };
  once = tt;
  queued = λ j. refl;
  pings_counted = omega arith;
  dead_counted = omega arith;
}
world_always-IsValid cfg (steps w w' r s) = Step-IsValid s (world_always-IsValid cfg r)

module _ (w : World) (v : IsValid w.registry w.out) where
  in_registry :
      (id : ℕ) (stage : Stage)
      → find id w.out ≡ some stage
      → (st : NodeState) × (find id w.registry.nodes ≡ some st)
  in_registry id stage e = elim (Option-cases (find id w.registry.nodes)) [
    | inl n ↦ ground (arith, find-present id w.out stage e, v.queued id, ap is_queued n)
    | inr s ↦ s
  ]

-- Neither the end of a ping nor the release of a node that its pool had no room for finds the
-- registry without the node, so that neither dereferences nil.
pub never_nil :
    (cfg : ProbeConfig) {w : World} (id : ℕ)
    → Reached cfg w
    → ((quick : Bool) (sent t : ℕ) (a : Answer)
        → find id w.out ≡ some (flying quick sent)
        → (x : Registry × List Event × Bool) × (ping_end cfg w.registry id quick sent t a ≡ some x))
      × (find id w.out ≡ some (offered false) → (r : Registry) × (drop_dead w.registry id ≡ some r))
unfolding ping_end drop_dead ping_reply drop_known
never_nil cfg {w = w} id h = (
  λ quick sent t a e.
      let (st, f) = in_registry w (world_always-IsValid cfg h) id (flying quick sent) e in
      (
        ping_known cfg w.registry id st quick sent t a,
        ap (λ o. ping_reply cfg w.registry id o quick sent t a) f,
      ),
  λ e.
      let (st, f) = in_registry w (world_always-IsValid cfg h) id (offered false) e in
      (_, ap (drop_known w.registry id) f),
)
