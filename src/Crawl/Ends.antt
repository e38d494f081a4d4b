-- ===== src/Crawl/Ends.antt =====
-- The end of a ping and a tick keep the invariant.
use topdisc_testbed.Base.{
  ℕ, ◌≡◌, ◌+◌, Bool, true, false, Option, none, some, List, ◌++◌, arith, refl, has, IsDistinct,
  adjust, find, keys, erase, if◌then◌else◌, sym, ◌∙◌, subst, has-append, append-IsDistinct,
  keys-append, sum_values-append, ap,
}
use topdisc_testbed.Crawl.{
  NodeState, ProbeConfig, Registry, Event, Answer, answer, failure, reschedule, answered,
  unanswered, ping_reply, ping_end, ping_known, count_pong,
}
use topdisc_testbed.Crawl.Schedule.{pick_due, node_ids}
use topdisc_testbed.Crawl.World.{Stage, flying, offers}
use topdisc_testbed.Crawl.Valid.{
  MayBeState, answered-IsState, unanswered-IsState, find-pick_due, offered_ids, has-offered_ids,
  offered_ids-IsDistinct, pick_due-AreNodes,
}
use topdisc_testbed.Crawl.Stages.{
  fast_ping, dead_ping, answered_unqueued, unanswered_unqueued, count_pong-fast, count_pong-dead,
  keys-offers, fast_ping-offers, dead_ping-offers, queued-picked, queued-mark,
}
use topdisc_testbed.Crawl.Steps.{IsValid, leaves-IsValid}

module _ (r : Registry) (out : List (ℕ × Stage)) (v : IsValid r out) where
  abbrev MayEndValid : ℕ → Option (Registry × List Event × Bool) → Type 0
  MayEndValid id none = Unit
  MayEndValid id (some (r', events, refresh)) = IsValid r' (erase id out)

  ping_known-IsValid :
      (cfg : ProbeConfig) (id sent t : ℕ) (quick : Bool) (a : Answer) (st : NodeState)
      → find id out ≡ some (flying quick sent)
      → find id r.nodes ≡ some st
      → IsValid (ping_known cfg r id st quick sent t a).0 (erase id out)
  unfolding ping_known
  ping_known-IsValid cfg id sent t quick (answer seq) st e f =
      let old = subst (MayBeState id) f (v.nodes.each id) in
      leaves-IsValid r out v id (reschedule cfg (answered id st sent t).0 t) (flying quick sent)
        (count_pong quick r.counters) r.errs e (answered-IsState cfg id st sent t old)
        (answered_unqueued cfg id st sent t)
        (count_pong-fast quick sent r.counters _ v.pings_counted)
        (count_pong-dead quick sent r.counters _ v.dead_counted)
  ping_known-IsValid cfg id sent t quick (failure x) st e f =
      let old = subst (MayBeState id) f (v.nodes.each id) in
      leaves-IsValid r out v id (reschedule cfg (unanswered cfg id st t x).0 t) (flying quick sent)
        r.counters (if st.ever_up then adjust 0 (λ k. k + 1) x r.errs else r.errs) e
        (unanswered-IsState cfg id st t x old) (unanswered_unqueued cfg id st t x)
        (omega (arith, v.pings_counted)) (omega (arith, v.dead_counted))

  ping_reply-IsValid :
      (cfg : ProbeConfig) (id sent t : ℕ) (quick : Bool) (a : Answer) (o : Option NodeState)
      → find id out ≡ some (flying quick sent)
      → find id r.nodes ≡ o
      → MayEndValid id (ping_reply cfg r id o quick sent t a)
  unfolding ping_reply
  ping_reply-IsValid cfg id sent t quick a none e f = tt
  ping_reply-IsValid cfg id sent t quick a (some st) e f =
      ping_known-IsValid cfg id sent t quick a st e f

  pub ping_end-IsValid :
      (cfg : ProbeConfig) (id sent t : ℕ) (quick : Bool) (a : Answer) (r' : Registry)
      (events : List Event) (refresh : Bool)
      → find id out ≡ some (flying quick sent)
      → ping_end cfg r id quick sent t a ≡ some (r', events, refresh)
      → IsValid r' (erase id out)
  unfolding ping_end
  ping_end-IsValid cfg id sent t quick a r' events refresh e d =
      subst (MayEndValid id) d (ping_reply-IsValid cfg id sent t quick a (find id r.nodes) e refl)

  pub tick-IsValid :
      (cfg : ProbeConfig) (t : ℕ)
      → IsValid
          (record r { nodes = (pick_due cfg t r.nodes).nodes })
          (out
            ++ (offers true (node_ids (pick_due cfg t r.nodes).due_live)
                ++ offers false (node_ids (pick_due cfg t r.nodes).due_dead)))
  tick-IsValid cfg t =
      let d = pick_due cfg t r.nodes in
      let live = node_ids d.due_live in
      let dead = node_ids d.due_dead in
      let more = offers true live ++ offers false dead in
      let ids : keys (out ++ more) ≡ keys out ++ offered_ids cfg t r.nodes =
        keys-append out more ∙ ap (λ k. keys out ++ k) (keys-offers live dead) in
      record {
        nodes = pick_due-AreNodes cfg t r.nodes v.nodes;
        once = subst IsDistinct (sym ids) (
            append-IsDistinct (keys out) (offered_ids cfg t r.nodes) v.once
              (offered_ids-IsDistinct cfg t r.nodes v.nodes)
              (λ j h.
                has-offered_ids cfg t j r.nodes v.nodes
                ∙ queued-picked t (find j r.nodes) (sym (v.queued j) ∙ h)));
        queued = λ j.
            ap (λ k. has k j) ids
            ∙ has-append (keys out) (offered_ids cfg t r.nodes) j
            ∙ rw
                (v.queued j, has-offered_ids cfg t j r.nodes v.nodes, find-pick_due cfg t j r.nodes)
                (queued-mark t (find j r.nodes));
        pings_counted = omega (
          arith,
          v.pings_counted,
          sum_values-append fast_ping out more,
          fast_ping-offers live dead,
        );
        dead_counted = omega (
          arith,
          v.dead_counted,
          sum_values-append dead_ping out more,
          dead_ping-offers live dead,
        );
      }
