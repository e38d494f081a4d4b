-- ===== src/Crawl/Sweeps.antt =====
-- What a sweep counts.
use topdisc_testbed.Base.{ℕ, ◌≡◌, ◌+◌, ◌-◌, ◌≤◌, List, [], ◌∷◌, arith, refl, length}
use topdisc_testbed.Crawl.{NodeState, ProbeConfig, Sweep}
use topdisc_testbed.Crawl.Schedule.{tally, sweep}
use topdisc_testbed.Crawl.World.{World, Reached}
use topdisc_testbed.Crawl.Valid.{AreNodes, AreNodes-cons}
use topdisc_testbed.Crawl.Reach.{world_always-IsValid}

pub record Adds (nodes : List (ℕ × NodeState)) (s : Sweep) : Type 0 where
  pub all : s.known ≡ length nodes
  pub parts : s.ever_up + s.new + s.dead ≡ s.known
  pub up_answered : s.up ≤ s.ever_up
  pub late_answered : s.late ≤ s.ever_up

tally-Adds :
    (late new_tries : ℕ) (nodes : List (ℕ × NodeState))
    → AreNodes nodes
    → Adds nodes (tally late new_tries nodes)
unfolding tally
tally-Adds late new_tries [] a = record {
  all = refl;
  parts = refl;
  up_answered = omega arith;
  late_answered = omega arith;
}
tally-Adds late new_tries ((id, st) ∷ m) a =
    let (v, rest, _) = AreNodes-cons id st m a in
    let h = tally-Adds late new_tries m rest in
    record {
      all = ground (arith, h.all);
      parts = ground (arith, h.parts);
      up_answered = ground (arith, h.up_answered, v.alive);
      late_answered = ground (arith, h.late_answered);
    }

-- At any time, a sweep counts every node once, as one that ever answered, as a new one or as a dead
-- one; those that are up and those that are late are among the first.
pub sweep-Adds :
    (cfg : ProbeConfig) {w : World} (now : ℕ)
    → Reached cfg w
    → Adds w.registry.nodes (sweep w.registry now cfg.probe cfg.new_tries)
unfolding sweep
sweep-Adds cfg {w = w} now h =
    tally-Adds (now - cfg.probe) cfg.new_tries w.registry.nodes (world_always-IsValid cfg h).nodes
