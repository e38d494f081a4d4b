-- ===== src/Crawl/Tests.antt =====
-- Runs and examples of the crawler.
use topdisc_testbed.Base.{
  Bool, inr, List, ◌≡◌, ◌≤◌, ◌<◌, true, false, some, [], ◌∷◌, refl, find, find_or, adjust, erase,
}
use topdisc_testbed.Crawl.{
  Node, NodeState, ProbeConfig, put, fast, fast_known, new_state, new_registry, observe,
  observe_known, unanswered, ping_begin, Registry, Event, went_up, answer, answered, ping_known,
  ping_end, ping_reply,
}
use topdisc_testbed.Crawl.Schedule.{
  reachable, is_due, pick_due, sweep, sample_table, sample_from, log_reply, findnode, is_error,
  observe_all, refused, found,
}
use topdisc_testbed.Crawl.World.{
  waiting, World, Reached, starts, steps, observes, ticks, accepts, begins, ends, writes, tick,
  after_observe, after_begin,
}
use topdisc_testbed.Crawl.Steps.{IsValid}
use topdisc_testbed.Crawl.Reach.{world_always-IsValid}
use topdisc_testbed.Crawl.Log.{turns, turns_in}
use topdisc_testbed.Crawl.Sessions.{Tells, log-Tells}
use topdisc_testbed.Crawl.Down.{silent, silent_goes_down}
use topdisc_testbed.Crawl.Sweeps.{Adds, sweep-Adds}

abbrev cfg : ProbeConfig
cfg = record { probe = 120; probe_dead = 1800; misses = 3; new_tries = 3 }

abbrev node : Node
node = record { id = 7; seq = 1; ip = some 1; udp = 30303 }

abbrev w0 : World
w0 = record { registry = new_registry; out = []; log = []; unwritten = [] }

abbrev w1 : World
w1 = after_observe node 0 w0

abbrev w2 : World
w2 = tick cfg 1000 w1

abbrev w3 : World
w3 = record w2 { out = (7, waiting) ∷ erase 7 w2.out }

abbrev w4 : World
w4 = after_begin cfg 7 1001 w3

w2-Reached : Reached cfg w2
w2-Reached = steps w1 w2 (steps w0 w1 starts (observes w0 node 0)) (ticks w1 1000)

program : Unit {0}
unfolding after_observe tick after_begin observe observe_known new_registry new_state pick_due
    is_due reachable fast put find find_or adjust erase
program = tt

w4-Reached : Reached cfg w4
unfolding program
w4-Reached = steps w3 w4 (steps w2 w3 w2-Reached (accepts w2 7 true refl)) (begins w3 7 1001 refl)

world_always-IsValid_example : IsValid w4.registry w4.out
world_always-IsValid_example = world_always-IsValid cfg w4-Reached

-- The node answers, and the goroutine writes that it is up before the other writes that it was seen.
abbrev first_answer : Registry × List Event × Bool
first_answer =
    ping_known cfg w4.registry 7 (record (new_state node) { queued = true }) true 1001 1002
      (answer 1)

abbrev w5 : World
w5 = record {
  registry = first_answer.0;
  out = erase 7 w4.out;
  log = w4.log;
  unwritten = first_answer.1 ∷ w4.unwritten;
}

abbrev w6 : World
w6 = record w5 { log = went_up 7 ∷ []; unwritten = [] ∷ w4.unwritten }

w6-Reached : Reached cfg w6
unfolding program ping_begin fast_known ping_end ping_reply ping_known answered
w6-Reached =
    steps w5 w6
      (steps w4 w5 w4-Reached (
        ends w4 7 1001 1002 true (answer 1) first_answer.0 first_answer.1 first_answer.2 refl refl))
      (writes w5 [] w4.unwritten (went_up 7) [] refl)

log-Tells_example : Tells w6
unfolding w6-Reached w4-Reached w2-Reached turns_in turns program
log-Tells_example = log-Tells cfg w6-Reached ((((((tt, tt), tt), tt), tt), inr refl), tt)

sweep-Adds_example : Adds w4.registry.nodes (sweep w4.registry 2000 120 3)
sweep-Adds_example = sweep-Adds cfg 2000 w4-Reached

-- A node that answered at 1000 and not since.
abbrev lone : NodeState
lone = record {
  node = node;
  up = true;
  ever_up = true;
  attempts = 0;
  misses = 0;
  last_pong = 1000;
  up_since = 400;
  pongs = 6;
  next = 1120;
  queued = true;
}

silent_goes_down_example :
    (2 < 3 → (silent cfg 7 lone ((1120, 0) ∷ (1240, 0) ∷ [])).up ≡ true)
    × (3 ≤ 3
        → 1240 ≤ 1360
        → (unanswered cfg 7 (silent cfg 7 lone ((1120, 0) ∷ (1240, 0) ∷ [])) 1360 0).0.up ≡ false)
silent_goes_down_example = silent_goes_down cfg 7 lone ((1120, 0) ∷ (1240, 0) ∷ []) 1360 0 refl

sample_table_stops : (sample_table new_registry 7 (λ d. refused 1) 2).0.counters.samples ≡ 1
unfolding sample_table sample_from log_reply findnode is_error new_registry
sample_table_stops = refl

sample_table_whole : (sample_table new_registry 7 (λ d. found []) 2).0.counters.samples ≡ 33
unfolding program sample_table sample_from log_reply findnode is_error observe_all
sample_table_whole = refl

-- A ping to a new node counts as one on the fast schedule, though the node never answered.
first_ping : w4.registry.counters.pings ≡ 1
unfolding program ping_begin fast_known
first_ping = refl
