-- ===== src/Crawl/World.antt =====
-- The crawler's goroutines: a registry, the nodes that a tick has offered and no ping has ended, the
-- log, less the replies of the sampler, and for each goroutine that has left a critical section the
-- events that it has yet to write. A step is one critical section, or one write to the log; the steps
-- of the goroutines interleave.
use topdisc_testbed.Base.{ℕ, ◌≡◌, Bool, true, false, some, List, [], ◌∷◌, ◌++◌, find, erase}
use topdisc_testbed.Crawl.{
  Node, ProbeConfig, Registry, Event, Answer, new_registry, observe, ping_begin, ping_end,
}
use topdisc_testbed.Crawl.Schedule.{Reply, pick_due, drop_dead, findnode, node_ids}

-- A node that a tick marked as queued: offered to the pool of live nodes or to that of
-- never-responders, in the pool's channel, or with a ping out: on which schedule and since when.
pub data Stage : Type 0 where
  offered : Bool → Stage
  waiting : Stage
  flying : Bool → ℕ → Stage

pub record World : Type 0 where
  pub registry : Registry
  pub out : List (ℕ × Stage)
  pub log : List Event
  pub unwritten : List (List Event)

abbrev pub offers : Bool → List ℕ → List (ℕ × Stage)
offers live [] = []
offers live (id ∷ ids) = (id, offered live) ∷ offers live ids

unfoldable pub tick : ProbeConfig → ℕ → World → World
tick cfg t w =
    let d = pick_due cfg t w.registry.nodes in
    record w {
      registry = record w.registry { nodes = d.nodes };
      out = w.out ++ (offers true (node_ids d.due_live) ++ offers false (node_ids d.due_dead));
    }

unfoldable pub after_observe : Node → ℕ → World → World
after_observe n src w =
    let (r, events) = observe w.registry n src in
    record w { registry = r; unwritten = events ∷ w.unwritten }

unfoldable pub after_begin : ProbeConfig → ℕ → ℕ → World → World
after_begin cfg id sent w =
    let (r, quick) = ping_begin cfg w.registry id in
    record w { registry = r; out = (id, flying quick sent) ∷ erase id w.out }

pub data Step (cfg : ProbeConfig) : World → World → Type 0 where
  observes : (w : World) (n : Node) (src : ℕ) → Step cfg w (after_observe n src w)
  ticks : (w : World) (t : ℕ) → Step cfg w (tick cfg t w)
  accepts :
      (w : World) (id : ℕ) (live : Bool)
      → find id w.out ≡ some (offered live)
      → Step cfg w (record w { out = (id, waiting) ∷ erase id w.out })
  drops :
      (w : World) (id : ℕ) (r : Registry)
      → find id w.out ≡ some (offered false)
      → drop_dead w.registry id ≡ some r
      → Step cfg w (record w { registry = r; out = erase id w.out })
  begins :
      (w : World) (id sent : ℕ)
      → find id w.out ≡ some waiting
      → Step cfg w (after_begin cfg id sent w)
  ends :
      (w : World) (id sent t : ℕ) (quick : Bool) (a : Answer) (r : Registry) (events : List Event)
      (refresh : Bool)
      → find id w.out ≡ some (flying quick sent)
      → ping_end cfg w.registry id quick sent t a ≡ some (r, events, refresh)
      → Step cfg w (record {
        registry = r;
        out = erase id w.out;
        log = w.log;
        unwritten = events ∷ w.unwritten;
      })
  finds :
      (w : World) (reply : Reply) → Step cfg w (record w { registry = findnode w.registry reply })
  -- `r.events.write`, once `r.mu` is unlocked: a goroutine writes its next event.
  writes :
      (w : World) (before after : List (List Event)) (e : Event) (es : List Event)
      → w.unwritten ≡ before ++ ((e ∷ es) ∷ after)
      → Step cfg w (record w { log = w.log ++ (e ∷ []); unwritten = before ++ (es ∷ after) })

pub data Reached (cfg : ProbeConfig) : World → Type 0 where
  starts : Reached cfg (record { registry = new_registry; out = []; log = []; unwritten = [] })
  steps : (w w' : World) → Reached cfg w → Step cfg w w' → Reached cfg w'
