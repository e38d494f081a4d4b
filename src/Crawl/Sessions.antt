-- ===== src/Crawl/Sessions.antt =====
-- The crawl keeps its log true: the sessions of a node are read back from it.
use topdisc_testbed.Base.{
  ℕ, ◌≡◌, Bool, false, Option, none, some, List, [], ◌∷◌, ◌++◌, ◌≤◌, ◌⊎◌, inl, arith, refl, sym,
  ◌∙◌, ap, subst, ◌==◌, ltb, find, if_ind, ℕ_discrete,
}
use topdisc_testbed.Crawl.{
  Node, NodeState, ProbeConfig, Registry, Event, seen, enr, Answer, answer, failure, put, new_state,
  new_registry, observe, observe_known, reschedule, missed, goes_down, answered, unanswered,
  ping_begin, ping_reply, ping_known, ping_end,
}
use topdisc_testbed.Crawl.Schedule.{drop_dead, drop_known, findnode, pick_due}
use topdisc_testbed.Crawl.World.{
  World, Step, Reached, starts, steps, observes, ticks, accepts, drops, begins, ends, finds, writes,
  tick, after_observe, after_begin,
}
use topdisc_testbed.Crawl.Log.{
  next_up, sessions, is_up, turns, turns_in, together, together-append, TellsOf, Continues,
  TellsOf-leave, TellsOf-change, TellsOf-write, turns_le, turns_apart,
}
use topdisc_testbed.Crawl.Valid.{find-put, mark, find-pick_due}

abbrev pub Tells : World → Type 0
Tells w = (j : ℕ) → TellsOf j w.log (together w.unwritten) w.registry.nodes

put-Continues :
    (id : ℕ) (st : NodeState) (o : Option NodeState) (events : List Event)
    (nodes : List (ℕ × NodeState))
    → find id nodes ≡ o
    → sessions id (some (is_up o)) events ≡ some st.up
    → ((j : ℕ) (b : Bool) → (id == j) ≡ false → sessions j (some b) events ≡ some b)
    → Continues nodes events (put id st nodes)
put-Continues id st o events nodes f same other j = elim (ℕ_discrete id j) [
  | yes p ↦
      let here : find id (put id st nodes) ≡ some st = find-put id id st nodes ∙ ground arith in
      subst
        (λ i.
          sessions i (some (is_up (find i nodes))) events ≡ some (is_up (find i (put id st nodes))))
        p
        (ap (λ o. sessions id (some (is_up o)) events) f
          ∙ same
          ∙ sym (ap (λ o. some (is_up o)) here))
  | no p ↦
      let there : find j (put id st nodes) ≡ find j nodes = find-put id j st nodes ∙ ground arith in
      other j (is_up (find j nodes)) (ground arith) ∙ sym (ap (λ o. some (is_up o)) there)
]

answered-sessions :
    (cfg : ProbeConfig) (id : ℕ) (st : NodeState) (sent t : ℕ)
    → (sessions id (some st.up) (answered id st sent t).1
        ≡ some (reschedule cfg (answered id st sent t).0 t).up)
      × ((j : ℕ) (b : Bool)
          → (id == j) ≡ false
          → sessions j (some b) (answered id st sent t).1 ≡ some b)
unfolding sessions next_up answered reschedule
answered-sessions cfg id st sent t = (ground arith, λ j b h. ground arith)

unanswered-sessions :
    (cfg : ProbeConfig) (id : ℕ) (st : NodeState) (t e : ℕ)
    → (sessions id (some st.up) (unanswered cfg id st t e).1
        ≡ some (reschedule cfg (unanswered cfg id st t e).0 t).up)
      × ((j : ℕ) (b : Bool)
          → (id == j) ≡ false
          → sessions j (some b) (unanswered cfg id st t e).1 ≡ some b)
unfolding sessions next_up unanswered reschedule missed goes_down
unanswered-sessions cfg id st t e = (ground arith, λ j b h. ground arith)

observe_known-Continues :
    (r : Registry) (n : Node) (src : ℕ) (o : Option NodeState)
    → find n.id r.nodes ≡ o
    → Continues r.nodes (observe_known r n src o).1 (observe_known r n src o).0.nodes
unfolding observe_known sessions next_up new_state
observe_known-Continues r n src none f =
    put-Continues n.id (new_state n) none (seen n src ∷ []) r.nodes f refl (λ j b h. refl)
observe_known-Continues r n src (some st) f =
    if_ind (λ (x : Registry × List Event). Continues r.nodes x.1 x.0.nodes) (ltb st.node.seq n.seq)
      (λ _.
        put-Continues n.id (record st { node = n }) (some st) (enr n src ∷ []) r.nodes f refl
          (λ j b h. refl))
      (λ _ j. refl)

mark-is_up : (t : ℕ) (o : Option NodeState) → is_up (mark t o) ≡ is_up o
mark-is_up t none = refl
mark-is_up t (some st) = ground arith

tick-Continues :
    (cfg : ProbeConfig) (t : ℕ) (nodes : List (ℕ × NodeState))
    → Continues nodes [] (pick_due cfg t nodes).nodes
unfolding sessions
tick-Continues cfg t nodes j =
    sym (ap some (ap is_up (find-pick_due cfg t j nodes) ∙ mark-is_up t (find j nodes)))

ping_known-Continues :
    (cfg : ProbeConfig) (r : Registry) (id : ℕ) (st : NodeState) (quick : Bool) (sent t : ℕ)
    (a : Answer)
    → find id r.nodes ≡ some st
    → Continues r.nodes
        (ping_known cfg r id st quick sent t a).1
        (ping_known cfg r id st quick sent t a).0.nodes
unfolding ping_known
ping_known-Continues cfg r id st quick sent t (answer seq) f =
    let (same, other) = answered-sessions cfg id st sent t in
    put-Continues id (reschedule cfg (answered id st sent t).0 t) (some st)
      (answered id st sent t).1 r.nodes f same other
ping_known-Continues cfg r id st quick sent t (failure e) f =
    let (same, other) = unanswered-sessions cfg id st t e in
    put-Continues id (reschedule cfg (unanswered cfg id st t e).0 t) (some st)
      (unanswered cfg id st t e).1 r.nodes f same other

-- For what may be none.
abbrev MayContinue : List (ℕ × NodeState) → Option (Registry × List Event × Bool) → Type 0
MayContinue nodes none = Unit
MayContinue nodes (some (r, events, refresh)) = Continues nodes events r.nodes

ping_reply-Continues :
    (cfg : ProbeConfig) (r : Registry) (id : ℕ) (o : Option NodeState) (quick : Bool) (sent t : ℕ)
    (a : Answer)
    → find id r.nodes ≡ o
    → MayContinue r.nodes (ping_reply cfg r id o quick sent t a)
unfolding ping_reply
ping_reply-Continues cfg r id none quick sent t a f = tt
ping_reply-Continues cfg r id (some st) quick sent t a f =
    ping_known-Continues cfg r id st quick sent t a f

abbrev MayDrop : List (ℕ × NodeState) → Option Registry → Type 0
MayDrop nodes none = Unit
MayDrop nodes (some r) = Continues nodes [] r.nodes

drop_known-Continues :
    (r : Registry) (id : ℕ) (o : Option NodeState)
    → find id r.nodes ≡ o
    → MayDrop r.nodes (drop_known r id o)
unfolding drop_known sessions
drop_known-Continues r id none f = tt
drop_known-Continues r id (some st) f =
    put-Continues id (record st { queued = false }) (some st) [] r.nodes f refl (λ j b h. refl)

-- Only the node that a ping ends for turns, and once at most.
abbrev TurnsOnce : ℕ → List Event → Type 0
TurnsOnce id events =
    (turns_in id events ≤ 1) × ((j : ℕ) → (id == j) ≡ false → turns_in j events ≡ 0)

ping_known-TurnsOnce :
    (cfg : ProbeConfig) (r : Registry) (id : ℕ) (st : NodeState) (quick : Bool) (sent t : ℕ)
    (a : Answer)
    → TurnsOnce id (ping_known cfg r id st quick sent t a).1
unfolding ping_known answered unanswered turns_in turns
ping_known-TurnsOnce cfg r id st quick sent t (answer seq) = (ground arith, λ j h. ground arith)
ping_known-TurnsOnce cfg r id st quick sent t (failure e) = (ground arith, λ j h. ground arith)

abbrev MayTurnOnce : ℕ → Option (Registry × List Event × Bool) → Type 0
MayTurnOnce id none = Unit
MayTurnOnce id (some (r, events, refresh)) = TurnsOnce id events

ping_reply-MayTurnOnce :
    (cfg : ProbeConfig) (r : Registry) (id : ℕ) (o : Option NodeState) (quick : Bool) (sent t : ℕ)
    (a : Answer)
    → MayTurnOnce id (ping_reply cfg r id o quick sent t a)
unfolding ping_reply
ping_reply-MayTurnOnce cfg r id none quick sent t a = tt
ping_reply-MayTurnOnce cfg r id (some st) quick sent t a =
    ping_known-TurnsOnce cfg r id st quick sent t a

observe_known-turns :
    (r : Registry) (n : Node) (src : ℕ) (o : Option NodeState) (j : ℕ)
    → turns_in j (observe_known r n src o).1 ≡ 0
unfolding observe_known turns_in turns
observe_known-turns r n src none j = refl
observe_known-turns r n src (some st) j = ground arith

-- No ping of a node takes it up or down while its last up or down event is not written yet. The code
-- relies on it: the next ping of the node begins a probe period later.
abbrev pub InTime : {cfg : ProbeConfig} {w w' : World} → Step cfg w w' → Type 0
InTime (ends w id sent t quick a r events refresh e d) =
    (turns_in id events ≡ 0) ⊎ (turns_in id (together w.unwritten) ≡ 0)
InTime _ = Unit

abbrev pub AllInTime : {cfg : ProbeConfig} {w : World} → Reached cfg w → Type 0
AllInTime starts = Unit
AllInTime (steps w w' r s) = AllInTime r × InTime s

Step-Tells : {cfg : ProbeConfig} {w w' : World} (s : Step cfg w w') → InTime s → Tells w → Tells w'
unfolding after_observe observe tick after_begin ping_begin findnode ping_end drop_dead
Step-Tells (observes w n src) i v = λ j.
    let known = find n.id w.registry.nodes in
    let none_here = observe_known-turns w.registry n src known j in
    TellsOf-leave j w.log (observe_known w.registry n src known).1 (together w.unwritten)
      w.registry.nodes (observe_known w.registry n src known).0.nodes (v j)
      (observe_known-Continues w.registry n src known refl) (omega (arith, none_here))
      (inl none_here)
Step-Tells {cfg = cfg} (ticks w t) i v = λ j.
    TellsOf-change j w.log (together w.unwritten) w.registry.nodes
      (pick_due cfg t w.registry.nodes).nodes (v j) (tick-Continues cfg t w.registry.nodes)
Step-Tells (accepts w id live e) i v = v
Step-Tells (drops w id r e d) i v = λ j.
    TellsOf-change j w.log (together w.unwritten) w.registry.nodes r.nodes (v j) (
      subst (MayDrop w.registry.nodes) d
        (drop_known-Continues w.registry id (find id w.registry.nodes) refl))
Step-Tells {cfg = cfg} (begins w id sent e) i v = v
Step-Tells {cfg = cfg} (ends w id sent t quick a r events refresh e d) i v = λ j.
    let (once, others) =
      subst (MayTurnOnce id) d
        (ping_reply-MayTurnOnce cfg w.registry id (find id w.registry.nodes) quick sent t a) in
    TellsOf-leave j w.log events (together w.unwritten) w.registry.nodes r.nodes (v j)
      (subst (MayContinue w.registry.nodes) d
        (ping_reply-Continues cfg w.registry id (find id w.registry.nodes) quick sent t a refl))
      (turns_le id j events once others) (turns_apart id j events (together w.unwritten) others i)
Step-Tells (finds w reply) i v = v
Step-Tells (writes w before after e es q) i v = λ j.
    let all : together w.unwritten ≡ together before ++ (e ∷ (es ++ together after)) =
      ap together q ∙ together-append before ((e ∷ es) ∷ after) in
    subst (λ l. TellsOf j (w.log ++ (e ∷ [])) l w.registry.nodes)
      (sym (together-append before (es ∷ after)))
      (TellsOf-write j w.log (together before) (es ++ together after) e w.registry.nodes
        (subst (λ l. TellsOf j w.log l w.registry.nodes) all (v j)))

-- However the goroutines interleave, and write to the log what they did, if no ping takes a node up or
-- down while an earlier such event of it is not written: the up and down events of each node
-- alternate in the log, an up event first. At most one is not written, and the last of them, this one
-- included, tells whether the registry has the node as up.
pub log-Tells : (cfg : ProbeConfig) {w : World} (r : Reached cfg w) → AllInTime r → Tells w
unfolding sessions new_registry find turns_in
log-Tells cfg starts i = λ j. (false, refl, refl, omega arith)
log-Tells cfg (steps w w' r s) (i, now) = Step-Tells s now (log-Tells cfg r i)
