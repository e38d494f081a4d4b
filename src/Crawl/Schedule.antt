-- ===== src/Crawl/Schedule.antt =====
-- crawl/main.go: which nodes a tick of probeLoop offers to its two pools, the counts of a sweep, and
-- the sampler of a node's table.
use topdisc_testbed.Base.{
  ℕ, zero, suc, ◌+◌, ◌-◌, Bool, true, false, not, ◌&&◌, Option, none, some, List, [], ◌∷◌, ◌++◌,
  if◌then◌else◌, ltb, leb, ◌==◌, find,
}
use topdisc_testbed.Crawl.{
  Node, NodeState, ProbeConfig, Registry, Sweep, Event, replied, put, fast, observe,
}

-- `st.node.IP() == nil || st.node.UDP() == 0`
unfoldable pub reachable : Node → Bool
reachable n = has_ip n.ip && not (n.udp == 0)
  where
    has_ip : Option ℕ → Bool
    has_ip none = false
    has_ip (some a) = true

unfoldable pub is_due : NodeState → ℕ → Bool
is_due st t = not st.queued && (reachable st.node && leb st.next t)

pub record Due : Type 0 where
  pub nodes : List (ℕ × NodeState)
  pub due_live : List Node
  pub due_dead : List Node

-- The range of a tick at time t over the registry.
unfoldable pub pick_due : ProbeConfig → ℕ → List (ℕ × NodeState) → Due
pick_due cfg t [] = record { nodes = []; due_live = []; due_dead = [] }
pick_due cfg t ((id, st) ∷ m) =
    let rest = pick_due cfg t m in
    if is_due st t
    then (let marked = (id, record st { queued = true }) ∷ rest.nodes in
        if fast st cfg.new_tries
        then record rest { nodes = marked; due_live = st.node ∷ rest.due_live }
        else record rest { nodes = marked; due_dead = st.node ∷ rest.due_dead })
    else record rest { nodes = (id, st) ∷ rest.nodes }

-- A node that the pool of never-responders has no room for: `r.nodes[n.ID()].queued = false`.
unfoldable pub drop_known : Registry → ℕ → Option NodeState → Option Registry
drop_known r id none = none
drop_known r id (some st) =
    some (record r { nodes = put id (record st { queued = false }) r.nodes })

unfoldable pub drop_dead : Registry → ℕ → Option Registry
drop_dead r id = drop_known r id (find id r.nodes)

-- The range of a sweep over the registry; `late` is a probe period ago.
unfoldable pub tally : ℕ → ℕ → List (ℕ × NodeState) → Sweep
tally late new_tries [] = record { known = 0; ever_up = 0; up = 0; late = 0; new = 0; dead = 0 }
tally late new_tries ((id, st) ∷ m) =
    let s = tally late new_tries m in
    let c =
      if st.ever_up
      then record s {
        ever_up = s.ever_up + 1;
        late = if ltb st.next late then s.late + 1 else s.late;
      }
      else if ltb st.attempts new_tries
      then record s { new = s.new + 1 }
      else record s { dead = s.dead + 1 } in
    record c { known = s.known + 1; up = if st.up then s.up + 1 else s.up }

unfoldable pub sweep : Registry → ℕ → ℕ → ℕ → Sweep
sweep r now probe new_tries = tally (now - probe) new_tries r.nodes

-- What a FINDNODE brings: nodes, or an error's label.
pub data Reply : Type 0 where
  found : List Node → Reply
  refused : ℕ → Reply

unfoldable pub is_error : Reply → Bool
is_error (found ns) = false
is_error (refused e) = true

unfoldable pub findnode : Registry → Reply → Registry
findnode r reply = record r {
  counters = record r.counters {
    samples = r.counters.samples + 1;
    sample_err = if is_error reply then r.counters.sample_err + 1 else r.counters.sample_err;
  };
}

unfoldable pub observe_all : Registry → List Node → ℕ → Registry × List Event
observe_all r [] src = (r, [])
observe_all r (n ∷ ns) src =
    let (r1, events) = observe r n src in
    let (r2, rest) = observe_all r1 ns src in (r2, events ++ rest)

abbrev pub node_ids : List Node → List ℕ
node_ids [] = []
node_ids (n ∷ ns) = n.id ∷ node_ids ns

unfoldable pub log_reply : Registry → ℕ → List ℕ → Reply → ℕ → Registry × List Event
log_reply r from dists (refused e) src = (r, replied from dists [] (some e) ∷ [])
log_reply r from dists (found ns) src =
    let (r1, events) = observe_all r ns src in (r1, replied from dists (node_ids ns) none ∷ events)

-- `for d := 256; d >= 224; d--`, which has k more values from d on.
unfoldable pub sample_from : ℕ → ℕ → Registry → ℕ → (ℕ → Reply) → ℕ → Registry × List Event
sample_from zero d r from replies src = (r, [])
sample_from (suc k) d r from replies src =
    let (r1, events) = log_reply (findnode r (replies d)) from (d ∷ []) (replies d) src in
    let (r2, rest) = sample_from k (d - 1) r1 from replies src in
    if is_error (replies d) then (r1, events) else (r2, events ++ rest)

unfoldable pub sample_table : Registry → ℕ → (ℕ → Reply) → ℕ → Registry × List Event
sample_table r from replies src = sample_from 33 256 r from replies src
