-- ===== src/Crawl/Valid.antt =====
-- The registry's nodes: each under its own id, and up only if it ever answered.
use topdisc_testbed.Base.{
  ℕ, ◌≡◌, Bool, true, false, not, ◌&&◌, ◌||◌, Option, none, some, List, [], ◌∷◌, ◌++◌, arith, refl,
  ◌==◌, has, IsDistinct, find, keys, find-adjust, adjust-IsDistinct, find-absent, if◌then◌else◌,
  sym, ◌∙◌, subst, ap, ℕ_discrete, if_ind, ==_iff, has-append, append-IsDistinct,
}
use topdisc_testbed.Crawl.{
  NodeState, ProbeConfig, put, fast, reschedule, missed, answered, unanswered,
}
use topdisc_testbed.Crawl.Schedule.{is_due, pick_due, node_ids}

pub record IsState (id : ℕ) (st : NodeState) : Type 0 where
  pub named : st.node.id ≡ id
  pub alive : st.up ≡ true → st.ever_up ≡ true

abbrev pub MayBeState : ℕ → Option NodeState → Type 0
MayBeState id none = Unit
MayBeState id (some st) = IsState id st

pub record AreNodes (nodes : List (ℕ × NodeState)) : Type 0 where
  pub distinct : IsDistinct (keys nodes)
  pub each : (id : ℕ) → MayBeState id (find id nodes)

abbrev pub is_queued : Option NodeState → Bool
is_queued none = false
is_queued (some st) = st.queued

pub find-put :
    (id j : ℕ) (st : NodeState) (nodes : List (ℕ × NodeState))
    → find j (put id st nodes) ≡ (if id == j then some st else find j nodes)
unfolding put
find-put id j st nodes = find-adjust st (λ _. st) id j nodes

pub put-AreNodes :
    (id : ℕ) (st : NodeState) (nodes : List (ℕ × NodeState))
    → AreNodes nodes
    → IsState id st
    → AreNodes (put id st nodes)
unfolding put
put-AreNodes id st nodes a v = record {
  distinct = adjust-IsDistinct st (λ _. st) id nodes a.distinct;
  each = λ j. subst (MayBeState j) (sym (find-put id j st nodes)) (
      if_ind (MayBeState j) (id == j) (λ e. subst (λ i. IsState i st) ((==_iff id j).0 e) v)
        (λ _. a.each j));
}

pub answered-IsState :
    (cfg : ProbeConfig) (id : ℕ) (st : NodeState) (sent t : ℕ)
    → IsState id st
    → IsState id (reschedule cfg (answered id st sent t).0 t)
unfolding reschedule answered
answered-IsState cfg id st sent t v = ground (arith, v)

pub unanswered-IsState :
    (cfg : ProbeConfig) (id : ℕ) (st : NodeState) (t e : ℕ)
    → IsState id st
    → IsState id (reschedule cfg (unanswered cfg id st t e).0 t)
unfolding reschedule unanswered missed
unanswered-IsState cfg id st t e v = ground (arith, v)

pub AreNodes-cons :
    (id : ℕ) (st : NodeState) (m : List (ℕ × NodeState))
    → AreNodes ((id, st) ∷ m)
    → IsState id st × AreNodes m × (has (keys m) id ≡ false)
unfolding keys find
AreNodes-cons id st m a =
    let head : find id ((id, st) ∷ m) ≡ some st = ground arith in
    (
      subst (MayBeState id) head (a.each id),
      record {
        distinct = a.distinct.1;
        each = λ j. elim (ℕ_discrete id j) [
          | yes p ↦
              subst (λ i. MayBeState i (find i m)) p
                (subst (MayBeState id) (sym (find-absent id m a.distinct.0)) tt)
          | no p ↦
              let rest : find j ((id, st) ∷ m) ≡ find j m = ground arith in
              subst (MayBeState j) rest (a.each j)
        ];
      },
      a.distinct.0,
    )

-- A tick marks the nodes that are due.
abbrev pub mark : ℕ → Option NodeState → Option NodeState
mark t none = none
mark t (some st) = some (if is_due st t then record st { queued = true } else st)

abbrev pub picked : ℕ → Option NodeState → Bool
picked t none = false
picked t (some st) = is_due st t

mark-MayBeState : (t j : ℕ) (o : Option NodeState) → MayBeState j o → MayBeState j (mark t o)
mark-MayBeState t j none h = tt
mark-MayBeState t j (some st) h =
    if_ind (IsState j) (is_due st t) (λ _. record { named = h.named; alive = h.alive }) (λ _. h)

module _ (cfg : ProbeConfig) (t : ℕ) where
  abbrev picked_as : Bool → Option NodeState → Bool
  picked_as live none = false
  picked_as true (some st) = is_due st t && fast st cfg.new_tries
  picked_as false (some st) = is_due st t && not (fast st cfg.new_tries)

  picked_as-split : (o : Option NodeState) → (picked_as true o || picked_as false o) ≡ picked t o
  picked_as-split none = refl
  picked_as-split (some st) = ground arith

  picked_as-disjoint : (o : Option NodeState) → picked_as true o ≡ true → picked_as false o ≡ false
  picked_as-disjoint none h = refl
  picked_as-disjoint (some st) h = ground arith

  keys-pick_due : (nodes : List (ℕ × NodeState)) → keys (pick_due cfg t nodes).nodes ≡ keys nodes
  unfolding keys pick_due
  keys-pick_due [] = refl
  keys-pick_due ((id, st) ∷ m) = ground (arith, keys-pick_due m)

  pub find-pick_due :
      (j : ℕ) (nodes : List (ℕ × NodeState))
      → find j (pick_due cfg t nodes).nodes ≡ mark t (find j nodes)
  unfolding find pick_due
  find-pick_due j [] = refl
  find-pick_due j ((id, st) ∷ m) = ground (arith, find-pick_due j m)

  has-picked :
      (j : ℕ) (nodes : List (ℕ × NodeState))
      → AreNodes nodes
      → (has (node_ids (pick_due cfg t nodes).due_live) j ≡ picked_as true (find j nodes))
        × (has (node_ids (pick_due cfg t nodes).due_dead) j ≡ picked_as false (find j nodes))
  unfolding has find pick_due
  has-picked j [] a = (refl, refl)
  has-picked j ((id, st) ∷ m) a =
      let (v, tail, new) = AreNodes-cons id st m a in
      ground (arith, has-picked j m tail, v.named, find-absent id m new, ap (λ i. find i m))

  picked-IsDistinct :
      (nodes : List (ℕ × NodeState))
      → AreNodes nodes
      → IsDistinct (node_ids (pick_due cfg t nodes).due_live)
        × IsDistinct (node_ids (pick_due cfg t nodes).due_dead)
  unfolding pick_due
  picked-IsDistinct [] a = (tt, tt)
  picked-IsDistinct ((id, st) ∷ m) a =
      let (v, tail, new) = AreNodes-cons id st m a in
      ground (
        arith,
        picked-IsDistinct m tail,
        has-picked id m tail,
        find-absent id m new,
        v.named,
        ap (has (node_ids (pick_due cfg t m).due_live)) v.named,
        ap (has (node_ids (pick_due cfg t m).due_dead)) v.named,
      )

  -- The ids of the nodes that a tick offers, those for the live pool first.
  abbrev pub offered_ids : List (ℕ × NodeState) → List ℕ
  offered_ids nodes =
      node_ids (pick_due cfg t nodes).due_live ++ node_ids (pick_due cfg t nodes).due_dead

  pub has-offered_ids :
      (j : ℕ) (nodes : List (ℕ × NodeState))
      → AreNodes nodes
      → has (offered_ids nodes) j ≡ picked t (find j nodes)
  has-offered_ids j nodes a =
      has-append (node_ids (pick_due cfg t nodes).due_live)
        (node_ids (pick_due cfg t nodes).due_dead) j
      ∙ ground (arith, has-picked j nodes a, picked_as-split (find j nodes))

  pub offered_ids-IsDistinct :
      (nodes : List (ℕ × NodeState)) → AreNodes nodes → IsDistinct (offered_ids nodes)
  offered_ids-IsDistinct nodes a =
      let (live, dead) = picked-IsDistinct nodes a in
      append-IsDistinct (node_ids (pick_due cfg t nodes).due_live)
        (node_ids (pick_due cfg t nodes).due_dead) live dead
        (λ j h. ground (arith, has-picked j nodes a, picked_as-disjoint (find j nodes)))

  pub pick_due-AreNodes :
      (nodes : List (ℕ × NodeState)) → AreNodes nodes → AreNodes (pick_due cfg t nodes).nodes
  pick_due-AreNodes nodes a = record {
    distinct = subst IsDistinct (sym (keys-pick_due nodes)) a.distinct;
    each = λ j.
        subst (MayBeState j) (sym (find-pick_due j nodes))
          (mark-MayBeState t j (find j nodes) (a.each j));
  }
