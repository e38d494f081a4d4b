-- ===== src/Crawl/Log.antt =====
-- What a log of events tells of a node: whether it is up, with the events that are not written yet.
use topdisc_testbed.Base.{
  ℕ, ◌≡◌, Bool, true, false, Option, none, some, List, [], ◌∷◌, ◌++◌, ◌+◌, ◌≤◌, ◌⊎◌, inl, inr,
  arith, refl, sym, ◌∙◌, ap, subst, ◌==◌, if◌then◌else◌, find, Bool-cases, ℕ_discrete,
}
use mathlib.Core.List.{append_assoc}
use topdisc_testbed.Crawl.{NodeState, Event, seen, enr, went_up, pong, miss, went_down, replied}

-- Whether node `id` is up after an event, if it was so before it or not; none if it comes up while it is
-- up or goes down while it is not, and from then on.
unfoldable pub next_up : ℕ → Option Bool → Event → Option Bool
next_up id none e = none
next_up id (some b) (went_up j) = if j == id then (if b then none else some true) else some b
next_up id (some b) (went_down j m s p e) =
    if j == id then (if b then some false else none) else some b
next_up id (some b) _ = some b

unfoldable pub sessions : ℕ → Option Bool → List Event → Option Bool
sessions id o [] = o
sessions id o (e ∷ events) = sessions id (next_up id o e) events

abbrev pub is_up : Option NodeState → Bool
is_up none = false
is_up (some st) = st.up

-- Whether an event is an up or down of node id, and how many of a list are.
unfoldable pub turns : ℕ → Event → Bool
turns id (went_up j) = j == id
turns id (went_down j m s p e) = j == id
turns id _ = false

unfoldable pub turns_in : ℕ → List Event → ℕ
turns_in id [] = 0
turns_in id (e ∷ events) = (if turns id e then 1 else 0) + turns_in id events

-- The events that the goroutines have yet to write.
abbrev pub together : List (List Event) → List Event
together [] = []
together (es ∷ rest) = es ++ together rest

pub together-append : (xs ys : List (List Event)) → together (xs ++ ys) ≡ together xs ++ together ys
together-append [] ys = refl
together-append (x ∷ xs) ys =
    ap (λ l. x ++ l) (together-append xs ys) ∙ sym (append_assoc x (together xs) (together ys))

pub sessions-append :
    (id : ℕ) (o : Option Bool) (xs ys : List Event)
    → sessions id o (xs ++ ys) ≡ sessions id (sessions id o xs) ys
unfolding sessions
sessions-append id o [] ys = refl
sessions-append id o (e ∷ xs) ys = sessions-append id (next_up id o e) xs ys

pub turns_in-append :
    (id : ℕ) (xs ys : List Event) → turns_in id (xs ++ ys) ≡ turns_in id xs + turns_in id ys
unfolding turns_in
turns_in-append id [] ys = omega arith
turns_in-append id (e ∷ xs) ys = omega (arith, turns_in-append id xs ys)

pub next_up-other : (id : ℕ) (o : Option Bool) (e : Event) → turns id e ≡ false → next_up id o e ≡ o
unfolding next_up turns
next_up-other id none e h = refl
next_up-other id (some b) (went_up j) h = ground arith
next_up-other id (some b) (went_down j m s p e) h = ground arith
next_up-other id (some b) (seen n src) h = refl
next_up-other id (some b) (enr n src) h = refl
next_up-other id (some b) (pong j k) h = refl
next_up-other id (some b) (miss j k) h = refl
next_up-other id (some b) (replied j k l e) h = refl

pub sessions-other :
    (id : ℕ) (o : Option Bool) (events : List Event)
    → turns_in id events ≡ 0
    → sessions id o events ≡ o
unfolding sessions turns_in
sessions-other id o [] h = refl
sessions-other id o (e ∷ events) h =
    sessions-other id (next_up id o e) events (omega arith)
    ∙ next_up-other id o e (ground (arith, h))

-- The log tells which nodes are up: with the up or down event that is not written yet, of which there
-- is one at most.
abbrev pub TellsOf : ℕ → List Event → List Event → List (ℕ × NodeState) → Type 0
TellsOf j log events nodes =
    (b : Bool) × (sessions j (some false) log ≡ some b)
    × (sessions j (some b) events ≡ some (is_up (find j nodes)))
    × (turns_in j events ≤ 1)

-- The events of a step tell what it changes, from the nodes before it to those after it.
abbrev pub Continues : List (ℕ × NodeState) → List Event → List (ℕ × NodeState) → Type 0
Continues nodes events nodes' =
    (j : ℕ) → sessions j (some (is_up (find j nodes))) events ≡ some (is_up (find j nodes'))

-- A critical section leaves its events to be written. No node that it turns has an event unwritten.
pub TellsOf-leave :
    (j : ℕ) (log events rest : List Event) (nodes nodes' : List (ℕ × NodeState))
    → TellsOf j log rest nodes
    → Continues nodes events nodes'
    → turns_in j events ≤ 1
    → (turns_in j events ≡ 0) ⊎ (turns_in j rest ≡ 0)
    → TellsOf j log (events ++ rest) nodes'
TellsOf-leave j log events rest nodes nodes' (b, w, u, l) c m (inl none_here) = (
  b,
  w,
  sessions-append j (some b) events rest
      ∙ ap (λ o. sessions j o rest) (sessions-other j (some b) events none_here)
      ∙ u
      ∙ sym (sessions-other j (some (is_up (find j nodes))) events none_here)
      ∙ c j,
  omega (arith, turns_in-append j events rest),
)
TellsOf-leave j log events rest nodes nodes' (b, w, u, l) c m (inr written) = (
  b,
  w,
  sessions-append j (some b) events rest
      ∙ sessions-other j (sessions j (some b) events) rest written
      ∙ ap (λ o. sessions j o events) (sym (sessions-other j (some b) rest written) ∙ u)
      ∙ c j,
  omega (arith, turns_in-append j events rest),
)

pub TellsOf-change :
    (j : ℕ) (log rest : List Event) (nodes nodes' : List (ℕ × NodeState))
    → TellsOf j log rest nodes
    → Continues nodes [] nodes'
    → TellsOf j log rest nodes'
unfolding sessions
TellsOf-change j log rest nodes nodes' (b, w, u, l) c = (b, w, u ∙ c j, l)

-- A write moves an event to the log.
pub TellsOf-write :
    (j : ℕ) (log before rest : List Event) (e : Event) (nodes : List (ℕ × NodeState))
    → TellsOf j log (before ++ (e ∷ rest)) nodes
    → TellsOf j (log ++ (e ∷ [])) (before ++ rest) nodes
unfolding sessions turns_in
TellsOf-write j log before rest e nodes (b, w, u, l) =
    let count = turns_in-append j before (e ∷ rest) in
    let logged : sessions j (some false) (log ++ (e ∷ [])) ≡ next_up j (some b) e =
      sessions-append j (some false) log (e ∷ []) ∙ ap (λ o. next_up j o e) w in
    let parts : sessions j (next_up j (sessions j (some b) before) e) rest
        ≡ some (is_up (find j nodes)) =
      sym (sessions-append j (some b) before (e ∷ rest)) ∙ u in
    elim (Bool-cases (turns j e)) [
      | inl mine ↦
          let none_before : turns_in j before ≡ 0 = ground (arith, count, l, mine) in
          let none_after : turns_in j rest ≡ 0 = ground (arith, count, l, mine) in
          let now : next_up j (some b) e ≡ some (is_up (find j nodes)) =
            ap (λ o. next_up j o e) (sym (sessions-other j (some b) before none_before))
            ∙ sym (sessions-other j (next_up j (sessions j (some b) before) e) rest none_after)
            ∙ parts in
          (
            is_up (find j nodes),
            logged ∙ now,
            sessions-other j (some (is_up (find j nodes))) (before ++ rest)
                (omega (arith, turns_in-append j before rest)),
            omega (arith, turns_in-append j before rest),
          )
      | inr other ↦ (
        b,
        logged ∙ next_up-other j (some b) e other,
        sessions-append j (some b) before rest
            ∙ ap (λ o. sessions j o rest)
                (sym (next_up-other j (sessions j (some b) before) e other))
            ∙ parts,
        ground (arith, turns_in-append j before rest, count, l),
      )
    ]

pub turns_le :
    (id j : ℕ) (events : List Event)
    → turns_in id events ≤ 1
    → ((j : ℕ) → (id == j) ≡ false → turns_in j events ≡ 0)
    → turns_in j events ≤ 1
turns_le id j events once others = elim (ℕ_discrete id j) [
  | yes p ↦ subst (λ k. turns_in k events ≤ 1) p once
  | no p ↦ omega (arith, others j (ground arith))
]

pub turns_apart :
    (id j : ℕ) (events rest : List Event)
    → ((j : ℕ) → (id == j) ≡ false → turns_in j events ≡ 0)
    → (turns_in id events ≡ 0) ⊎ (turns_in id rest ≡ 0)
    → (turns_in j events ≡ 0) ⊎ (turns_in j rest ≡ 0)
turns_apart id j events rest others i = elim (ℕ_discrete id j) [
  | yes p ↦ subst (λ k. (turns_in k events ≡ 0) ⊎ (turns_in k rest ≡ 0)) p i
  | no p ↦ inl (others j (ground arith))
]
