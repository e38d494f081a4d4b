-- ===== src/Session/Periods.antt =====
-- The life of a node: its online periods follow one another, and nothing starts after `finish`.
use topdisc_testbed.Base.{
  ℕ, ◌≡◌, ◌≤◌, Bool, true, false, Option, none, some, List, [], ◌∷◌, ◌++◌, arith, refl, if_ind,
  subst, sym, ◌∙◌,
}
use topdisc_testbed.Session.{
  Span, Session, Node, Readings, Failure, up_from, down_from, new_session, new_node, up, down,
  finish, fold, fold_conn, snapshot_counters,
}

-- The spans lie between lo and hi, and none begins before the one before it ends.
abbrev pub Ordered : ℕ → List Span → ℕ → Type 0
Ordered lo [] hi = lo ≤ hi
Ordered lo (p ∷ ps) hi = (lo ≤ p.start_ms) × (p.start_ms ≤ p.end_ms) × Ordered p.end_ms ps hi

Ordered-append :
    (lo : ℕ) (ps : List Span) (mid a b : ℕ)
    → Ordered lo ps mid
    → mid ≤ a
    → a ≤ b
    → Ordered lo (ps ++ (record { start_ms = a; end_ms = b } ∷ [])) b
Ordered-append lo [] mid a b o h k = (omega arith, k, omega arith)
Ordered-append lo (p ∷ ps) mid a b o h k = (o.0, o.1, Ordered-append p.end_ms ps mid a b o.2 h k)

Ordered-later :
    (lo : ℕ) (ps : List Span) (hi hi' : ℕ) → Ordered lo ps hi → hi ≤ hi' → Ordered lo ps hi'
Ordered-later lo [] hi hi' o h = omega arith
Ordered-later lo (p ∷ ps) hi hi' o h = (o.0, o.1, Ordered-later p.end_ms ps hi hi' o.2 h)

module _ {L O : Type 0} where
  -- Up to when the periods that are closed may reach.
  abbrev pub open_from : Option (Session L O) → ℕ → ℕ
  open_from none now = now
  open_from (some s) now = s.started

  -- The node at time `now`.
  pub record IsValid (now : ℕ) (n : Node L O) : Type 0 where
    pub periods : Ordered 0 n.sessions (open_from n.cur now)
    pub begun : open_from n.cur now ≤ now
    pub ended : n.done ≡ true → n.cur ≡ none

  -- One call, made at the time `now`, or what a running session records meanwhile.
  pub data Step (now : ℕ) : Node L O → Node L O → Type 0 where
    step_up : (n : Node L O) (starts : Bool) → Step now n (up n now starts).0
    step_down : (n : Node L O) (r : Readings O) → Step now n (down n now r).0
    step_finish : (n : Node L O) (r : Readings O) → Step now n (finish n now r)
    step_record :
        (n : Node L O) (s s' : Session L O)
        → n.cur ≡ some s
        → s'.started ≡ s.started
        → Step now n (record n { cur = some s' })

  -- The node after a history of steps, up to the time `now`.
  pub data History : ℕ → Node L O → Type 0 where
    begin_at : (now : ℕ) → History now new_node
    then_at :
        {before now : ℕ} {n n' : Node L O}
        → History before n
        → before ≤ now
        → Step now n n'
        → History now n'

  open_from-later :
      (o : Option (Session L O)) (ps : List Span) (before now : ℕ)
      → Ordered 0 ps (open_from o before)
      → open_from o before ≤ before
      → before ≤ now
      → Ordered 0 ps (open_from o now) × (open_from o now ≤ now)
  open_from-later none ps before now o b h = (Ordered-later 0 ps before now o h, omega arith)
  open_from-later (some s) ps before now o b h = (o, omega arith)

  later : (before now : ℕ) (n : Node L O) → IsValid before n → before ≤ now → IsValid now n
  later before now n v h =
      let r = open_from-later n.cur n.sessions before now v.periods v.begun h in
      record { periods = r.0; begun = r.1; ended = v.ended }

  fold_conn-keeps :
      (n : Node L O) (s : Session L O) (o : Option ℕ)
      → ((fold_conn n s o).sessions ≡ n.sessions) × ((fold_conn n s o).done ≡ n.done)
  unfolding fold_conn
  fold_conn-keeps n s none = (refl, refl)
  fold_conn-keeps n s (some x) = (refl, refl)

  fold-IsValid :
      (now : ℕ) (n : Node L O) (s : Session L O)
      → Ordered 0 n.sessions s.started
      → s.started ≤ now
      → IsValid now (fold n s now)
  unfolding fold
  fold-IsValid now n s o h = record {
    periods = Ordered-append 0 n.sessions s.started s.started now o (omega arith) h;
    begun = omega arith;
    ended = λ e. refl;
  }

  up_from-IsValid :
      (now : ℕ) (n : Node L O) (starts : Bool) (o : Option (Session L O))
      → IsValid now n
      → n.cur ≡ o
      → n.done ≡ false
      → IsValid now (up_from n now starts o).0
  unfolding up_from new_session
  up_from-IsValid now n starts (some s) v e d = v
  up_from-IsValid now n false none v e d = v
  up_from-IsValid now n true none v e d = record {
    periods = subst (λ x. Ordered 0 n.sessions (open_from x now)) e v.periods;
    begun = omega arith;
    ended = λ t. ground (arith, d);
  }

  down_from-IsValid :
      (now : ℕ) (n : Node L O) (r : Readings O) (o : Option (Session L O))
      → IsValid now n
      → n.cur ≡ o
      → IsValid now (down_from n now r o).0
  unfolding down_from snapshot_counters
  down_from-IsValid now n r none v e = v
  down_from-IsValid now n r (some s) v e =
      fold-IsValid now n (snapshot_counters s r)
        (subst (λ x. Ordered 0 n.sessions (open_from x now)) e v.periods)
        (subst (λ x. open_from x now ≤ now) e v.begun)

  some-ne_none : {s : Session L O} → some s ≡ none → ⊥
  some-ne_none e = cc

  finish_from-IsValid :
      (now : ℕ) (n : Node L O) (r : Readings O) (o : Option (Session L O))
      → IsValid now n
      → n.cur ≡ o
      → IsValid now (down_from (record n { done = true }) now r o).0
  unfolding down_from snapshot_counters
  finish_from-IsValid now n r none v e = record {
    periods = v.periods;
    begun = v.begun;
    ended = λ _. e;
  }
  finish_from-IsValid now n r (some s) v e =
      fold-IsValid now (record n { done = true }) (snapshot_counters s r)
        (subst (λ x. Ordered 0 n.sessions (open_from x now)) e v.periods)
        (subst (λ x. open_from x now ≤ now) e v.begun)

  finish-IsValid :
      (now : ℕ) (n : Node L O) (r : Readings O) → IsValid now n → IsValid now (finish n now r)
  unfolding finish down
  finish-IsValid now n r v =
      if_ind (IsValid now) n.done (λ _. v) (λ _. finish_from-IsValid now n r n.cur v refl)

  Step-IsValid : {now : ℕ} {n n' : Node L O} → Step now n n' → IsValid now n → IsValid now n'
  unfolding up down
  Step-IsValid {now} (step_up n starts) v =
      if_ind (λ (p : Node L O × Option Failure). IsValid now p.0) n.done (λ _. v)
        (λ d. up_from-IsValid now n starts n.cur v refl d)
  Step-IsValid {now} (step_down n r) v = down_from-IsValid now n r n.cur v refl
  Step-IsValid {now} (step_finish n r) v = finish-IsValid now n r v
  Step-IsValid {now} (step_record n s s' e k) v = record {
    periods =
        subst (λ x. Ordered 0 n.sessions x) (sym k)
          (subst (λ x. Ordered 0 n.sessions (open_from x now)) e v.periods);
    begun = subst (λ x. x ≤ now) (sym k) (subst (λ x. open_from x now ≤ now) e v.begun);
    ended = λ t. absurd (some-ne_none (sym e ∙ v.ended t));
  }

  new_node-IsValid : (now : ℕ) → IsValid now new_node
  unfolding new_node
  new_node-IsValid now = record { periods = omega arith; begun = omega arith; ended = λ e. refl }

-- However calls of up, down and finish follow one another in time, with whatever the sessions
-- record meanwhile: the periods that are closed lie in order, none overlaps the one before or the
-- one that runs, and after `finish` nothing runs.
pub History-IsValid : (L O : Type 0) (now : ℕ) (n : Node L O) → History now n → IsValid now n
History-IsValid L O _ _ (begin_at now) = new_node-IsValid now
History-IsValid L O _ _ (then_at {before = before} {now = now} {n = n} h le s) =
    Step-IsValid s (later before now n (History-IsValid L O before n h) le)
