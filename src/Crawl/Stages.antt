-- ===== src/Crawl/Stages.antt =====
-- The nodes and pings that a step moves: which are queued, and how they are counted.
use topdisc_testbed.Base.{
  ℕ, ◌≡◌, ◌+◌, ◌≤◌, Bool, true, false, ◌||◌, Option, none, some, List, [], ◌∷◌, ◌++◌, arith, refl,
  ◌==◌, find, keys, sum_values, if◌then◌else◌, ◌∙◌, ap,
}
use topdisc_testbed.Crawl.{
  NodeState, ProbeConfig, Counters, put, reschedule, missed, answered, unanswered, count_pong,
}
use topdisc_testbed.Crawl.Schedule.{is_due}
use topdisc_testbed.Crawl.World.{Stage, flying, offers}
use topdisc_testbed.Crawl.Valid.{is_queued, find-put, mark, picked}

-- A ping that is out on the fast schedule, or on the other.
abbrev pub fast_ping : Stage → ℕ
fast_ping (flying true sent) = 1
fast_ping _ = 0

abbrev pub dead_ping : Stage → ℕ
dead_ping (flying false sent) = 1
dead_ping _ = 0

pub is_queued-put :
    (id j : ℕ) (st : NodeState) (nodes : List (ℕ × NodeState))
    → is_queued (find j (put id st nodes))
      ≡ (if id == j then st.queued else is_queued (find j nodes))
is_queued-put id j st nodes = ap is_queued (find-put id j st nodes) ∙ ground arith

pub answered_unqueued :
    (cfg : ProbeConfig) (id : ℕ) (st : NodeState) (sent t : ℕ)
    → (reschedule cfg (answered id st sent t).0 t).queued ≡ false
unfolding reschedule answered
answered_unqueued cfg id st sent t = ground arith

pub unanswered_unqueued :
    (cfg : ProbeConfig) (id : ℕ) (st : NodeState) (t e : ℕ)
    → (reschedule cfg (unanswered cfg id st t e).0 t).queued ≡ false
unfolding reschedule unanswered missed
unanswered_unqueued cfg id st t e = ground arith

pub count_pong-fast :
    (quick : Bool) (sent : ℕ) (c : Counters) (n : ℕ)
    → c.pongs + n ≤ c.pings
    → (count_pong quick c).pongs + n ≤ (count_pong quick c).pings + fast_ping (flying quick sent)
unfolding count_pong
count_pong-fast true sent c n h = omega arith
count_pong-fast false sent c n h = omega arith

pub count_pong-dead :
    (quick : Bool) (sent : ℕ) (c : Counters) (n : ℕ)
    → c.dead_pongs + n ≤ c.dead_pings
    → (count_pong quick c).dead_pongs + n
      ≤ (count_pong quick c).dead_pings + dead_ping (flying quick sent)
unfolding count_pong
count_pong-dead true sent c n h = omega arith
count_pong-dead false sent c n h = omega arith

pub keys-offers : (live dead : List ℕ) → keys (offers true live ++ offers false dead) ≡ live ++ dead
unfolding keys
keys-offers [] [] = refl
keys-offers [] (id ∷ dead) = ap (λ k. id ∷ k) (keys-offers [] dead)
keys-offers (id ∷ live) dead = ap (λ k. id ∷ k) (keys-offers live dead)

pub fast_ping-offers :
    (live dead : List ℕ) → sum_values fast_ping (offers true live ++ offers false dead) ≡ 0
unfolding sum_values
fast_ping-offers [] [] = refl
fast_ping-offers [] (id ∷ dead) = omega (arith, fast_ping-offers [] dead)
fast_ping-offers (id ∷ live) dead = omega (arith, fast_ping-offers live dead)

pub dead_ping-offers :
    (live dead : List ℕ) → sum_values dead_ping (offers true live ++ offers false dead) ≡ 0
unfolding sum_values
dead_ping-offers [] [] = refl
dead_ping-offers [] (id ∷ dead) = omega (arith, dead_ping-offers [] dead)
dead_ping-offers (id ∷ live) dead = omega (arith, dead_ping-offers live dead)

pub queued-picked : (t : ℕ) (o : Option NodeState) → is_queued o ≡ true → picked t o ≡ false
unfolding is_due
queued-picked t none h = refl
queued-picked t (some st) h = ground arith

pub queued-mark :
    (t : ℕ) (o : Option NodeState) → (is_queued o || picked t o) ≡ is_queued (mark t o)
queued-mark t none = refl
queued-mark t (some st) = ground arith
