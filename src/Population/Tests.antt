-- ===== src/Population/Tests.antt =====
-- A population of the bootnode and two others.
use topdisc_testbed.Base.{ℕ, ◌≡◌, refl, some, [], ◌∷◌, arith, has, insert, inl}
use topdisc_testbed.Population.{
  NodeRec, ChurnState, append_alive, activate, new_churn_state, remove_at, pick_leaver,
  leave_random, join, counts,
}
use topdisc_testbed.Population.Valid.{IsValid}
use topdisc_testbed.Population.Leaving.{OneBootnode, is_alive}
use topdisc_testbed.Population.Rounds.{IsSteady, leaves, joins, act, act_all, act_all-IsSteady}

abbrev node : ℕ → ℕ → NodeRec
node id idx = record { id = id; idx = idx }

abbrev start : ChurnState
start = new_churn_state (node 10 0 ∷ node 11 1 ∷ node 12 2 ∷ []) (0 ∷ 1 ∷ 2 ∷ []) 3

program : Unit {0}
unfolding new_churn_state activate append_alive leave_random remove_at pick_leaver join insert has
program = tt

-- The bootnode comes up, and the second node after it leaves instead.
leave_after_boot :
    ((leave_random start 0 1).1 ≡ some (node 12 2))
    × (counts (leave_random start 0 1).0 ≡ (2, 1, 3))
unfolding program counts
leave_after_boot = (refl, refl)

start-IsValid : IsValid start
unfolding program
start-IsValid = record {
  indexed = λ i h. ground arith;
  listed = λ id i h. ground arith;
  killed_gone = λ id h. cc;
}

start-OneBootnode : OneBootnode start
unfolding program
start-OneBootnode i j hi hj ei ej = ground arith

start-IsSteady : IsSteady 0 start
unfolding program is_alive
start-IsSteady = record {
  valid = start-IsValid;
  boot = start-OneBootnode;
  seen = λ id e. ground arith;
  balance = omega arith;
}

-- Node 11 leaves, node 13 joins.
act_all-IsSteady_example : IsSteady 0 (act_all start (leaves 1 0 ∷ joins (node 13 3) ∷ []))
unfolding program act
act_all-IsSteady_example =
    act_all-IsSteady 0 start (leaves 1 0 ∷ joins (node 13 3) ∷ []) start-IsSteady
      ((omega arith, inl (omega arith)), ((refl, λ e. absurd (omega arith)), tt))
