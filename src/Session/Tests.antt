-- ===== src/Session/Tests.antt =====
-- A node with two sessions; lookups and operations are numbers.
use topdisc_testbed.Base.{
  ℕ, ◌≡◌, true, some, List, [], ◌∷◌, arith, refl, keys, find_or, adjust, has,
}
use topdisc_testbed.Session.{
  add_counter, Counter, counter_zero, Session, Node, Readings, new_session, new_node, up, down,
  finish,
}
use topdisc_testbed.Session.Periods.{
  IsValid, step_up, step_down, step_finish, History, begin_at, then_at, History-IsValid,
}
use topdisc_testbed.Session.Accounts.{fold_all, AllMaps, wire_at}

program : Unit {0}
unfolding up down finish fold_all new_node find_or adjust has
program = tt

abbrev readings : Readings ℕ
readings = record { wire = []; ops = 4 ∷ []; topic_load = [] }

abbrev node_up : Node ℕ ℕ
node_up = (up new_node 10 true).0

abbrev node_down : Node ℕ ℕ
node_down = (down node_up 25 readings).0

abbrev node_again : Node ℕ ℕ
node_again = (up node_down 40 true).0

abbrev node_done : Node ℕ ℕ
node_done = finish node_again 70 readings

history : History 70 node_done
history =
    then_at
      (then_at
        (then_at (then_at (begin_at 0) (omega arith) (step_up new_node true)) (omega arith)
          (step_down node_up readings))
        (omega arith) (step_up node_down true))
      (omega arith) (step_finish node_again readings)

History-IsValid_example : IsValid 70 node_done
History-IsValid_example = History-IsValid ℕ ℕ 70 node_done history

two_periods :
    node_done.sessions
    ≡ record { start_ms = 10; end_ms = 25 } ∷ record { start_ms = 40; end_ms = 70 } ∷ []
unfolding program
two_periods = refl

abbrev pings : Counter
pings = record counter_zero { tx_msgs = 3; rx_msgs = 2 }

abbrev first : Session ℕ ℕ
first = record (new_session 10) {
  wire = (1, pings) ∷ [];
  lookups = 7 ∷ [];
  first_capable = some 12;
}

abbrev second : Session ℕ ℕ
second = record (new_session 40) {
  wire = (2, pings) ∷ (1, pings) ∷ [];
  lookups = 8 ∷ [];
  first_capable = some 41;
}

abbrev closed : List (Session ℕ ℕ × ℕ)
closed = (first, 25) ∷ (second, 70) ∷ []

sent : (wire_at 1 (fold_all new_node closed).wire_done).tx_msgs ≡ 6
unfolding program add_counter
sent = refl

closed-AllMaps : AllMaps closed
unfolding keys has
closed-AllMaps = ((refl, tt), ((refl, (refl, tt)), tt))
