-- ===== src/ConnTable/Tests.antt =====
-- Small tables: what the methods of the connection table do on them, and the theorems there.
use topdisc_testbed.Base.{
  ℕ, ◌+◌, ◌*◌, ◌≡◌, ◌↔◌, ◌≤◌, refl, true, false, not, ◌&&◌, ◌||◌, some, List, [], ◌∷◌, ◌==◌, arith,
  has, insert, delete,
}
use topdisc_testbed.ConnTable.{
  ConnTable, new_conn_table, index_ids, connect, refill, dial_index, dial, unlink, slot_lost,
  drop_conn, disconnect, leave, split_peers, drop_dialed, drop_dialers, depart,
}
use topdisc_testbed.ConnTable.Valid.{IsValid}
use topdisc_testbed.ConnTable.Operations.{new_conn_table-IsValid, dial-IsValid}
use topdisc_testbed.ConnTable.Reach.{dialed, Reach, here, next, table_always-IsValid}
use topdisc_testbed.ConnTable.Dial.{CanDial, dial-ok_iff}
use topdisc_testbed.ConnTable.Depart.{depart-links}
use topdisc_testbed.ConnTable.Accounts.{waiting, refills_settled}

-- the ids of three nodes
abbrev three : List ℕ
three = 10 ∷ 20 ∷ 30 ∷ []

-- two slots each way
abbrev start : ConnTable
start = new_conn_table three 4 2

abbrev second : ℕ
second = 1_000_000_000

-- node 0 dials node 1
abbrev joined : ConnTable
joined = (dial start 0 20 second).0

-- node 0 lost the connection, and dials node 2 a second later
abbrev refilled : ConnTable
refilled = (dial (disconnect joined 0 1 (2 * second)).0 0 30 (3 * second)).0

program : Unit {0}
unfolding new_conn_table index_ids dial connect refill drop_conn disconnect depart has insert delete
program = tt

dial_reports :
    ((dial start 0 20 second).1 ≡ true)
    × ((dial joined 1 10 second).1 ≡ false)
    × ((dial joined 0 99 second).1 ≡ false)
    × ((dial joined 0 10 second).1 ≡ false)
unfolding program dial_index
dial_reports = (refl, refl, refl, refl)

refill_counted : (refilled.refills ≡ 1) × (refilled.refill_total_ms ≡ 1000) × (refilled.losses ≡ 1)
unfolding program dial_index unlink slot_lost
refill_counted = (refl, refl, refl)

depart_clears : ((depart joined 1 second).out 0 ≡ 0) × ((depart joined 1 second).losses ≡ 1)
unfolding program dial_index unlink slot_lost leave split_peers drop_dialers drop_dialed
depart_clears = (refl, refl)

joined-Reach : Reach start joined
unfolding new_conn_table
joined-Reach = next here (dialed start 0 20 second (omega arith))

joined-IsValid : IsValid joined
unfolding new_conn_table
joined-IsValid = dial-IsValid start 0 20 second (new_conn_table-IsValid three 4 2) (omega arith)

table_always-IsValid_example : IsValid joined
table_always-IsValid_example = table_always-IsValid three 4 2 joined-Reach

refills_settled_example :
    (joined.refills + waiting joined ≤ joined.losses) × (joined.losses ≤ joined.disconnects)
refills_settled_example = refills_settled three 4 2 joined-Reach

dial-ok_iff_example :
    ((dial start 0 20 second).1 ≡ true) ↔ ((j : ℕ) × (start.idx_of 20 ≡ some j) × CanDial start 0 j)
dial-ok_iff_example = dial-ok_iff start 0 20 second

depart-links_example :
    ((depart joined 1 second).offline 1 ≡ true)
    × ((a b : ℕ)
        → has ((depart joined 1 second).out_peers a) b
          ≡ (has (joined.out_peers a) b && not ((1 == a) || (1 == b))))
depart-links_example = depart-links joined 1 second joined-IsValid
