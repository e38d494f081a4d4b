-- ===== src/ConnTable/Reach.antt =====
-- The critical sections of the goroutines that share the table, in any order.
use topdisc_testbed.Base.{ℕ, ◌<◌, Bool, List}
use topdisc_testbed.ConnTable.{ConnTable, dial, drop_conn, leave, rejoin, new_conn_table}
use topdisc_testbed.ConnTable.Valid.{IsValid}
use topdisc_testbed.ConnTable.Operations.{
  dial-IsValid, drop_conn-IsValid, leave-IsValid, rejoin-IsValid, new_conn_table-IsValid,
}

-- One critical section: `dial`, `dropConn`, the locked part of `depart`, `rejoin`. The nodes that
-- call are those of the table; the other indices are free.
pub data Step : ConnTable → ConnTable → Type 0 where
  dialed : (c : ConnTable) (from to now : ℕ) → from < c.size → Step c (dial c from to now).0
  dropped :
      (c : ConnTable) (from to : ℕ) (wake_dialer : Bool) (now : ℕ)
      → Step c (drop_conn c from to wake_dialer now).0
  left : (c : ConnTable) (i now : ℕ) → i < c.size → Step c (leave c i now)
  rejoined : (c : ConnTable) (i : ℕ) → i < c.size → Step c (rejoin c i)

pub data Reach (s : ConnTable) : ConnTable → Type 0 where
  here : Reach s s
  next : {t u : ConnTable} → Reach s t → Step t u → Reach s u

pub Step-IsValid : {c d : ConnTable} → Step c d → IsValid c → IsValid d
Step-IsValid (dialed c from to now h) v = dial-IsValid c from to now v h
Step-IsValid (dropped c from to wake_dialer now) v = drop_conn-IsValid c from to wake_dialer now v
Step-IsValid (left c i now _) v = leave-IsValid c i now v
Step-IsValid (rejoined c i _) v = rejoin-IsValid c i v

pub Reach-IsValid : {c d : ConnTable} → IsValid c → Reach c d → IsValid d
Reach-IsValid v here = v
Reach-IsValid v (next r s) = Step-IsValid s (Reach-IsValid v r)

-- However the critical sections of the searchers and the churn drivers interleave, a table made by
-- newConnTable keeps its invariant: the counters are the sizes of the sets, both ends know of a
-- connection, no node exceeds its outbound or its inbound quota, and none is connected to itself or
-- twice to the same node.
pub table_always-IsValid :
    (all : List ℕ) (max_peers dial_ratio : ℕ) {c : ConnTable}
    → Reach (new_conn_table all max_peers dial_ratio) c
    → IsValid c
table_always-IsValid all max_peers dial_ratio r =
    Reach-IsValid (new_conn_table-IsValid all max_peers dial_ratio) r
