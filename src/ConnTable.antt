-- ===== src/ConnTable.antt =====
-- cmd/simnet/conn_model.go: the peer slots of every node (`connTable`).
-- A method that holds `c.mu` is one function of the table; `now` is the `time.Now()` that it reads,
-- in nanoseconds of one monotonic clock. A slice with an entry for each node is a function of the
-- node's index, a set of indices the list of its keys, a wake channel (capacity 1) whether a signal
-- is pending.
pub mod Links
pub mod Valid
pub mod Operations
pub mod Reach
pub mod Dial
pub mod Balance
pub mod Driver
pub mod Depart
pub mod Accounts
mod Tests
use topdisc_testbed.Base.{
  ℕ, zero, suc, ◌+◌, ◌-◌, ◌/◌, ◌≡◌, Bool, true, false, not, ◌&&◌, ◌||◌, Option, none, some, List,
  [], ◌∷◌, ◌++◌, if◌then◌else◌, ltb, leb, ◌==◌, update, has, insert, delete, get_or, length,
  sum_below,
}

pub record ConnTable : Type 0 where
  -- the number of nodes, the length of every slice
  pub size : ℕ
  pub idx_of : ℕ → Option ℕ
  pub ids : ℕ → ℕ
  pub out : ℕ → ℕ
  -- `in`
  pub inbound : ℕ → ℕ
  pub peers : ℕ → List ℕ
  pub out_peers : ℕ → List ℕ
  pub wake : ℕ → Bool
  pub offline : ℕ → Bool
  -- `dead.offlineAt`, if the table has a dead-result tracker
  pub dead : Option (ℕ → Option ℕ)
  pub lookup_only : Bool
  pub lost_at : ℕ → List ℕ
  pub max_out : ℕ
  pub max_in : ℕ
  pub rejected_full : ℕ
  pub dup_dropped : ℕ
  pub disconnects : ℕ
  pub departs : ℕ
  pub losses : ℕ
  pub refills : ℕ
  pub refill_total_ms : ℕ

abbrev pub ms : ℕ
ms = 1_000_000

-- The loop over `all` that fills `idxOf`.
unfoldable pub index_ids : ℕ → List ℕ → (ℕ → Option ℕ) → ℕ → Option ℕ
index_ids i [] m = m
index_ids i (id ∷ all) m = index_ids (i + 1) all (update m id (some i))

-- `all` is the nodes' ids. The counts of a scenario are not negative. With maxPeers = 0 the source
-- has maxIn = -1, which refuses every dial as 0 does.
unfoldable pub new_conn_table : List ℕ → ℕ → ℕ → ConnTable
unfolding index_ids
new_conn_table all max_peers dial_ratio =
    let ratio = if ltb dial_ratio 1 then 1 else dial_ratio in
    let quota = max_peers / ratio in
    let max_out = if ltb quota 1 then 1 else quota in
    record {
      size = length all;
      idx_of = index_ids 0 all (λ _. none);
      ids = λ i. get_or all i 0;
      out = λ _. 0;
      inbound = λ _. 0;
      peers = λ _. [];
      out_peers = λ _. [];
      wake = λ _. false;
      offline = λ _. false;
      dead = none;
      lookup_only = false;
      lost_at = λ _. [];
      max_out = max_out;
      max_in = max_peers - max_out;
      rejected_full = 0;
      dup_dropped = 0;
      disconnects = 0;
      departs = 0;
      losses = 0;
      refills = 0;
      refill_total_ms = 0;
    }

unfoldable pub is_offline : ConnTable → ℕ → Bool
is_offline c idx = c.offline idx

unfoldable pub should_park : ConnTable → ℕ → Bool
should_park c idx = c.offline idx || leb c.max_out (c.out idx)

unfoldable pub outbound_full : ConnTable → ℕ → Bool
outbound_full c idx = leb c.max_out (c.out idx)

-- `live` of runDisconnectDriver and waitForTopology: the outbound slots in use.
pub live : ConnTable → ℕ
live c = sum_below c.size c.out

-- A connection from `from` to `j`, without the refill accounting.
unfoldable pub connect : ConnTable → ℕ → ℕ → ConnTable
connect c from j =
    let one = update c.peers from (insert j (c.peers from)) in
    record c {
      out = update c.out from (c.out from + 1);
      inbound = update c.inbound j (c.inbound j + 1);
      peers = update one j (insert from (one j));
      out_peers = update c.out_peers from (insert j (c.out_peers from));
    }

-- The oldest slot that `from` lost, if any, counts as refilled.
unfoldable pub refill : ConnTable → ℕ → ℕ → List ℕ → ConnTable
refill c from now [] = c
refill c from now (t ∷ q) = record c {
  refills = c.refills + 1;
  refill_total_ms = c.refill_total_ms + (now - t) / ms;
  lost_at = update c.lost_at from q;
}

-- `dial` past the lookup of `to`, which has given the index `j`.
unfoldable pub dial_index : ConnTable → ℕ → ℕ → ℕ → ConnTable × Bool × Bool
unfolding connect refill
dial_index c from now j =
    if (j == from) || c.offline from
    then (c, false, false)
    else if has (c.peers from) j
    then (record c { dup_dropped = c.dup_dropped + 1 }, false, false)
    else if leb c.max_out (c.out from)
    then (c, false, false)
    else if c.offline j || leb c.max_in (c.inbound j)
    then (record c { rejected_full = c.rejected_full + 1 }, false, true)
    else (refill (connect c from j) from now (c.lost_at from), true, false)

-- (the table, ok, targetFull)
unfoldable pub dial : ConnTable → ℕ → ℕ → ℕ → ConnTable × Bool × Bool
unfolding dial_index
dial c from to now = elim (c.idx_of to) [
  | none ↦ (c, false, false)
  | some j ↦ dial_index c from now j
]

-- A connection taken away, without the accounting of a lost slot.
pub unlink : ConnTable → ℕ → ℕ → ConnTable
unlink c from to =
    let one = update c.peers from (delete to (c.peers from)) in
    record c {
      out_peers = update c.out_peers from (delete to (c.out_peers from));
      peers = update one to (delete from (one to));
      out = update c.out from (c.out from - 1);
      inbound = update c.inbound to (c.inbound to - 1);
      disconnects = c.disconnects + 1;
    }

pub slot_lost : ConnTable → ℕ → ℕ → ConnTable
slot_lost c from now = record c {
  losses = c.losses + 1;
  lost_at = update c.lost_at from (c.lost_at from ++ now ∷ []);
  wake = update c.wake from true;
}

-- `dropConn`: the table, and whether there was such a connection.
pub drop_conn : ConnTable → ℕ → ℕ → Bool → ℕ → ConnTable × Bool
unfolding unlink slot_lost
drop_conn c from to wake_dialer now =
    if has (c.out_peers from) to
    then ((if wake_dialer then slot_lost (unlink c from to) from now else unlink c from to), true)
    else (c, false)

pub disconnect : ConnTable → ℕ → ℕ → ℕ → ConnTable × Bool
disconnect c from to now = drop_conn c from to true now

pub mark_offline : Option (ℕ → Option ℕ) → ℕ → ℕ → Option (ℕ → Option ℕ)
mark_offline none id t = none
mark_offline (some m) id t = some (update m id (some t))

pub mark_online : Option (ℕ → Option ℕ) → ℕ → Option (ℕ → Option ℕ)
mark_online none id = none
mark_online (some m) id = some (update m id none)

-- The part of `depart` under the lock.
pub leave : ConnTable → ℕ → ℕ → ConnTable
unfolding mark_offline
leave c i now = record c {
  offline = update c.offline i true;
  departs = c.departs + 1;
  dead = mark_offline c.dead (c.ids i) now;
  lost_at = update c.lost_at i [];
}

-- The peers that `i` dialed, and those that dialed `i`, in the order of the range.
pub split_peers : List ℕ → List ℕ → List ℕ × List ℕ
split_peers outs [] = ([], [])
split_peers outs (j ∷ js) =
    let (dialed, dialers) = split_peers outs js in
    if has outs j then (j ∷ dialed, dialers) else (dialed, j ∷ dialers)

pub drop_dialed : ConnTable → ℕ → ℕ → List ℕ → ConnTable
drop_dialed c i now [] = c
drop_dialed c i now (j ∷ js) = drop_dialed (drop_conn c i j false now).0 i now js

pub drop_dialers : ConnTable → ℕ → ℕ → List ℕ → ConnTable
drop_dialers c i now [] = c
drop_dialers c i now (j ∷ js) = drop_dialers (disconnect c j i now).0 i now js

-- `depart` with no other goroutine between its critical sections; `now` is read once.
pub depart : ConnTable → ℕ → ℕ → ConnTable
unfolding leave split_peers drop_dialed drop_dialers
depart c i now =
    let (dialed, dialers) = split_peers (c.out_peers i) (c.peers i) in
    drop_dialers (drop_dialed (leave c i now) i now dialed) i now dialers

pub rejoin : ConnTable → ℕ → ConnTable
unfolding mark_online
rejoin c i = record c {
  offline = update c.offline i false;
  dead = mark_online c.dead (c.ids i);
  wake = update c.wake i true;
}
