-- ===== src/ConnTable/Depart.antt =====
-- What `depart` leaves behind, and that a node which is away gains no connection.
use topdisc_testbed.Base.{
  ℕ, ◌≡◌, refl, Bool, true, false, not, List, [], ◌∷◌, ◌||◌, ◌&&◌, ◌==◌, has, arith, ◌∙◌, ◌⊎◌, inl,
  inr, Option-cases,
}
use topdisc_testbed.ConnTable.{
  ConnTable, unlink, slot_lost, dial, drop_conn, disconnect, leave, split_peers, drop_dialed,
  drop_dialers, depart, rejoin,
}
use topdisc_testbed.ConnTable.Links.{has-unlink}
use topdisc_testbed.ConnTable.Dial.{dial-links, dial-links_unknown, dial-ok_iff}
use topdisc_testbed.ConnTable.Valid.{IsValid}
use topdisc_testbed.ConnTable.Reach.{Step, dialed, dropped, left, rejoined}

pub drop_conn-links :
    (c : ConnTable) (from to : ℕ) (wake_dialer : Bool) (now a b : ℕ)
    → has ((drop_conn c from to wake_dialer now).0.out_peers a) b
      ≡ (has (c.out_peers a) b && not ((from == a) && (to == b)))
unfolding drop_conn slot_lost
drop_conn-links c from to wake_dialer now a b = ground (arith, has-unlink c from to a b)

offline-drop_conn :
    (c : ConnTable) (from to : ℕ) (wake_dialer : Bool) (now : ℕ)
    → (drop_conn c from to wake_dialer now).0.offline ≡ c.offline
unfolding drop_conn slot_lost unlink
offline-drop_conn c from to wake_dialer now = ground arith

drop_dialed-links :
    (c : ConnTable) (i now : ℕ) (js : List ℕ) (a b : ℕ)
    → (has ((drop_dialed c i now js).out_peers a) b
        ≡ (has (c.out_peers a) b && not ((i == a) && has js b)))
      × ((drop_dialed c i now js).offline ≡ c.offline)
unfolding drop_dialed has
drop_dialed-links c i now [] a b = (ground arith, refl)
drop_dialed-links c i now (j ∷ js) a b =
    let (links, offline) = drop_dialed-links (drop_conn c i j false now).0 i now js a b in
    (
      ground (arith, links, drop_conn-links c i j false now a b),
      offline ∙ offline-drop_conn c i j false now,
    )

drop_dialers-links :
    (c : ConnTable) (i now : ℕ) (js : List ℕ) (a b : ℕ)
    → (has ((drop_dialers c i now js).out_peers a) b
        ≡ (has (c.out_peers a) b && not ((i == b) && has js a)))
      × ((drop_dialers c i now js).offline ≡ c.offline)
unfolding drop_dialers disconnect has
drop_dialers-links c i now [] a b = (ground arith, refl)
drop_dialers-links c i now (j ∷ js) a b =
    let (links, offline) = drop_dialers-links (disconnect c j i now).0 i now js a b in
    (
      ground (arith, links, drop_conn-links c j i true now a b),
      offline ∙ offline-drop_conn c j i true now,
    )

has-split_peers :
    (outs ps : List ℕ) (j : ℕ)
    → (has (split_peers outs ps).0 j ≡ (has ps j && has outs j))
      × (has (split_peers outs ps).1 j ≡ (has ps j && not (has outs j)))
unfolding split_peers has
has-split_peers outs [] j = (refl, refl)
has-split_peers outs (p ∷ ps) j = ground (arith, has-split_peers outs ps j)

-- After depart the node is offline, every connection that it dialed or accepted is gone, and every
-- connection between two other nodes is as before.
pub depart-links :
    (c : ConnTable) (i now : ℕ)
    → IsValid c
    → ((depart c i now).offline i ≡ true)
      × ((a b : ℕ)
          → has ((depart c i now).out_peers a) b
            ≡ (has (c.out_peers a) b && not ((i == a) || (i == b))))
unfolding depart leave
depart-links c i now v = (away, links)
  where
    parts : List ℕ × List ℕ
    parts = split_peers (c.out_peers i) (c.peers i)

    mid : ConnTable
    mid = drop_dialed (leave c i now) i now parts.0

    away : (depart c i now).offline i ≡ true
    away = ground (
      arith,
      (drop_dialers-links mid i now parts.1 0 0).1,
      (drop_dialed-links (leave c i now) i now parts.0 0 0).1,
    )

    links :
        (a b : ℕ)
        → has ((depart c i now).out_peers a) b
          ≡ (has (c.out_peers a) b && not ((i == a) || (i == b)))
    links a b = ground (
      arith,
      (drop_dialers-links mid i now parts.1 a b).0,
      (drop_dialed-links (leave c i now) i now parts.0 a b).0,
      has-split_peers (c.out_peers i) (c.peers i) a,
      has-split_peers (c.out_peers i) (c.peers i) b,
      v.symmetric i a,
      v.symmetric i b,
      v.one_way a i,
      v.one_way i b,
    )

dial-gains_none :
    (c : ConnTable) (from to now i a b : ℕ)
    → c.offline i ≡ true
    → (a ≡ i) ⊎ (b ≡ i)
    → has ((dial c from to now).0.out_peers a) b ≡ true
    → has (c.out_peers a) b ≡ true
dial-gains_none c from to now i a b away end h = elim (Option-cases (c.idx_of to)) [
  | inl e ↦ ground (arith, dial-links_unknown c from to now e)
  | inr (j, e) ↦ ground (arith, dial-links c from to now j a b e, (dial-ok_iff c from to now).0)
]

-- No critical section gives a node that is away when it begins a connection, in either direction,
-- that the node did not have before.
pub offline_gains_none :
    {c d : ConnTable} (i a b : ℕ)
    → Step c d
    → c.offline i ≡ true
    → (a ≡ i) ⊎ (b ≡ i)
    → has (d.out_peers a) b ≡ true
    → has (c.out_peers a) b ≡ true
unfolding leave rejoin
offline_gains_none i a b (dialed c from to now _) away end h =
    dial-gains_none c from to now i a b away end h
offline_gains_none i a b (dropped c from to wake_dialer now) away end h =
    ground (arith, drop_conn-links c from to wake_dialer now a b)
offline_gains_none i a b (left c j now _) away end h = h
offline_gains_none i a b (rejoined c j _) away end h = h
