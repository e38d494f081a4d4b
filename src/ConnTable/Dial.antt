-- ===== src/ConnTable/Dial.antt =====
-- When `dial` connects, and what it changes.
use topdisc_testbed.Base.{
  ℕ, ◌≡◌, ◌≢◌, ◌↔◌, refl, ◌≤◌, ◌<◌, true, false, none, some, List, [], ◌∷◌, ◌||◌, ◌&&◌, ◌==◌, has,
  arith, inl, inr, ◌⊎◌, subst, Option-cases,
}
use topdisc_testbed.ConnTable.{ConnTable, connect, refill, dial_index, dial}
use topdisc_testbed.ConnTable.Links.{has-connect}

-- The conditions under which geth's dialer connects `from` to node `j`.
pub record CanDial (c : ConnTable) (from j : ℕ) : Type 0 where
  pub other : j ≢ from
  pub dialer_up : c.offline from ≡ false
  pub target_up : c.offline j ≡ false
  pub not_connected : has (c.peers from) j ≡ false
  pub dialer_slot : c.out from < c.max_out
  pub target_slot : c.inbound j < c.max_in

pub dial_index-ok :
    (c : ConnTable) (from now j : ℕ) → ((dial_index c from now j).1 ≡ true) ↔ CanDial c from j
unfolding dial_index
dial_index-ok c from now j = ground arith

out_peers-refill :
    (c : ConnTable) (from now : ℕ) (q : List ℕ) → (refill c from now q).out_peers ≡ c.out_peers
unfolding refill
out_peers-refill c from now [] = refl
out_peers-refill c from now (t ∷ q) = refl

dial_index-links :
    (c : ConnTable) (from now j i k : ℕ)
    → has ((dial_index c from now j).0.out_peers i) k
      ≡ (has (c.out_peers i) k || (dial_index c from now j).1 && ((from == i) && (j == k)))
unfolding dial_index
dial_index-links c from now j i k =
    ground (
      arith,
      out_peers-refill (connect c from j) from now (c.lost_at from),
      has-connect c from j i k,
    )

dial_index-full :
    (c : ConnTable) (from now j : ℕ)
    → (dial_index c from now j).2 ≡ true
    → (c.offline j ≡ true) ⊎ (c.max_in ≤ c.inbound j)
unfolding dial_index
dial_index-full c from now j h = ground arith

-- dial reports a connection exactly when the target is a known node other than the dialer, both are
-- online, they are not connected either way, and the dialer has an outbound and the target an
-- inbound slot left.
pub dial-ok_iff :
    (c : ConnTable) (from to now : ℕ)
    → ((dial c from to now).1 ≡ true) ↔ ((j : ℕ) × (c.idx_of to ≡ some j) × CanDial c from j)
unfolding dial
dial-ok_iff c from to now = elim (Option-cases (c.idx_of to)) [
  | inl e ↦ rw (e, dial) (λ h. cc, λ (j, known, r). cc)
  | inr (j, e) ↦
      rw (e, dial)
        (
          λ h. (j, refl, (dial_index-ok c from now j).0 h),
          λ (k, known, can). (dial_index-ok c from now j).1 (subst (CanDial c from) (cc) can),
        )
]

-- A dial to node `j` adds the connection from the dialer to `j` if it reports ok, and changes no
-- other connection: whoever is not the dialer, and whatever else it dialed, stay as they were.
pub dial-links :
    (c : ConnTable) (from to now j i k : ℕ)
    → c.idx_of to ≡ some j
    → has ((dial c from to now).0.out_peers i) k
      ≡ (has (c.out_peers i) k || (dial c from to now).1 && ((from == i) && (j == k)))
unfolding dial
dial-links c from to now j i k e = rw (e, dial) (dial_index-links c from now j i k)

pub dial-links_unknown :
    (c : ConnTable) (from to now : ℕ) → c.idx_of to ≡ none → dial c from to now ≡ (c, false, false)
unfolding dial
dial-links_unknown c from to now e = rw (e, dial)
