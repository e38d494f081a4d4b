-- ===== src/Scenario/Ports.antt =====
-- The nodes of an accepted scenario keep off the ghosts' ports.
use topdisc_testbed.Base.{ℕ, ◌≡◌, ◌≢◌, ◌+◌, ◌≤◌, ◌<◌, ◌⊎◌, inl, inr, true, List, arith}
use topdisc_testbed.Scenario.{
  Backend, Config, ok, named, ghosts_on, validate, node_port, status_port, ghost_port,
  ghost_port_base,
}
use topdisc_testbed.Scenario.Accepted.{validate-ok_iff}

ghost_port_bounds : (j : ℕ) → (ghost_port_base ≤ ghost_port j) × (ghost_port j < 30_000)
unfolding ghost_port
ghost_port_bounds j = omega arith

ports_apart :
    (c : Config) (i j : ℕ)
    → i < c.nodes
    → (30_000 ≤ c.base_port) ⊎ (c.base_port + c.nodes + 10_000 ≤ 20_000)
    → (node_port c i ≢ ghost_port j) × (status_port c i ≢ ghost_port j)
unfolding node_port status_port
ports_apart c i j h (inl above) =
    let (lo, hi) = ghost_port_bounds j in ((λ e. omega arith), (λ e. omega arith))
ports_apart c i j h (inr below) =
    let (lo, hi) = ghost_port_bounds j in ((λ e. omega arith), (λ e. omega arith))

-- In a scenario that `validate` accepts, with ghosts and on the local backend, no node's discovery
-- or status port is one that a ghost's record advertises.
pub ghost_ports_free :
    (c : Config) (file : List ℕ) (i j : ℕ)
    → validate c file ≡ ok (named c.name file)
    → ghosts_on c ≡ true
    → c.backend ≡ Backend.local
    → i < c.nodes
    → (node_port c i ≢ ghost_port j) × (status_port c i ≢ ghost_port j)
unfolding ghosts_on
ghost_ports_free c file i j v on here h =
    elim ((validate-ok_iff c file (named c.name file)).0 v).0.pinned [
      | inl off ↦ absurd (ground (arith, on, off.0, off.1))
      | inr p ↦ elim p.ports_apart [
        | inl away ↦ absurd (away here)
        | inr apart ↦ ports_apart c i j h apart
      ]
    ]
