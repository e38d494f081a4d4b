-- ===== src/Scenario/Tests.antt =====
-- A scenario with ghosts on the local backend.
use topdisc_testbed.Base.{ℕ, ◌≡◌, ◌≢◌, ◌↔◌, true, false, [], ◌∷◌, arith, refl, pos}
use topdisc_testbed.Scenario.{
  ModelName, Addresses, LegacyBuild, Backend, Config, ok, err, ports_overlap, ghosts_on, ports_meet,
  check_pinned, check_ghosts, check_model, check_addresses, check_build, validate, node_port,
  status_port, ghost_port,
}
use topdisc_testbed.Scenario.Accepted.{IsAccepted, IsName, validate-ok_iff}
use topdisc_testbed.Scenario.Ports.{ghost_ports_free}

abbrev at_port : ℕ → Config
at_port base = record {
  name = [];
  search_model = ModelName.conn;
  addresses = Addresses.unset;
  has_topic_model = false;
  legacy_build = LegacyBuild.unset;
  legacy_frac = record { negative = false; positive = false; above_half = false };
  share = record { negative = false; positive = true; above_half = false };
  pool = pos 0;
  has_tables = false;
  tables_there = false;
  backend = Backend.local;
  base_port = base;
  nodes = 5;
  conn_model = true;
}

accepted : validate (at_port 30_300) (7 ∷ []) ≡ ok (7 ∷ [])
unfolding validate check_model check_addresses check_build check_ghosts check_pinned ghosts_on
    ports_meet
accepted = refl

refused : validate (at_port 25_000) (7 ∷ []) ≡ err ports_overlap
unfolding validate check_model check_addresses check_build check_ghosts check_pinned ghosts_on
    ports_meet
refused = refl

validate-ok_iff_example :
    (validate (at_port 30_300) (7 ∷ []) ≡ ok (7 ∷ []))
    ↔ (IsAccepted (at_port 30_300) × IsName (at_port 30_300) (7 ∷ []) (7 ∷ []))
validate-ok_iff_example = validate-ok_iff (at_port 30_300) (7 ∷ []) (7 ∷ [])

ghost_ports_free_example :
    (node_port (at_port 30_300) 4 ≢ ghost_port 300)
    × (status_port (at_port 30_300) 4 ≢ ghost_port 300)
unfolding ghosts_on
ghost_ports_free_example =
    ghost_ports_free (at_port 30_300) (7 ∷ []) 4 300 accepted refl refl (omega arith)
