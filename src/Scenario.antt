-- ===== src/Scenario.antt =====
-- pkg/scenario/scenario.go: the checks of a scenario, with the ports of pkg/coordinator/local.go and
-- pkg/assign/ghosts.go. A setting that takes one of a few words is a data type, `other` for the rest;
-- a name is the list of its characters. Whether the table of the ghosts is there (os.Stat) is given.
mod Accepted
mod Ports
mod Tests
use topdisc_testbed.Base.{
  ℕ, ◌+◌, ◌%◌, Bool, true, false, not, ◌&&◌, ◌||◌, List, [], ◌∷◌, if◌then◌else◌, ltb, ℤ, pos, ltb_ℤ,
}

pub data ModelName : Type 0 where
  conn scheduled continuous other : ModelName

pub data Addresses : Type 0 where
  unset index crawl other : Addresses

pub data LegacyBuild : Type 0 where
  unset stock fork other : LegacyBuild

pub data Backend : Type 0 where
  simnet local other : Backend

-- The tests of a share, a float64, that the checks make.
pub record Share : Type 0 where
  pub negative : Bool
  pub positive : Bool
  pub above_half : Bool

pub record Config : Type 0 where
  pub name : List ℕ
  pub search_model : ModelName
  pub addresses : Addresses
  pub has_topic_model : Bool
  pub legacy_build : LegacyBuild
  pub legacy_frac : Share
  pub share : Share
  pub pool : ℤ
  pub has_tables : Bool
  pub tables_there : Bool
  pub backend : Backend
  pub base_port : ℕ
  pub nodes : ℕ
  pub conn_model : Bool

-- One for each message.
pub data ScenarioError : Type 0 where
  bad_search_model needs_topic_model bad_addresses bad_legacy_build bad_share bad_pool :
      ScenarioError
  share_and_tables needs_real_backend stock_cannot_pin no_tables ports_overlap never_dials :
      ScenarioError

pub data Checked {ℓ} (A : Type ℓ) : Type ℓ where
  ok : A → Checked A
  err : ScenarioError → Checked A

abbrev pub require : Bool → ScenarioError → Checked (Unit {0}) → Checked (Unit {0})
require true e rest = rest
require false e rest = err e

abbrev pub ghost_port_base : ℕ
ghost_port_base = 20_000

abbrev pub ghost_port_span : ℕ
ghost_port_span = 10_000

-- `On`
unfoldable pub ghosts_on : Config → Bool
ghosts_on c = c.share.positive || c.has_tables

abbrev pub is_conn : ModelName → Bool
is_conn conn = true
is_conn _ = false

abbrev pub is_fork : LegacyBuild → Bool
is_fork fork = true
is_fork _ = false

abbrev pub is_simnet : Backend → Bool
is_simnet simnet = true
is_simnet _ = false

abbrev pub is_local : Backend → Bool
is_local local = true
is_local _ = false

-- The node and status ports reach into the ghosts'.
unfoldable pub ports_meet : Config → Bool
ports_meet c =
    is_local c.backend
    && (ltb c.base_port (ghost_port_base + ghost_port_span)
        && ltb ghost_port_base (c.base_port + c.nodes + 10_000))

-- The checks of a scenario with ghosts.
unfoldable pub check_pinned : Config → Checked (Unit {0})
check_pinned c = require (not (c.share.positive && c.has_tables)) share_and_tables (
    require (not (is_simnet c.backend)) needs_real_backend (
      require (not (c.legacy_frac.positive && not (is_fork c.legacy_build))) stock_cannot_pin (
        require (not c.has_tables || c.tables_there) no_tables
          (require (not (ports_meet c)) ports_overlap (ok tt)))))

unfoldable pub check_ghosts : Config → Checked (Unit {0})
check_ghosts c =
    require (not (c.share.negative || c.share.above_half)) bad_share (
      require (not (ltb_ℤ c.pool (pos 0))) bad_pool (if ghosts_on c then check_pinned c else ok tt))

unfoldable pub check_model : ModelName → Checked (Unit {0})
check_model other = err bad_search_model
check_model _ = ok tt

unfoldable pub check_addresses : Addresses → Bool → Checked (Unit {0})
check_addresses unset has = ok tt
check_addresses index has = ok tt
check_addresses crawl has = require has needs_topic_model (ok tt)
check_addresses other has = err bad_addresses

unfoldable pub check_build : LegacyBuild → Checked (Unit {0})
check_build other = err bad_legacy_build
check_build _ = ok tt

abbrev pub then_check {ℓ} : {A : Type ℓ} → Checked (Unit {0}) → Checked A → Checked A
then_check (ok _) next = next
then_check (err e) next = err e

abbrev pub named : List ℕ → List ℕ → List ℕ
named [] file = file
named (x ∷ name) file = x ∷ name

-- `validate`, with the file's base name for a scenario without a name; the result is the name.
unfoldable pub validate : Config → List ℕ → Checked (List ℕ)
validate c file = then_check (check_model c.search_model) (
    then_check (check_addresses c.addresses c.has_topic_model) (
      then_check (check_build c.legacy_build) (
        then_check (check_ghosts c) (
          then_check (require (is_conn c.search_model || not c.conn_model) never_dials (ok tt))
            (ok (named c.name file))))))

-- The ports of node i on the local backend: discovery, and status 10000 above it.
unfoldable pub node_port : Config → ℕ → ℕ
node_port c i = c.base_port + i

unfoldable pub status_port : Config → ℕ → ℕ
status_port c i = c.base_port + i + 10_000

-- The port that the record of ghost j advertises.
unfoldable pub ghost_port : ℕ → ℕ
ghost_port j = ghost_port_base + j % ghost_port_span
