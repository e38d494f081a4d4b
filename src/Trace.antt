-- ===== src/Trace.antt =====
-- pkg/host/trace.go: the traces of a node's processes, one for each session, merged into one. A JSON
-- object is a record of the fields that the merge reads, with the rest as one value; a number is a
-- whole number. The counters of a trace are those of each message type by name.
mod Totals
mod Series
mod Tests
use topdisc_testbed.Base.{
  ℕ, ◌+◌, Bool, Option, none, some, List, [], ◌∷◌, ◌++◌, if◌then◌else◌, ◌&&◌, ◌||◌, not, ltb,
  length, adjust, find_or, or_else, ℤ, pos, negsuc, ◌+ℤ◌, ◌-ℤ◌, ltb_ℤ, map,
}

abbrev pub Names : Type 0
Names = ℕ → Option ℕ

abbrev pub Wire : Type 0
Wire = List (ℕ × Names)

abbrev pub no_names : Names
no_names name = none

-- `c[typ][name]`
abbrev pub amount : Wire → ℕ → ℕ → ℕ
amount c typ name = or_else (find_or no_names typ c name) 0

abbrev pub added : Option ℕ → Option ℕ → Option ℕ
added none was = was
added (some n) was = some (or_else was 0 + n)

-- `c[typ][name] += n` for the names of one type.
unfoldable pub add_names : Names → Names → Names
add_names new was name = added (new name) (was name)

-- `counters.add`
unfoldable pub add_counters : Wire → Wire → Wire
add_counters c [] = c
add_counters c ((typ, names) ∷ wire) = add_counters (adjust no_names (add_names names) typ c) wire

abbrev pub plus_amount : ℕ → Option ℕ → Option ℕ
plus_amount n none = none
plus_amount n (some m) = some (m + n)

-- `counters.plus`: only what the object has.
unfoldable pub plus_counters : Wire → Wire → Wire
plus_counters c [] = []
plus_counters c ((typ, names) ∷ wire) =
    (typ, λ name. plus_amount (amount c typ name) (names name)) ∷ plus_counters c wire

pub record TraceSample : Type 0 where
  pub wire : Wire
  pub rest : ℕ

pub record Found : Type 0 where
  pub id : ℕ
  pub at_ms : ℤ

pub record Conn : Type 0 where
  pub start_ms : ℤ
  pub found : List Found
  pub rest : ℕ

-- The trace of one process. `lists` are lookups, ops, refill_ms and admissions by number.
pub record Trace : Type 0 where
  pub session : Option ℕ
  pub lists : ℕ → List ℕ
  pub samples : List TraceSample
  pub wire : Wire
  pub peer_drops : Option ℕ
  pub first_capable_ms : Option ℤ
  pub conn : Option Conn
  pub rest : ℕ

-- What the loop over the sessions keeps.
pub record Merging : Type 0 where
  pub sessions : List ℕ
  pub lists : ℕ → List ℕ
  pub samples : List TraceSample
  pub drops : ℕ
  pub capable : ℤ
  pub wire : Wire
  pub conn : Option Conn
  pub conn_found : List Found

pub record Merged : Type 0 where
  pub sessions : List ℕ
  pub lists : ℕ → List ℕ
  pub samples : List TraceSample
  pub wire : Wire
  pub peer_drops : Option ℕ
  pub first_capable_ms : Option ℤ
  pub conn : Option Conn
  pub rest : ℕ

abbrev option_list : Option ℕ → List ℕ
option_list none = []
option_list (some n) = n ∷ []

-- `if m, ok := …; ok && len(wire) > 0`
unfoldable pub carry : Wire → List TraceSample → List TraceSample
carry [] samples = samples
carry (c ∷ cs) [] = []
carry (c ∷ cs) (smp ∷ samples) =
    record smp { wire = plus_counters (c ∷ cs) smp.wire } ∷ carry (c ∷ cs) samples

unfoldable pub earliest_capable : ℤ → Option ℤ → ℤ
earliest_capable capable none = capable
earliest_capable capable (some f) =
    if not (ltb_ℤ f (pos 0)) && (ltb_ℤ capable (pos 0) || ltb_ℤ f capable) then f else capable

-- The finds with their times moved by the start of the dialer.
unfoldable pub moved_by : ℤ → List Found → List Found
moved_by start [] = []
moved_by start (f ∷ found) = record f { at_ms = start +ℤ f.at_ms } ∷ moved_by start found

unfoldable pub merge_conn : Option Conn → Merging → Merging
merge_conn none m = m
merge_conn (some c) m = record m {
  conn = some c;
  conn_found = m.conn_found ++ moved_by c.start_ms c.found;
}

-- One round of the loop.
unfoldable pub merge_one : Trace → Merging → Merging
merge_one t m = merge_conn t.conn (record m {
  sessions = m.sessions ++ option_list t.session;
  lists = λ key. m.lists key ++ t.lists key;
  samples = m.samples ++ carry m.wire t.samples;
  wire = add_counters m.wire t.wire;
  drops = m.drops + or_else t.peer_drops 0;
  capable = earliest_capable m.capable t.first_capable_ms;
})

unfoldable pub merge_all : List Trace → Merging → Merging
merge_all [] m = m
merge_all (t ∷ ts) m = merge_all ts (merge_one t m)

abbrev pub nothing_yet : Merging
nothing_yet = record {
  sessions = [];
  lists = λ _. [];
  samples = [];
  drops = 0;
  capable = negsuc 0;
  wire = [];
  conn = none;
  conn_found = [];
}

-- `fm["at_ms"] - start`
unfoldable pub moved_back : ℤ → List Found → List Found
moved_back start [] = []
moved_back start (f ∷ found) = record f { at_ms = f.at_ms -ℤ start } ∷ moved_back start found

abbrev pub conn_of : Option Conn → List Found → Option Conn
conn_of none found = none
conn_of (some c) found = some (record c { found = moved_back c.start_ms found })

abbrev pub wire_of : Wire → Wire → Wire
wire_of [] last = last
wire_of (c ∷ cs) last = c ∷ cs

abbrev pub drops_of : ℕ → Option ℕ → Option ℕ
drops_of drops none = none
drops_of drops (some d) = some drops

-- The merge of the sessions before the last with the last; fields that it does not read are the
-- last's.
unfoldable pub merge_traces : List Trace → Trace → Merged
merge_traces earlier last =
    let m = merge_all (earlier ++ last ∷ []) nothing_yet in
    record {
      sessions = m.sessions;
      lists = m.lists;
      samples = m.samples;
      wire = wire_of m.wire last.wire;
      peer_drops = drops_of m.drops last.peer_drops;
      first_capable_ms = if ltb_ℤ m.capable (pos 0) then last.first_capable_ms else some m.capable;
      conn = conn_of m.conn m.conn_found;
      rest = last.rest;
    }
