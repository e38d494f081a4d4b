-- ===== src/Metrics/Load.antt =====
-- The series adds up over the nodes, and its totals never fall.
use topdisc_testbed.Base.{
  ℕ, ◌≡◌, ◌+◌, ◌<◌, ◌==◌, Option, none, some, List, [], ◌∷◌, arith, refl, ap, ◌∙◌, if◌then◌else◌,
  find,
}
use topdisc_testbed.Metrics.Series.{
  RawSample, OverheadSample, Counts, Bucketed, take_in, new_sample, fold_samples, fold_traces,
  add_wire, add_counts,
}
use topdisc_testbed.Metrics.Slots.{
  Slots, sample_at, carried, taken, IsAscending, fold_samples-carried,
}

-- A counter over all message types.
abbrev pub wire_sum : (Counts → ℕ) → List (ℕ × Counts) → ℕ
wire_sum count [] = 0
wire_sum count ((typ, c) ∷ wire) = count c + wire_sum count wire

-- The sums that a slot keeps; those of the traffic are kept for each bucket.
pub data Gauge : Type 0 where
  nodes_in : ℕ → Gauge
  held capacity : Gauge
  sent_bytes received_bytes sent_msgs received_msgs : ℕ → Gauge

abbrev pub gauge : Gauge → OverheadSample → ℕ
gauge (nodes_in b) s = s.nodes b
gauge held s = s.cache_held
gauge capacity s = s.cache_cap
gauge (sent_bytes b) s = s.traffic.tx_bytes b
gauge (received_bytes b) s = s.traffic.rx_bytes b
gauge (sent_msgs b) s = s.traffic.tx_msgs b
gauge (received_msgs b) s = s.traffic.rx_msgs b

abbrev only_in : ℕ → ℕ → ℕ → ℕ
only_in b bkt n = if bkt == b then n else 0

-- What a sample of a node in bucket `bkt` says.
abbrev pub reading : Gauge → ℕ → RawSample → ℕ
reading (nodes_in b) bkt smp = only_in b bkt 1
reading held bkt smp = smp.cache_held
reading capacity bkt smp = smp.cache_cap
reading (sent_bytes b) bkt smp = only_in b bkt (wire_sum (λ c. c.tx_bytes) smp.wire)
reading (received_bytes b) bkt smp = only_in b bkt (wire_sum (λ c. c.rx_bytes) smp.wire)
reading (sent_msgs b) bkt smp = only_in b bkt (wire_sum (λ c. c.tx_msgs) smp.wire)
reading (received_msgs b) bkt smp = only_in b bkt (wire_sum (λ c. c.rx_msgs) smp.wire)

only_in-add : (b bkt m n : ℕ) → only_in b bkt m + only_in b bkt n ≡ only_in b bkt (m + n)
only_in-add b bkt m n = ground arith

module _ (get : Bucketed → ℕ → ℕ) (count : Counts → ℕ) (b bkt : ℕ) where
  add_wire-traffic :
      ((c : Counts) (t : Bucketed) → get (add_counts bkt c t) b ≡ get t b + only_in b bkt (count c))
      → (wire : List (ℕ × Counts)) (s : OverheadSample)
      → get (add_wire bkt wire s).traffic b ≡ get s.traffic b + only_in b bkt (wire_sum count wire)
  unfolding add_wire
  add_wire-traffic h [] s = ground arith
  add_wire-traffic h ((typ, c) ∷ wire) s =
      add_wire-traffic h wire _
      ∙ omega (arith, h c s.traffic, only_in-add b bkt (count c) (wire_sum count wire))

add_wire-rest :
    (bkt : ℕ) (wire : List (ℕ × Counts)) (s : OverheadSample)
    → ((add_wire bkt wire s).nodes ≡ s.nodes)
      × ((add_wire bkt wire s).cache_held ≡ s.cache_held)
      × ((add_wire bkt wire s).cache_cap ≡ s.cache_cap)
unfolding add_wire
add_wire-rest bkt [] s = (refl, refl, refl)
add_wire-rest bkt ((typ, c) ∷ wire) s = add_wire-rest bkt wire _

take_in-gauge :
    (g : Gauge) (bkt : ℕ) (smp : RawSample) (s : OverheadSample)
    → gauge g (take_in bkt smp s) ≡ gauge g s + reading g bkt smp
unfolding take_in add_counts
take_in-gauge (nodes_in b) bkt smp s = ap (λ n. n b) (add_wire-rest bkt smp.wire _).0 ∙ ground arith
take_in-gauge held bkt smp s = (add_wire-rest bkt smp.wire _).1
take_in-gauge capacity bkt smp s = (add_wire-rest bkt smp.wire _).2
take_in-gauge (sent_bytes b) bkt smp s =
    add_wire-traffic (λ t. t.tx_bytes) (λ c. c.tx_bytes) b bkt (λ c t. ground arith) smp.wire _
take_in-gauge (received_bytes b) bkt smp s =
    add_wire-traffic (λ t. t.rx_bytes) (λ c. c.rx_bytes) b bkt (λ c t. ground arith) smp.wire _
take_in-gauge (sent_msgs b) bkt smp s =
    add_wire-traffic (λ t. t.tx_msgs) (λ c. c.tx_msgs) b bkt (λ c t. ground arith) smp.wire _
take_in-gauge (received_msgs b) bkt smp s =
    add_wire-traffic (λ t. t.rx_msgs) (λ c. c.rx_msgs) b bkt (λ c t. ground arith) smp.wire _

new_sample-gauge : (g : Gauge) (period t0 stop j : ℕ) → gauge g (new_sample period t0 stop j) ≡ 0
unfolding new_sample
new_sample-gauge (nodes_in b) period t0 stop j = refl
new_sample-gauge held period t0 stop j = refl
new_sample-gauge capacity period t0 stop j = refl
new_sample-gauge (sent_bytes b) period t0 stop j = refl
new_sample-gauge (received_bytes b) period t0 stop j = refl
new_sample-gauge (sent_msgs b) period t0 stop j = refl
new_sample-gauge (received_msgs b) period t0 stop j = refl

abbrev pub of_node : Gauge → ℕ → Option RawSample → ℕ
of_node g bkt none = 0
of_node g bkt (some smp) = reading g bkt smp

abbrev pub AllAscending : List (ℕ × List RawSample) → Type 0
AllAscending [] = Unit
AllAscending ((bkt, samples) ∷ traces) = IsAscending samples × AllAscending traces

module _ (period t0 stop : ℕ) where
  -- What the nodes' latest samples at a slot say together.
  abbrev pub total : Gauge → List (ℕ × List RawSample) → ℕ → ℕ
  total g [] j = 0
  total g ((bkt, samples) ∷ traces) j =
      of_node g bkt (carried period t0 stop samples j) + total g traces j

  taken-gauge :
      (g : Gauge) (bkt : ℕ) (o : Option RawSample) (s : OverheadSample)
      → gauge g (taken period t0 stop bkt o s) ≡ gauge g s + of_node g bkt o
  taken-gauge g bkt none s = omega arith
  taken-gauge g bkt (some smp) s = take_in-gauge g bkt smp s

  fold_traces-gauge :
      (g : Gauge) (traces : List (ℕ × List RawSample)) (j : ℕ) (slots : Slots period t0 stop)
      → 0 < period
      → AllAscending traces
      → gauge g (sample_at period t0 stop j (fold_traces period t0 stop traces slots))
        ≡ gauge g (sample_at period t0 stop j slots) + total g traces j
  unfolding fold_traces
  fold_traces-gauge g [] j slots pos a = omega arith
  fold_traces-gauge g ((bkt, samples) ∷ traces) j slots pos (a, as') =
      fold_traces-gauge g traces j (fold_samples period t0 stop bkt samples slots) pos as'
      ∙ omega (
        arith,
        ap (gauge g) (fold_samples-carried period t0 stop bkt samples j slots pos a),
        taken-gauge g bkt (carried period t0 stop samples j) (sample_at period t0 stop j slots),
      )

  -- If the times of every node's samples do not descend, each slot of the series holds the sums over
  -- the nodes that have a sample by then, each counted once, by its latest one, up to the slot of the
  -- stop and that of the node's own last sample, whichever is later: how many they are in a bucket,
  -- what their caches hold and can hold, and the bytes and messages that those in a bucket sent and
  -- received. In a run without a stop, a node counts up to the slot of its last sample.
  pub fold_traces-total :
      (g : Gauge) (traces : List (ℕ × List RawSample)) (j : ℕ)
      → 0 < period
      → AllAscending traces
      → gauge g (sample_at period t0 stop j (fold_traces period t0 stop traces []))
        ≡ total g traces j
  unfolding find
  fold_traces-total g traces j pos a =
      fold_traces-gauge g traces j [] pos a ∙ omega (arith, new_sample-gauge g period t0 stop j)
