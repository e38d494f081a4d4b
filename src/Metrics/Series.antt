-- ===== src/Metrics/Series.antt =====
-- pkg/coordinator/metrics.go: the load of the network over time, from the samples of all nodes. Times
-- are milliseconds, none of a sample before `t0`, the earliest of the first samples. A series by
-- bucket is a function.
use topdisc_testbed.Base.{
  ℕ, zero, suc, ◌+◌, ◌-◌, ◌*◌, ◌/◌, List, [], ◌∷◌, if◌then◌else◌, ◌&&◌, ltb, adjust, update,
}

-- The four counters of one message type; a name that is missing counts 0.
pub record Counts : Type 0 where
  pub tx_bytes : ℕ
  pub rx_bytes : ℕ
  pub tx_msgs : ℕ
  pub rx_msgs : ℕ

pub record RawSample : Type 0 where
  pub at_ms : ℕ
  pub wire : List (ℕ × Counts)
  pub cache_held : ℕ
  pub cache_cap : ℕ
  pub by_topic : List (ℕ × ℕ)

pub record Bucketed : Type 0 where
  pub tx_bytes : ℕ → ℕ
  pub rx_bytes : ℕ → ℕ
  pub tx_msgs : ℕ → ℕ
  pub rx_msgs : ℕ → ℕ

-- `TSec` is in milliseconds.
pub record OverheadSample : Type 0 where
  pub t_ms : ℕ
  pub traffic : Bucketed
  pub by_type : List (ℕ × Bucketed)
  pub nodes : ℕ → ℕ
  pub cache_held : ℕ
  pub cache_cap : ℕ
  pub cache_by_topic : List (ℕ × ℕ)

abbrev pub no_traffic : Bucketed
no_traffic = record { tx_bytes = λ _. 0; rx_bytes = λ _. 0; tx_msgs = λ _. 0; rx_msgs = λ _. 0 }

-- The four additions at a bucket.
unfoldable pub add_counts : ℕ → Counts → Bucketed → Bucketed
add_counts bkt c b = record {
  tx_bytes = update b.tx_bytes bkt (b.tx_bytes bkt + c.tx_bytes);
  rx_bytes = update b.rx_bytes bkt (b.rx_bytes bkt + c.rx_bytes);
  tx_msgs = update b.tx_msgs bkt (b.tx_msgs bkt + c.tx_msgs);
  rx_msgs = update b.rx_msgs bkt (b.rx_msgs bkt + c.rx_msgs);
}

-- `for typ, c := range smp.Wire`
unfoldable pub add_wire : ℕ → List (ℕ × Counts) → OverheadSample → OverheadSample
add_wire bkt [] s = s
add_wire bkt ((typ, c) ∷ wire) s = add_wire bkt wire (record s {
  traffic = add_counts bkt c s.traffic;
  by_type = adjust no_traffic (add_counts bkt c) typ s.by_type;
})

-- `for th, n := range smp.ByTopic`
unfoldable pub add_topics : List (ℕ × ℕ) → List (ℕ × ℕ) → List (ℕ × ℕ)
add_topics [] sums = sums
add_topics ((th, n) ∷ by) sums = add_topics by (adjust 0 (λ k. k + n) th sums)

-- What `fold` adds to a slot that is there.
unfoldable pub take_in : ℕ → RawSample → OverheadSample → OverheadSample
take_in bkt smp s = add_wire bkt smp.wire (record s {
  nodes = update s.nodes bkt (s.nodes bkt + 1);
  cache_held = s.cache_held + smp.cache_held;
  cache_cap = s.cache_cap + smp.cache_cap;
  cache_by_topic = add_topics smp.by_topic s.cache_by_topic;
})

-- `period` is the sample period, and `stop` is 0 where the run has no stop.
module _ (period t0 stop : ℕ) where
  unfoldable pub slot_of : ℕ → ℕ
  slot_of at = (at - t0 + period / 2) / period

  unfoldable pub new_sample : ℕ → OverheadSample
  new_sample slot = record {
    t_ms = slot * period;
    traffic = no_traffic;
    by_type = [];
    nodes = λ _. 0;
    cache_held = 0;
    cache_cap = 0;
    cache_by_topic = [];
  }

  -- `fold`
  unfoldable pub fold_slot :
      ℕ → ℕ → RawSample → List (ℕ × OverheadSample) → List (ℕ × OverheadSample)
  fold_slot bkt slot smp slots = adjust (new_sample slot) (take_in bkt smp) slot slots

  -- `for k := slot; k <= until; k++`, with the number of rounds.
  unfoldable pub fold_range :
      ℕ → RawSample → ℕ → ℕ → List (ℕ × OverheadSample) → List (ℕ × OverheadSample)
  fold_range bkt smp slot zero slots = slots
  fold_range bkt smp slot (suc n) slots =
      fold_range bkt smp (slot + 1) n (fold_slot bkt slot smp slots)

  -- The slot after `until`.
  unfoldable pub after_until : RawSample → List RawSample → ℕ
  after_until smp (next ∷ rest) = slot_of next.at_ms
  after_until smp [] =
      if ltb 0 stop && ltb (slot_of smp.at_ms) (slot_of stop)
      then slot_of stop + 1
      else slot_of smp.at_ms + 1

  -- `for i, smp := range t.Samples`
  unfoldable pub fold_samples :
      ℕ → List RawSample → List (ℕ × OverheadSample) → List (ℕ × OverheadSample)
  fold_samples bkt [] slots = slots
  fold_samples bkt (smp ∷ samples) slots =
      let slot = slot_of smp.at_ms in
      fold_samples bkt samples (fold_range bkt smp slot (after_until smp samples - slot) slots)

  -- Every trace, with the bucket of its id.
  unfoldable pub fold_traces :
      List (ℕ × List RawSample) → List (ℕ × OverheadSample) → List (ℕ × OverheadSample)
  fold_traces [] slots = slots
  fold_traces ((bkt, samples) ∷ traces) slots = fold_traces traces (fold_samples bkt samples slots)
