-- ===== src/Metrics/SeriesTests.antt =====
-- The load of two nodes over time.
use topdisc_testbed.Base.{ℕ, ◌≡◌, ◌≤◌, List, [], ◌∷◌, arith, refl, find, adjust, find_or}
use topdisc_testbed.Metrics.Series.{
  RawSample, take_in, slot_of, new_sample, fold_slot, fold_range, after_until, fold_samples,
  fold_traces, add_wire, add_counts, add_topics,
}
use topdisc_testbed.Metrics.Slots.{sample_at}
use topdisc_testbed.Metrics.Load.{gauge, sent_bytes, total, fold_traces-total}
use topdisc_testbed.Metrics.Growth.{fold_traces_mono}

abbrev sent : ℕ → ℕ → RawSample
sent at n = record {
  at_ms = at;
  wire = (0, record { tx_bytes = n; rx_bytes = 0; tx_msgs = 1; rx_msgs = 0 }) ∷ [];
  cache_held = 0;
  cache_cap = 0;
  by_topic = [];
}

-- Samples every 10 ms from 100 ms on, to the stop at 140 ms; the second node is away after 110 ms.
abbrev traces : List (ℕ × List RawSample)
traces = (3, sent 100 5 ∷ sent 111 7 ∷ sent 131 9 ∷ []) ∷ (3, sent 109 4 ∷ []) ∷ []

carried_over : gauge (sent_bytes 3) (sample_at 10 100 140 4 (fold_traces 10 100 140 traces [])) ≡ 13
unfolding take_in slot_of new_sample fold_slot fold_range after_until fold_samples fold_traces
    add_wire add_counts add_topics find adjust find_or
carried_over = refl

fold_traces-total_example :
    gauge (sent_bytes 3) (sample_at 10 100 140 4 (fold_traces 10 100 140 traces []))
    ≡ total 10 100 140 (sent_bytes 3) traces 4
fold_traces-total_example =
    fold_traces-total 10 100 140 (sent_bytes 3) traces 4 (omega arith) (omega arith)

fold_traces_mono_example :
    gauge (sent_bytes 3) (sample_at 10 100 140 1 (fold_traces 10 100 140 traces []))
    ≤ gauge (sent_bytes 3) (sample_at 10 100 140 4 (fold_traces 10 100 140 traces []))
unfolding slot_of
fold_traces_mono_example =
    fold_traces_mono (sent_bytes 3) 10 100 140 (omega arith) traces 1 4 (omega arith) (omega arith)
      (omega arith) (omega arith) (omega arith)
