-- ===== src/Metrics/Growth.antt =====
-- The series never falls where no node's own samples fall.
use topdisc_testbed.Base.{ℕ, true, false, ◌≡◌, ◌≤◌, ◌<◌, List, [], ◌∷◌, arith, ltb, leb, if_ind}
use topdisc_testbed.Metrics.Series.{RawSample, slot_of, fold_traces}
use topdisc_testbed.Metrics.Slots.{slot, sample_at, carried, latest, last_slot}
use topdisc_testbed.Metrics.Load.{
  Gauge, gauge, reading, of_node, total, AllAscending, fold_traces-total,
}

not_before : (j k b : ℕ) → j ≤ k → ltb j b ≡ false → ltb k b ≡ false
not_before j k b l p = ground arith

module _ (g : Gauge) where
  -- What a node's samples say does not fall.
  abbrev pub IsGrowing : ℕ → List RawSample → Type 0
  IsGrowing bkt [] = Unit
  IsGrowing bkt (smp ∷ []) = Unit
  IsGrowing bkt (smp ∷ next ∷ rest) =
      (reading g bkt smp ≤ reading g bkt next) × IsGrowing bkt (next ∷ rest)

  abbrev pub AllGrowing : List (ℕ × List RawSample) → Type 0
  AllGrowing [] = Unit
  AllGrowing ((bkt, samples) ∷ traces) = IsGrowing bkt samples × AllGrowing traces

  module _ (period t0 stop : ℕ) (runs : 0 < stop) where
    abbrev end : ℕ
    end = slot_of period t0 stop stop

    abbrev now : ℕ → RawSample → List RawSample → ℕ → ℕ
    now bkt smp rest j = of_node g bkt (latest period t0 stop smp rest j)

    lasts : (smp : RawSample) (k : ℕ) → k ≤ end → leb k (last_slot period t0 stop smp) ≡ true
    lasts smp k h = ground arith

    reading-le-now :
        (bkt : ℕ) (smp : RawSample) (rest : List RawSample) (k : ℕ)
        → IsGrowing bkt (smp ∷ rest)
        → k ≤ end
        → reading g bkt smp ≤ now bkt smp rest k
    reading-le-now bkt smp [] k w h = rw (lasts smp k h) (omega arith)
    reading-le-now bkt smp (next ∷ rest) k w h =
        if_ind (λ o. reading g bkt smp ≤ of_node g bkt o) (ltb k (slot period t0 stop next))
          (λ _. omega arith) (λ _. omega (arith, reading-le-now bkt next rest k w.1 h))

    now_mono :
        (bkt : ℕ) (smp : RawSample) (rest : List RawSample) (j k : ℕ)
        → IsGrowing bkt (smp ∷ rest)
        → j ≤ k
        → k ≤ end
        → now bkt smp rest j ≤ now bkt smp rest k
    now_mono bkt smp [] j k w l h = rw (lasts smp k h, lasts smp j (omega arith)) (omega arith)
    now_mono bkt smp (next ∷ rest) j k w l h =
        let b : ℕ = slot period t0 stop next in
        let more : reading g bkt smp ≤ now bkt next rest k =
          omega (arith, reading-le-now bkt next rest k w.1 h) in
        if_ind (λ o. of_node g bkt o ≤ now bkt smp (next ∷ rest) k) (ltb j b)
          (λ p.
            if_ind (λ o. reading g bkt smp ≤ of_node g bkt o) (ltb k b) (λ _. omega arith)
              (λ _. more))
          (λ p. rw (not_before j k b l p) (now_mono bkt next rest j k w.1 l h))

    carried_mono :
        (bkt : ℕ) (samples : List RawSample) (j k : ℕ)
        → IsGrowing bkt samples
        → j ≤ k
        → k ≤ end
        → of_node g bkt (carried period t0 stop samples j)
          ≤ of_node g bkt (carried period t0 stop samples k)
    carried_mono bkt [] j k w l h = omega arith
    carried_mono bkt (smp ∷ rest) j k w l h =
        let b : ℕ = slot period t0 stop smp in
        if_ind (λ o. of_node g bkt o ≤ of_node g bkt (carried period t0 stop (smp ∷ rest) k))
          (ltb j b) (λ p. omega arith)
          (λ p. rw (not_before j k b l p) (now_mono bkt smp rest j k w l h))

    total_mono :
        (traces : List (ℕ × List RawSample)) (j k : ℕ)
        → AllGrowing traces
        → j ≤ k
        → k ≤ end
        → total period t0 stop g traces j ≤ total period t0 stop g traces k
    total_mono [] j k w l h = omega arith
    total_mono ((bkt, samples) ∷ traces) j k (w, ws) l h =
        omega (arith, carried_mono bkt samples j k w l h, total_mono traces j k ws l h)

    -- In a run with a stop, if the times of every node's samples do not descend, then from slot to slot
    -- up to the stop's no sum falls whose part falls at no node: a node that is away, or whose sampler
    -- lags, keeps its part in the series.
    pub fold_traces_mono :
        (traces : List (ℕ × List RawSample)) (j k : ℕ)
        → 0 < period
        → AllAscending traces
        → AllGrowing traces
        → j ≤ k
        → k ≤ end
        → gauge g (sample_at period t0 stop j (fold_traces period t0 stop traces []))
          ≤ gauge g (sample_at period t0 stop k (fold_traces period t0 stop traces []))
    fold_traces_mono traces j k pos a w l h = omega (
      arith,
      fold_traces-total period t0 stop g traces j pos a,
      fold_traces-total period t0 stop g traces k pos a,
      total_mono traces j k w l h,
    )
