-- ===== src/Wan/Matrix.antt =====
-- The latency matrix is complete, or its error names a pair that the table lacks.
use topdisc_testbed.Base.{ℕ, ◌+◌, ◌≡◌, ◌<◌, ◌≢◌, true, none, List, [], length, get_or, has}
use topdisc_testbed.Wan.{RttTable, Measured, measured, missing, one_way, cell, row_from}

module _ {F : Type 0} (half : F → F) (zero_delay : F) (t : RttTable F) where
  -- No RTT is known between two regions, in either direction.
  abbrev Unmeasured : ℕ → ℕ → Type 0
  Unmeasured a b = (a ≢ b) × (t.rtt a b ≡ none) × (t.rtt b a ≡ none)

  -- What a row of columns from j on holds: the delays, or an error.
  RowSound : ℕ → ℕ → ℕ → List ℕ → Measured (List F) → Type 0
  RowSound i a j bs (measured ds) =
      (length ds ≡ length bs)
      × ((k : ℕ)
          → k < length bs
          → cell half zero_delay t i a (j + k) (get_or bs k 0) ≡ measured (get_or ds k zero_delay))
  RowSound i a j bs (missing c d) = (c ≡ a) × (has bs d ≡ true) × Unmeasured c d

  module _ (regions : List ℕ) where
    RowsSound : ℕ → List ℕ → Measured (List (List F)) → Type 0
    RowsSound i bs (measured rows) =
        (length rows ≡ length bs)
        × ((k : ℕ)
            → k < length bs
            → row_from half zero_delay t (i + k) (get_or bs k 0) 0 regions
              ≡ measured (get_or rows k []))
    RowsSound i bs (missing c d) = (has bs c ≡ true) × (has regions d ≡ true) × Unmeasured c d

  -- The matrix for the regions of the nodes, or the error.
  pub LatencySound : List ℕ → Measured (List (List F)) → Type 0
  LatencySound regions (measured m) =
      (length m ≡ length regions)
      × ((i : ℕ) → i < length regions → length (get_or m i []) ≡ length regions)
      × ((i j : ℕ)
          → i < length regions
          → j < length regions
          → (i ≡ j → get_or (get_or m i []) j zero_delay ≡ zero_delay)
            × (i ≢ j
                → one_way half zero_delay t (get_or regions i 0) (get_or regions j 0)
                  ≡ measured (get_or (get_or m i []) j zero_delay)))
  LatencySound regions (missing c d) =
      (has regions c ≡ true)
      × (has regions d ≡ true)
      × (c ≢ d)
      × (t.rtt c d ≡ none)
      × (t.rtt d c ≡ none)
