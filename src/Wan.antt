-- ===== src/Wan.antt =====
-- pkg/wan/regions.go: the one-way delays between the nodes, by the regions that they sit in. `F` is
-- float64, of which only the zero and the halving are used; a map of maps is a function.
pub mod Matrix
mod Tests
use topdisc_testbed.Base.{
  ℕ, zero, suc, ◌+◌, Bool, true, false, Option, none, some, List, [], ◌∷◌, if◌then◌else◌, ◌==◌,
}

pub record RttTable (F : Type 0) : Type 0 where
  pub intra : F
  pub rtt : ℕ → ℕ → Option F

-- A value, or the error that names the pair of regions that has none.
pub data Measured (A : Type 0) : Type 0 where
  measured : A → Measured A
  missing : ℕ → ℕ → Measured A

-- The first error is returned.
pub cons_measured : {A : Type 0} → Measured A → Measured (List A) → Measured (List A)
cons_measured (measured x) (measured xs) = measured (x ∷ xs)
cons_measured (measured x) (missing a b) = missing a b
cons_measured (missing a b) r = missing a b

module _ {F : Type 0} (half : F → F) (zero_delay : F) where
  -- The tests of `t.RTT[a][b]` and then of `t.RTT[b][a]`.
  pub half_of : ℕ → ℕ → Option F → Option F → Measured F
  half_of a b (some r) back = measured (half r)
  half_of a b none (some r) = measured (half r)
  half_of a b none none = missing a b

  pub one_way : RttTable F → ℕ → ℕ → Measured F
  unfolding half_of
  one_way t a b = if a == b then measured (half t.intra) else half_of a b (t.rtt a b) (t.rtt b a)

  -- The delay from node i, of region a, to node j, of region b.
  pub cell : RttTable F → ℕ → ℕ → ℕ → ℕ → Measured F
  cell t i a j b = if i == j then measured zero_delay else one_way t a b

  -- The row of node i from column j on.
  pub row_from : RttTable F → ℕ → ℕ → ℕ → List ℕ → Measured (List F)
  unfolding cell cons_measured
  row_from t i a j [] = measured []
  row_from t i a j (b ∷ bs) = cons_measured (cell t i a j b) (row_from t i a (j + 1) bs)

  pub rows_from : RttTable F → List ℕ → ℕ → List ℕ → Measured (List (List F))
  unfolding row_from cons_measured
  rows_from t regions i [] = measured []
  rows_from t regions i (a ∷ rest) =
      cons_measured (row_from t i a 0 regions) (rows_from t regions (i + 1) rest)

  pub latency_matrix : RttTable F → List ℕ → Measured (List (List F))
  unfolding rows_from
  latency_matrix t regions = rows_from t regions 0 regions
