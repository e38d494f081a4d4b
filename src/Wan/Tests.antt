-- ===== src/Wan/Tests.antt =====
-- Three nodes in two regions; halving is that of the native numbers.
use topdisc_testbed.Base.{ℕ, ◌/◌, ◌≡◌, none, some, [], ◌∷◌, refl, if◌then◌else◌, ◌==◌}
use topdisc_testbed.Wan.{RttTable, measured, missing, one_way, latency_matrix}

abbrev half : ℕ → ℕ
half r = r / 2

-- Between regions 1 and 2 only one direction is listed.
abbrev table : RttTable ℕ
table = record {
  intra = 2;
  rtt = λ a b. if a == 2 then (if b == 1 then some 80 else none) else none;
}

program : Unit {0}
unfolding latency_matrix one_way
program = tt

three_nodes :
    latency_matrix half 0 table (1 ∷ 2 ∷ 1 ∷ [])
    ≡ measured ((0 ∷ 40 ∷ 1 ∷ []) ∷ (40 ∷ 0 ∷ 40 ∷ []) ∷ (1 ∷ 40 ∷ 0 ∷ []) ∷ [])
unfolding program
three_nodes = refl

no_pair : latency_matrix half 0 table (1 ∷ 3 ∷ []) ≡ missing 1 3
unfolding program
no_pair = refl
