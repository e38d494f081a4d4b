-- ===== src/Addr/Tests.antt =====
-- A model of two topics, and addresses drawn from it.
use Prim.Native.String.{String}
use topdisc_testbed.Base.{ℕ, ◌≡◌, refl, none, some, List, [], ◌∷◌, find_or, adjust, length}
use topdisc_testbed.Churn.{Topic, Model, has_addresses, draw_pool, draw_prefix}
use topdisc_testbed.Addr.{
  Entry, Pool, ok, err, no_addresses, address, draw, draw_from, draw_node, groups, groups_from,
  summary,
}
use topdisc_testbed.Addr.Pools.{IsValid}
use topdisc_testbed.Addr.Draws.{draw-IsValid, summary-draw}

abbrev topic_of : ℕ → ℕ
topic_of i = i

abbrev fit : String → List ℕ → Topic ℕ
fit id prefixes = record {
  id = id;
  share = 0;
  initial_up = 0;
  always_on = 0;
  leave_forever = 0;
  km = [];
  km_return = [];
  gap_cdf = [];
  prefixes = prefixes;
}

-- 10.0.1 twice and 10.0.2
abbrev model : Model ℕ
model = record {
  cadence = 2;
  hours = 24;
  global = fit "*" (655361 ∷ 655361 ∷ 655362 ∷ []);
  topics = fit "a" (655361 ∷ 655361 ∷ []) ∷ fit "b" (655362 ∷ []) ∷ fit "c" [] ∷ [];
  tail = [];
  tail_k = 0;
}

first : ℕ → ℕ → ℕ → ℕ
first i try n = 0

abbrev entry : ℕ → ℕ → Entry
entry pre host = record { ip = address pre host; prefix = pre }

-- Nodes 0, 1, 2 have topics 0, 1, 2; the third topic has no prefixes and draws from all nodes.
abbrev pool : Pool
pool = record {
  entries = entry 655361 1 ∷ entry 655362 1 ∷ entry 655361 2 ∷ [];
  used = (655361, 2) ∷ (655362, 1) ∷ [];
}

draw-pool : draw first 3 (some model) 3 topic_of ≡ ok pool
unfolding first draw draw_from draw_node draw_prefix draw_pool has_addresses find_or adjust
draw-pool = refl

draw_without_model : draw {F = ℕ} first 3 none 3 topic_of ≡ err no_addresses
unfolding draw
draw_without_model = refl

draw-IsValid_example : IsValid pool × (length pool.entries ≡ 3)
draw-IsValid_example = draw-IsValid first 3 (some model) 3 topic_of draw-pool

summary-draw_example : (summary pool).0 ≡ 3
summary-draw_example = summary-draw first 3 (some model) 3 topic_of draw-pool

groups-pool : groups pool ≡ (655361, (0 ∷ 2 ∷ [])) ∷ (655362, (1 ∷ [])) ∷ []
unfolding groups groups_from adjust
groups-pool = refl
