-- ===== src/Ghosts.antt =====
-- pkg/assign/ghosts.go: how many unreachable records each bucket of a node's table is given, and
-- which ones of the pool. A slice is its length and its elements by index. The random choices are
-- parameters: `intn t b` is the t-th call's `rng.Intn(b)`.
pub mod Layout
pub mod Shuffle
pub mod Counts
pub mod Fill
mod Tests
use topdisc_testbed.Base.{
  ℕ, zero, suc, ◌+◌, ◌-◌, min, max, Bool, true, false, List, [], ◌∷◌, ◌++◌, if◌then◌else◌, ltb, leb,
  ◌==◌, update, sum_below, length, get_or,
}

-- Bucket 0 holds every distance up to 240, bucket 16 distance 256.
abbrev pub bucket_count : ℕ
bucket_count = 17

abbrev pub ghost_min_dist : ℕ
ghost_min_dist = 240

abbrev pub ghost_bucket_cap : ℕ
ghost_bucket_cap = 16

abbrev pub ghost_spread_min : ℕ
ghost_spread_min = 248

-- `ghostLayout.total`
pub total : (ℕ → ℕ) → ℕ
total l = sum_below bucket_count l

-- The buckets from k on, of which there are n, that have room.
pub open_from : (ℕ → ℕ) → ℕ → ℕ → List ℕ
open_from l k zero = []
open_from l k (suc n) =
    let rest = open_from l (k + 1) n in if ltb (l k) ghost_bucket_cap then k ∷ rest else rest

abbrev pub first_bucket : ℕ
first_bucket = ghost_spread_min - ghost_min_dist

pub open_buckets : (ℕ → ℕ) → List ℕ
unfolding open_from
open_buckets l = open_from l first_bucket (bucket_count - first_bucket)

pub bump : (ℕ → ℕ) → ℕ → ℕ → ℕ
bump l k = update l k (l k + 1)

-- The loop of sampleGhostLayout with `count` ghosts left to place.
pub spread : (ℕ → ℕ → ℕ) → (ℕ → ℕ) → ℕ → ℕ → ℕ
unfolding open_buckets bump
spread intn l zero = l
spread intn l (suc count) =
    let open_now = open_buckets l in
    let rest = spread intn (bump l (get_or open_now (intn count (length open_now)) 0)) count in
    if length open_now == 0 then l else rest

-- `count` is the share drawn for the node of the table that it is expected to fill, rounded.
pub sample_ghost_layout : (ℕ → ℕ → ℕ) → ℕ → ℕ → ℕ
unfolding spread
sample_ghost_layout intn count = spread intn (λ _. 0) count

-- `dist` is the log distance from the node to the ghost.
pub ghost_bucket : ℕ → ℕ
ghost_bucket dist = max dist ghost_min_dist - ghost_min_dist

-- `cands[k]`: the ghosts from j on, n of them, in bucket k, in the order of the pool.
pub candidates_from : (ℕ → ℕ) → ℕ → ℕ → ℕ → List ℕ
unfolding ghost_bucket
candidates_from dist k j zero = []
candidates_from dist k j (suc n) =
    let rest = candidates_from dist k (j + 1) n in
    if ghost_bucket (dist j) == k then j ∷ rest else rest

-- `c[t], c[x] = c[x], c[t]`
pub swap : (ℕ → ℕ) → ℕ → ℕ → ℕ → ℕ
swap c t x = update (update c t (c x)) x (c t)

-- The rounds of the partial shuffle from t on, n of them, on a slice of length len: the ghosts taken.
pub draw_ghosts : (ℕ → ℕ → ℕ) → ℕ → (ℕ → ℕ) → ℕ → ℕ → List ℕ
unfolding swap
draw_ghosts intn len c t zero = []
draw_ghosts intn len c t (suc n) =
    let x = t + intn t (len - t) in let c' = swap c t x in c' t ∷ draw_ghosts intn len c' (t + 1) n

-- What a node is given: the ghosts by their place in the pool, and how many could not be placed.
pub record Ghosts : Type 0 where
  pub ghosts : List ℕ
  pub unplaced : ℕ

-- Bucket k, of which `want` are asked for.
pub fill_bucket : (ℕ → ℕ → ℕ) → List ℕ → ℕ → Ghosts → Ghosts
unfolding draw_ghosts
fill_bucket intn c want g =
    let taken = min want (length c) in
    record {
      ghosts = g.ghosts ++ draw_ghosts intn (length c) (λ i. get_or c i 0) 0 taken;
      unplaced = g.unplaced + (want - taken);
    }

-- `for k, want := range layout`, the first n buckets; bucket k has the random choices `intn k`.
pub fill_buckets : (ℕ → ℕ → ℕ → ℕ) → (ℕ → ℕ) → ℕ → (ℕ → ℕ) → ℕ → Ghosts
unfolding fill_bucket candidates_from
fill_buckets intn dist size layout zero = record { ghosts = []; unplaced = 0 }
fill_buckets intn dist size layout (suc k) =
    fill_bucket (intn k) (candidates_from dist k 0 size) (layout k)
      (fill_buckets intn dist size layout k)

-- The body of assignGhosts' loop over the nodes; a layout of nothing is passed over.
pub assign_ghosts : (ℕ → ℕ → ℕ → ℕ) → (ℕ → ℕ) → ℕ → (ℕ → ℕ) → Ghosts
unfolding fill_buckets total
assign_ghosts intn dist size layout =
    if total layout == 0
    then record { ghosts = []; unplaced = 0 }
    else fill_buckets intn dist size layout bucket_count
