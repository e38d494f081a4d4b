-- ===== src/Placement.antt =====
-- pkg/coordinator/cloud.go: which machine, and which slot of it, each node runs in (`placeByPrefix`
-- and `place`).
pub mod Slots
pub mod ByPrefix
pub mod Regions
mod Apart
mod Given
mod Pinned
mod Stock
mod Advance
mod Fails
mod ByRegion
mod RegionTests
mod Tests
use topdisc_testbed.Base.{
  ℕ, zero, suc, ◌+◌, ◌-◌, ◌<◌, Bool, true, false, not, ◌&&◌, ◌||◌, Option, none, some, List, [],
  ◌∷◌, ◌++◌, if◌then◌else◌, ltb, leb, ◌==◌, update, length, get_or,
}

-- `hostOf`, `local` and `used`. Entries for which nothing is recorded are zero.
pub record Placing : Type 0 where
  pub host_of : ℕ → ℕ
  pub local : ℕ → ℕ
  pub used : ℕ → ℕ

abbrev pub nowhere : Placing
nowhere = record { host_of = λ _. 0; local = λ _. 0; used = λ _. 0 }

-- `hostOf[i], local[i] = h, used[h]; used[h]++`
pub put : Placing → ℕ → ℕ → Placing
put p h i = record {
  host_of = update p.host_of i h;
  local = update p.local i (p.used h);
  used = update p.used h (p.used h + 1);
}

pub put_all : Placing → ℕ → List ℕ → Placing
unfolding put
put_all p h [] = p
put_all p h (i ∷ g) = put_all (put p h i) h g

-- The order of the groups: the larger first, then the smaller prefix.
pub before : ℕ × List ℕ → ℕ × List ℕ → Bool
before (pre, g) (qre, l) = if length g == length l then ltb pre qre else ltb (length l) (length g)

insert_group : ℕ × List ℕ → List (ℕ × List ℕ) → List (ℕ × List ℕ)
unfolding before
insert_group x [] = x ∷ []
insert_group x (y ∷ ys) = if before y x then y ∷ insert_group x ys else x ∷ y ∷ ys

-- `sort.Slice(order, …)`, with the groups carried along. The order is total on distinct prefixes,
-- so that any sort gives this one.
pub sort_groups : List (ℕ × List ℕ) → List (ℕ × List ℕ)
unfolding insert_group
sort_groups [] = []
sort_groups (x ∷ xs) = insert_group x (sort_groups xs)

-- The loop over the machines: the first with the most room among those that hold `size` more.
-- `c` is the next machine, `left` the number of machines from it on, `best` the choice so far.
choose : (ℕ → ℕ) → (ℕ → ℕ) → ℕ → ℕ → Option ℕ → Option ℕ
choose caps used size c none = if leb (used c + size) (caps c) then some c else none
choose caps used size c (some h) =
    if leb (used c + size) (caps c) && ltb (caps h - used h) (caps c - used c)
    then some c
    else some h

pub roomiest : (ℕ → ℕ) → (ℕ → ℕ) → ℕ → Option ℕ → ℕ → ℕ → Option ℕ
unfolding choose
roomiest caps used size best c zero = best
roomiest caps used size best c (suc left) =
    roomiest caps used size (choose caps used size c best) (c + 1) left

-- The error names the prefix and the number of its nodes.
pub data Result (A : Type 0) : Type 0 where
  ok : A → Result A
  err : (prefix nodes : ℕ) → Result A

-- The loop over the ordered groups.
pub place_groups : List ℕ → Placing → List (ℕ × List ℕ) → Result Placing
unfolding roomiest put_all
place_groups caps p [] = ok p
place_groups caps p ((pre, g) ∷ gs) =
    elim (roomiest (λ h. get_or caps h 0) p.used (length g) none 0 (length caps)) [
      | none ↦ err pre (length g)
      | some h ↦ place_groups caps (put_all p h g) gs
    ]

-- `caps` is the machines' capacities, `groups` the pool's nodes by /24.
pub place_by_prefix : List ℕ → List (ℕ × List ℕ) → Result Placing
unfolding place_groups sort_groups
place_by_prefix caps groups = place_groups caps nowhere (sort_groups groups)
