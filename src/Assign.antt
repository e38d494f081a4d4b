-- ===== src/Assign.antt =====
-- pkg/assign/assign.go: when each node starts, registers, searches and stops, which earlier nodes
-- it bootstraps from, which nodes run the older client, and the draw of a topic.
-- Durations are in nanoseconds, times in milliseconds. The random choices are parameters:
-- `int63n k b` is the k-th call's `rng.Int63n(b)`, `perm` is `rng.Perm`.
pub mod Starts
pub mod Bootstrap
pub mod Members
pub mod Legacy
pub mod Draw
mod Tests
use topdisc_testbed.Base.{
  ℕ, zero, suc, ◌+◌, ◌-◌, ◌*◌, ◌/◌, min, Bool, true, false, not, ◌||◌, List, [], ◌∷◌, map,
  replicate, if◌then◌else◌, ltb, leb, ◌==◌, update, has, insert, length, get_or, set, take, sort,
  bisect, search_first,
}

-- `time.Duration.Milliseconds`
pub milliseconds : ℕ → ℕ
milliseconds d = d / 1000000

-- `for i := range out { out[i] = rng.Int63n(w + 1) }`, from call k on
pub uniform : (ℕ → ℕ → ℕ) → ℕ → ℕ → ℕ → List ℕ
uniform int63n w k zero = []
uniform int63n w k (suc n) = int63n k (w + 1) ∷ uniform int63n w (k + 1) n

pub sorted_uniform : (ℕ → ℕ → ℕ) → ℕ → ℕ → List ℕ
unfolding milliseconds uniform
sorted_uniform int63n n window =
    if (window == 0) || (n == 0)
    then replicate n 0
    else sort (uniform int63n (milliseconds window) 0 n)

-- A write to `o[0]` of an empty slice changes nothing, as the guard on n does.
pub start_offsets : (ℕ → ℕ → ℕ) → ℕ → ℕ → List ℕ
unfolding sorted_uniform
start_offsets int63n n window =
    let o = sorted_uniform int63n n window in if ltb 0 n then set o 0 0 else o

-- `scenario.PhasesConfig`, without the refresh interval, which no phase depends on
pub record PhaseConfig : Type 0 where
  pub start_window : ℕ
  pub bootstrap_wait : ℕ
  pub register_stagger : ℕ
  pub register_wait : ℕ
  pub search_stagger : ℕ
  pub search_timeout : ℕ

-- `assign.Phases`, in absolute milliseconds
pub record Phases : Type 0 where
  pub start_at : ℕ
  pub register_base : ℕ
  pub register_at : ℕ
  pub search_at : ℕ
  pub stop_at : ℕ

pub reg_off : PhaseConfig → List ℕ → ℕ → ℕ
unfolding milliseconds
reg_off ph start_off i =
    if ltb 0 ph.start_window then get_or start_off i 0 else i * milliseconds ph.register_stagger

pub reg_span : PhaseConfig → ℕ → ℕ
unfolding milliseconds
reg_span ph n =
    if ltb 0 ph.start_window
    then milliseconds ph.start_window
    else n * milliseconds ph.register_stagger

-- The phases of node i of n in a run that starts at t0.
pub phases : PhaseConfig → ℕ → ℕ → List ℕ → ℕ → Phases
unfolding milliseconds reg_off reg_span
phases ph t0 n start_off i =
    let register_at = t0 + milliseconds ph.bootstrap_wait in
    let search_at = register_at + reg_span ph n + milliseconds ph.register_wait in
    record {
      start_at = t0 + get_or start_off i 0;
      register_base = register_at;
      register_at = register_at + reg_off ph start_off i;
      search_at = search_at + i * milliseconds ph.search_stagger;
      stop_at = search_at + milliseconds ph.search_timeout;
    }

abbrev pub bootstrap_settle : ℕ
bootstrap_settle = 30000

-- how many of the nodes below i started early enough
pub settled : List ℕ → ℕ → ℕ
settled start_off i =
    search_first i (λ j. ltb (get_or start_off i 0) (get_or start_off j 0 + bootstrap_settle))

-- The indices that bootstrapSample draws.
pub bootstrap_picks : (ℕ → List ℕ) → List ℕ → ℕ → ℕ → List ℕ
unfolding settled
bootstrap_picks perm start_off i k =
    let cut = settled start_off i in
    if (k == 0) || leb cut 1 then [] else map (λ j. j + 1) (take (min k (cut - 1)) (perm (cut - 1)))

pub bootstrap_sample {ℓ} : {A : Type ℓ} → (ℕ → List ℕ) → List ℕ → ℕ → ℕ → (ℕ → A) → List A
unfolding bootstrap_picks
bootstrap_sample perm start_off i k url = map url (bootstrap_picks perm start_off i k)

-- `byTopic[k]`: the indices of the nodes whose first topic is k, those from i on.
pub members_from : ℕ → List ℕ → ℕ → List ℕ
members_from i [] k = []
members_from i (t ∷ ts) k =
    let rest = members_from (i + 1) ts k in if t == k then i ∷ rest else rest

-- The keys of `byTopic`.
pub topics_of : List ℕ → List ℕ
topics_of [] = []
topics_of (t ∷ ts) = insert t (topics_of ts)

-- `for _, j := range ... { set[members[j]] = true }`
pub mark : (ℕ → Bool) → List ℕ → List ℕ → ℕ → Bool
mark marked members [] = marked
mark marked members (j ∷ js) = mark (update marked (get_or members j 0) true) members js

-- `quota m` is `int(math.Round(frac * float64(m)))`; `perm k` is the permutation drawn for topic k.
pub mark_topics : (ℕ → ℕ) → (ℕ → ℕ → List ℕ) → List ℕ → (ℕ → Bool) → List ℕ → ℕ → Bool
unfolding members_from mark
mark_topics quota perm topics marked [] = marked
mark_topics quota perm topics marked (k ∷ ks) =
    let members = members_from 0 topics k in
    let count = quota (length members) in
    mark_topics quota perm topics (mark marked members (take count (perm k (length members)))) ks

-- `topics` holds the first topic of each node, numbered in the order of the names; `on` is `frac > 0`.
pub legacy_set : Bool → (ℕ → ℕ) → (ℕ → ℕ → List ℕ) → List ℕ → ℕ → Bool
unfolding mark_topics topics_of
legacy_set on quota perm topics =
    if on
    then mark_topics quota perm topics (λ _. false) (sort (topics_of topics))
    else (λ _. false)

-- `Zipf.Draw`; `below mid` is `z.cdf[mid] < u` and n is `len(z.cdf)`.
pub zipf_draw : ℕ → (ℕ → Bool) → ℕ
zipf_draw n below = bisect n (λ mid. not (below mid)) 0 (n - 1)
