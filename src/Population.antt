-- ===== src/Population.antt =====
-- cmd/simnet/workload_churn.go: the live node population under steady-state churn (`churnState`).
-- The slice `alive` is its length and its elements by index, the map `aliveIdx` a function.
pub mod Valid
pub mod Leaving
pub mod Rounds
mod Tests
use topdisc_testbed.Base.{
  ℕ, zero, suc, ◌+◌, ◌-◌, ◌%◌, Bool, true, false, Option, none, some, List, [], ◌∷◌, ◌++◌,
  if◌then◌else◌, ltb, ◌==◌, update, has, insert, length, get_or,
}

-- What churn reads of a `nodeRec`: the id of its local node and its index. Index 0 is the bootnode.
pub record NodeRec : Type 0 where
  pub id : ℕ
  pub idx : ℕ

pub record ChurnState : Type 0 where
  pub all : List NodeRec
  pub alive : ℕ → NodeRec
  pub alive_len : ℕ
  pub alive_idx : ℕ → Option ℕ
  pub killed : List ℕ
  pub next_idx : ℕ

-- `aliveIdx[rec.id] = len(alive); alive = append(alive, rec)`
pub append_alive : ChurnState → NodeRec → ChurnState
append_alive cs rec = record cs {
  alive_idx = update cs.alive_idx rec.id (some cs.alive_len);
  alive = update cs.alive cs.alive_len rec;
  alive_len = cs.alive_len + 1;
}

-- The loop over `activeIdx`; the indices lie in `initial`.
pub activate : List NodeRec → ChurnState → List ℕ → ChurnState
unfolding append_alive
activate initial cs [] = cs
activate initial cs (i ∷ is) =
    activate initial (append_alive cs (get_or initial i (record { id = 0; idx = 0 }))) is

pub new_churn_state : List NodeRec → List ℕ → ℕ → ChurnState
unfolding activate
new_churn_state initial active_idx next_idx =
    activate initial
      (record {
        all = initial;
        alive = λ _. record { id = 0; idx = 0 };
        alive_len = 0;
        alive_idx = λ _. none;
        killed = [];
        next_idx = next_idx;
      })
      active_idx

-- The part of leaveRandom after the choice of i: the last one takes the place of the one removed.
pub remove_at : ChurnState → ℕ → ChurnState
remove_at cs i =
    let rec = cs.alive i in
    let last = cs.alive_len - 1 in
    let moved = cs.alive last in
    record cs {
      alive = update cs.alive i moved;
      alive_idx = update (update cs.alive_idx moved.id (some i)) rec.id none;
      alive_len = last;
      killed = insert rec.id cs.killed;
    }

-- `r` is `rng.Intn(len(alive))`, `s` is `rng.Intn(len(alive)-1)`, drawn if the bootnode came up.
pub pick_leaver : ChurnState → ℕ → ℕ → Option ℕ
pick_leaver cs r s =
    if cs.alive_len == 0
    then none
    else if (cs.alive r).idx == 0
    then (if cs.alive_len == 1 then none else some ((r + 1 + s) % cs.alive_len))
    else some r

pub leave_random : ChurnState → ℕ → ℕ → ChurnState × Option NodeRec
unfolding pick_leaver remove_at
leave_random cs r s = elim (pick_leaver cs r s) [
  | none ↦ (cs, none)
  | some i ↦ (remove_at cs i, some (cs.alive i))
]

pub join : ChurnState → NodeRec → ChurnState
unfolding append_alive
join cs rec = append_alive (record cs { all = cs.all ++ rec ∷ [] }) rec

pub next_index : ChurnState → ChurnState × ℕ
next_index cs = (record cs { next_idx = cs.next_idx + 1 }, cs.next_idx)

-- (alive, killed, total)
pub counts : ChurnState → ℕ × ℕ × ℕ
counts cs = (cs.alive_len, length cs.killed, length cs.all)
