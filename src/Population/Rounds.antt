-- ===== src/Population/Rounds.antt =====
-- The churn loop's joins and leaves, in any number and order.
use topdisc_testbed.Base.{
  ℕ, ◌+◌, ◌-◌, ◌≡◌, ◌≢◌, ◌≤◌, ◌<◌, ◌⊎◌, refl, true, false, ◌||◌, none, List, [], ◌∷◌, ◌++◌, arith,
  ◌==◌, has, length, length-append, Option-cases, inl, inr, map,
}
use topdisc_testbed.Population.{
  NodeRec, ChurnState, append_alive, remove_at, pick_leaver, leave_random, join,
}
use topdisc_testbed.Population.Valid.{IsValid, join-IsValid}
use topdisc_testbed.Population.Leaving.{OneBootnode, is_alive, pick_leaver-live, remove_at-Left}

pub data Action : Type 0 where
  leaves : (r s : ℕ) → Action
  joins : NodeRec → Action

unfoldable pub act : ChurnState → Action → ChurnState
act cs (leaves r s) = (leave_random cs r s).0
act cs (joins rec) = join cs rec

pub act_all : ChurnState → List Action → ChurnState
act_all cs [] = cs
act_all cs (a ∷ more) = act_all (act cs a) more

abbrev pub ids : ChurnState → List ℕ
ids cs = map (λ (r : NodeRec). r.id) cs.all

-- The random draws lie in their ranges; a joiner is new, and not the bootnode.
abbrev pub IsAllowed : ChurnState → Action → Type 0
IsAllowed cs (leaves r s) = (r < cs.alive_len) × (s < cs.alive_len - 1 ⊎ cs.alive_len ≤ 1)
IsAllowed cs (joins rec) = (has (ids cs) rec.id ≡ false) × (rec.idx ≢ 0)

abbrev pub AllAllowed : ChurnState → List Action → Type 0
AllAllowed cs [] = Unit
AllAllowed cs (a ∷ more) = IsAllowed cs a × AllAllowed (act cs a) more

-- `idle` is the number of nodes that take no part: the legacy ones.
pub record IsSteady (idle : ℕ) (cs : ChurnState) : Type 0 where
  pub valid : IsValid cs
  pub boot : OneBootnode cs
  pub seen : (id : ℕ) → (is_alive cs id || has cs.killed id) ≡ true → has (ids cs) id ≡ true
  pub balance : cs.alive_len + length cs.killed + idle ≡ length cs.all

Left-boot :
    (cs : ChurnState) (i : ℕ) → OneBootnode cs → i < cs.alive_len → OneBootnode (remove_at cs i)
unfolding remove_at
Left-boot cs i boot h j k hj hk ej ek =
    ground (arith, boot j k, boot (cs.alive_len - 1) k, boot j (cs.alive_len - 1))

has_ids-snoc :
    (l : List NodeRec) (rec : NodeRec) (id : ℕ)
    → has (map (λ (r : NodeRec). r.id) (l ++ rec ∷ [])) id
      ≡ ((rec.id == id) || has (map (λ (r : NodeRec). r.id) l) id)
unfolding has
has_ids-snoc [] rec id = refl
has_ids-snoc (r ∷ l) rec id = ground (arith, has_ids-snoc l rec id)

module _ (idle : ℕ) (cs : ChurnState) (v : IsSteady idle cs) where
  remove_at-IsSteady :
      (i : ℕ) → i < cs.alive_len → (cs.alive i).idx ≢ 0 → IsSteady idle (remove_at cs i)
  remove_at-IsSteady i h other =
      let l = remove_at-Left cs i v.valid h other in
      record {
        valid = l.valid;
        boot = Left-boot cs i v.boot h;
        seen =
            λ id e. same_ids id (v.seen id (ground (arith, l.alive id, l.killed id, l.was_alive)));
        balance = omega (arith, v.balance, l.one_fewer, l.counted, same_length);
      }
    where
      same_ids : (id : ℕ) → has (ids cs) id ≡ true → has (ids (remove_at cs i)) id ≡ true
      same_ids id e = unfold remove_at in e

      same_length : length (remove_at cs i).all ≡ length cs.all
      same_length = unfold remove_at in refl

  leave-IsSteady : (r s : ℕ) → IsAllowed cs (leaves r s) → IsSteady idle (leave_random cs r s).0
  unfolding leave_random
  leave-IsSteady r s (hr, hs) = elim (Option-cases (pick_leaver cs r s)) [
    | inl nobody ↦ rw (nobody, leave_random) v
    | inr (i, picked) ↦
        let (live, other) = pick_leaver-live cs r s v.boot hr hs picked in
        rw (picked, leave_random) (remove_at-IsSteady i live other)
  ]

  join-IsSteady : (rec : NodeRec) → IsAllowed cs (joins rec) → IsSteady idle (join cs rec)
  unfolding join append_alive is_alive
  join-IsSteady rec (new, other) = record {
    valid = join-IsValid cs rec v.valid fresh living;
    boot = λ i j hi hj ei ej. ground (arith, v.boot i j);
    seen = λ id e. ground (arith, v.seen id, has_ids-snoc cs.all rec id, is_alive);
    balance = omega (arith, v.balance, length-append cs.all (rec ∷ []));
  }
    where
      living : has cs.killed rec.id ≡ false
      living = ground (arith, v.seen rec.id)

      fresh : cs.alive_idx rec.id ≡ none
      fresh = unfold is_alive in ground (arith, v.seen rec.id)

act-IsSteady :
    (idle : ℕ) (cs : ChurnState) (a : Action)
    → IsSteady idle cs
    → IsAllowed cs a
    → IsSteady idle (act cs a)
unfolding act
act-IsSteady idle cs (leaves r s) v h = leave-IsSteady idle cs v r s h
act-IsSteady idle cs (joins rec) v h = join-IsSteady idle cs v rec h

-- Through any series of joins and leaves the index of the live nodes stays in order, no killed node
-- is alive, and the live, the killed and the nodes that take no part add up to all nodes ever made.
pub act_all-IsSteady :
    (idle : ℕ) (cs : ChurnState) (actions : List Action)
    → IsSteady idle cs
    → AllAllowed cs actions
    → IsSteady idle (act_all cs actions)
unfolding act_all
act_all-IsSteady idle cs [] v h = v
act_all-IsSteady idle cs (a ∷ more) v h =
    act_all-IsSteady idle (act cs a) more (act-IsSteady idle cs a v h.0) h.1
