-- ===== src/Population/Valid.antt =====
-- The index of the live nodes agrees with the slice, and no killed node is in it.
use topdisc_testbed.Base.{
  ℕ, ◌-◌, ◌≡◌, ◌<◌, true, false, none, some, [], ◌∷◌, ◌++◌, arith, has, has-insert,
}
use topdisc_testbed.Population.{NodeRec, ChurnState, append_alive, remove_at, join}

pub record IsValid (cs : ChurnState) : Type 0 where
  pub indexed : (i : ℕ) → i < cs.alive_len → cs.alive_idx (cs.alive i).id ≡ some i
  pub listed : (id i : ℕ) → cs.alive_idx id ≡ some i → (i < cs.alive_len) × ((cs.alive i).id ≡ id)
  pub killed_gone : (id : ℕ) → has cs.killed id ≡ true → cs.alive_idx id ≡ none

pub append_alive-IsValid :
    (cs : ChurnState) (rec : NodeRec)
    → IsValid cs
    → cs.alive_idx rec.id ≡ none
    → has cs.killed rec.id ≡ false
    → IsValid (append_alive cs rec)
unfolding append_alive
append_alive-IsValid cs rec v new living = record {
  indexed = λ i h. ground (arith, v.indexed i);
  listed = λ id i h. ground (arith, v.listed id i);
  killed_gone = λ id h. ground (arith, v.killed_gone id);
}

-- A joiner with an id that was never seen keeps the index in order.
pub join-IsValid :
    (cs : ChurnState) (rec : NodeRec)
    → IsValid cs
    → cs.alive_idx rec.id ≡ none
    → has cs.killed rec.id ≡ false
    → IsValid (join cs rec)
unfolding join
join-IsValid cs rec v new living =
    append_alive-IsValid (record cs { all = cs.all ++ rec ∷ [] }) rec
      (record { indexed = v.indexed; listed = v.listed; killed_gone = v.killed_gone }) new living

pub remove_at-IsValid :
    (cs : ChurnState) (i : ℕ) → IsValid cs → i < cs.alive_len → IsValid (remove_at cs i)
unfolding remove_at
remove_at-IsValid cs i v h = record {
  indexed = λ j hj. ground (arith, v.indexed j, v.indexed i h, v.indexed (cs.alive_len - 1));
  listed = λ id j hj.
      ground (arith, v.listed id j, v.indexed j, v.indexed i h, v.indexed (cs.alive_len - 1));
  killed_gone = λ id hk. ground (
    arith,
    v.killed_gone id,
    has-insert (cs.alive i).id id cs.killed,
    v.indexed (cs.alive_len - 1),
  );
}
