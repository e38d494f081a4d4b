-- ===== src/Population/Leaving.antt =====
-- Who leaves, what else changes, and the balance of the population.
use native.Mathlib.Nat.{mod-lt, mod-eq_of_lt, mod-eq-sub-mod}
use topdisc_testbed.Base.{
  ℕ, ◌+◌, ◌-◌, ◌%◌, ◌≡◌, ◌≢◌, ◌≤◌, ◌<◌, ◌↔◌, ◌⊎◌, Bool, true, false, not, ◌||◌, ◌&&◌, Option, none,
  some, arith, ◌==◌, has, has-insert, length-insert, length, Option-cases, inl, inr, subst, dec_lt,
}
use topdisc_testbed.Population.{NodeRec, ChurnState, remove_at, pick_leaver, leave_random}
use topdisc_testbed.Population.Valid.{IsValid, remove_at-IsValid}

abbrev pub is_some : Option ℕ → Bool
is_some none = false
is_some (some i) = true

unfoldable pub is_alive : ChurnState → ℕ → Bool
is_alive cs id = is_some (cs.alive_idx id)

-- At most one live node is the bootnode.
abbrev pub OneBootnode : ChurnState → Type 0
OneBootnode cs =
    (i j : ℕ)
    → i < cs.alive_len
    → j < cs.alive_len
    → (cs.alive i).idx ≡ 0
    → (cs.alive j).idx ≡ 0
    → i ≡ j

shift-ne : (n r s : ℕ) → r < n → s + 1 < n → (r + 1 + s) % n ≢ r
shift-ne n r s hr hs e = elim (dec_lt (r + 1 + s) n) [
  | yes p ↦ omega (arith, mod-eq_of_lt p)
  | no p ↦ omega (
    arith,
    mod-eq-sub-mod {n = r + 1 + s} {m = n} (omega arith),
    mod-eq_of_lt {n = r + 1 + s - n} {m = n} (omega arith),
  )
]

-- The choice falls on a live node that is not the bootnode.
pub pick_leaver-live :
    (cs : ChurnState) (r s : ℕ)
    → OneBootnode cs
    → r < cs.alive_len
    → s < cs.alive_len - 1 ⊎ cs.alive_len ≤ 1
    → {i : ℕ} → pick_leaver cs r s ≡ some i
    → (i < cs.alive_len) × ((cs.alive i).idx ≢ 0)
unfolding pick_leaver
pick_leaver-live cs r s boot hr hs {i} e = ground (
  arith,
  shift-ne cs.alive_len r s hr,
  mod-lt (r + 1 + s) {m = cs.alive_len},
  boot r ((r + 1 + s) % cs.alive_len) hr,
)

-- What a departure of the node `rec` does to the population.
pub record Left (cs cs' : ChurnState) (rec : NodeRec) : Type 0 where
  pub valid : IsValid cs'
  pub not_bootnode : rec.idx ≢ 0
  pub was_alive : is_alive cs rec.id ≡ true
  pub one_fewer : cs'.alive_len + 1 ≡ cs.alive_len
  pub alive : (id : ℕ) → is_alive cs' id ≡ (is_alive cs id && not (rec.id == id))
  pub killed : (id : ℕ) → has cs'.killed id ≡ ((rec.id == id) || has cs.killed id)
  pub counted : length cs'.killed ≡ length cs.killed + 1

pub remove_at-Left :
    (cs : ChurnState) (i : ℕ)
    → IsValid cs
    → i < cs.alive_len
    → (cs.alive i).idx ≢ 0
    → Left cs (remove_at cs i) (cs.alive i)
remove_at-Left cs i v h boot = record {
  valid = remove_at-IsValid cs i v h;
  not_bootnode = boot;
  was_alive = unfold is_alive in ground (arith, v.indexed i h);
  one_fewer = unfold remove_at in omega arith;
  alive = λ id.
      unfold remove_at is_alive in
      ground (arith, v.indexed i h, v.indexed (cs.alive_len - 1), v.listed id);
  killed = λ id. unfold remove_at in has-insert (cs.alive i).id id cs.killed;
  counted =
      unfold remove_at in
      length-insert (cs.alive i).id cs.killed
        (ground (arith, v.killed_gone (cs.alive i).id, v.indexed i h));
}

-- leaveRandom never takes the bootnode. The node that it returns was alive; it alone is no longer
-- alive afterwards and is marked as killed, and the index of the others is in order.
pub leave_random-Left :
    (cs : ChurnState) (r s : ℕ)
    → IsValid cs
    → OneBootnode cs
    → r < cs.alive_len
    → s < cs.alive_len - 1 ⊎ cs.alive_len ≤ 1
    → {rec : NodeRec} → (leave_random cs r s).1 ≡ some rec
    → Left cs (leave_random cs r s).0 rec
unfolding leave_random
leave_random-Left cs r s v boot hr hs {rec} e = elim (Option-cases (pick_leaver cs r s)) [
  | inl nobody ↦ cc (rw (nobody, leave_random) at e)
  | inr (i, picked) ↦
      let (live, other) = pick_leaver-live cs r s boot hr hs picked in
      rw (picked, leave_random)
        (subst (Left cs (remove_at cs i)) (cc (rw (picked, leave_random) at e))
          (remove_at-Left cs i v live other))
]

-- leaveRandom returns nobody, and changes nothing, exactly when nobody is alive or the one node that
-- comes up is the bootnode and the last.
pub leave_random-none :
    (cs : ChurnState) (r s : ℕ)
    → ((leave_random cs r s).1 ≡ none)
      ↔ ((cs.alive_len ≡ 0) ⊎ ((cs.alive_len ≡ 1) × ((cs.alive r).idx ≡ 0)))
unfolding leave_random pick_leaver
leave_random-none cs r s = ground arith
