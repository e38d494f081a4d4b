-- ===== src/Placement/Slots.antt =====
-- Slots handed out one after the other are distinct, and within the machine's capacity.
use topdisc_testbed.Base.{
  ℕ, suc, ◌+◌, ◌≡◌, ◌≢◌, ◌≤◌, ◌<◌, Bool, true, false, ◌||◌, List, [], ◌∷◌, ◌==◌, length, arith, has,
  IsDistinct,
}
use topdisc_testbed.Placement.{Placing, put, put_all}

-- The nodes in `done` have slots: below the number in use, and no two the same; no machine holds
-- more than its capacity.
pub record IsSound (cap : ℕ → ℕ) (hosts : ℕ) (p : Placing) (done : ℕ → Bool) : Type 0 where
  pub in_use : (i : ℕ) → done i ≡ true → p.local i < p.used (p.host_of i)
  pub real_host : (i : ℕ) → done i ≡ true → p.host_of i < hosts
  pub apart :
      (i j : ℕ)
      → done i ≡ true
      → done j ≡ true
      → i ≢ j
      → p.host_of i ≡ p.host_of j
      → p.local i ≢ p.local j
  pub fits : (h : ℕ) → p.used h ≤ cap h

module _ (cap : ℕ → ℕ) (hosts : ℕ) where
  pub put-IsSound :
      (p : Placing) (done : ℕ → Bool) (h i : ℕ)
      → IsSound cap hosts p done
      → h < hosts
      → done i ≡ false
      → p.used h < cap h
      → IsSound cap hosts (put p h i) (λ j. (i == j) || done j)
  unfolding put
  put-IsSound p done h i s hh new free = record {
    in_use = λ j e. ground (arith, s.in_use j);
    real_host = λ j e. ground (arith, s.real_host j);
    apart = λ j k ej ek ne same. ground (arith, s.apart j k, s.in_use j, s.in_use k);
    fits = λ k. ground (arith, s.fits k);
  }

  pub put_all-IsSound :
      (p : Placing) (done : ℕ → Bool) (h : ℕ) (g : List ℕ)
      → IsSound cap hosts p done
      → h < hosts
      → IsDistinct g
      → ((i : ℕ) → has g i ≡ true → done i ≡ false)
      → p.used h + length g ≤ cap h
      → IsSound cap hosts (put_all p h g) (λ j. has g j || done j)
  unfolding put_all has
  put_all-IsSound p done h [] s hh d new room = s
  put_all-IsSound p done h (i ∷ g) s hh d new room =
      let one = put-IsSound p done h i s hh (new i (ground arith)) (omega arith) in
      let rest =
        put_all-IsSound (put p h i) (λ j. (i == j) || done j) h g one hh d.1
          (λ j e. ground (arith, new j, d.0)) (used_room p h i g room) in
      record {
        in_use = λ j e. rest.in_use j (ground arith);
        real_host = λ j e. rest.real_host j (ground arith);
        apart = λ j k ej ek. rest.apart j k (ground arith) (ground arith);
        fits = rest.fits;
      }
    where
      used_room :
          (p : Placing) (h i : ℕ) (g : List ℕ)
          → p.used h + suc (length g) ≤ cap h
          → (put p h i).used h + length g ≤ cap h
      used_room p h i g r = unfold put in ground arith
