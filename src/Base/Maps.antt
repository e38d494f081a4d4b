-- ===== src/Base/Maps.antt =====
-- A Go `map[int]V` as an association list in the order in which keys were added.
use Prim.Native.Nat.{ℕ, ◌+◌}
use mathlib.Core.Path.{◌≡◌, refl}
use mathlib.Core.Bool.{Bool, true, false, not, ◌&&◌, ◌||◌}
use mathlib.Core.Option.{Option, none, some}
use mathlib.Core.List.{List, [], ◌∷◌, ◌++◌}
use native.Mathlib.Omega.{arith}
use topdisc_testbed.Base.Tests.{◌==◌, if◌then◌else◌}
use topdisc_testbed.Base.Sets.{has, IsDistinct}

module _ {ℓ} {V : Type ℓ} where
  -- `v, ok := m[k]`
  unfoldable pub find : ℕ → List (ℕ × V) → Option V
  find k [] = none
  find k ((j, v) ∷ m) = if j == k then some v else find k m

  -- `m[k]`, with the zero value `d`
  unfoldable pub find_or : V → ℕ → List (ℕ × V) → V
  find_or d k [] = d
  find_or d k ((j, v) ∷ m) = if j == k then v else find_or d k m

  -- `m[k] = f(m[k])`
  unfoldable pub adjust : V → (V → V) → ℕ → List (ℕ × V) → List (ℕ × V)
  adjust d f k [] = (k, f d) ∷ []
  adjust d f k ((j, v) ∷ m) = if j == k then (j, f v) ∷ m else (j, v) ∷ adjust d f k m

  unfoldable pub keys : List (ℕ × V) → List ℕ
  keys [] = []
  keys ((k, v) ∷ m) = k ∷ keys m

  -- the values, weighed and added up
  unfoldable pub sum_values : (V → ℕ) → List (ℕ × V) → ℕ
  sum_values w [] = 0
  sum_values w ((k, v) ∷ m) = w v + sum_values w m

  -- `delete(m, k)`
  unfoldable pub erase : ℕ → List (ℕ × V) → List (ℕ × V)
  erase k [] = []
  erase k ((j, v) ∷ m) = if j == k then erase k m else (j, v) ∷ erase k m

  pub find-adjust :
      (d : V) (f : V → V) (k j : ℕ) (m : List (ℕ × V))
      → find j (adjust d f k m) ≡ (if k == j then some (f (find_or d k m)) else find j m)
  unfolding find find_or adjust
  find-adjust d f k j [] = ground arith
  find-adjust d f k j ((i, v) ∷ m) = ground (arith, find-adjust d f k j m)

  pub find-erase :
      (k j : ℕ) (m : List (ℕ × V)) → find j (erase k m) ≡ (if k == j then none else find j m)
  unfolding find erase
  find-erase k j [] = ground arith
  find-erase k j ((i, v) ∷ m) = ground (arith, find-erase k j m)

  pub has-keys-erase :
      (k j : ℕ) (m : List (ℕ × V)) → has (keys (erase k m)) j ≡ (not (k == j) && has (keys m) j)
  unfolding keys erase has
  has-keys-erase k j [] = ground arith
  has-keys-erase k j ((i, v) ∷ m) = ground (arith, has-keys-erase k j m)

  pub erase-IsDistinct :
      (k : ℕ) (m : List (ℕ × V)) → IsDistinct (keys m) → IsDistinct (keys (erase k m))
  unfolding keys erase
  erase-IsDistinct k [] h = tt
  erase-IsDistinct k ((i, v) ∷ m) h = ground (arith, erase-IsDistinct k m h.1, has-keys-erase k i m)

  pub find-absent : (k : ℕ) (m : List (ℕ × V)) → has (keys m) k ≡ false → find k m ≡ none
  unfolding find keys has
  find-absent k [] h = refl
  find-absent k ((j, v) ∷ m) h = ground (arith, find-absent k m)

  pub find-present : (k : ℕ) (m : List (ℕ × V)) (v : V) → find k m ≡ some v → has (keys m) k ≡ true
  unfolding find keys has
  find-present k [] v h = ground arith
  find-present k ((j, u) ∷ m) v h = ground (arith, find-present k m v)

  abbrev pub is_some : Option V → Bool
  is_some none = false
  is_some (some v) = true

  pub has-keys : (k : ℕ) (m : List (ℕ × V)) → has (keys m) k ≡ is_some (find k m)
  unfolding find keys has
  has-keys k [] = refl
  has-keys k ((j, v) ∷ m) = ground (arith, has-keys k m)

  pub erase-absent : (k : ℕ) (m : List (ℕ × V)) → has (keys m) k ≡ false → erase k m ≡ m
  unfolding erase keys has
  erase-absent k [] h = refl
  erase-absent k ((j, u) ∷ m) h = ground (arith, erase-absent k m)

  pub keys-append : (xs ys : List (ℕ × V)) → keys (xs ++ ys) ≡ keys xs ++ keys ys
  unfolding keys
  keys-append [] ys = refl
  keys-append ((k, v) ∷ xs) ys = rw (keys-append xs ys)

  pub sum_values-append :
      (w : V → ℕ) (xs ys : List (ℕ × V))
      → sum_values w (xs ++ ys) ≡ sum_values w xs + sum_values w ys
  unfolding sum_values
  sum_values-append w [] ys = omega arith
  sum_values-append w ((k, v) ∷ xs) ys = omega (arith, sum_values-append w xs ys)

  -- An entry that is taken out takes its weight with it.
  pub sum_values-erase :
      (w : V → ℕ) (k : ℕ) (m : List (ℕ × V)) (v : V)
      → IsDistinct (keys m)
      → find k m ≡ some v
      → sum_values w (erase k m) + w v ≡ sum_values w m
  unfolding sum_values erase find keys
  sum_values-erase w k [] v d h = ground arith
  sum_values-erase w k ((j, u) ∷ m) v d h =
      ground (arith, sum_values-erase w k m v d.1, erase-absent k m)

  pub find_or-adjust :
      (d : V) (f : V → V) (k j : ℕ) (m : List (ℕ × V))
      → find_or d j (adjust d f k m) ≡ (if k == j then f (find_or d k m) else find_or d j m)
  unfolding find_or adjust
  find_or-adjust d f k j [] = ground arith
  find_or-adjust d f k j ((i, v) ∷ m) = ground (arith, find_or-adjust d f k j m)

  pub has-keys-adjust :
      (d : V) (f : V → V) (k j : ℕ) (m : List (ℕ × V))
      → has (keys (adjust d f k m)) j ≡ ((k == j) || has (keys m) j)
  unfolding keys adjust has
  has-keys-adjust d f k j [] = ground arith
  has-keys-adjust d f k j ((i, v) ∷ m) = ground (arith, has-keys-adjust d f k j m)

  pub adjust-IsDistinct :
      (d : V) (f : V → V) (k : ℕ) (m : List (ℕ × V))
      → IsDistinct (keys m)
      → IsDistinct (keys (adjust d f k m))
  unfolding keys adjust has
  adjust-IsDistinct d f k [] h = ground arith
  adjust-IsDistinct d f k ((i, v) ∷ m) h =
      ground (arith, adjust-IsDistinct d f k m h.1, has-keys-adjust d f k i m)

  -- If `f` adds `e` to a value's weight, and the zero value weighs nothing, the sum grows by `e`.
  pub sum_values-adjust :
      (w : V → ℕ) (d : V) (f : V → V) (e k : ℕ) (m : List (ℕ × V))
      → w d ≡ 0
      → ((v : V) → w (f v) ≡ w v + e)
      → sum_values w (adjust d f k m) ≡ sum_values w m + e
  unfolding sum_values adjust
  sum_values-adjust w d f e k [] hd hf = omega (arith, hf d)
  sum_values-adjust w d f e k ((i, v) ∷ m) hd hf =
      ground (arith, hf v, sum_values-adjust w d f e k m hd hf)
