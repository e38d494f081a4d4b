-- ===== src/Churn/Prefixes.antt =====
-- The cached tail pool changes nothing: DrawPrefix draws from the pool of the topic.
use topdisc_testbed.Base.{
  ℕ, ◌-◌, ◌≡◌, List, [], if◌then◌else◌, ltb, length, get_or, drop, arith, inl, inr, ◌⊎◌,
}
use topdisc_testbed.Churn.{Model, is_tail, all_prefixes, with_tail, or_global, draw_pool}

module _ {F : Type 0} where
  -- A cached pool is the pool of the k that it was built for.
  abbrev pub IsCoherent : Model F → Type 0
  IsCoherent m = (m.tail ≡ []) ⊎ (m.tail ≡ all_prefixes (drop (m.tail_k - 1) m.topics))

  -- The pool without a cache: the chains below the k-1 largest for the folded tail, the topic's own
  -- for another topic of the model, all nodes where such a pool is empty or there is no such topic.
  pub pool_of : Model F → ℕ → ℕ → List ℕ
  pool_of m i k =
      if is_tail m i k
      then or_global m (all_prefixes (drop (k - 1) m.topics))
      else if ltb i (length m.topics)
      then or_global m (get_or m.topics i m.global).prefixes
      else m.global.prefixes

  tail-with_tail :
      (m : Model F) (k : ℕ)
      → IsCoherent m
      → ((with_tail m k).tail ≡ all_prefixes (drop (k - 1) m.topics))
        × ((with_tail m k).topics ≡ m.topics)
        × ((with_tail m k).global ≡ m.global)
        × IsCoherent (with_tail m k)
  unfolding with_tail
  tail-with_tail m k (inl empty) = ground arith
  tail-with_tail m k (inr cached) = ground arith

  -- DrawPrefix draws from the pool that the topic has without a cache, and leaves a cache that is
  -- right again.
  pub draw_pool-pool_of :
      (m : Model F) (i k : ℕ)
      → IsCoherent m
      → ((draw_pool m i k).1 ≡ pool_of m i k)
        × IsCoherent (draw_pool m i k).0
        × ((draw_pool m i k).0.topics ≡ m.topics)
        × ((draw_pool m i k).0.global ≡ m.global)
  unfolding draw_pool pool_of
  draw_pool-pool_of m i k h = ground (arith, tail-with_tail m k h)
