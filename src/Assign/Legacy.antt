-- ===== src/Assign/Legacy.antt =====
-- legacySet: in every service the same fraction of the nodes, rounded, runs the older client.
use topdisc_testbed.Base.{
  ℕ, ◌≡◌, ◌≤◌, ◌<◌, ◌≢◌, Bool, true, false, ◌&&◌, List, [], ◌∷◌, arith, refl, sym, ◌∙◌, ap, ◌==◌,
  has, length, get_or, take, IsDistinct, sort, sort-IsIncreasing, IsIncreasing, has-sort,
  insert-IsDistinct, has-insert, sum_below, sum_below-ext, sum_below-le, subst, Bool-cases, inl,
  inr, sum_below-zero, bit, ℕ_discrete, length-take,
}
use topdisc_testbed.Assign.{members_from, topics_of, mark, mark_topics, legacy_set}
use topdisc_testbed.Assign.Starts.{has-get_or}
use topdisc_testbed.Assign.Bootstrap.{IsPermutation, has-take, take-IsDistinct}
use topdisc_testbed.Assign.Members.{
  count_topic, count_topic_if, has-members_from, members_from-IsDistinct, distinct-Injective,
  mark-other, mark-count, sum_below-first, length-members_from,
}

module _ (quota : ℕ → ℕ) (perm : ℕ → ℕ → List ℕ) (topics : List ℕ) (small : (m : ℕ) → quota m ≤ m)
    (perms : (k : ℕ) → IsPermutation (perm k)) where
  -- The positions drawn for topic k.
  abbrev drawn : ℕ → List ℕ
  drawn k =
      let members = members_from 0 topics k in
      take (quota (length members)) (perm k (length members))

  drawn-below : (k j : ℕ) → has (drawn k) j ≡ true → j < length (members_from 0 topics k)
  drawn-below k j e =
      let m = length (members_from 0 topics k) in
      (perms k m).2 j (has-take (quota m) (perm k m) j e)

  member :
      (k j : ℕ)
      → j < length (members_from 0 topics k)
      → let x = get_or (members_from 0 topics k) j 0 in
        (x < length topics) × (get_or topics x 0 ≡ k)
  member k j h =
      let members = members_from 0 topics k in
      let r = has-members_from 0 topics k (get_or members j 0) (has-get_or members j h) in
      (omega (arith, r.1), ap (λ m. get_or topics m 0) (omega arith) ∙ r.2)

  topic-other :
      (marked : ℕ → Bool) (k i : ℕ)
      → get_or topics i 0 ≢ k
      → mark marked (members_from 0 topics k) (drawn k) i ≡ marked i
  topic-other marked k i ne =
      mark-other marked (members_from 0 topics k) (drawn k) i
        (λ j e eq. ne (ap (λ x. get_or topics x 0) (sym eq) ∙ (member k j (drawn-below k j e)).1))

  topics-other :
      (marked : ℕ → Bool) (ks : List ℕ) (i : ℕ)
      → has ks (get_or topics i 0) ≡ false
      → mark_topics quota perm topics marked ks i ≡ marked i
  unfolding mark_topics has
  topics-other marked [] i h = refl
  topics-other marked (k ∷ ks) i h =
      topics-other (mark marked (members_from 0 topics k) (drawn k)) ks i (ground arith)
      ∙ topic-other marked k i (ground arith)

  topic-count :
      (marked : ℕ → Bool) (k : ℕ)
      → ((i : ℕ) → get_or topics i 0 ≡ k → marked i ≡ false)
      → count_topic_if topics k (mark marked (members_from 0 topics k) (drawn k))
        ≡ quota (count_topic topics k)
  topic-count marked k f =
      let members = members_from 0 topics k in
      let d = members_from-IsDistinct 0 topics k in
      let m = length members in
      let none_yet =
        sum_below-ext (length topics) (λ i. bit ((get_or topics i 0 == k) && marked i)) (λ _. 0)
          (λ i h. ground (arith, f i)) in
      let all =
        mark-count (length topics) marked members (drawn k) (λ i. get_or topics i 0 == k)
          (distinct-Injective members d) (take-IsDistinct (quota m) (perm k m) (perms k m).1)
          (drawn-below k) (λ j h. ((member k j h).0, ground (arith, (member k j h).1)))
          (λ j h. f (get_or members j 0) (member k j (drawn-below k j h)).1) in
      omega (
        arith,
        all,
        none_yet,
        sum_below-zero (length topics),
        length-take (quota m) (perm k m),
        (perms k m).0,
        small m,
        ap quota (length-members_from 0 topics k),
      )

  topics-count_head :
      (marked : ℕ → Bool) (ks : List ℕ) (k : ℕ)
      → has ks k ≡ false
      → ((i : ℕ) → get_or topics i 0 ≡ k → marked i ≡ false)
      → count_topic_if topics k (mark_topics quota perm topics marked (k ∷ ks))
        ≡ quota (count_topic topics k)
  unfolding mark_topics
  topics-count_head marked ks k h f =
      let marked' = mark marked (members_from 0 topics k) (drawn k) in
      let same : (i : ℕ)
          → get_or topics i 0 ≡ k
          → mark_topics quota perm topics marked' ks i ≡ marked' i =
        λ i e. topics-other marked' ks i (ap (has ks) e ∙ h) in
      sum_below-ext (length topics)
        (λ i. bit ((get_or topics i 0 == k) && mark_topics quota perm topics marked' ks i))
        (λ i. bit ((get_or topics i 0 == k) && marked' i)) (λ i h. ground (arith, same i))
      ∙ topic-count marked k f

  topics-count :
      (marked : ℕ → Bool) (ks : List ℕ) (k : ℕ)
      → IsDistinct ks
      → has ks k ≡ true
      → ((i : ℕ) → get_or topics i 0 ≡ k → marked i ≡ false)
      → count_topic_if topics k (mark_topics quota perm topics marked ks)
        ≡ quota (count_topic topics k)
  unfolding mark_topics has
  topics-count marked [] k d h f = ground arith
  topics-count marked (k' ∷ ks) k d h f =
      let marked' = mark marked (members_from 0 topics k') (drawn k') in
      elim (ℕ_discrete k' k) [
        | yes e ↦
            subst
              (λ x.
                ((i : ℕ) → get_or topics i 0 ≡ x → marked i ≡ false)
                → count_topic_if topics x (mark_topics quota perm topics marked (k' ∷ ks))
                  ≡ quota (count_topic topics x))
              e (topics-count_head marked ks k' d.0) f
        | no ne ↦
            topics-count marked' ks k d.1 (ground arith)
              (λ i e. topic-other marked k' i (λ e'. ne (sym e' ∙ e)) ∙ f i e)
      ]

increasing-IsDistinct : (xs : List ℕ) → IsIncreasing xs → IsDistinct xs
increasing-IsDistinct [] s = tt
increasing-IsDistinct (x ∷ xs) s = (ground (arith, s.0 x), increasing-IsDistinct xs s.1)

topics_of-IsDistinct : (ts : List ℕ) → IsDistinct (topics_of ts)
unfolding topics_of
topics_of-IsDistinct [] = tt
topics_of-IsDistinct (t ∷ ts) = insert-IsDistinct t (topics_of ts) (topics_of-IsDistinct ts)

topics_of-count : (ts : List ℕ) (k : ℕ) → has (topics_of ts) k ≡ false → count_topic ts k ≡ 0
unfolding topics_of sum_below
topics_of-count [] k h = refl
topics_of-count (t ∷ ts) k h = ground (
  arith,
  topics_of-count ts k,
  has-insert t k (topics_of ts),
  sum_below-first (length ts) (λ j. bit (get_or (t ∷ ts) j 0 == k)),
)

-- Whatever permutations are drawn, legacySet marks in every topic the number of nodes that the
-- rounded fraction asks for, of the nodes whose first topic it is; a fraction of 0 marks none.
pub legacy_set-count :
    (quota : ℕ → ℕ) (perm : ℕ → ℕ → List ℕ) (topics : List ℕ) (k : ℕ)
    → ((m : ℕ) → quota m ≤ m)
    → ((k : ℕ) → IsPermutation (perm k))
    → (count_topic_if topics k (legacy_set true quota perm topics) ≡ quota (count_topic topics k))
      × ((i : ℕ) → legacy_set false quota perm topics i ≡ false)
unfolding legacy_set
legacy_set-count quota perm topics k small perms =
    let ks = sort (topics_of topics) in
    (
      elim (Bool-cases (has ks k)) [
        | inl e ↦
            topics-count quota perm topics small perms (λ _. false) ks k
              (increasing-IsDistinct ks
                (sort-IsIncreasing (topics_of topics) (topics_of-IsDistinct topics)))
              e (λ i e. refl)
        | inr e ↦ omega (
          arith,
          sum_below-le (length topics)
              (λ i. bit ((get_or topics i 0 == k) && legacy_set true quota perm topics i))
              (λ i. bit (get_or topics i 0 == k)) (λ i h. ground arith),
          topics_of-count topics k (sym (has-sort (topics_of topics) k) ∙ e),
          small (count_topic topics k),
        )
      ],
      λ i. refl,
    )
