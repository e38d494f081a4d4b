-- ===== src/Membership/Tests.antt =====
-- Two topics, three registrants.
use topdisc_testbed.Base.{
  ◌≡◌, refl, true, false, some, [], ◌∷◌, arith, has, insert, adjust, find_or, inl, inr,
}
use topdisc_testbed.Membership.{
  TopicMembership, new_topic_membership, add, is_member, ids_of, count_topic, topic_for, snapshot,
  add_all,
}
use topdisc_testbed.Membership.Sets.{Agree, new_topic_membership-Agree, add-Agree, add-moved}

abbrev one : TopicMembership
one = add (new_topic_membership 2) 7 0

one-Agree : Agree one
unfolding new_topic_membership
one-Agree = add-Agree (new_topic_membership 2) 7 0 (new_topic_membership-Agree 2) (inl refl)

counts_after :
    (count_topic (add_all one ((8, 0) ∷ (9, 1) ∷ (8, 0) ∷ [])) 0 ≡ 2)
    × (topic_for one 7 ≡ some 0)
    × (snapshot one ≡ (0, (7 ∷ [])) ∷ (1, []) ∷ [])
unfolding new_topic_membership add_all add count_topic topic_for snapshot insert has adjust find_or
counts_after = (refl, refl, refl)

add-Agree_example : Agree (add one 7 0)
unfolding new_topic_membership add
add-Agree_example = add-Agree one 7 0 one-Agree (inr refl)

add-moved_example :
    let n = add one 7 1 in
    (is_member n 7 0 ≡ false)
    × (is_member n 7 1 ≡ true)
    × (has (ids_of n 0) 7 ≡ true)
    × (has (ids_of n 1) 7 ≡ true)
unfolding new_topic_membership add
add-moved_example = add-moved one 7 0 1 one-Agree refl (omega arith)
