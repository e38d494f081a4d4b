-- ===== src/Membership/Sets.antt =====
-- The two views of the membership: the topic of an id, and the ids of a topic.
use topdisc_testbed.Base.{
  ℕ, zero, suc, ◌+◌, ◌≡◌, ◌≢◌, ◌⊎◌, refl, true, false, not, ◌&&◌, none, some, [], ◌∷◌, arith,
  if◌then◌else◌, ◌==◌, has, insert, has-insert, insert-IsDistinct, IsDistinct, List, find_or,
  find_or-adjust, ◌++◌,
}
use topdisc_testbed.Membership.{
  TopicMembership, ids_of, empty_sets, new_topic_membership, add, is_topic, is_member, count_topic,
}

-- The views agree: an id is in the set of a topic exactly if it is a member of the topic.
pub record Agree (m : TopicMembership) : Type 0 where
  pub same : (id topic : ℕ) → has (ids_of m topic) id ≡ is_member m id topic
  pub distinct : (topic : ℕ) → IsDistinct (ids_of m topic)

find_or-snoc :
    (m : List (ℕ × List ℕ)) (n topic : ℕ)
    → find_or [] topic m ≡ []
    → find_or [] topic (m ++ (n, []) ∷ []) ≡ []
unfolding find_or
find_or-snoc [] n topic h = ground arith
find_or-snoc ((k, v) ∷ m) n topic h = ground (arith, find_or-snoc m n topic)

find_or-empty_sets : (n topic : ℕ) → find_or [] topic (empty_sets n) ≡ []
unfolding empty_sets find_or
find_or-empty_sets zero topic = refl
find_or-empty_sets (suc n) topic = find_or-snoc (empty_sets n) n topic (find_or-empty_sets n topic)

ids_of-add :
    (m : TopicMembership) (id topic t : ℕ)
    → ids_of (add m id topic) t ≡ (if topic == t then insert id (ids_of m topic) else ids_of m t)
unfolding ids_of add
ids_of-add m id topic t = find_or-adjust [] (insert id) topic t m.by_topic

pub new_topic_membership-Agree : (n : ℕ) → Agree (new_topic_membership n)
unfolding new_topic_membership is_member ids_of has
new_topic_membership-Agree n = record {
  same = λ id topic. rw (find_or-empty_sets n topic) refl;
  distinct = λ topic. rw (find_or-empty_sets n topic) tt;
}

-- Registering an id for the first time, or for its own topic again, keeps the views in agreement.
pub add-Agree :
    (m : TopicMembership) (id topic : ℕ)
    → Agree m
    → (m.topic_of id ≡ none) ⊎ (m.topic_of id ≡ some topic)
    → Agree (add m id topic)
unfolding add is_member is_topic
add-Agree m id topic h fresh = record {
  same =
      λ j t. ground (arith, ids_of-add m id topic t, h.same j t, has-insert id j (ids_of m topic));
  distinct = λ t. ground (
    arith,
    ids_of-add m id topic t,
    h.distinct t,
    insert-IsDistinct id (ids_of m topic) (h.distinct topic),
  );
}

-- A new registrant is counted once, in its topic alone; a registrant that registers again is not
-- counted again.
pub count_topic-add :
    (m : TopicMembership) (id topic t : ℕ)
    → count_topic (add m id topic) t
      ≡ count_topic m t + (if (topic == t) && not (has (ids_of m topic) id) then 1 else 0)
unfolding count_topic insert
count_topic-add m id topic t = ground (arith, ids_of-add m id topic t)

-- An id that is registered for another topic than before is a member of the new topic alone, but
-- stands in the sets of both, where countTopic and snapshot count it twice.
pub add-moved :
    (m : TopicMembership) (id old topic : ℕ)
    → Agree m
    → m.topic_of id ≡ some old
    → old ≢ topic
    → let n = add m id topic in
      (is_member n id old ≡ false)
      × (is_member n id topic ≡ true)
      × (has (ids_of n old) id ≡ true)
      × (has (ids_of n topic) id ≡ true)
unfolding add is_member is_topic
add-moved m id old topic h e ne = ground (
  arith,
  ids_of-add m id topic old,
  ids_of-add m id topic topic,
  h.same id old,
  has-insert id id (ids_of m topic),
)
