-- ===== src/Membership.antt =====
-- cmd/simnet/membership.go: which registrant registered which topic (`topicMembership`).
-- The `sync.Map` from ids to topics is a function, a topic's set of ids the list of its keys.
pub mod Sets
mod Tests
use topdisc_testbed.Base.{
  ℕ, zero, suc, ◌+◌, Bool, true, false, Option, none, some, List, [], ◌∷◌, ◌++◌, if◌then◌else◌, ltb,
  ◌==◌, update, has, insert, length, find_or, adjust,
}

pub record TopicMembership : Type 0 where
  pub topic_of : ℕ → Option ℕ
  pub by_topic : List (ℕ × List ℕ)

-- The loop that makes an empty set for each of the topics 0 to n-1.
empty_sets : ℕ → List (ℕ × List ℕ)
empty_sets zero = []
empty_sets (suc n) = empty_sets n ++ (n, []) ∷ []

pub new_topic_membership : ℕ → TopicMembership
unfolding empty_sets
new_topic_membership num_topics = record { topic_of = λ _. none; by_topic = empty_sets num_topics }

-- The ids of a topic; a missing set is nil, which reads as the empty one.
pub ids_of : TopicMembership → ℕ → List ℕ
ids_of m topic = find_or [] topic m.by_topic

-- A missing set is made and then written to.
pub add : TopicMembership → ℕ → ℕ → TopicMembership
add m id topic = record {
  topic_of = update m.topic_of id (some topic);
  by_topic = adjust [] (insert id) topic m.by_topic;
}

is_topic : Option ℕ → ℕ → Bool
is_topic none topic = false
is_topic (some t) topic = t == topic

-- `has` of the source
pub is_member : TopicMembership → ℕ → ℕ → Bool
unfolding is_topic
is_member m id topic = is_topic (m.topic_of id) topic

pub topic_for : TopicMembership → ℕ → Option ℕ
topic_for m id = m.topic_of id

pub count_topic : TopicMembership → ℕ → ℕ
unfolding ids_of
count_topic m topic = length (ids_of m topic)

copy : List ℕ → List ℕ
copy [] = []
copy (id ∷ ids) = id ∷ copy ids

copy_sets : List (ℕ × List ℕ) → List (ℕ × List ℕ)
copy_sets [] = []
copy_sets ((t, set) ∷ rest) = (t, copy set) ∷ copy_sets rest

-- A deep copy: as values the sets themselves.
pub snapshot : TopicMembership → List (ℕ × List ℕ)
unfolding copy copy_sets
snapshot m = copy_sets m.by_topic

pub add_all : TopicMembership → List (ℕ × ℕ) → TopicMembership
unfolding add
add_all m [] = m
add_all m ((id, topic) ∷ regs) = add_all (add m id topic) regs
