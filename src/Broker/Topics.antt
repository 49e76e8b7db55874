-- ===== src/Broker/Topics.antt =====
-- Tema_2/utils.c: the table of topics. `topic_map[0 .. topic_count)` is a list, and so are the
-- first `sub_count` rows of an entry's `subscribers`. `none` is a write past the end of an array.
pub mod Subscriptions
pub mod Removal
use teme_pcom.Prelude.{
  Bytes, List, Option, [], any, find_index, get_elem?, get_or, if◌then◌else◌, length, ltb, none,
  set, some, str_eq, take, ℕ, ◌++◌, ◌+◌, ◌-◌, ◌∷◌,
}
use teme_pcom.Broker.Clients.{max_id_len}

abbrev pub max_topics : ℕ
max_topics = 1024

abbrev pub max_clients_per_topic : ℕ
max_clients_per_topic = 32

-- sizeof (topic_map[index].topic)
abbrev pub topic_size : ℕ
topic_size = 64

pub record TopicEntry : Type 0 where
  pub topic : Bytes
  pub subscribers : List Bytes

unfoldable pub find_topic_index : Bytes → List TopicEntry → Option ℕ
find_topic_index topic topics = find_index (λ e. str_eq e.topic topic) topics

-- The loop over the subscribers of an entry, and the write behind them.
unfoldable pub add_subscriber : Bytes → TopicEntry → Option TopicEntry
add_subscriber client_id e =
    if any (λ s. str_eq s client_id) e.subscribers
    then some e
    else if ltb (length e.subscribers) max_clients_per_topic
    then some (record e { subscribers = e.subscribers ++ take max_id_len client_id ∷ [] })
    else none

-- Work on one entry of the table in place.
unfoldable pub update_entry :
    (TopicEntry → Option TopicEntry) → ℕ → List TopicEntry → Option (List TopicEntry)
update_entry f index topics = elim (get_elem? topics index) [
  | none ↦ none
  | some e ↦ elim (f e) [ none ↦ none | some e' ↦ some (set topics index e') ]
]

abbrev pub new_entry : Bytes → TopicEntry
new_entry topic = record { topic = take topic_size topic; subscribers = [] }

unfoldable pub subscribe : Bytes → Bytes → List TopicEntry → Option (List TopicEntry)
subscribe topic client_id topics = elim (find_topic_index topic topics) [
  | none ↦
      if ltb (length topics) max_topics
      then update_entry (add_subscriber client_id) (length topics) (topics ++ new_entry topic ∷ [])
      else none
  | some index ↦ update_entry (add_subscriber client_id) index topics
]

-- The id at index i is overwritten by the last one, and the count falls by one. Where they are the
-- same one, strcpy of it to itself, which C leaves undefined, is taken to leave it.
unfoldable pub swap_remove : ℕ → List Bytes → List Bytes
swap_remove i subs = take (length subs - 1) (set subs i (get_or subs (length subs - 1) []))

unfoldable pub remove_subscriber : Bytes → TopicEntry → TopicEntry
remove_subscriber client_id e = elim (find_index (λ s. str_eq s client_id) e.subscribers) [
  | none ↦ e
  | some i ↦ record e { subscribers = swap_remove i e.subscribers }
]

unfoldable pub unsubscribe : Bytes → Bytes → List TopicEntry → List TopicEntry
unsubscribe topic client_id topics = elim (find_topic_index topic topics) [
  | none ↦ topics
  | some index ↦ elim (get_elem? topics index) [
    | none ↦ topics
    | some e ↦ set topics index (remove_subscriber client_id e)
  ]
]
