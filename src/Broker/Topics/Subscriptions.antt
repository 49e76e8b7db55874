-- ===== src/Broker/Topics/Subscriptions.antt =====
-- Who is subscribed to what, across subscribe and unsubscribe.
use teme_pcom.Prelude.{
  Bytes, List, Option, Option-cases, [], any, arith, find_index, find_index-some, get_elem?,
  get_elem?-snoc, if◌then◌else◌, inl, inr, length, none, refl, set, set-snoc, some, str_eq,
  str_eq_iff, str_eq→eq, suc, take_all, total, zero, ℕ, ◌++◌, ◌<◌, ◌∙◌, ◌∷◌, ◌≡◌,
}
use teme_pcom.Broker.Topics.{
  new_entry, topic_size, update_entry, subscribe, TopicEntry, find_topic_index, add_subscriber,
}
use teme_pcom.Broker.Clients.{max_id_len}

-- The subscribers of the first entry of that name, which is the one that the searches find.
unfoldable pub subs_of : Bytes → List TopicEntry → List Bytes
subs_of topic [] = []
subs_of topic (e ∷ topics) = if str_eq e.topic topic then e.subscribers else subs_of topic topics

-- How often an id is listed.
abbrev pub times : Bytes → List Bytes → ℕ
times id subs = total (λ s. if str_eq s id then 1 else 0) subs

pub entry_found :
    (topic : Bytes) (topics : List TopicEntry) (i : ℕ)
    → find_topic_index topic topics ≡ some i
    → (e : TopicEntry) × (get_elem? topics i ≡ some e) × (e.topic ≡ topic)
unfolding find_topic_index
entry_found topic topics i h =
    let (e, at, same, bound) = find_index-some (λ e. str_eq e.topic topic) topics i h in
    (e, at, str_eq→eq e.topic topic same)

pub subs_of-found :
    (topic : Bytes) (topics : List TopicEntry) (i : ℕ) (e : TopicEntry)
    → find_topic_index topic topics ≡ some i
    → get_elem? topics i ≡ some e
    → subs_of topic topics ≡ e.subscribers
unfolding find_topic_index find_index subs_of
subs_of-found topic [] i e h at = absurd (cc)
subs_of-found topic (d ∷ topics) zero e h at = ground arith
subs_of-found topic (d ∷ topics) (suc i) e h at = ground (arith, subs_of-found topic topics i e)

pub subs_of-missing :
    (topic : Bytes) (topics : List TopicEntry)
    → find_topic_index topic topics ≡ none
    → subs_of topic topics ≡ []
unfolding find_topic_index find_index subs_of
subs_of-missing topic [] h = refl
subs_of-missing topic (d ∷ topics) h = ground (arith, subs_of-missing topic topics)

pub subs_of-set :
    (topic t : Bytes) (topics : List TopicEntry) (i : ℕ) (e : TopicEntry)
    → find_topic_index topic topics ≡ some i
    → e.topic ≡ topic
    → subs_of t (set topics i e) ≡ (if str_eq topic t then e.subscribers else subs_of t topics)
unfolding find_topic_index find_index subs_of
subs_of-set topic t [] i e h same = absurd (cc)
subs_of-set topic t (d ∷ topics) zero e h same =
    let named : d.topic ≡ topic = str_eq→eq d.topic topic (ground arith) in
    rw (same, named) (ground arith)
subs_of-set topic t (d ∷ topics) (suc i) e h same = ground (
  arith,
  subs_of-set topic t topics i e,
  str_eq_iff d.topic topic,
  str_eq_iff d.topic t,
  str_eq_iff topic t,
)

subs_of-snoc :
    (topic t : Bytes) (topics : List TopicEntry) (e : TopicEntry)
    → find_topic_index topic topics ≡ none
    → e.topic ≡ topic
    → subs_of t (topics ++ e ∷ []) ≡ (if str_eq topic t then e.subscribers else subs_of t topics)
unfolding find_topic_index find_index subs_of
subs_of-snoc topic t [] e h same = rw same refl
subs_of-snoc topic t (d ∷ topics) e h same = ground (
  arith,
  subs_of-snoc topic t topics e,
  str_eq_iff d.topic topic,
  str_eq_iff d.topic t,
  str_eq_iff topic t,
)

-- What subscribing does to the list of one topic.
abbrev pub with_id : Bytes → List Bytes → List Bytes
with_id id subs = if any (λ s. str_eq s id) subs then subs else subs ++ id ∷ []

add_subscriber-with_id :
    (id : Bytes) (e e' : TopicEntry)
    → length id < max_id_len
    → add_subscriber id e ≡ some e'
    → (e'.topic ≡ e.topic) × (e'.subscribers ≡ with_id id e.subscribers)
unfolding add_subscriber
add_subscriber-with_id id e e' short h = ground (arith, take_all max_id_len id)

update_entry-some :
    (f : TopicEntry → Option TopicEntry) (i : ℕ) (topics topics' : List TopicEntry) (e : TopicEntry)
    → get_elem? topics i ≡ some e
    → update_entry f i topics ≡ some topics'
    → (e' : TopicEntry) × (f e ≡ some e') × (topics' ≡ set topics i e')
unfolding update_entry
update_entry-some f i topics topics' e at h = elim (Option-cases (f e)) [
  | inl r ↦ absurd (ground arith)
  | inr (e', r) ↦ (e', r, ground arith)
]

-- A subscription with a topic and an id that fit in their arrays, and that fits in the tables, adds the id to the topic's list if it is not there yet,
-- and leaves the lists of all other topics as they were.
pub subs_of-subscribe :
    (topic id t : Bytes) (topics topics' : List TopicEntry)
    → length topic < topic_size
    → length id < max_id_len
    → subscribe topic id topics ≡ some topics'
    → subs_of t topics'
      ≡ (if str_eq topic t then with_id id (subs_of topic topics) else subs_of t topics)
unfolding subscribe
subs_of-subscribe topic id t topics topics' short_topic short h =
    elim (Option-cases (find_topic_index topic topics)) [
      | inl unknown ↦
          let fresh : TopicEntry = new_entry topic in
          let h' : update_entry (add_subscriber id) (length topics) (topics ++ fresh ∷ [])
              ≡ some topics' =
            ground arith in
          let (e', r, eq) =
            update_entry-some (add_subscriber id) (length topics) (topics ++ fresh ∷ []) topics'
              fresh (get_elem?-snoc topics fresh) h' in
          let (named, listed) = add_subscriber-with_id id fresh e' short r in
          rw
            (
              eq,
              set-snoc topics fresh e',
              subs_of-snoc topic t topics e' unknown
                  (named ∙ take_all topic_size topic (omega arith)),
              listed,
              subs_of-missing topic topics unknown,
            )
            refl
      | inr (i, known) ↦
          let (e, at, name) = entry_found topic topics i known in
          let h' : update_entry (add_subscriber id) i topics ≡ some topics' = ground arith in
          let (e', r, eq) = update_entry-some (add_subscriber id) i topics topics' e at h' in
          let (named, listed) = add_subscriber-with_id id e e' short r in
          rw
            (
              eq,
              subs_of-set topic t topics i e' known (named ∙ name),
              listed,
              subs_of-found topic topics i e known at,
            )
            refl
    ]
