-- ===== src/Broker/Topics/Removal.antt =====
-- What unsubscribe takes away.
use teme_pcom.Prelude.{
  Bool-cases, Bytes, List, Option-cases, [], any, ap, arith, false, find_index, find_index-none,
  find_index-some, get_elem?, get_elem?-lt, get_or, get_or-set_last, if◌then◌else◌, inl, inr,
  length, length-set, not, refl, set, some, str_eq, str_eq_refl, str_eq→eq, total, total-append,
  total-take_last, total-set, true, ℕ, ◌&&◌, ◌+◌, ◌-◌, ◌<◌, ◌∙◌, ◌∷◌, ◌≡◌, ◌≤◌,
}
use teme_pcom.Broker.Topics.Subscriptions.{
  subs_of-subscribe, subs_of-found, subs_of-set, entry_found, subs_of-missing, with_id, subs_of,
  times,
}
use teme_pcom.Broker.Topics.{
  subscribe, find_topic_index, topic_size, TopicEntry, remove_subscriber, swap_remove, unsubscribe,
}
use teme_pcom.Broker.Clients.{max_id_len}

-- The element at the index goes, whatever the order of the others.
total-swap_remove :
    (f : Bytes → ℕ) (subs : List Bytes) (i : ℕ) (s : Bytes)
    → get_elem? subs i ≡ some s
    → total f (swap_remove i subs) + f s ≡ total f subs
unfolding swap_remove
total-swap_remove f subs i s at =
    let n : ℕ = length subs - 1 in
    let last : Bytes = get_or subs n [] in
    let bound = get_elem?-lt subs i s at in
    let len = length-set subs i last in
    let cut = total-take_last f (set subs i last) n [] (omega (arith, len)) in
    let swap = total-set f subs i s last at in
    omega (arith, cut, swap, ap f (get_or-set_last subs i n [] (omega arith)))

abbrev hit : Bytes → Bytes → ℕ
hit id s = if str_eq s id then 1 else 0

times-zero :
    (id : Bytes) (subs : List Bytes) → any (λ s. str_eq s id) subs ≡ false → times id subs ≡ 0
times-zero id [] h = refl
times-zero id (s ∷ subs) h = ground (arith, times-zero id subs)

times-any :
    (id : Bytes) (subs : List Bytes) → any (λ s. str_eq s id) subs ≡ true → 0 < times id subs
times-any id [] h = cc
times-any id (s ∷ subs) h = ground (arith, times-any id subs)

-- One occurrence less of the id, if there was one; all other ids as often as before.
abbrev pub fewer : Bytes → Bytes → ℕ → ℕ
fewer id t n = if str_eq id t then n - 1 else n

times-remove_subscriber :
    (id t : Bytes) (e : TopicEntry)
    → times t (remove_subscriber id e).subscribers ≡ fewer id t (times t e.subscribers)
unfolding remove_subscriber
times-remove_subscriber id t e = elim (Option-cases (find_index (λ s. str_eq s id) e.subscribers)) [
  | inl none_there ↦
      let zero_times =
        times-zero id e.subscribers (find_index-none (λ s. str_eq s id) e.subscribers none_there) in
      rw (none_there, remove_subscriber)
        (elim (Bool-cases (str_eq id t)) [
          | inl same ↦ rw (same, ← str_eq→eq id t same, zero_times) refl
          | inr other ↦ rw other refl
        ])
  | inr (i, there) ↦
      let (s, at, is_id, bound) = find_index-some (λ s. str_eq s id) e.subscribers i there in
      let s≡id = str_eq→eq s id is_id in
      let gone = total-swap_remove (hit t) e.subscribers i s at in
      rw (there, remove_subscriber)
        (elim (Bool-cases (str_eq id t)) [
          | inl same ↦
              let one : hit t s ≡ 1 = rw (s≡id, same) refl in rw same (omega (arith, gone, one))
          | inr other ↦
              let nil : hit t s ≡ 0 = rw (s≡id, other) refl in rw other (omega (arith, gone, nil))
        ])
]

remove_subscriber-topic : (id : Bytes) (e : TopicEntry) → (remove_subscriber id e).topic ≡ e.topic
unfolding remove_subscriber
remove_subscriber-topic id e = elim (Option-cases (find_index (λ s. str_eq s id) e.subscribers)) [
  | inl h ↦ rw (h, remove_subscriber) refl
  | inr (i, h) ↦ rw (h, remove_subscriber) refl
]

-- Unsubscribing takes one occurrence of the id off the topic's list, if the topic is known and
-- lists it, and changes neither other ids nor other topics.
pub times-unsubscribe :
    (topic id t j : Bytes) (topics : List TopicEntry)
    → times j (subs_of t (unsubscribe topic id topics)) ≡ (
        if str_eq topic t
        then fewer id j (times j (subs_of t topics))
        else times j (subs_of t topics))
unfolding unsubscribe
times-unsubscribe topic id t j topics = elim (Option-cases (find_topic_index topic topics)) [
  | inl unknown ↦
      rw (unknown, unsubscribe)
        (elim (Bool-cases (str_eq topic t)) [
          | inl same ↦
              rw (same, ← str_eq→eq topic t same, subs_of-missing topic topics unknown)
                (ground arith)
          | inr other ↦ rw other refl
        ])
  | inr (i, known) ↦
      let (e, at, name) = entry_found topic topics i known in
      let e' : TopicEntry = remove_subscriber id e in
      let eq = subs_of-set topic t topics i e' known (remove_subscriber-topic id e ∙ name) in
      rw (known, unsubscribe, at)
        (ap (times j) eq ∙ elim (Bool-cases (str_eq topic t)) [
          | inl same ↦
              rw (same, ← str_eq→eq topic t same, subs_of-found topic topics i e known at)
                (times-remove_subscriber id j e)
          | inr other ↦ rw other refl
        ])
]

-- A list without duplicates, topic by topic.
abbrev pub NoDuplicates : List TopicEntry → Type 0
NoDuplicates topics = (t j : Bytes) → times j (subs_of t topics) ≤ 1

times-with_id :
    (id j : Bytes) (subs : List Bytes)
    → times j (with_id id subs) ≡ (
        if str_eq id j && not (any (λ s. str_eq s id) subs) then times j subs + 1 else times j subs)
times-with_id id j subs = elim (Bool-cases (any (λ s. str_eq s id) subs)) [
  | inl there ↦ rw there (ground arith)
  | inr new ↦ rw (new, total-append (hit j) subs (id ∷ [])) (ground arith)
]

times-with_id-le :
    (id j : Bytes) (subs : List Bytes) → times j subs ≤ 1 → times j (with_id id subs) ≤ 1
times-with_id-le id j subs h = elim (Bool-cases (any (λ s. str_eq s id) subs)) [
  | inl there ↦ rw there h
  | inr new ↦ elim (Bool-cases (str_eq id j)) [
    | inl same ↦
        let none_yet : times j subs ≡ 0 = rw (← str_eq→eq id j same) (times-zero id subs new) in
        rw (times-with_id id j subs, new, same, none_yet) (omega arith)
    | inr other ↦ rw (times-with_id id j subs, new, other) h
  ]
]

-- A subscription with a topic and an id that fit in their arrays, and that fits in the tables, gives
-- no topic's list an id twice, if none had one twice.
pub subscribe-NoDuplicates :
    (topic id : Bytes) (topics topics' : List TopicEntry)
    → length topic < topic_size
    → length id < max_id_len
    → NoDuplicates topics
    → subscribe topic id topics ≡ some topics'
    → NoDuplicates topics'
subscribe-NoDuplicates topic id topics topics' ht hi nd h t j =
    rw (subs_of-subscribe topic id t topics topics' ht hi h) (elim (Bool-cases (str_eq topic t)) [
      | inl same ↦ rw same (times-with_id-le id j (subs_of topic topics) (nd topic j))
      | inr other ↦ rw other (nd t j)
    ])

pub unsubscribe-NoDuplicates :
    (topic id : Bytes) (topics : List TopicEntry)
    → NoDuplicates topics
    → NoDuplicates (unsubscribe topic id topics)
unsubscribe-NoDuplicates topic id topics nd t j =
    let law = times-unsubscribe topic id t j topics in ground (arith, law, nd t j)

-- Where the lists have no duplicates, unsubscribing takes the id off the topic's list.
pub unsubscribe_unlisted :
    (topic id : Bytes) (topics : List TopicEntry)
    → NoDuplicates topics
    → times id (subs_of topic (unsubscribe topic id topics)) ≡ 0
unsubscribe_unlisted topic id topics nd =
    let law = times-unsubscribe topic id topic id topics in
    law ∙ (rw (str_eq_refl topic, str_eq_refl id) (omega (arith, nd topic id)))

-- Subscribing, where it fits in the arrays, and then unsubscribing lists every id under every topic
-- as often as before, if the id was not on the topic's list.
pub unsubscribe-subscribe :
    (topic id t j : Bytes) (topics topics' : List TopicEntry)
    → length topic < topic_size
    → length id < max_id_len
    → any (λ s. str_eq s id) (subs_of topic topics) ≡ false
    → subscribe topic id topics ≡ some topics'
    → times j (subs_of t (unsubscribe topic id topics')) ≡ times j (subs_of t topics)
unsubscribe-subscribe topic id t j topics topics' ht hi new h =
    times-unsubscribe topic id t j topics' ∙ (elim (Bool-cases (str_eq topic t)) [
      | inl same ↦
          let step = times-with_id id j (subs_of topic topics) in
          let listed : subs_of t topics' ≡ with_id id (subs_of topic topics) =
            rw (subs_of-subscribe topic id t topics topics' ht hi h, same) refl in
          let there : subs_of topic topics ≡ subs_of t topics =
            ap (λ x. subs_of x topics) (str_eq→eq topic t same) in
          rw (same, listed, step, new, ← there) (ground arith)
      | inr other ↦
          let listed : subs_of t topics' ≡ subs_of t topics =
            rw (subs_of-subscribe topic id t topics topics' ht hi h, other) refl in
          rw (other, listed) refl
    ])
