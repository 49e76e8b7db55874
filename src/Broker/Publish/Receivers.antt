-- ===== src/Broker/Publish/Receivers.antt =====
-- Who receives a published message.
use teme_pcom.Prelude.{
  Bool, Bool-cases, Bytes, List, Option-cases, [], any, any-append, ap, arith, count, false,
  get_elem?, if◌then◌else◌, inl, inr, refl, some, str_eq, suc, total, total_differ, total_same,
  total_zero, true, zero, ℕ, ◌&&◌, ◌∙◌, ◌∷◌, ◌≡◌, ◌≢◌,
}
use teme_pcom.Broker.Publish.{publish, reset_sent, Outbox}
use teme_pcom.Broker.Topics.{TopicEntry}
use teme_pcom.Broker.Publish.Once.{
  deliver_all-left_over, publish_from-matching_ids, matching_ids, weight,
}
use teme_pcom.Broker.Clients.{has_fd, Client}
use teme_pcom.Broker.Clients.Registry.{IsUnused, WellFormed}
use teme_pcom.Broker.Wildcard.{check_topic_regexp}

-- Some topic of the table matches, and lists the id.
abbrev pub wants : Bytes → List TopicEntry → Bytes → Bool
wants topic topics id =
    any (λ e. check_topic_regexp topic e.topic && any (λ s. str_eq id s) e.subscribers) topics

any-matching_ids :
    (topic : Bytes) (topics : List TopicEntry) (id : Bytes)
    → any (λ s. str_eq id s) (matching_ids topic topics) ≡ wants topic topics id
any-matching_ids topic [] id = refl
any-matching_ids topic (e ∷ topics) id = elim (Bool-cases (check_topic_regexp topic e.topic)) [
  | inl t ↦
      rw
        (
          t,
          any-append (λ s. str_eq id s) e.subscribers (matching_ids topic topics),
          any-matching_ids topic topics id,
        )
        refl
  | inr f ↦ rw f (any-matching_ids topic topics id)
]

pub reset_at :
    (clients : List Client) (i : ℕ) (d : Client)
    → get_elem? (reset_sent clients) i ≡ some d
    → (c : Client) × (get_elem? clients i ≡ some c) × (d ≡ record c { sent_message = false })
reset_at [] i d h = absurd (cc)
reset_at (c ∷ clients) zero d h = (c, refl, ground arith)
reset_at (c ∷ clients) (suc i) d h = reset_at clients i d h

at_reset :
    (clients : List Client) (i : ℕ) (c : Client)
    → get_elem? clients i ≡ some c
    → get_elem? (reset_sent clients) i ≡ some (record c { sent_message = false })
at_reset [] i c h = absurd (cc)
at_reset (d ∷ clients) zero c h = ground arith
at_reset (d ∷ clients) (suc i) c h = at_reset clients i c h

count-publish :
    (topic : Bytes) (topics : List TopicEntry) (clients : List Client) (fd : ℕ)
    → WellFormed clients
    → count fd (publish topic topics clients).sent
      ≡ total (weight fd (matching_ids topic topics)) (reset_sent clients)
unfolding publish
count-publish topic topics clients fd w =
    let start : Outbox = record { clients = reset_sent clients; sent = [] } in
    ap (λ o. count fd o.sent) (publish_from-matching_ids topic topics start)
    ∙ deliver_all-left_over fd (matching_ids topic topics) start (λ i j c d hc hd same.
      let (c', ac, ec) = reset_at clients i c hc in
      let (d', ad, ed) = reset_at clients j d hd in w.ids_differ i j c' d' ac ad (cc))
    ∙ omega arith

weight-off_socket :
    (fd : ℕ) (ids : List Bytes) (c : Client) → c.sockfd ≢ some fd → weight fd ids c ≡ 0
unfolding weight has_fd
weight-off_socket fd ids c h = elim (Option-cases c.sockfd) [
  | inl e ↦ rw e (ground arith)
  | inr (s, e) ↦ rw e (let ne : s ≢ fd = λ q. h (e ∙ ap some q) in ground arith)
]

weight-on_socket :
    (fd : ℕ) (topic : Bytes) (topics : List TopicEntry) (c : Client)
    → c.connected ≡ true
    → c.sent_message ≡ false
    → c.sockfd ≡ some fd
    → weight fd (matching_ids topic topics) c ≡ (if wants topic topics c.id then 1 else 0)
unfolding weight has_fd
weight-on_socket fd topic topics c conn new sock =
    rw (conn, new, sock, any-matching_ids topic topics c.id) (ground arith)

-- In a well-formed table the socket of a connected client gets the message once if some topic that
-- matches lists the client's id, and else not at all.
pub publish_once :
    (topic : Bytes) (topics : List TopicEntry) (clients : List Client) (i fd : ℕ) (c : Client)
    → WellFormed clients
    → get_elem? clients i ≡ some c
    → c.connected ≡ true
    → c.sockfd ≡ some fd
    → count fd (publish topic topics clients).sent ≡ (if wants topic topics c.id then 1 else 0)
publish_once topic topics clients i fd c w at conn sock =
    let ids = matching_ids topic topics in
    let c' : Client = record c { sent_message = false } in
    let alone =
      total_differ (weight fd ids) (λ _. 0) (reset_sent clients) i c' (at_reset clients i c at)
        (λ j d hd ne.
          let (d', ad, ed) = reset_at clients j d hd in
          weight-off_socket fd ids d (λ s. ne (w.fds_differ j i d' c fd ad at (cc) sock))) in
    omega (
      arith,
      count-publish topic topics clients fd w,
      alone,
      total_zero (reset_sent clients),
      weight-on_socket fd topic topics c' conn refl sock,
    )

-- A socket that no client of a well-formed table holds gets nothing.
publish_nobody_else :
    (topic : Bytes) (topics : List TopicEntry) (clients : List Client) (fd : ℕ)
    → WellFormed clients
    → IsUnused fd clients
    → count fd (publish topic topics clients).sent ≡ 0
publish_nobody_else topic topics clients fd w unused =
    let ids = matching_ids topic topics in
    count-publish topic topics clients fd w
    ∙ total_same (weight fd ids) (λ _. 0) (reset_sent clients)
        (λ j d hd.
          let (d', ad, ed) = reset_at clients j d hd in
          weight-off_socket fd ids d (λ s. unused j d' ad (cc)))
    ∙ total_zero (reset_sent clients)
