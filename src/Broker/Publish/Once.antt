-- ===== src/Broker/Publish/Once.antt =====
-- How often each socket gets a published message.
use teme_pcom.Prelude.{
  find_index-none-at, total_zero, none, set, total_same, get_elem?-set-cases, Bool-cases, Bytes,
  List, Option-cases, [], any, arith, count, count-append, false, get_elem?, if◌then◌else◌, inl,
  inr, not, refl, some, str_eq, str_eq_refl, str_eq→eq, sym, total, total_differ, total-set, true,
  ℕ, ◌&&◌, ◌++◌, ◌+◌, ◌∙◌, ◌∷◌, ◌≡◌, ◌⊎◌,
}
use teme_pcom.Broker.Publish.{Outbox, deliver, deliver_all, deliver_at, publish_from, send_to}
use teme_pcom.Broker.Topics.{TopicEntry}
use teme_pcom.Broker.Wildcard.{check_topic_regexp}
use teme_pcom.Broker.Clients.{find_client_by_id, has_fd, Client}
use teme_pcom.Broker.Clients.Registry.{client_found}

-- The ids that the two loops of publish go through.
abbrev pub matching_ids : Bytes → List TopicEntry → List Bytes
matching_ids topic [] = []
matching_ids topic (e ∷ topics) =
    if check_topic_regexp topic e.topic
    then e.subscribers ++ matching_ids topic topics
    else matching_ids topic topics

deliver_all-append :
    (ids ids' : List Bytes) (o : Outbox)
    → deliver_all (ids ++ ids') o ≡ deliver_all ids' (deliver_all ids o)
unfolding deliver_all
deliver_all-append [] ids' o = refl
deliver_all-append (id ∷ ids) ids' o = deliver_all-append ids ids' (deliver id o)

pub publish_from-matching_ids :
    (topic : Bytes) (topics : List TopicEntry) (o : Outbox)
    → publish_from topic topics o ≡ deliver_all (matching_ids topic topics) o
unfolding publish_from deliver_all
publish_from-matching_ids topic [] o = refl
publish_from-matching_ids topic (e ∷ topics) o =
    elim (Bool-cases (check_topic_regexp topic e.topic)) [
      | inl t ↦ rw t (
          publish_from-matching_ids topic topics (deliver_all e.subscribers o)
          ∙ sym (deliver_all-append e.subscribers (matching_ids topic topics) o))
      | inr f ↦ rw f (publish_from-matching_ids topic topics o)
    ]

-- One for a client on the socket that is connected, is not served yet, and has one of the ids.
unfoldable pub weight : ℕ → List Bytes → Client → ℕ
weight fd ids c =
    if c.connected && (not c.sent_message && (has_fd fd c.sockfd && any (λ id. str_eq c.id id) ids))
    then 1
    else 0

-- The ids of a table are distinct.
abbrev pub IdsDiffer : List Client → Type 0
IdsDiffer clients =
    (i j : ℕ) (c d : Client)
    → get_elem? clients i ≡ some c
    → get_elem? clients j ≡ some d
    → c.id ≡ d.id
    → i ≡ j

pub weight-other :
    (fd : ℕ) (ids : List Bytes) (id : Bytes) (c : Client)
    → str_eq c.id id ≡ false
    → weight fd (id ∷ ids) c ≡ weight fd ids c
unfolding weight
weight-other fd ids id c h = ground arith

pub weight-closed :
    (fd : ℕ) (ids : List Bytes) (c : Client)
    → ((c.connected ≡ false) ⊎ (c.sent_message ≡ true))
    → weight fd ids c ≡ 0
unfolding weight
weight-closed fd ids c h = ground arith

count-send_to :
    (fd : ℕ) (ids : List Bytes) (id : Bytes) (c : Client) (sent : List ℕ)
    → c.connected ≡ true
    → c.sent_message ≡ false
    → str_eq c.id id ≡ true
    → count fd (send_to c.sockfd sent) ≡ count fd sent + weight fd (id ∷ ids) c
unfolding weight send_to has_fd
count-send_to fd ids id c sent conn new same = elim (Option-cases c.sockfd) [
  | inl e ↦ rw e (ground arith)
  | inr (s, e) ↦ rw (e, count-append fd sent (s ∷ [])) (ground arith)
]

abbrev pub left_over : ℕ → List Bytes → Outbox → ℕ
left_over fd ids o = count fd o.sent + total (weight fd ids) o.clients

-- What the body of the inner loop does with a client that is off or served, and with another.
pub deliver_at-closed :
    (i : ℕ) (o : Outbox) (c : Client)
    → ((c.connected ≡ false) ⊎ (c.sent_message ≡ true))
    → deliver_at i o c ≡ o
unfolding deliver_at
deliver_at-closed i o c h = ground arith

pub deliver_at-open :
    (i : ℕ) (o : Outbox) (c : Client)
    → c.connected ≡ true
    → c.sent_message ≡ false
    → deliver_at i o c ≡ record {
      clients = set o.clients i (record c { sent_message = true });
      sent = send_to c.sockfd o.sent;
    }
unfolding deliver_at
deliver_at-open i o c conn new = ground arith

-- Either way one of the two applies.
pub open_or_closed :
    (c : Client)
    → ((c.connected ≡ false) ⊎ (c.sent_message ≡ true))
      ⊎ ((c.connected ≡ true) × (c.sent_message ≡ false))
open_or_closed c = ground arith

module _ (fd : ℕ) (ids : List Bytes) (id : Bytes) (o : Outbox) (i : ℕ) (c : Client)
    (distinct : IdsDiffer o.clients) (at : get_elem? o.clients i ≡ some c) (same : c.id ≡ id) where
  -- The id is that of the client at index i alone.
  one_client :
      total (weight fd (id ∷ ids)) o.clients + weight fd ids c
      ≡ total (weight fd ids) o.clients + weight fd (id ∷ ids) c
  one_client = total_differ (weight fd (id ∷ ids)) (weight fd ids) o.clients i c at λ j d e ne.
      weight-other fd ids id d (elim (Bool-cases (str_eq d.id id)) [
        | inl t ↦ absurd (ne (distinct j i d c e at (str_eq→eq d.id id t ∙ sym same)))
        | inr f ↦ f
      ])

  deliver_at-left_over : left_over fd ids (deliver_at i o c) ≡ left_over fd (id ∷ ids) o
  deliver_at-left_over = elim (open_or_closed c) [
    | inl closed ↦ rw (deliver_at-closed i o c closed) (
        omega
          (arith, one_client, weight-closed fd ids c closed, weight-closed fd (id ∷ ids) c closed))
    | inr (conn, new) ↦
        let c' : Client = record c { sent_message = true } in
        rw (deliver_at-open i o c conn new) (
          omega (
            arith,
            one_client,
            total-set (weight fd ids) o.clients i c c' at,
            weight-closed fd ids c' (inr refl),
            count-send_to fd ids id c o.sent conn new (rw same (str_eq_refl id)),
          ))
  ]

deliver_at-IdsDiffer :
    (i : ℕ) (o : Outbox) (c : Client)
    → get_elem? o.clients i ≡ some c
    → IdsDiffer o.clients
    → IdsDiffer (deliver_at i o c).clients
deliver_at-IdsDiffer i o c at distinct = elim (open_or_closed c) [
  | inl closed ↦ rw (deliver_at-closed i o c closed) distinct
  | inr (conn, new) ↦ rw (deliver_at-open i o c conn new) (λ j k d e hd he same.
      elim (get_elem?-set-cases o.clients i j _ d hd) [
        | inl (ej, ed) ↦ elim (get_elem?-set-cases o.clients i k _ e he) [
          | inl (ek, ee) ↦ omega arith
          | inr (nk, ge) ↦ ej ∙ distinct i k c e at ge (cc)
        ]
        | inr (nj, gd) ↦ elim (get_elem?-set-cases o.clients i k _ e he) [
          | inl (ek, ee) ↦ distinct j i d c gd at (cc) ∙ sym ek
          | inr (nk, ge) ↦ distinct j k d e gd ge same
        ]
      ])
]

-- An id that no client has changes nothing.
no_client :
    (fd : ℕ) (ids : List Bytes) (id : Bytes) (clients : List Client)
    → find_client_by_id id clients ≡ none
    → total (weight fd (id ∷ ids)) clients ≡ total (weight fd ids) clients
unfolding find_client_by_id
no_client fd ids id clients h =
    total_same (weight fd (id ∷ ids)) (weight fd ids) clients
      λ i c at. weight-other fd ids id c (find_index-none-at (λ d. str_eq d.id id) clients i c h at)

deliver-left_over :
    (fd : ℕ) (ids : List Bytes) (id : Bytes) (o : Outbox)
    → IdsDiffer o.clients
    → (left_over fd ids (deliver id o) ≡ left_over fd (id ∷ ids) o)
      × IdsDiffer (deliver id o).clients
unfolding deliver
deliver-left_over fd ids id o distinct = elim (Option-cases (find_client_by_id id o.clients)) [
  | inl none_there ↦
      rw (none_there, deliver) (omega (arith, no_client fd ids id o.clients none_there), distinct)
  | inr (i, there) ↦
      let (c, at, same) = client_found id o.clients i there in
      rw (there, deliver, at)
        (
          deliver_at-left_over fd ids id o i c distinct at same,
          deliver_at-IdsDiffer i o c at distinct,
        )
]

weight-nil : (fd : ℕ) (c : Client) → weight fd [] c ≡ 0
unfolding weight
weight-nil fd c = ground arith

pub deliver_all-left_over :
    (fd : ℕ) (ids : List Bytes) (o : Outbox)
    → IdsDiffer o.clients
    → count fd (deliver_all ids o).sent ≡ left_over fd ids o
unfolding deliver_all
deliver_all-left_over fd [] o distinct = omega (
  arith,
  total_same (weight fd []) (λ _. 0) o.clients (λ i c at. weight-nil fd c),
  total_zero o.clients,
)
deliver_all-left_over fd (id ∷ ids) o distinct =
    let (same, distinct') = deliver-left_over fd ids id o distinct in
    deliver_all-left_over fd ids (deliver id o) distinct' ∙ same
