-- ===== src/Broker/Publish.antt =====
-- Tema_2/utils.c, publish: a message goes to the connected subscribers of matching topics.
pub mod Once
pub mod Receivers
pub mod Frame
use teme_pcom.Prelude.{
  Bytes, List, Option, [], false, get_elem?, if◌then◌else◌, none, not, set, some, true, ℕ, ◌++◌,
  ◌+◌, ◌∷◌,
}
use teme_pcom.Broker.Wildcard.{check_topic_regexp}
use teme_pcom.Broker.Clients.{Client, find_client_by_id}
use teme_pcom.Broker.Topics.{TopicEntry}

-- The table, and the sockets that send_all was called with, in the order of the calls.
pub record Outbox : Type 0 where
  pub clients : List Client
  pub sent : List ℕ

-- send_all, whose result is not looked at. (Socket -1 is not sent to.)
unfoldable pub send_to : Option ℕ → List ℕ → List ℕ
send_to none sent = sent
send_to (some fd) sent = sent ++ fd ∷ []

abbrev pub reset_sent : List Client → List Client
reset_sent [] = []
reset_sent (c ∷ clients) = record c { sent_message = false } ∷ reset_sent clients

-- The body of the inner loop, at the client that was found.
unfoldable pub deliver_at : ℕ → Outbox → Client → Outbox
deliver_at i o c = if not c.connected then o else if c.sent_message then o else record {
  clients = set o.clients i (record c { sent_message = true });
  sent = send_to c.sockfd o.sent;
}

-- The body of the inner loop.
unfoldable pub deliver : Bytes → Outbox → Outbox
deliver client_id o = elim (find_client_by_id client_id o.clients) [
  | none ↦ o
  | some i ↦ elim (get_elem? o.clients i) [ none ↦ o | some c ↦ deliver_at i o c ]
]

unfoldable pub deliver_all : List Bytes → Outbox → Outbox
deliver_all [] o = o
deliver_all (client_id ∷ ids) o = deliver_all ids (deliver client_id o)

unfoldable pub publish_from : Bytes → List TopicEntry → Outbox → Outbox
publish_from topic [] o = o
publish_from topic (e ∷ topics) o =
    publish_from topic topics
      (if check_topic_regexp topic e.topic then deliver_all e.subscribers o else o)

unfoldable pub publish : Bytes → List TopicEntry → List Client → Outbox
publish topic topics clients =
    publish_from topic topics (record { clients = reset_sent clients; sent = [] })
