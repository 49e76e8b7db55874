-- ===== src/Broker/Server.antt =====
-- Tema_2/server.c: run_chat_multi_server, one socket at a time. What the system calls return comes
-- in a World; `fault` is an access outside `clients`, `topic_map` or `poll_fds`, `died` is a DIE.
pub mod Tables
pub mod Requests
pub mod Connects
pub mod Rounds
pub mod Start
pub mod Faults
pub mod Sockets
use teme_pcom.Prelude.{
  Bool, Bytes, List, Option, [], codes, get_elem?, if◌then◌else◌, length, ltb, map, none, some,
  str_eq, suc, zero, ℕ, ◌++◌, ◌+◌, ◌==◌, ◌∷◌,
}
use teme_pcom.Broker.Clients.{
  Client, find_client_by_fd, disconnect_at, add_or_reconnect_client, added, already_connected,
  past_the_table,
}
use teme_pcom.Broker.Topics.{TopicEntry, subscribe, unsubscribe}
use teme_pcom.Broker.Publish.{publish}

abbrev pub max_connections : ℕ
max_connections = 32

abbrev pub stdin_fileno : ℕ
stdin_fileno = 0

-- A slot of poll_fds: the socket, and whether POLLIN is set in `revents`.
pub record PollFd : Type 0 where
  pub fd : ℕ
  pub ready : Bool

-- struct udp_payload, with the topic as the string that stands in its array.
pub record UdpPayload : Type 0 where
  pub topic : Bytes
  pub data_type : ℕ
  pub payload : Bytes

-- struct tcp_send_payload
pub record SendPayload : Type 0 where
  pub sender_ip : Bytes
  pub sender_port : ℕ
  pub topic : Bytes
  pub data_type : ℕ
  pub payload : Bytes

-- The packets that the server sends: a publication, or the error packet (data_type 5).
pub data Sent : Type 0 where
  publication : ℕ → SendPayload → Sent
  same_id_error : ℕ → Sent

-- struct tcp_recv_payload, as strings.
pub record RecvPayload : Type 0 where
  pub command : Bytes
  pub topic : Bytes

pub data Received : Type 0 where
  failed : Received
  closed : Received
  packet : RecvPayload → Received

-- What the calls of this round of the loop return.
pub record World : Type 0 where
  -- accept, and what `revents` of the slot behind the others happens to hold
  pub accepted : Option ℕ
  pub stale : Bool
  -- recvfrom, with the sender's address and port (none: an error)
  pub datagram : Option UdpPayload
  pub from_ip : Bytes
  pub from_port : ℕ
  -- read from the terminal (none: an error), up to the newline
  pub line : Option Bytes
  -- recv_all of a whole packet
  pub received : Received

pub record Server : Type 0 where
  pub tcpfd : ℕ
  pub udpfd : ℕ
  pub poll_fds : List PollFd
  pub clients : List Client
  pub topics : List TopicEntry
  pub sent : List Sent

pub data Outcome : Type 0 where
  running : Server → Outcome
  stopped : Server → Outcome
  died : Outcome
  fault : Outcome

-- for (j = i; j < num_sockets - 1; j++) poll_fds[j] = poll_fds[j + 1]; num_sockets--;
unfoldable pub remove_at {ℓ} : {A : Type ℓ} → ℕ → List A → List A
remove_at i [] = []
remove_at zero (x ∷ xs) = xs
remove_at (suc i) (x ∷ xs) = x ∷ remove_at i xs

-- A new connection: the slot's `revents` is not written.
unfoldable pub on_accept : World → Server → Outcome
on_accept w s = elim w.accepted [
  | none ↦ died
  | some newsockfd ↦
      if ltb (length s.poll_fds) max_connections
      then running
          (record s { poll_fds = s.poll_fds ++ (record { fd = newsockfd; ready = w.stale }) ∷ [] })
      else fault
]

abbrev pub to_packet : World → UdpPayload → SendPayload
to_packet w u = record {
  sender_ip = w.from_ip;
  sender_port = w.from_port;
  topic = u.topic;
  data_type = u.data_type;
  payload = u.payload;
}

-- A datagram is published; an error of recvfrom ends the process (behind a publication on "").
unfoldable pub on_datagram : World → Server → Outcome
on_datagram w s = elim w.datagram [
  | none ↦ died
  | some u ↦
      let o = publish u.topic s.topics s.clients in
      running (record s {
        clients = o.clients;
        sent = s.sent ++ map (λ fd. publication fd (to_packet w u)) o.sent;
      })
]

-- `exit` closes the clients' sockets and leaves the loop.
unfoldable pub on_terminal : World → Server → Outcome
on_terminal w s = elim w.line [
  | none ↦ died
  | some buf ↦
      if str_eq buf []
      then running s
      else if str_eq buf (codes "exit")
      then stopped s
      else running s
]

-- recv_all returned 0. For a socket of no client the index is -1.
unfoldable pub on_closed : ℕ → ℕ → Server → Outcome
on_closed i fd s = elim (find_client_by_fd fd s.clients) [
  | none ↦ fault
  | some client_index ↦ running (record s {
    poll_fds = remove_at i s.poll_fds;
    clients = disconnect_at client_index s.clients;
  })
]

-- clients[client_index].id, for the index that the search by socket gave
unfoldable pub id_by_fd : ℕ → List Client → Option Bytes
id_by_fd fd clients = elim (find_client_by_fd fd clients) [
  | none ↦ none
  | some client_index ↦ elim (get_elem? clients client_index) [ none ↦ none | some c ↦ some c.id ]
]

unfoldable pub on_subscribe : Bytes → ℕ → Server → Outcome
on_subscribe topic fd s = elim (id_by_fd fd s.clients) [
  | none ↦ fault
  | some id ↦ elim (subscribe topic id s.topics) [
    | none ↦ fault
    | some topics ↦ running (record s { topics = topics })
  ]
]

unfoldable pub on_unsubscribe : Bytes → ℕ → Server → Outcome
on_unsubscribe topic fd s = elim (id_by_fd fd s.clients) [
  | none ↦ fault
  | some id ↦ running (record s { topics = unsubscribe topic id s.topics })
]

-- The second connection of an id that is connected gets the error packet and is closed.
unfoldable pub on_connect : Bytes → ℕ → ℕ → Server → Outcome
on_connect client_id i fd s = elim (add_or_reconnect_client client_id fd s.clients) [
  | added clients index ↦ running (record s { clients = clients })
  | already_connected clients ↦ running (record s {
    poll_fds = remove_at i s.poll_fds;
    clients = clients;
    sent = s.sent ++ same_id_error fd ∷ [];
  })
  | past_the_table ↦ fault
]

unfoldable pub on_packet : RecvPayload → ℕ → ℕ → Server → Outcome
on_packet p i fd s =
    if str_eq p.command (codes "subscribe")
    then on_subscribe p.topic fd s
    else if str_eq p.command (codes "unsubscribe")
    then on_unsubscribe p.topic fd s
    else if str_eq p.command (codes "connect")
    then on_connect p.topic i fd s
    else running s

unfoldable pub on_client : World → ℕ → ℕ → Server → Outcome
on_client w i fd s = elim w.received [
  | failed ↦ died
  | closed ↦ on_closed i fd s
  | packet p ↦ on_packet p i fd s
]

-- The chain of tests on the slot's socket.
unfoldable pub on_ready : World → ℕ → ℕ → Server → Outcome
on_ready w i fd s =
    if fd == s.tcpfd
    then on_accept w s
    else if fd == s.udpfd
    then on_datagram w s
    else if fd == stdin_fileno
    then on_terminal w s
    else on_client w i fd s

-- The body of the `for` loop at index i; past the last slot nothing is done.
unfoldable pub poll_slot : World → ℕ → Server → Outcome
poll_slot w i s = elim (get_elem? s.poll_fds i) [
  | none ↦ running s
  | some p ↦ if p.ready then on_ready w i p.fd s else running s
]

-- The rounds of the `for` loop from index i on, with a World for each.
unfoldable pub poll_round : List World → ℕ → Server → Outcome
poll_round [] i s = running s
poll_round (w ∷ ws) i s = elim (poll_slot w i s) [
  | running s' ↦ poll_round ws (i + 1) s'
  | stopped s' ↦ stopped s'
  | died ↦ died
  | fault ↦ fault
]
