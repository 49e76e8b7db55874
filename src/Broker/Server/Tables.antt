-- ===== src/Broker/Server/Tables.antt =====
-- How the server's table of clients, lists of topics and polled sockets fit together, and the
-- branches of the loop that are not a client's.
use teme_pcom.Prelude.{
  Bool-cases, List, Option-cases, [], ap, arith, codes, count, find_index-none-at, get_elem?, inl,
  inr, length, map, none, some, sym, ℕ, ◌++◌, ◌<◌, ◌==◌, ◌∙◌, ◌∷◌, ◌≡◌, ◌≢◌, ◌≤◌,
}
use teme_pcom.Broker.Server.{
  to_packet, packet, publication, RecvPayload, running, on_accept, on_datagram, World, on_terminal,
  PollFd, Server,
}
use teme_pcom.Broker.Clients.{has_fd, max_id_len, Client, find_client_by_fd}
use teme_pcom.Broker.Clients.Registry.{eq→has_fd, IsUnused, WellFormed}
use teme_pcom.Broker.Server.Sockets.{count-snoc_slot, slot_fds}
use teme_pcom.Broker.Publish.{publish}
use teme_pcom.Broker.Topics.Removal.{NoDuplicates}
use teme_pcom.Broker.Topics.{topic_size}
use teme_pcom.Broker.Publish.Frame.{SameTable-WellFormed, publish-SameTable}

pub record Inv (s : Server) : Type 0 where
  -- ids and open sockets are distinct
  pub table : WellFormed s.clients
  -- an id that is stored ends before its array does
  pub short_ids : (j : ℕ) (c : Client) → get_elem? s.clients j ≡ some c → length c.id < max_id_len
  -- no socket is polled in two slots
  pub distinct : (a : ℕ) → count a (slot_fds s.poll_fds) ≤ 1
  -- the socket of a client is polled
  pub polled :
      (j : ℕ) (c : Client) (fd : ℕ)
      → get_elem? s.clients j ≡ some c
      → c.sockfd ≡ some fd
      → count fd (slot_fds s.poll_fds) ≡ 1
  -- no topic lists an id twice
  pub lists : NoDuplicates s.topics

-- What the kernel and a subscriber do: accept returns a socket that is not polled, topics end in
-- their array, and a connection sends `connect` once, with an id of at most ten bytes.
pub record WellBehaved (w : World) (i : ℕ) (s : Server) : Type 0 where
  pub new_socket : (fd : ℕ) → w.accepted ≡ some fd → count fd (slot_fds s.poll_fds) ≡ 0
  pub short_topic : (p : RecvPayload) → w.received ≡ packet p → length p.topic < topic_size
  pub first_connect :
      (p : RecvPayload) (q : PollFd)
      → w.received ≡ packet p
      → p.command ≡ codes "connect"
      → get_elem? s.poll_fds i ≡ some q
      → (length p.topic < max_id_len) × (find_client_by_fd q.fd s.clients ≡ none)

pub IsUnused-fd :
    (fd : ℕ) (clients : List Client) → find_client_by_fd fd clients ≡ none → IsUnused fd clients
unfolding find_client_by_fd
IsUnused-fd fd clients h i c at e =
    ground (
      arith,
      find_index-none-at (λ d. has_fd fd d.sockfd) clients i c h at,
      eq→has_fd fd c.sockfd e,
    )

pub on_accept-Inv :
    (w : World) (i : ℕ) (s s' : Server)
    → Inv s
    → WellBehaved w i s
    → on_accept w s ≡ running s'
    → Inv s'
unfolding on_accept
on_accept-Inv w i s s' v b h = elim (Option-cases w.accepted) [
  | inl e ↦ absurd (ground arith)
  | inr (fd, e) ↦
      let slot : PollFd = record { fd = fd; ready = w.stale } in
      let eq : s' ≡ record s { poll_fds = s.poll_fds ++ slot ∷ [] } = ground arith in
      let grown = λ (a : ℕ). count-snoc_slot a s.poll_fds slot in
      let new = b.new_socket fd e in
      rw eq (record {
        table = v.table;
        short_ids = v.short_ids;
        distinct = λ a. elim (Bool-cases (a == fd)) [
          | inl t ↦
              let a≡fd : a ≡ fd = ground arith in
              let zero_a : count a (slot_fds s.poll_fds) ≡ 0 = rw a≡fd new in
              ground (arith, grown a)
          | inr f ↦ ground (arith, grown a, v.distinct a)
        ];
        polled = λ j c fd' at sock.
            let one = v.polled j c fd' at sock in
            let other : fd' ≢ fd =
              λ q. absurd (omega (arith, one, new, ap (λ x. count x (slot_fds s.poll_fds)) q)) in
            ground (arith, grown fd', one);
        lists = v.lists;
      })
]

pub on_datagram-Inv : (w : World) (s s' : Server) → Inv s → on_datagram w s ≡ running s' → Inv s'
unfolding on_datagram
on_datagram-Inv w s s' v h = elim (Option-cases w.datagram) [
  | inl e ↦ absurd (ground arith)
  | inr (u, e) ↦
      let o = publish u.topic s.topics s.clients in
      let eq : s' ≡ record s {
        clients = o.clients;
        sent = s.sent ++ map (λ fd. publication fd (to_packet w u)) o.sent;
      } =
        ground arith in
      let same = publish-SameTable u.topic s.topics s.clients in
      rw eq (record {
        table = SameTable-WellFormed s.clients o.clients same v.table;
        short_ids = λ j d at. let (c, ac, c1, c2, c3) = same j d at in rw c1 (v.short_ids j c ac);
        distinct = v.distinct;
        polled = λ j d fd at sock.
            let (c, ac, c1, c2, c3) = same j d at in v.polled j c fd ac (sym c2 ∙ sock);
        lists = v.lists;
      })
]

pub on_terminal-Inv : (w : World) (s s' : Server) → Inv s → on_terminal w s ≡ running s' → Inv s'
unfolding on_terminal
on_terminal-Inv w s s' v h = elim (Option-cases w.line) [
  | inl e ↦ absurd (ground arith)
  | inr (buf, e) ↦ let eq : s' ≡ s = ground arith in rw eq v
]
