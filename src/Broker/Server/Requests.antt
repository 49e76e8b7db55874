-- ===== src/Broker/Server/Requests.antt =====
-- The server's tables over the requests of clients.
use teme_pcom.Prelude.{
  Bytes, List, Option-cases, ap, arith, count, false, find_index-some, get_elem?,
  get_elem?-set-cases, inl, inr, length, none, refl, set, some, sym, ℕ, ◌<◌, ◌∙◌, ◌≡◌, ◌≢◌, ◌≤◌,
  ◌⊎◌,
}
use teme_pcom.Broker.Server.{
  remove_at, running, on_unsubscribe, on_subscribe, id_by_fd, on_closed, PollFd, Server,
}
use teme_pcom.Broker.Clients.{has_fd, max_id_len, Client, find_client_by_fd, disconnect_at}
use teme_pcom.Broker.Server.Tables.{Inv}
use teme_pcom.Broker.Server.Sockets.{count-remove_at, slot_fds}
use teme_pcom.Broker.Topics.{subscribe, unsubscribe, topic_size}
use teme_pcom.Broker.Clients.Registry.{has_fd→eq}
use teme_pcom.Broker.Topics.Removal.{subscribe-NoDuplicates, unsubscribe-NoDuplicates}
use teme_pcom.Broker.Clients.Sessions.{disconnect_at-WellFormed}

-- A slot goes whose socket no client has: the others stay polled.
pub removed-polled :
    (s : Server) (i : ℕ) (q : PollFd) (fd' : ℕ)
    → Inv s
    → get_elem? s.poll_fds i ≡ some q
    → fd' ≢ q.fd
    → count fd' (slot_fds s.poll_fds) ≡ 1
    → count fd' (slot_fds (remove_at i s.poll_fds)) ≡ 1
removed-polled s i q fd' v at ne one =
    let cut = count-remove_at fd' i s.poll_fds q at in ground arith

pub removed-distinct :
    (s : Server) (i : ℕ) (q : PollFd) (a : ℕ)
    → Inv s
    → get_elem? s.poll_fds i ≡ some q
    → count a (slot_fds (remove_at i s.poll_fds)) ≤ 1
removed-distinct s i q a v at = omega (arith, count-remove_at a i s.poll_fds q at, v.distinct a)

-- The client that a search by socket finds holds that socket.
pub fd_found :
    (fd : ℕ) (clients : List Client) (i : ℕ)
    → find_client_by_fd fd clients ≡ some i
    → (c : Client) × (get_elem? clients i ≡ some c) × (c.sockfd ≡ some fd)
unfolding find_client_by_fd
fd_found fd clients i h =
    let (c, at, passes, bound) = find_index-some (λ c. has_fd fd c.sockfd) clients i h in
    (c, at, has_fd→eq fd c.sockfd passes)

disconnect_at-cases :
    (clients : List Client) (i : ℕ) (c : Client) (j : ℕ) (d : Client)
    → get_elem? clients i ≡ some c
    → get_elem? (disconnect_at i clients) j ≡ some d
    → ((d.id ≡ c.id) × (d.sockfd ≡ none)) ⊎ ((j ≢ i) × (get_elem? clients j ≡ some d))
unfolding disconnect_at
disconnect_at-cases clients i c j d at h =
    let gone : Client = record c { sockfd = none; connected = false } in
    let eq : disconnect_at i clients ≡ set clients i gone = rw (at, disconnect_at) refl in
    elim (get_elem?-set-cases clients i j gone d (ap (λ l. get_elem? l j) (sym eq) ∙ h)) [
      | inl (ej, ed) ↦ inl (ap (λ x. x.id) ed, ap (λ x. x.sockfd) ed)
      | inr r ↦ inr r
    ]

pub on_closed-Inv :
    (i fd : ℕ) (s s' : Server) (q : PollFd)
    → Inv s
    → get_elem? s.poll_fds i ≡ some q
    → q.fd ≡ fd
    → on_closed i fd s ≡ running s'
    → Inv s'
unfolding on_closed
on_closed-Inv i fd s s' q v slot here h = elim (Option-cases (find_client_by_fd fd s.clients)) [
  | inl e ↦ absurd (ground arith)
  | inr (k, e) ↦
      let (c, at, sock) = fd_found fd s.clients k e in
      let eq : s'
          ≡ record s { poll_fds = remove_at i s.poll_fds; clients = disconnect_at k s.clients } =
        ground arith in
      rw eq (record {
        table = disconnect_at-WellFormed k s.clients v.table;
        short_ids = λ j d hd. elim (disconnect_at-cases s.clients k c j d at hd) [
          | inl (same, off) ↦ rw same (v.short_ids k c at)
          | inr (ne, hd') ↦ v.short_ids j d hd'
        ];
        distinct = λ a. removed-distinct s i q a v slot;
        polled = λ j d fd' hd sd. elim (disconnect_at-cases s.clients k c j d at hd) [
          | inl (same, off) ↦ absurd (cc)
          | inr (ne, hd') ↦
              removed-polled s i q fd' v slot
                (λ g. ne (v.table.fds_differ j k d c fd hd' at (sd ∙ ap some (g ∙ here)) sock))
                (v.polled j d fd' hd' sd)
        ];
        lists = v.lists;
      })
]

-- The id that the code takes from the table is one that fits its array.
id_by_fd-short :
    (fd : ℕ) (s : Server) (id : Bytes)
    → Inv s
    → id_by_fd fd s.clients ≡ some id
    → length id < max_id_len
unfolding id_by_fd
id_by_fd-short fd s id v h = elim (Option-cases (find_client_by_fd fd s.clients)) [
  | inl e ↦ absurd (ground arith)
  | inr (k, e) ↦
      let (c, at, sock) = fd_found fd s.clients k e in
      let same : c.id ≡ id = ground arith in rw (← same) (v.short_ids k c at)
]

pub on_subscribe-Inv :
    (topic : Bytes) (fd : ℕ) (s s' : Server)
    → Inv s
    → length topic < topic_size
    → on_subscribe topic fd s ≡ running s'
    → Inv s'
unfolding on_subscribe
on_subscribe-Inv topic fd s s' v short h = elim (Option-cases (id_by_fd fd s.clients)) [
  | inl e ↦ absurd (ground arith)
  | inr (id, e) ↦ elim (Option-cases (subscribe topic id s.topics)) [
    | inl f ↦ absurd (ground arith)
    | inr (topics, f) ↦
        let eq : s' ≡ record s { topics = topics } = ground arith in
        rw eq (record {
          table = v.table;
          short_ids = v.short_ids;
          distinct = v.distinct;
          polled = v.polled;
          lists =
              subscribe-NoDuplicates topic id s.topics topics short (id_by_fd-short fd s id v e)
                v.lists f;
        })
  ]
]

pub on_unsubscribe-Inv :
    (topic : Bytes) (fd : ℕ) (s s' : Server)
    → Inv s
    → on_unsubscribe topic fd s ≡ running s'
    → Inv s'
unfolding on_unsubscribe
on_unsubscribe-Inv topic fd s s' v h = elim (Option-cases (id_by_fd fd s.clients)) [
  | inl e ↦ absurd (ground arith)
  | inr (id, e) ↦
      let eq : s' ≡ record s { topics = unsubscribe topic id s.topics } = ground arith in
      rw eq (record {
        table = v.table;
        short_ids = v.short_ids;
        distinct = v.distinct;
        polled = v.polled;
        lists = unsubscribe-NoDuplicates topic id s.topics v.lists;
      })
]
