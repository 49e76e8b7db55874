-- ===== src/Broker/Server/Faults.antt =====
-- Where the server's index of a client is -1.
use teme_pcom.Prelude.{
  Bool, List, Option-cases, [], arith, codes, count, find_index-some, get_elem?, get_elem?-snoc,
  inl, inr, length, lt→ltb, none, some, str_eq, str_eq_iff, suc, true, zero, ℕ, ◌++◌, ◌<◌, ◌∙◌, ◌∷◌,
  ◌≡◌, ◌≢◌, ◌⊎◌,
}
use teme_pcom.Broker.Server.{
  PollFd, Received, running, max_connections, on_accept, fault, packet, RecvPayload, closed,
  id_by_fd, on_unsubscribe, on_subscribe, on_packet, World, on_ready, on_closed, stdin_fileno,
  poll_slot, on_client, Server,
}
use teme_pcom.Broker.Server.Sockets.{slot_fds}
use teme_pcom.Broker.Server.Tables.{Inv}
use teme_pcom.Broker.Server.Start.{poll}
use teme_pcom.Broker.Clients.{find_client_by_fd, has_fd}
use teme_pcom.Broker.Clients.Registry.{has_fd→eq}

-- A peer that is polled on a socket of its own and has registered no id.
record IsAnonymous (i fd : ℕ) (s : Server) : Type 0 where
  pub slot : get_elem? s.poll_fds i ≡ some (record { fd = fd; ready = true })
  pub not_listening : fd ≢ s.tcpfd
  pub not_udp : fd ≢ s.udpfd
  pub not_stdin : fd ≢ stdin_fileno
  pub no_client : find_client_by_fd fd s.clients ≡ none

poll_slot-IsAnonymous :
    (w : World) (i fd : ℕ) (s : Server) → IsAnonymous i fd s → poll_slot w i s ≡ on_client w i fd s
unfolding poll_slot on_ready
poll_slot-IsAnonymous w i fd s a = ground (arith, a.slot)

-- What such a peer must not do.
abbrev pub IsEarly : Received → Type 0
IsEarly r =
    (r ≡ closed)
    ⊎ ((p : RecvPayload) × (r ≡ packet p)
        × ((p.command ≡ codes "subscribe") ⊎ (p.command ≡ codes "unsubscribe")))

poll_slot-anonymous_fault :
    (w : World) (i fd : ℕ) (s : Server)
    → IsAnonymous i fd s
    → IsEarly w.received
    → poll_slot w i s ≡ fault
unfolding on_client on_closed on_packet on_subscribe on_unsubscribe id_by_fd str_eq
poll_slot-anonymous_fault w i fd s a (inl e) =
    poll_slot-IsAnonymous w i fd s a ∙ ground (arith, a.no_client)
poll_slot-anonymous_fault w i fd s a (inr (p, e, inl c)) =
    poll_slot-IsAnonymous w i fd s a
    ∙ ground (arith, a.no_client, str_eq_iff p.command (codes "subscribe"))
poll_slot-anonymous_fault w i fd s a (inr (p, e, inr c)) =
    poll_slot-IsAnonymous w i fd s a
    ∙ ground (arith, a.no_client, str_eq_iff p.command (codes "unsubscribe"))

get_elem?-poll :
    (ready : List Bool) (slots : List PollFd) (k : ℕ) (p : PollFd) (b : Bool)
    → get_elem? ready k ≡ some b
    → get_elem? slots k ≡ some p
    → get_elem? (poll ready slots) k ≡ some (record p { ready = b })
unfolding poll
get_elem?-poll [] slots k p b e h = absurd (cc)
get_elem?-poll (c ∷ ready) [] k p b e h = absurd (cc)
get_elem?-poll (c ∷ ready) (q ∷ slots) zero p b e h = ground (arith)
get_elem?-poll (c ∷ ready) (q ∷ slots) (suc k) p b e h = get_elem?-poll ready slots k p b e h

-- No client is on a socket that is not polled.
not_polled-none :
    (s : Server) (fd : ℕ)
    → Inv s
    → count fd (slot_fds s.poll_fds) ≡ 0
    → find_client_by_fd fd s.clients ≡ none
unfolding find_client_by_fd
not_polled-none s fd v new = elim (Option-cases (find_client_by_fd fd s.clients)) [
  | inl e ↦ e
  | inr (j, e) ↦
      let (c, at, has, inside) = find_index-some (λ c. has_fd fd c.sockfd) s.clients j e in
      absurd (omega (arith, new, v.polled j c fd at (has_fd→eq fd c.sockfd has)))
]

-- Where the listening socket is ready, a connection comes in on a socket that is new (it is polled in
-- no slot yet), and a slot is free, the server goes on and polls it in a slot behind the others. If
-- poll finds that slot ready, and the peer has closed, or its packet is a subscribe or an unsubscribe,
-- before any id came from it, the server indexes `clients` with -1.
pub poll_slot-accepted_fault :
    (w w' : World) (i fd : ℕ) (ready : List Bool) (s : Server)
    → Inv s
    → get_elem? s.poll_fds i ≡ some (record { fd = s.tcpfd; ready = true })
    → w.accepted ≡ some fd
    → length s.poll_fds < max_connections
    → count fd (slot_fds s.poll_fds) ≡ 0
    → (fd ≢ s.tcpfd) × (fd ≢ s.udpfd) × (fd ≢ stdin_fileno)
    → get_elem? ready (length s.poll_fds) ≡ some true
    → IsEarly w'.received
    → (t : Server) × (poll_slot w i s ≡ running t)
      × (poll_slot w' (length s.poll_fds) (record t { poll_fds = poll ready t.poll_fds }) ≡ fault)
unfolding poll_slot on_ready on_accept
poll_slot-accepted_fault w w' i fd ready s v slot got room new (a, b, c) up early =
    let p : PollFd = record { fd = fd; ready = w.stale } in
    let t : Server = record s { poll_fds = s.poll_fds ++ p ∷ [] } in
    (
      t,
      ground (arith, slot, got, lt→ltb (length s.poll_fds) max_connections room),
      poll_slot-anonymous_fault w' (length s.poll_fds) fd
          (record t { poll_fds = poll ready t.poll_fds })
          (record {
            slot =
                get_elem?-poll ready (s.poll_fds ++ p ∷ []) (length s.poll_fds) p true up
                  (get_elem?-snoc s.poll_fds p);
            not_listening = a;
            not_udp = b;
            not_stdin = c;
            no_client = not_polled-none s fd v new;
          })
          early,
    )
