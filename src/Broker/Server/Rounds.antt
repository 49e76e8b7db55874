-- ===== src/Broker/Server/Rounds.antt =====
-- The invariant over a round of the loop and over all rounds.
use teme_pcom.Prelude.{
  Bool-cases, List, Option-cases, [], arith, codes, get_elem?, inl, inr, refl, some, str_eq,
  str_eq→eq, ℕ, ◌+◌, ◌==◌, ◌∷◌, ◌≡◌,
}
use teme_pcom.Broker.Server.{
  closed, failed, stdin_fileno, Received, running, packet, RecvPayload, on_packet, World, poll_slot,
  on_ready, on_client, poll_round, PollFd, Server,
}
use teme_pcom.Broker.Server.Tables.{
  on_terminal-Inv, on_datagram-Inv, on_accept-Inv, Inv, WellBehaved,
}
use teme_pcom.Broker.Server.Requests.{on_closed-Inv, on_unsubscribe-Inv, on_subscribe-Inv}
use teme_pcom.Broker.Server.Connects.{on_connect-Inv}

on_packet-Inv :
    (w : World) (p : RecvPayload) (i : ℕ) (s s' : Server) (q : PollFd)
    → Inv s
    → WellBehaved w i s
    → w.received ≡ packet p
    → get_elem? s.poll_fds i ≡ some q
    → on_packet p i q.fd s ≡ running s'
    → Inv s'
unfolding on_packet
on_packet-Inv w p i s s' q v b got slot h =
    elim (Bool-cases (str_eq p.command (codes "subscribe"))) [
      | inl t ↦ on_subscribe-Inv p.topic q.fd s s' v (b.short_topic p got) (ground arith)
      | inr f ↦ elim (Bool-cases (str_eq p.command (codes "unsubscribe"))) [
        | inl t ↦ on_unsubscribe-Inv p.topic q.fd s s' v (ground arith)
        | inr g ↦ elim (Bool-cases (str_eq p.command (codes "connect"))) [
          | inl t ↦
              let (short, free) = b.first_connect p q got (str_eq→eq _ _ t) slot in
              on_connect-Inv p.topic i s s' q v slot short free (ground arith)
          | inr k ↦ let eq : s' ≡ s = ground arith in rw eq v
        ]
      ]
    ]

on_client-Inv :
    (w : World) (i : ℕ) (s s' : Server) (q : PollFd)
    → Inv s
    → WellBehaved w i s
    → get_elem? s.poll_fds i ≡ some q
    → on_client w i q.fd s ≡ running s'
    → Inv s'
unfolding on_client
on_client-Inv w i s s' q v b slot h = go w.received refl
  where
    go : (r : Received) → w.received ≡ r → Inv s'
    go failed e = absurd (ground arith)
    go closed e = on_closed-Inv i q.fd s s' q v slot refl (ground arith)
    go (packet p) e = on_packet-Inv w p i s s' q v b e slot (ground arith)

on_ready-Inv :
    (w : World) (i : ℕ) (s s' : Server) (q : PollFd)
    → Inv s
    → WellBehaved w i s
    → get_elem? s.poll_fds i ≡ some q
    → on_ready w i q.fd s ≡ running s'
    → Inv s'
unfolding on_ready
on_ready-Inv w i s s' q v b slot h = elim (Bool-cases (q.fd == s.tcpfd)) [
  | inl t ↦ on_accept-Inv w i s s' v b (ground arith)
  | inr f ↦ elim (Bool-cases (q.fd == s.udpfd)) [
    | inl t ↦ on_datagram-Inv w s s' v (ground arith)
    | inr g ↦ elim (Bool-cases (q.fd == stdin_fileno)) [
      | inl t ↦ on_terminal-Inv w s s' v (ground arith)
      | inr k ↦ on_client-Inv w i s s' q v b slot (ground arith)
    ]
  ]
]

-- A round of the loop over one socket that ends running, whichever branch it takes, keeps ids and
-- sockets distinct, the clients' sockets polled, and the topics' lists free of duplicates, if the
-- kernel and the subscriber behave.
pub poll_slot-Inv :
    (w : World) (i : ℕ) (s s' : Server)
    → Inv s
    → WellBehaved w i s
    → poll_slot w i s ≡ running s'
    → Inv s'
unfolding poll_slot
poll_slot-Inv w i s s' v b h = elim (Option-cases (get_elem? s.poll_fds i)) [
  | inl e ↦ let eq : s' ≡ s = ground arith in rw eq v
  | inr (q, e) ↦ elim (Bool-cases q.ready) [
    | inl t ↦ on_ready-Inv w i s s' q v b e (ground arith)
    | inr f ↦ let eq : s' ≡ s = ground arith in rw eq v
  ]
]

-- All rounds of one `for` loop, each from the state that the one before it left.
pub data Rounds : ℕ → Server → List World → Server → Type 0 where
  none_left : {i : ℕ} {s : Server} → Rounds i s [] s
  next :
      {i : ℕ} {s t u : Server} {w : World} {ws : List World}
      → WellBehaved w i s
      → poll_slot w i s ≡ running t
      → Rounds (i + 1) t ws u
      → Rounds i s (w ∷ ws) u

Rounds-Inv : {i : ℕ} {s u : Server} {ws : List World} → Rounds i s ws u → Inv s → Inv u
Rounds-Inv none_left v = v
Rounds-Inv (next {i} {s} {t} {w = w} b e r) v = Rounds-Inv r (poll_slot-Inv w i s t v b e)

-- Rounds of the `for` loop that end running, with a kernel and subscribers that behave, are what
-- poll_round computes, and reach a state with the invariant from one that has it.
pub poll_round-Rounds :
    {i : ℕ} {s u : Server} {ws : List World}
    → Rounds i s ws u
    → Inv s
    → (poll_round ws i s ≡ running u) × Inv u
unfolding poll_round
poll_round-Rounds none_left v = (refl, v)
poll_round-Rounds (next {i} {s} {t} {w = w} b e r) v =
    let (run, v') = poll_round-Rounds r (poll_slot-Inv w i s t v b e) in
    (rw (e, poll_round) run, v')
