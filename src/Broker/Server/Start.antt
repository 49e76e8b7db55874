-- ===== src/Broker/Server/Start.antt =====
-- run_chat_multi_server of Tema_2/server.c from its start: the slots that it fills, and the endless
-- loop around the `for` loop. The tables of clients and topics are global and zeroed.
use teme_pcom.Prelude.{Bool, List, [], ap, arith, false, refl, ℕ, ◌∷◌, ◌≡◌, ◌≢◌}
use teme_pcom.Broker.Server.{
  Server, PollFd, World, Outcome, running, stopped, died, fault, poll_round, stdin_fileno,
}
use teme_pcom.Broker.Server.Sockets.{slot_fds}
use teme_pcom.Broker.Server.Tables.{Inv}
use teme_pcom.Broker.Topics.Subscriptions.{subs_of}
use teme_pcom.Broker.Server.Rounds.{Rounds, poll_round-Rounds}

unfoldable pub start : ℕ → ℕ → Server
start tcpfd udpfd = record {
  tcpfd = tcpfd;
  udpfd = udpfd;
  poll_fds =
      (record { fd = tcpfd; ready = false })
      ∷ (record { fd = udpfd; ready = false })
      ∷ (record { fd = stdin_fileno; ready = false })
      ∷ [];
  clients = [];
  topics = [];
  sent = [];
}

-- poll, which writes `revents` of every slot.
unfoldable pub poll : List Bool → List PollFd → List PollFd
poll [] slots = slots
poll (b ∷ ready) [] = []
poll (b ∷ ready) (slot ∷ slots) = record slot { ready = b } ∷ poll ready slots

-- The loop, with what poll gives and the Worlds of the `for` loop for each of its rounds.
unfoldable pub serve : List (List Bool × List World) → Server → Outcome
serve [] s = running s
serve ((ready, ws) ∷ rounds) s =
    elim (poll_round ws 0 (record s { poll_fds = poll ready s.poll_fds })) [
      | running s' ↦ serve rounds s'
      | stopped s' ↦ stopped s'
      | died ↦ died
      | fault ↦ fault
    ]

-- Rounds of the loop that end running, with a kernel and subscribers that behave.
pub data Served : Server → List (List Bool × List World) → Server → Type 0 where
  idle : {s : Server} → Served s [] s
  after :
      {s t u : Server} {ready : List Bool} {ws : List World}
      {rounds : List (List Bool × List World)}
      → Rounds 0 (record s { poll_fds = poll ready s.poll_fds }) ws t
      → Served t rounds u
      → Served s ((ready, ws) ∷ rounds) u

slot_fds-poll :
    (ready : List Bool) (slots : List PollFd) → slot_fds (poll ready slots) ≡ slot_fds slots
unfolding poll
slot_fds-poll [] slots = refl
slot_fds-poll (b ∷ ready) [] = refl
slot_fds-poll (b ∷ ready) (slot ∷ slots) = ap (◌∷◌ slot.fd) (slot_fds-poll ready slots)

poll-Inv :
    (ready : List Bool) (s : Server) → Inv s → Inv (record s { poll_fds = poll ready s.poll_fds })
poll-Inv ready s v = record {
  table = v.table;
  short_ids = v.short_ids;
  distinct = λ a. rw (slot_fds-poll ready s.poll_fds) (v.distinct a);
  polled = λ j c fd at used. rw (slot_fds-poll ready s.poll_fds) (v.polled j c fd at used);
  lists = v.lists;
}

serve-Served :
    {s u : Server} {rounds : List (List Bool × List World)}
    → Served s rounds u
    → Inv s
    → (serve rounds s ≡ running u) × Inv u
unfolding serve
serve-Served idle v = (refl, v)
serve-Served (after {s} {t} {u} {ready} {ws} r more) v =
    let (run, v') = poll_round-Rounds r (poll-Inv ready s v) in
    let (all, v'') = serve-Served more v' in (rw (serve, run) all, v'')

start-Inv : (tcpfd udpfd : ℕ) → tcpfd ≢ udpfd → tcpfd ≢ 0 → udpfd ≢ 0 → Inv (start tcpfd udpfd)
unfolding start subs_of
start-Inv tcpfd udpfd differ tcp udp = record {
  table = record {
    ids_differ = λ i j c d h k e. absurd (cc);
    fds_differ = λ i j c d fd h k e f. absurd (cc);
    states = λ i c h. absurd (cc);
  };
  short_ids = λ j c h. absurd (cc);
  distinct = λ a. ground (arith, differ, tcp, udp);
  polled = λ j c fd h s. absurd (cc);
  lists = λ t j. omega arith;
}

-- From its start on two sockets that are not each other and not the terminal, the server's loop
-- computes the state that its rounds lead to, if the kernel and the subscribers behave and no round
-- ends it. In every state that is so reached ids and sockets are distinct, the clients' sockets are
-- polled, and no topic lists an id twice.
pub serve-Inv :
    (tcpfd udpfd : ℕ) (rounds : List (List Bool × List World)) (u : Server)
    → tcpfd ≢ udpfd
    → tcpfd ≢ 0
    → udpfd ≢ 0
    → Served (start tcpfd udpfd) rounds u
    → (serve rounds (start tcpfd udpfd) ≡ running u) × Inv u
serve-Inv tcpfd udpfd rounds u differ tcp udp served =
    serve-Served served (start-Inv tcpfd udpfd differ tcp udp)
