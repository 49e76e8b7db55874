-- ===== src/Broker/Tests/Rounds.antt =====
-- The broker at concrete inputs: rounds of the server's loop.
use teme_pcom.Prelude.{
  some, Bool, List, [], arith, codes, false, find_index, inl, none, refl, str_eq, suc, true, zero,
  ℕ, ◌<◌, ◌∷◌, ◌≡◌,
}
use teme_pcom.Broker.Server.{
  on_accept, on_connect, on_packet, on_client, fault, closed, packet, failed, running, on_ready,
  poll_slot, RecvPayload, Received, World, PollFd, Server,
}
use teme_pcom.Broker.Server.Rounds.{Rounds, next, poll_slot-Inv}
use teme_pcom.Broker.Tests.{one_client, no_client-WellFormed}
use teme_pcom.Broker.Clients.{
  find_client_by_id, connect_at, add_or_reconnect_client, find_client_by_fd,
}
use teme_pcom.Broker.Server.Start.{start, poll, serve, Served, serve-Inv}
use teme_pcom.Broker.Server.Tables.{Inv, WellBehaved}
use teme_pcom.Broker.Topics.Subscriptions.{subs_of}
use teme_pcom.Broker.Server.Faults.{poll_slot-accepted_fault}

abbrev slot_of : ℕ → Bool → PollFd
slot_of fd ready = record { fd = fd; ready = ready }

-- A connection on socket 4 that has sent nothing yet.
abbrev waiting : Server
waiting = record {
  tcpfd = 10;
  udpfd = 11;
  poll_fds = slot_of 10 false ∷ slot_of 11 false ∷ slot_of 0 false ∷ slot_of 4 true ∷ [];
  clients = [];
  topics = [];
  sent = [];
}

abbrev registered : Server
registered = record waiting { clients = one_client }

abbrev world_with : Received → World
world_with r = record {
  accepted = none;
  stale = false;
  datagram = none;
  from_ip = [];
  from_port = 0;
  line = none;
  received = r;
}

abbrev connect_packet : RecvPayload
connect_packet = record { command = codes "connect"; topic = codes "C1" }

waiting-Inv : Inv waiting
unfolding subs_of
waiting-Inv = record {
  table = no_client-WellFormed;
  short_ids = λ j c h. absurd (cc);
  distinct = λ a. ground arith;
  polled = λ j c fd h s. absurd (cc);
  lists = λ t j. omega arith;
}

connect-WellBehaved : WellBehaved (world_with (packet connect_packet)) 3 waiting
unfolding find_client_by_fd find_index
connect-WellBehaved = record {
  new_socket = λ fd h. absurd (cc);
  short_topic = λ p h. let e : connect_packet ≡ p = cc in rw (← e) (omega arith);
  first_connect = λ p q h c s. let e : connect_packet ≡ p = cc in (rw (← e) (omega arith), refl);
}

idle-WellBehaved : (i : ℕ) (s : Server) → WellBehaved (world_with failed) i s
idle-WellBehaved i s = record {
  new_socket = λ fd h. absurd (cc);
  short_topic = λ p h. absurd (cc);
  first_connect = λ p q h c e. absurd (cc);
}

connects : poll_slot (world_with (packet connect_packet)) 3 waiting ≡ running registered
unfolding poll_slot on_ready on_client on_packet on_connect add_or_reconnect_client connect_at
    find_client_by_id find_index str_eq
connects = refl

poll_slot-Inv_example : Inv registered
poll_slot-Inv_example =
    poll_slot-Inv (world_with (packet connect_packet)) 3 waiting registered waiting-Inv
      connect-WellBehaved connects

idles : (i : ℕ) → i < 3 → poll_slot (world_with failed) i waiting ≡ running waiting
unfolding poll_slot
idles zero h = refl
idles (suc zero) h = refl
idles (suc (suc zero)) h = refl
idles (suc (suc (suc i))) h = absurd (omega arith)

abbrev idle : World
idle = world_with failed

abbrev one_round : List World
one_round = idle ∷ idle ∷ idle ∷ world_with (packet connect_packet) ∷ []

one_round-Rounds : Rounds 0 waiting one_round registered
one_round-Rounds = next (idle-WellBehaved 0 waiting) (idles 0 (omega arith)) (
    next (idle-WellBehaved 1 waiting) (idles 1 (omega arith)) (
      next (idle-WellBehaved 2 waiting) (idles 2 (omega arith))
        (next connect-WellBehaved connects Rounds.none_left)))

-- A connection is accepted on socket 4, and sends its id in the next round of the loop.
abbrev accepts : World
accepts = record idle { accepted = some 4 }

accepts-WellBehaved :
    WellBehaved accepts 0
      (record (start 10 11) { poll_fds = poll (true ∷ []) (start 10 11).poll_fds })
unfolding start poll
accepts-WellBehaved = record {
  new_socket = λ fd h. let e : 4 ≡ fd = cc in rw (← e) refl;
  short_topic = λ p h. absurd (cc);
  first_connect = λ p q h c s. absurd (cc);
}

abbrev two_rounds : List (List Bool × List World)
two_rounds = (true ∷ [], accepts ∷ []) ∷ (false ∷ false ∷ false ∷ true ∷ [], one_round) ∷ []

two_rounds-Served : Served (start 10 11) two_rounds registered
unfolding start poll poll_slot on_ready on_accept
two_rounds-Served =
    Served.after (next accepts-WellBehaved refl Rounds.none_left)
      (Served.after one_round-Rounds Served.idle)

serve-Inv_example : (serve two_rounds (start 10 11) ≡ running registered) × Inv registered
serve-Inv_example =
    serve-Inv 10 11 two_rounds registered (λ e. absurd (cc)) (λ e. absurd (cc)) (λ e. absurd (cc))
      two_rounds-Served

-- A server whose listening socket is ready, and a peer that comes on socket 4.
abbrev listening : Server
listening = record waiting { poll_fds = slot_of 10 true ∷ slot_of 11 false ∷ slot_of 0 false ∷ [] }

listening-Inv : Inv listening
unfolding subs_of
listening-Inv = record {
  table = no_client-WellFormed;
  short_ids = λ j c h. absurd (cc);
  distinct = λ a. ground arith;
  polled = λ j c fd h s. absurd (cc);
  lists = λ t j. omega arith;
}

abbrev accepting : World
accepting = record (world_with failed) { accepted = some 4 }

abbrev last_ready : List Bool
last_ready = false ∷ false ∷ false ∷ true ∷ []

poll_slot-accepted_fault_example :
    (t : Server) × (poll_slot accepting 0 listening ≡ running t)
    × (poll_slot (world_with closed) 3 (record t { poll_fds = poll last_ready t.poll_fds }) ≡ fault)
poll_slot-accepted_fault_example =
    poll_slot-accepted_fault accepting (world_with closed) 0 4 last_ready listening listening-Inv
      refl refl (omega arith) refl (omega arith, omega arith, omega arith) refl (inl refl)
