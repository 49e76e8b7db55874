-- ===== src/Broker/Tests/Packets.antt =====
-- The broker at concrete inputs: packets on a connection, and the subscriber.
use teme_pcom.Prelude.{some, List, [], arith, codes, false, none, refl, ℕ, ◌++◌, ◌/◌, ◌∷◌, ◌≡◌}
use teme_pcom.Broker.Server.{
  on_connect, on_packet, Server, RecvPayload, on_unsubscribe, to_packet, failed, on_subscribe,
  World,
}
use teme_pcom.Broker.Stream.{
  SendCall, took, gave, send_all, send_from, recv_all, sent_all, received_all,
}
use teme_pcom.Broker.Stream.Delivery.{Delivers, all_there, chunk, recv_all-send_all}
use teme_pcom.Broker.Subscriber.Commands.{Reaches, on_packet-requests}
use teme_pcom.Broker.Subscriber.Display.{show_message-int_datagram, int_datagram}
use teme_pcom.Broker.Subscriber.{connect_request, show_message, Doubles}
use teme_pcom.Http.Requests.Decimal.{digits_from, print_decimal}

abbrev two_sends : List SendCall
two_sends = took 1 ∷ took 3 ∷ []

sends_all : send_all two_sends (codes "abcd") ≡ sent_all (codes "abcd") []
unfolding send_all send_from
sends_all = refl

comes_in : Delivers 4 (codes "abcdxy") (gave (codes "abc") ∷ gave (codes "d") ∷ []) (codes "xy")
comes_in =
    chunk (codes "abc") (λ e. cc) (omega arith)
      (chunk (codes "d") (λ e. cc) (omega arith) all_there)

recv_all-send_all_example :
    (recv_all (gave (codes "abc") ∷ gave (codes "d") ∷ []) 4 ≡ received_all (codes "abcd") [])
    × (codes "xy" ≡ codes "xy")
recv_all-send_all_example =
    recv_all-send_all (codes "abcd") (codes "abcd") (codes "xy") (codes "xy") two_sends []
      (gave (codes "abc") ∷ gave (codes "d") ∷ []) [] sends_all comes_in

on_packet-requests_example :
    Reaches (codes "subscribe upb/ec") (on_subscribe (codes "upb/ec"))
    × Reaches (codes "unsubscribe upb/ec") (on_unsubscribe (codes "upb/ec"))
    × ((p : RecvPayload) × (connect_request (codes "upb/ec") ≡ some p)
        × ((i fd : ℕ) (s : Server) → on_packet p i fd s ≡ on_connect (codes "upb/ec") i fd s))
on_packet-requests_example = on_packet-requests (codes "upb/ec") (omega arith)

-- Doubles without a fraction.
abbrev whole_numbers : Doubles ℕ
whole_numbers = record {
  of_int = λ n. n;
  of_float = λ n. n;
  divided_by = λ n k. n / k;
  print_fixed = λ k n. print_decimal n;
}

abbrev from_home : World
from_home = record {
  accepted = none;
  stale = false;
  datagram = none;
  from_ip = codes "127.0.0.1";
  from_port = 1234;
  line = none;
  received = failed;
}

show_message-int_datagram_example :
    show_message whole_numbers (to_packet from_home (int_datagram (codes "upb/ec") 1 70000 []))
    ≡ codes "127.0.0.1" ++ codes ":53764 - upb/ec - INT - -70000" ++ 10 ∷ []
unfolding print_decimal digits_from
show_message-int_datagram_example =
    show_message-int_datagram whole_numbers from_home (codes "upb/ec") 1 70000 4 210 []
      (omega arith) (omega arith) (omega arith) refl
