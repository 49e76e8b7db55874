-- ===== src/Broker/Tests.antt =====
-- The broker at concrete inputs: topics and the table of clients.
pub mod Lists
pub mod Rounds
pub mod Packets
use teme_pcom.Prelude.{
  All, Bytes, List, [], arith, codes, false, find_index, length, refl, some, str_eq, suc, true,
  zero, ◌*◌, ◌+◌, ◌-◌, ◌/◌, ◌↔◌, ◌∷◌, ◌≡◌, ◌≢◌, ◌≤◌, ◌⊎◌,
}
use teme_pcom.Broker.Wildcard.Exact.{
  done, one_more, check_topic_regexp_iff, check_topic_regexp-star_first, same, Levels, StarIsLast,
  last_token,
}
use teme_pcom.Broker.Clients.{
  is_connected_id, already_connected, find_client_by_fd, handle_disconnect, added,
  find_client_by_id, connect_at, add_or_reconnect_client, Client,
}
use teme_pcom.Broker.Clients.Registry.{add_or_reconnect_client-WellFormed, IsUnused, WellFormed}
use teme_pcom.Broker.Wildcard.{match_tokens, check_topic_regexp, copied, tokens}
use teme_pcom.Broker.Wildcard.Tokens.{copied-join_levels, IsLevel, join_levels}
use teme_pcom.Broker.Clients.Sessions.{
  SameElsewhere, add_or_reconnect_client-refused_iff, reconnect_same_slot,
}

plus_one_level : check_topic_regexp (codes "upb/ec/100/pressure") (codes "+/ec/100/pressure") ≡ true
unfolding check_topic_regexp match_tokens tokens str_eq
plus_one_level = refl

other_level : check_topic_regexp (codes "upb/ec/100/pressure") (codes "+/precis/*") ≡ false
unfolding check_topic_regexp match_tokens tokens str_eq
other_level = refl

star_takes_all : check_topic_regexp (codes "upb/precis/100/temperature") (codes "*/pressure") ≡ true
unfolding check_topic_regexp match_tokens tokens str_eq
star_takes_all = refl

-- Topics and their levels.
abbrev wide : List Bytes
wide = codes "upb" ∷ codes "precis" ∷ []

topic_levels : copied (codes "upb/precis") ≡ wide
unfolding tokens
topic_levels = refl

regexp_levels : copied (codes "upb/*") ≡ codes "upb" ∷ codes "*" ∷ []
unfolding tokens
regexp_levels = refl

upb_star : StarIsLast (copied (codes "upb/*"))
upb_star = rw regexp_levels ((λ e. cc), tt)

check_topic_regexp_iff_example :
    (check_topic_regexp (codes "upb/precis") (codes "upb/*") ≡ true) ↔ (
      (codes "upb/precis" ≡ codes "upb/*")
      ⊎ Levels (copied (codes "upb/precis")) (copied (codes "upb/*")))
check_topic_regexp_iff_example =
    check_topic_regexp_iff (codes "upb/precis") (codes "upb/*") upb_star

first_star : copied (codes "*/pressure") ≡ codes "*" ∷ codes "pressure" ∷ []
unfolding tokens
first_star = refl

last_levels_differ : last_token (copied (codes "upb/precis")) ≢ last_token (codes "pressure" ∷ [])
last_levels_differ = rw topic_levels (λ e. cc)

check_topic_regexp-star_first_example :
    (check_topic_regexp (codes "upb/precis") (codes "*/pressure") ≡ true)
    × (¬ Levels (copied (codes "upb/precis")) (copied (codes "*/pressure")))
check_topic_regexp-star_first_example =
    check_topic_regexp-star_first (codes "upb/precis") (codes "*/pressure") (codes "pressure" ∷ [])
      first_star (λ e. cc) (λ e. cc) (λ e. cc) last_levels_differ

wide-IsLevel : All IsLevel wide
wide-IsLevel = (((λ e. cc), omega arith), (((λ e. cc), omega arith), tt))

wide-short : length (join_levels wide) ≤ 100
unfolding join_levels
wide-short = omega arith

copied-join_levels_example : copied (join_levels wide) ≡ wide
copied-join_levels_example = copied-join_levels wide wide-IsLevel wide-short

-- A table of two connected clients.
abbrev pub client_one : Client
client_one = record { id = codes "C1"; sockfd = some 4; connected = true; sent_message = false }

abbrev pub client_two : Client
client_two = record { id = codes "C2"; sockfd = some 5; connected = true; sent_message = false }

abbrev pub one_client : List Client
one_client = client_one ∷ []

abbrev pub two_clients : List Client
two_clients = client_one ∷ client_two ∷ []

pub no_client-WellFormed : WellFormed []
no_client-WellFormed = record {
  ids_differ = λ i j c d h k e. absurd (cc);
  fds_differ = λ i j c d fd h k e f. absurd (cc);
  states = λ i c h. absurd (cc);
}

pub adds_one : add_or_reconnect_client (codes "C1") 4 [] ≡ added one_client 0
unfolding add_or_reconnect_client connect_at find_client_by_id find_index
adds_one = refl

pub one_client-WellFormed : WellFormed one_client
one_client-WellFormed =
    add_or_reconnect_client-WellFormed (codes "C1") 4 [] one_client 0 no_client-WellFormed
      (omega arith) (λ i c h. absurd (cc)) adds_one

pub IsUnused-five : IsUnused 5 one_client
IsUnused-five zero c h = let e : client_one ≡ c = ground arith in rw (← e) (λ q. ground arith)
IsUnused-five (suc i) c h = absurd (cc)

pub adds_two : add_or_reconnect_client (codes "C2") 5 one_client ≡ added two_clients 1
unfolding add_or_reconnect_client connect_at find_client_by_id find_index str_eq
adds_two = refl

add_or_reconnect_client-WellFormed_example : WellFormed two_clients
add_or_reconnect_client-WellFormed_example =
    add_or_reconnect_client-WellFormed (codes "C2") 5 one_client two_clients 1 one_client-WellFormed
      (omega arith) IsUnused-five adds_two

pub two_clients-WellFormed : WellFormed two_clients
two_clients-WellFormed =
    add_or_reconnect_client-WellFormed (codes "C2") 5 one_client two_clients 1 one_client-WellFormed
      (omega arith) IsUnused-five adds_two

add_or_reconnect_client-refused_iff_example :
    (add_or_reconnect_client (codes "C1") 9 two_clients ≡ already_connected two_clients)
    ↔ ((is_connected_id (codes "C1") two_clients ≡ true) × (two_clients ≡ two_clients))
add_or_reconnect_client-refused_iff_example =
    add_or_reconnect_client-refused_iff (codes "C1") 9 two_clients two_clients

reconnect_same_slot_example :
    (clients'' : List Client) × (add_or_reconnect_client
        (codes "C2")
        7
        (handle_disconnect 5 two_clients)
      ≡ added clients'' 1)
    × (length clients'' ≡ length two_clients)
reconnect_same_slot_example =
    reconnect_same_slot (codes "C2") 5 7 one_client two_clients 1 one_client-WellFormed
      (omega arith) IsUnused-five adds_two
