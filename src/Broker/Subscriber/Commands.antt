-- ===== src/Broker/Subscriber/Commands.antt =====
-- What the server does with the lines that are typed at a subscriber.
use teme_pcom.Prelude.{
  some, lt→ltb, Bytes, [], arith, codes, length, refl, str_eq, true, ℕ, ◌++◌, ◌<◌, ◌∷◌, ◌≡◌,
}
use teme_pcom.Broker.Server.{
  on_connect, on_unsubscribe, on_subscribe, Outcome, on_packet, RecvPayload, Server,
}
use teme_pcom.Broker.Subscriber.{
  connect_request, newline, on_line, request, starts_with, goes_on, payload_size,
}

-- The line sends one request, and the server's handler for the request is the one given.
pub record Reaches (buf : Bytes) (handler : ℕ → Server → Outcome) : Type 0 where
  pub printed : Bytes
  pub sends : RecvPayload
  pub sent_once : on_line true buf ≡ goes_on printed (sends ∷ [])
  pub handled : (i fd : ℕ) (s : Server) → on_packet sends i fd s ≡ handler fd s

on_line-subscribe :
    (topic : Bytes)
    → length topic < payload_size
    → Reaches (codes "subscribe " ++ topic) (on_subscribe topic)
unfolding on_line request starts_with on_packet str_eq
on_line-subscribe topic h = record {
  printed = codes "Subscribed to topic: " ++ topic ++ newline;
  sends = record { command = codes "subscribe"; topic = topic };
  sent_once = ground arith;
  handled = λ i fd s. refl;
}

on_line-unsubscribe :
    (topic : Bytes)
    → length topic < payload_size
    → Reaches (codes "unsubscribe " ++ topic) (on_unsubscribe topic)
unfolding on_line request starts_with on_packet str_eq
on_line-unsubscribe topic h = record {
  printed = codes "Unsubscribed from topic: " ++ topic ++ newline;
  sends = record { command = codes "unsubscribe"; topic = topic };
  sent_once = ground arith;
  handled = λ i fd s. refl;
}

-- For a topic or an id T that fits in the packet, the line "subscribe T" makes the server subscribe
-- the client of the socket to T, the line "unsubscribe T" makes it unsubscribe that client from T, and
-- the subscriber's first packet makes it register the socket under the id T.
pub on_packet-requests :
    (t : Bytes)
    → length t < payload_size
    → Reaches (codes "subscribe " ++ t) (on_subscribe t)
      × Reaches (codes "unsubscribe " ++ t) (on_unsubscribe t)
      × ((p : RecvPayload) × (connect_request t ≡ some p)
          × ((i fd : ℕ) (s : Server) → on_packet p i fd s ≡ on_connect t i fd s))
unfolding connect_request on_packet str_eq
on_packet-requests t h = (
  on_line-subscribe t h,
  on_line-unsubscribe t h,
  (
    record { command = codes "connect"; topic = t },
    rw (connect_request, lt→ltb (length t) payload_size h) refl,
    λ i fd s. refl,
  ),
)
