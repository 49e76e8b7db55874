-- ===== src/Broker/Subscriber.antt =====
-- Tema_2/subscriber.c: run_client, on a little-endian machine. What recv_all, fgets and send_all
-- return is an argument. The formats with doubles are those of a Doubles.
pub mod Commands
pub mod Display
use teme_pcom.Prelude.{
  c_string, Bool, Bytes, List, Option, [], codes, drop, false, get_or, if◌then◌else◌, length, ltb,
  none, not, set, some, str_eq, suc, true, zero, ℕ, ◌%◌, ◌*◌, ◌++◌, ◌+◌, ◌-◌, ◌/◌, ◌==◌, ◌∷◌,
}
use teme_pcom.Broker.Server.{SendPayload, RecvPayload}
use teme_pcom.Http.Requests.Decimal.{print_decimal}

-- ntohs and ntohl
abbrev pub ntohs : ℕ → ℕ
ntohs x = x % 256 * 256 + x / 256 % 256

-- The number in network order at an offset of `data`, as ntohs and ntohl give it.
abbrev pub byte_at : Bytes → ℕ → ℕ
byte_at bytes i = get_or bytes i 0

abbrev pub short_at : Bytes → ℕ → ℕ
short_at bytes i = byte_at bytes i * 256 + byte_at bytes (i + 1)

abbrev pub long_at : Bytes → ℕ → ℕ
long_at bytes i = short_at bytes i * 65536 + short_at bytes (i + 2)

-- The type double: (double) n, (float) n as a double, a quotient by a constant, and "%.*f".
pub record Doubles (D : Type 0) : Type 0 where
  pub of_int : ℕ → D
  pub of_float : ℕ → D
  pub divided_by : D → ℕ → D
  pub print_fixed : ℕ → D → Bytes

unfoldable pub divided_times : {D : Type 0} → Doubles D → ℕ → D → D
divided_times f zero value = value
divided_times f (suc n) value = divided_times f n (f.divided_by value 10)

-- "%s:%d - %s - "
unfoldable pub heading : SendPayload → Bytes
heading p =
    p.sender_ip
    ++ codes ":"
    ++ print_decimal (ntohs p.sender_port)
    ++ codes " - "
    ++ p.topic
    ++ codes " - "

abbrev pub newline : Bytes
newline = 10 ∷ []

-- The sign in front of a value.
unfoldable pub signed : ℕ → Bytes → Bytes
signed sign text = if sign == 0 then text else codes "-" ++ text

-- The switch over data_type, with data[1499] set to NUL.
unfoldable pub show_message : {D : Type 0} → Doubles D → SendPayload → Bytes
show_message f p =
    let data_bytes = set p.payload 1499 0 in
    if p.data_type == 0
    then heading p
      ++ codes "INT - "
      ++ signed (byte_at data_bytes 0) (print_decimal (long_at data_bytes 1))
      ++ newline
    else if p.data_type == 1
    then heading p
      ++ codes "SHORT_REAL - "
      ++ f.print_fixed 2 (f.divided_by (f.of_int (short_at data_bytes 0)) 100)
      ++ newline
    else if p.data_type == 2
    then heading p
      ++ codes "FLOAT - "
      ++ signed (byte_at data_bytes 0) (
          f.print_fixed (byte_at data_bytes 5)
            (divided_times f (byte_at data_bytes 5) (f.of_float (long_at data_bytes 1))))
      ++ newline
    else if p.data_type == 3
    then heading p ++ codes "STRING - " ++ c_string data_bytes ++ newline
    else codes "Unknown data type: " ++ print_decimal p.data_type ++ newline

-- The round goes on, with what it printed and sent, or the loop is left, or a DIE, or a string that
-- is written past its array.
pub data Step : Type 0 where
  goes_on : Bytes → List RecvPayload → Step
  leaves : Bytes → Step
  dies : Step
  overrun : Step

-- A message from the server; `none` is a recv_all that returned 0 or -1.
unfoldable pub on_message : {D : Type 0} → Doubles D → Option SendPayload → Step
on_message f none = leaves (codes "Server closed connection." ++ newline)
on_message f (some p) =
    if p.data_type == 5
    then leaves (codes "Same ID already connected." ++ newline)
    else goes_on (show_message f p) []

-- sizeof (sent_packet.payload.topic)
abbrev pub payload_size : ℕ
payload_size = 50

-- strncmp (buf, word, strlen (word)) == 0
unfoldable pub starts_with : Bytes → Bytes → Bool
starts_with [] buf = true
starts_with (c ∷ word) [] = false
starts_with (c ∷ word) (d ∷ buf) = if c == d then starts_with word buf else false

-- A request is written, and sent if send_all does not return -1.
unfoldable pub request : Bool → Bytes → Bytes → Bytes → Step
request sent command topic printed =
    if not (ltb (length topic) payload_size)
    then overrun
    else if sent
    then goes_on (printed ++ topic ++ newline) ((record { command = command; topic = topic }) ∷ [])
    else dies

-- A line from the keyboard, up to its newline. The array is zeroed, so behind its end are NULs.
unfoldable pub on_line : Bool → Bytes → Step
on_line sent buf =
    if str_eq buf []
    then goes_on [] []
    else if str_eq buf (codes "exit")
    then leaves []
    else if starts_with (codes "subscribe") buf
    then request sent (codes "subscribe") (drop 10 buf) (codes "Subscribed to topic: ")
    else if starts_with (codes "unsubscribe") buf
    then request sent (codes "unsubscribe") (drop 12 buf) (codes "Unsubscribed from topic: ")
    else goes_on (codes "Unknown command: " ++ buf ++ newline) []

-- One after the other, unless the first one ends the loop.
unfoldable pub and_then : Step → Step → Step
and_then (goes_on printed requests) (goes_on printed' requests') =
    goes_on (printed ++ printed') (requests ++ requests')
and_then (goes_on printed requests) (leaves printed') = leaves (printed ++ printed')
and_then (goes_on printed requests) dies = dies
and_then (goes_on printed requests) overrun = overrun
and_then (leaves printed) second = leaves printed
and_then dies second = dies
and_then overrun second = overrun

-- A round of the loop: the message, if the socket is ready, and the line, if the keyboard is.
unfoldable pub client_round :
    {D : Type 0} → Doubles D → Option (Option SendPayload) → Bool → Option Bytes → Step
client_round f message sent line =
    and_then (elim message [ none ↦ goes_on [] [] | some m ↦ on_message f m ])
      (elim line [ none ↦ goes_on [] [] | some buf ↦ on_line sent buf ])

-- The packet that main sends once it is connected, with its first argument; `none` where that does not
-- fit in the packet.
unfoldable pub connect_request : Bytes → Option RecvPayload
connect_request id =
    if ltb (length id) payload_size
    then some (record { command = codes "connect"; topic = id })
    else none
