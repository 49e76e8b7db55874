-- ===== src/Http/Session/Safe.antt =====
-- The actions that the commands are made of, and the session's invariant.
use teme_pcom.Prelude.{
  true, Bool, Bool-cases, Bytes, List, Option, Option-cases, [], ap, arith, inl, inr, length, none,
  refl, some, ℕ, ◌-◌, ◌∷◌, ◌≡◌, ◌≤◌,
}
use teme_pcom.Http.Session.{fault, Session, Connection}
use teme_pcom.Http.Session.Keeps.{Keeps-bind, Keeps-stop, Keeps, is_clean, keeps_rules}
use teme_pcom.Http.Session.Tidy.{
  Tidy, Untouched, Untouched-Keeps, length-drop-le, length-scan_int, behind_newline-shrinks,
}
use teme_pcom.Http.Session.Actions.{
  exchange, print, fgets, fgets_from, line_at, ask, scanf, skip_line, open_connection,
  close_connection, send, receive_answer, behind_newline,
}
use teme_pcom.Http.Numbers.{scan_int}
use teme_pcom.Http.Connection.{
  Reply, SendReply, receive_from_server, send_to_server, text, sends, send_exits, send_waits,
}

-- A change of the fields that Untouched does not name.
quiet :
    {s : Session} {input printed command : Bytes} {connections : List Connection}
    {sockfd : Option Connection} {requests : List Bytes}
    → length input ≤ length s.input
    → Untouched s (record s {
      input = input;
      printed = printed;
      connections = connections;
      sockfd = sockfd;
      requests = requests;
      command = command;
    })
quiet shorter = record {
  cookies_same = refl;
  cookies_flag = refl;
  token_same = refl;
  token_flag = refl;
  shrinks = shorter;
}

fgets_from-Untouched :
    (w : Bool) (size : ℕ) (array : Bytes) (s : Session) (input : Bytes)
    → s.input ≡ input
    → Untouched s (fgets_from input size array s).1
      × (is_clean w (fgets_from input size array s).0 ≡ true)
unfolding fgets_from
fgets_from-Untouched w size [] s [] e = (quiet (omega arith), refl)
fgets_from-Untouched w size (c ∷ rest) s [] e = (quiet (omega arith), refl)
fgets_from-Untouched w size array s (d ∷ input) e =
    let len = length-drop-le (length (line_at (size - 1) (d ∷ input))) (d ∷ input) in
    (quiet (omega (arith, len, ap length e)), refl)

open_connection-Untouched :
    (w : Bool) (s : Session) (connections : List Connection)
    → s.connections ≡ connections
    → Untouched s (open_connection s).1 × (is_clean w (open_connection s).0 ≡ true)
unfolding open_connection
open_connection-Untouched w s [] e = rw (open_connection, e) (quiet (omega arith), refl)
open_connection-Untouched w s (c ∷ later) e = elim (Bool-cases c.opens) [
  | inl t ↦ rw (open_connection, e, t) (quiet (omega arith), refl)
  | inr f ↦ rw (open_connection, e, f) (quiet (omega arith), refl)
]

send_on-Untouched :
    (w : Bool) (message : Bytes) (s : Session) (c : Connection) (r : SendReply)
    → s.sockfd ≡ some c
    → send_to_server c.writes message ≡ r
    → Untouched s (send message s).1 × (is_clean w (send message s).0 ≡ true)
unfolding send
send_on-Untouched w message s c (send_exits out) e q = rw (send, e, q) (quiet (omega arith), refl)
send_on-Untouched w message s c (send_waits out) e q = rw (send, e, q) (quiet (omega arith), refl)
send_on-Untouched w message s c (sends out writes) e q = rw (send, e, q) (quiet (omega arith), refl)

receive_on-Untouched :
    (w : Bool) (s : Session) (c : Connection) (r : Reply)
    → s.sockfd ≡ some c
    → receive_from_server c.reads ≡ r
    → Untouched s (receive_answer s).1 × (is_clean w (receive_answer s).0 ≡ true)
unfolding receive_answer
receive_on-Untouched w s c Reply.exits e q = rw (receive_answer, e, q) (quiet (omega arith), refl)
receive_on-Untouched w s c Reply.waits e q = rw (receive_answer, e, q) (quiet (omega arith), refl)
receive_on-Untouched w s c (text none reads) e q =
    rw (receive_answer, e, q) (quiet (omega arith), refl)
receive_on-Untouched w s c (text (some reply) reads) e q =
    rw (receive_answer, e, q) (quiet (omega arith), refl)

module _ {w held : Bool} {n : ℕ} where
  pub print-Keeps : (out : Bytes) → Keeps w (Tidy held n) (print out)
  unfolding print
  print-Keeps out = Untouched-Keeps (print out) (λ s. (quiet (omega arith), refl))

  pub fgets-Keeps : (size : ℕ) (array : Bytes) → Keeps w (Tidy held n) (fgets size array)
  unfolding fgets
  fgets-Keeps size array =
      Untouched-Keeps (fgets size array) (λ s. fgets_from-Untouched w size array s s.input refl)

  pub ask-Keeps : (prompt : Bytes) (size : ℕ) → Keeps w (Tidy held n) (ask prompt size)
  unfolding ask
  ask-Keeps prompt size = search (keeps_rules, print-Keeps, fgets-Keeps)

  pub scanf-Keeps : Keeps w (Tidy held n) scanf
  unfolding scanf
  scanf-Keeps = Untouched-Keeps scanf (λ s. elim (Option-cases (scan_int s.input).0) [
    | inl e ↦ rw (scanf, e) (quiet (length-scan_int s.input), refl)
    | inr (x, e) ↦ rw (scanf, e) (quiet (length-scan_int s.input), refl)
  ])

  pub skip_line-Keeps : Keeps w (Tidy held n) skip_line
  unfolding skip_line
  skip_line-Keeps = Untouched-Keeps skip_line (λ s. elim (Option-cases (behind_newline s.input)) [
    | inl e ↦ rw (skip_line, e) (quiet (omega arith), refl)
    | inr (rest, e) ↦ rw (skip_line, e) (quiet (behind_newline-shrinks s.input rest e), refl)
  ])

  pub open_connection-Keeps : Keeps w (Tidy held n) open_connection
  open_connection-Keeps =
      Untouched-Keeps open_connection (λ s. open_connection-Untouched w s s.connections refl)

  pub close_connection-Keeps : Keeps w (Tidy held n) close_connection
  unfolding close_connection
  close_connection-Keeps = Untouched-Keeps close_connection (λ s. (quiet (omega arith), refl))

  send-Keeps : (message : Bytes) → Keeps w (Tidy held n) (send message)
  unfolding send
  send-Keeps message = Untouched-Keeps (send message) (λ s. elim (Option-cases s.sockfd) [
    | inl e ↦ rw (send, e) (quiet (omega arith), refl)
    | inr (c, e) ↦ send_on-Untouched w message s c (send_to_server c.writes message) e refl
  ])

  receive_answer-Keeps : Keeps w (Tidy held n) receive_answer
  unfolding receive_answer
  receive_answer-Keeps = Untouched-Keeps receive_answer (λ s. elim (Option-cases s.sockfd) [
    | inl e ↦ rw (receive_answer, e) (quiet (omega arith), refl)
    | inr (c, e) ↦ receive_on-Untouched w s c (receive_from_server c.reads) e refl
  ])

  pub exchange-Keeps : (message : Option Bytes) → Keeps w (Tidy held n) (exchange message)
  unfolding exchange
  exchange-Keeps none = Keeps-stop fault refl
  exchange-Keeps (some message) = Keeps-bind _ _ (send-Keeps message) (λ u. receive_answer-Keeps)
