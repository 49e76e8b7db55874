-- ===== src/Http/Session/Actions.antt =====
-- The calls of <stdio.h>, <string.h> and Tema_3/helpers.c that the commands make.
use teme_pcom.Prelude.{
  Bool, Bytes, List, Option, [], c_string, drop, false, if◌then◌else◌, length, none, not, set, some,
  suc, take, true, zero, ℕ, ◌++◌, ◌+◌, ◌-◌, ◌==◌, ◌||◌, ◌∷◌,
}
use teme_pcom.Http.Session.{
  stop, dangling, pure, ◌>>=◌, ◌>>◌, wild, live, waits, fault, exits, ok, ends, Action, Pointer,
}
use teme_pcom.Http.Connection.{
  Reply, receive_from_server, send_to_server, text, sends, send_exits, send_waits,
}
use teme_pcom.Http.Numbers.{ℤ, scan_int, pos}
use teme_pcom.Http.Buffer.{agrees}

unfoldable pub print : Bytes → Action (Unit {0})
print out s = (ok tt, record s { printed = s.printed ++ out })

-- The position of the first newline or NUL.
unfoldable pub strcspn : Bytes → ℕ
strcspn [] = 0
strcspn (c ∷ s) = let rest = strcspn s in if c == 0 || c == 10 then 0 else suc rest

-- line[strcspn (line, "\n")] = '\0', and the string that is there then.
abbrev pub chomp : Bytes → Bytes
chomp line = set line (strcspn line) 0

abbrev pub string_of : Bytes → Bytes
string_of line = take (strcspn line) line

-- What fgets takes: at most n bytes, up to a newline.
unfoldable pub line_at : ℕ → Bytes → Bytes
line_at zero input = []
line_at (suc n) [] = []
line_at (suc n) (c ∷ input) = let rest = line_at n input in if c == 10 then c ∷ [] else c ∷ rest

-- fgets (array, size, stdin), with what the input is; at its end nothing is written, and an array
-- that was never written to (here: []) must not be read.
unfoldable pub fgets_from : Bytes → ℕ → Bytes → Action Bytes
fgets_from [] size [] s = (ends fault, s)
fgets_from [] size (c ∷ rest) s = (ok (c ∷ rest), s)
fgets_from (d ∷ input) size array s =
    let line = line_at (size - 1) (d ∷ input) in
    (
      ok (line ++ 0 ∷ drop (length line + 1) array),
      record s { input = drop (length line) (d ∷ input) },
    )

unfoldable pub fgets : ℕ → Bytes → Action Bytes
fgets size array s = fgets_from s.input size array s

-- printf, fgets and strcspn, for an array of its own.
unfoldable pub ask : Bytes → ℕ → Action Bytes
ask prompt size = do print prompt; line ← fgets size []; pure (string_of line)

-- scanf ("%d", &x), for an int that was not set.
unfoldable pub scanf : Action ℤ
scanf s =
    let (x, rest) = scan_int s.input in
    let s' = record s { input = rest } in
    elim x [ none ↦ (ok (pos s.unset_int), s') | some n ↦ (ok n, s') ]

abbrev pub ask_int : Bytes → Action ℤ
ask_int prompt = do print prompt; scanf

unfoldable pub behind_newline : Bytes → Option Bytes
behind_newline [] = none
behind_newline (c ∷ s) = let rest = behind_newline s in if c == 10 then some s else rest

-- while (getchar () != '\n'), which does not end at the end of the input.
unfoldable pub skip_line : Action (Unit {0})
skip_line s = elim (behind_newline s.input) [
  | none ↦ (ends waits, record s { input = [] })
  | some rest ↦ (ok tt, record s { input = rest })
]

-- open_connection, which exits if connect fails.
unfoldable pub open_connection : Action (Unit {0})
open_connection s = elim s.connections [
  | [] ↦ (ends waits, s)
  | c ∷ later ↦
      let s' = record s { connections = later } in
      if c.opens then (ok tt, record s' { sockfd = some c }) else (ends exits, s')
]

unfoldable pub close_connection : Action (Unit {0})
close_connection s = (ok tt, record s { sockfd = none })

-- send_to_server; a socket that is closed is an error.
unfoldable pub send : Bytes → Action (Unit {0})
send message s = elim s.sockfd [
  | none ↦ (ends exits, s)
  | some c ↦ elim (send_to_server c.writes message) [
    | send_exits out ↦ (ends exits, record s { requests = s.requests ++ out ∷ [] })
    | send_waits out ↦ (ends waits, record s { requests = s.requests ++ out ∷ [] })
    | sends out writes ↦ (
      ok tt,
      record s { requests = s.requests ++ out ∷ []; sockfd = some (record c { writes = writes }) },
    )
  ]
]

-- receive_from_server, and the C string that it returns.
unfoldable pub receive_answer : Action Bytes
receive_answer s = elim s.sockfd [
  | none ↦ (ends exits, s)
  | some c ↦ elim (receive_from_server c.reads) [
    | Reply.exits ↦ (ends exits, s)
    | Reply.waits ↦ (ends waits, s)
    | text none reads ↦ (ends fault, s)
    | text (some reply) reads ↦
        (ok (c_string reply), record s { sockfd = some (record c { reads = reads }) })
  ]
]

-- A request is built and sent, and answered. A request that does not fit in its array is not.
unfoldable pub exchange : Option Bytes → Action Bytes
exchange none = stop fault
exchange (some message) = do send message; receive_answer

-- strstr (hay, needle) - hay
unfoldable pub strstr : Bytes → Bytes → Option ℕ
strstr [] needle = if agrees (λ c. c) needle [] then some 0 else none
strstr (c ∷ hay) needle =
    let later = strstr hay needle in
    if agrees (λ c. c) needle (c ∷ hay)
    then some 0
    else elim later [ none ↦ none | some i ↦ some (suc i) ]

-- strstr (response, text) != NULL
unfoldable pub has : Bytes → Bytes → Bool
has response needle = elim (strstr response needle) [ none ↦ false | some at ↦ true ]

-- A pointer of the session that is read if its flag is set.
unfoldable pub read_pointer : Pointer → Bool → Action (Option Bytes)
read_pointer p exists s =
    if not exists
    then (ok none, s)
    else elim p [ wild ↦ (ends dangling, s) | live c ↦ (ok (some c), s) ]

-- What the requests get for &cookies, cookies_exist, and for acces_token, acces_token_exist: a
-- pointer that is not NULL, and a count.
pub record Headers : Type 0 where
  pub cookies : Option (List Bytes)
  pub jwt_token : Option Bytes

abbrev pub cookie_list : Option Bytes → List Bytes
cookie_list none = []
cookie_list (some c) = c ∷ []

unfoldable pub headers_from : Pointer → Bool → Pointer → Bool → Action Headers
headers_from cookies cookies_exist acces_token acces_token_exist = do
  cookie ← read_pointer cookies cookies_exist
  token ← read_pointer acces_token acces_token_exist
  pure (record { cookies = some (cookie_list cookie); jwt_token = token })

unfoldable pub headers : Action Headers
headers s = headers_from s.cookies s.cookies_exist s.acces_token s.acces_token_exist s

unfoldable pub set_cookie : Bytes → Action (Unit {0})
set_cookie c s = (ok tt, record s { cookies = live c; cookies_exist = true })

unfoldable pub set_token : Bytes → Action (Unit {0})
set_token t s = (ok tt, record s { acces_token = live t; acces_token_exist = true })

-- free (cookies); cookies_exist = 0;
unfoldable pub free_cookies : Action (Unit {0})
free_cookies s = elim s.cookies [
  | wild ↦ (ends dangling, s)
  | live c ↦ (ok tt, record s { cookies = wild; cookies_exist = false })
]

-- if (cookies_exist) the same
unfoldable pub free_held_cookies : Action (Unit {0})
free_held_cookies s = if s.cookies_exist then free_cookies s else (ok tt, s)

-- if (acces_token_exist) free (acces_token); acces_token_exist = 0;
unfoldable pub free_token : Action (Unit {0})
free_token s = if not s.acces_token_exist then (ok tt, s) else elim s.acces_token [
  | wild ↦ (ends dangling, s)
  | live t ↦ (ok tt, record s { acces_token = wild; acces_token_exist = false })
]
