-- ===== src/Http/Requests/Building.antt =====
-- The requests as the code builds them, line by line, where they fit in their arrays.
use teme_pcom.Prelude.{
  All, Bytes, List, Option, [], ap, append-nil, append_assoc, arith, codes, length, length-append,
  lt→ltb, none, refl, some, subst, sym, ℕ, ◌++◌, ◌<◌, ◌∙◌, ◌∷◌, ◌≡◌,
}
use teme_pcom.Http.Requests.{
  compute_plain_request, host_line, request_line, compute_body_request, add_token, add_cookies,
  compute_message, crlf, add_line, into, linelen, buflen, ◌>>=◌,
}
use teme_pcom.Http.Requests.Framing.{
  framed, separated, joined-separated, token_lines, cookie_lines, target, header, body_kind, Short,
  Fits,
}

compute_message-append :
    (message line s : Bytes) → compute_message message line ++ s ≡ message ++ (line ++ 13 ∷ 10 ∷ s)
unfolding compute_message
compute_message-append message line s =
    append_assoc (message ++ line) crlf s ∙ append_assoc message line (13 ∷ 10 ∷ s)

framed-append : (ls ks : List Bytes) (s : Bytes) → framed (ls ++ ks) s ≡ framed ls (framed ks s)
framed-append [] ks s = refl
framed-append (l ∷ ls) ks s = ap (λ r. l ++ 13 ∷ 10 ∷ r) (framed-append ls ks s)

into-some : (size : ℕ) (s : Bytes) → length s < size → into size s ≡ some s
unfolding into
into-some size s h = rw (lt→ltb (length s) size h) refl

-- A line is added where it fits, with what comes behind it.
line_then :
    (message line rest : Bytes) (f : Bytes → Option Bytes) (all : Bytes)
    → Short line
    → length (message ++ (line ++ 13 ∷ 10 ∷ rest)) < buflen
    → (length (compute_message message line ++ rest) < buflen
        → f (compute_message message line) ≡ some all)
    → (add_line message line >>= f) ≡ some all
unfolding add_line
line_then message line rest f all short fits next =
    let fits' : length (compute_message message line ++ rest) < buflen =
      subst (λ s. length s < buflen) (sym (compute_message-append message line rest)) fits in
    let now : length (compute_message message line) < buflen =
      omega (arith, fits', length-append (compute_message message line) rest) in
    rw (add_line, into-some linelen line short, into-some buflen (compute_message message line) now)
      (next fits')

abbrev with_token : Option Bytes → Bytes → Bytes
with_token none message = message
with_token (some t) message = compute_message message (codes "Authorization: Bearer " ++ t)

abbrev with_cookies : Option (List Bytes) → Bytes → Bytes
with_cookies none message = message
with_cookies (some cs) message =
    compute_message message (codes "Cookie: " ++ separated (codes "; ") cs)

token_then :
    (token : Option Bytes) (message rest : Bytes) (f : Bytes → Option Bytes) (all : Bytes)
    → All Short (token_lines token)
    → length (message ++ framed (token_lines token) rest) < buflen
    → (length (with_token token message ++ rest) < buflen → f (with_token token message) ≡ some all)
    → (add_token token message >>= f) ≡ some all
unfolding add_token
token_then none message rest f all short fits next = next fits
token_then (some t) message rest f all short fits next =
    line_then message _ rest f all short.0 fits next

cookies_then :
    (cookies : Option (List Bytes)) (message rest : Bytes) (f : Bytes → Option Bytes) (all : Bytes)
    → All Short (cookie_lines cookies)
    → length (message ++ framed (cookie_lines cookies) rest) < buflen
    → (length (with_cookies cookies message ++ rest) < buflen
        → f (with_cookies cookies message) ≡ some all)
    → (add_cookies cookies message >>= f) ≡ some all
unfolding add_cookies
cookies_then none message rest f all short fits next = next fits
cookies_then (some cs) message rest f all short fits next =
    rw (joined-separated (codes "; ") cs) (line_then message _ rest f all short.0 fits next)

request_line-target :
    (method url : Bytes) (query_params : Option Bytes)
    → request_line method url query_params
      ≡ method ++ codes " " ++ target url query_params ++ codes " HTTP/1.1"
unfolding request_line
request_line-target method url none = refl
request_line-target method url (some q) =
    ap (λ s. s ++ codes " HTTP/1.1")
      (ap (λ s. s ++ q) (append_assoc (method ++ codes " ") url (codes "/"))
        ∙ append_assoc (method ++ codes " ") (url ++ codes "/") q)

written_token :
    (token : Option Bytes) (message s : Bytes)
    → with_token token message ++ s ≡ message ++ framed (token_lines token) s
written_token none message s = refl
written_token (some t) message s = compute_message-append message _ s

written_cookies :
    (cookies : Option (List Bytes)) (message s : Bytes)
    → with_cookies cookies message ++ s ≡ message ++ framed (cookie_lines cookies) s
written_cookies none message s = refl
written_cookies (some cs) message s = compute_message-append message _ s

All-front : (ls ks : List Bytes) → All Short (ls ++ ks) → All Short ls
All-front [] ks h = tt
All-front (l ∷ ls) ks h = (h.0, All-front ls ks h.1)

All-back : (ls ks : List Bytes) → All Short (ls ++ ks) → All Short ks
All-back [] ks h = h
All-back (l ∷ ls) ks h = All-back ls ks h.1

module _ (token : Option Bytes) (cookies : Option (List Bytes)) (body : Bytes) where
  -- The optional lines of every request, the empty line and the body.
  abbrev last : Bytes → Bytes
  last message = with_cookies cookies (with_token token message)

  last-whole :
      (message : Bytes)
      → compute_message (last message) [] ++ body
        ≡ message ++ framed (token_lines token ++ cookie_lines cookies) (13 ∷ 10 ∷ body)
  last-whole message =
      compute_message-append (last message) [] body
      ∙ written_cookies cookies (with_token token message) (13 ∷ 10 ∷ body)
      ∙ written_token token message (framed (cookie_lines cookies) (13 ∷ 10 ∷ body))
      ∙ ap (λ s. message ++ s)
          (sym (framed-append (token_lines token) (cookie_lines cookies) (13 ∷ 10 ∷ body)))

  ending_then :
      (message : Bytes) (f : Bytes → Option Bytes)
      → All Short (token_lines token ++ cookie_lines cookies)
      → length (message ++ framed (token_lines token ++ cookie_lines cookies) (13 ∷ 10 ∷ body))
        < buflen
      → (length (compute_message (last message) [] ++ body) < buflen
          → f (last message) ≡ some (compute_message (last message) [] ++ body))
      → (add_token token message >>= λ message. add_cookies cookies message >>= f)
        ≡ some (message ++ framed (token_lines token ++ cookie_lines cookies) (13 ∷ 10 ∷ body))
  ending_then message f short fits next =
      let parts = framed-append (token_lines token) (cookie_lines cookies) (13 ∷ 10 ∷ body) in
      let room : length (compute_message (last message) [] ++ body) < buflen =
        subst (λ s. length s < buflen) (sym (last-whole message)) fits in
      token_then token message _ _ _ (All-front (token_lines token) (cookie_lines cookies) short)
        (subst (λ s. length (message ++ s) < buflen) parts fits)
        (λ a.
          cookies_then cookies (with_token token message) (13 ∷ 10 ∷ body) f _
            (All-back (token_lines token) (cookie_lines cookies) short) a
            (λ b. next room ∙ ap some (last-whole message)))

finish :
    (body message : Bytes)
    → length (compute_message message [] ++ body) < buflen
    → (into buflen (compute_message message []) >>= λ message. into buflen (message ++ body))
      ≡ some (compute_message message [] ++ body)
finish body message room =
    let head : length (compute_message message []) < buflen =
      omega (arith, room, length-append (compute_message message []) body) in
    rw
      (
        into-some buflen (compute_message message []) head,
        into-some buflen (compute_message message [] ++ body) room,
      )
      refl

pub compute_body_request-framed :
    (method host url : Bytes) (query_params : Option Bytes) (content_type : Bytes)
    (body_data : List Bytes) (cookies : Option (List Bytes)) (jwt_token : Option Bytes)
    → let body = separated (codes "&") body_data in
      let lines =
        header method host url query_params (body_kind content_type body) cookies jwt_token in
      Fits lines body
      → compute_body_request method host url query_params content_type body_data cookies jwt_token
        ≡ some (framed lines (13 ∷ 10 ∷ body))
unfolding compute_body_request host_line
compute_body_request-framed method host url query_params content_type body_data cookies jwt_token
      h =
    let body : Bytes = separated (codes "&") body_data in
    let (first, (hosts, (kind, (counted, others)))) = h.lines_fit in
    let whole = h.request_fits in
    rw
      (
        joined-separated (codes "&") body_data,
        into-some linelen body h.body_fits,
        request_line-target method url query_params,
      )
      (line_then [] _ _ _ _ first whole (λ a. line_then _ _ _ _ _ hosts a (λ b.
        line_then _ _ _ _ _ kind b (λ c. line_then _ _ _ _ _ counted c (λ d.
          ending_then jwt_token cookies body _ _ others d (finish body _)
          ∙ ap some (simp (compute_message-append)))))))

pub compute_plain_request-framed :
    (method host url : Bytes) (query_params : Option Bytes) (cookies : Option (List Bytes))
    (jwt_token : Option Bytes)
    → let lines = header method host url query_params [] cookies jwt_token in
      Fits lines []
      → compute_plain_request method host url query_params cookies jwt_token
        ≡ some (framed lines (13 ∷ 10 ∷ []))
unfolding compute_plain_request host_line
compute_plain_request-framed method host url query_params cookies jwt_token h =
    let (first, (hosts, others)) = h.lines_fit in
    rw (request_line-target method url query_params) (
      line_then [] _ _ _ _ first h.request_fits (λ a. line_then _ _ _ _ _ hosts a (λ b.
        ending_then jwt_token cookies [] _ _ others b (λ room.
          let bare = append-nil (compute_message (last jwt_token cookies [] _) []) in
          into-some buflen _ (subst (λ s. length s < buflen) bare room) ∙ ap some (sym bare))
        ∙ ap some (simp (compute_message-append)))))
