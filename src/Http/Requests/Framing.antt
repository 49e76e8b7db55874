-- ===== src/Http/Requests/Framing.antt =====
-- The requests read back: the header lines up to the empty one, and the body behind it.
use teme_pcom.Prelude.{
  All, Bytes, List, Option, [], ap, append-nil, append_assoc, arith, codes, false, length, none,
  refl, some, sym, true, ◌&&◌, ◌++◌, ◌<◌, ◌==◌, ◌∙◌, ◌∷◌, ◌≡◌, ◌≢◌,
}
use teme_pcom.Http.Requests.{joined, linelen, buflen}
use teme_pcom.Http.Requests.Decimal.{print_decimal, NoCr}

-- An independent reader: the line that is open, then the lines, then the body; none where no empty
-- line ends the header.
abbrev end_line : Bytes → Option (List Bytes × Bytes) → Bytes → Option (List Bytes × Bytes)
end_line [] more s = some ([], s)
end_line (c ∷ line) none s = none
end_line (c ∷ line) (some (lines, body)) s = some ((c ∷ line) ∷ lines, body)

unfoldable pub read_lines : Bytes → Bytes → Option (List Bytes × Bytes)
read_lines line [] = none
read_lines line (c ∷ []) = none
read_lines line (c ∷ d ∷ s) = elim (c == 13 && d == 10) [
  | true ↦ end_line line (read_lines [] s) s
  | false ↦ read_lines (line ++ c ∷ []) (d ∷ s)
]

unfoldable pub read_request : Bytes → Option (List Bytes × Bytes)
read_request = read_lines []

-- A header line: it has a first byte, and no carriage return.
abbrev pub IsLine : Bytes → Type 0
IsLine l = (l ≢ []) × NoCr l

read_lines-line :
    (line l s : Bytes)
    → NoCr l
    → read_lines line (l ++ 13 ∷ 10 ∷ s) ≡ read_lines (line ++ l) (13 ∷ 10 ∷ s)
unfolding read_lines
read_lines-line line [] s h = ap (λ k. read_lines k (13 ∷ 10 ∷ s)) (sym (append-nil line))
read_lines-line line (c ∷ []) s h = ground (arith)
read_lines-line line (c ∷ d ∷ l) s h =
    ground
      (arith, read_lines-line (line ++ c ∷ []) (d ∷ l) s h.1, append_assoc line (c ∷ []) (d ∷ l))

-- Every line followed by its CRLF.
abbrev pub framed : List Bytes → Bytes → Bytes
framed [] s = s
framed (l ∷ ls) s = l ++ 13 ∷ 10 ∷ framed ls s

read_lines-crlf :
    (line s : Bytes) → read_lines line (13 ∷ 10 ∷ s) ≡ end_line line (read_lines [] s) s
unfolding read_lines
read_lines-crlf line s = refl

-- Lines that end in CRLF, then an empty one, are read back.
pub read_request-framed :
    (ls : List Bytes) (body : Bytes)
    → All IsLine ls
    → read_request (framed ls (13 ∷ 10 ∷ body)) ≡ some (ls, body)
unfolding read_request
read_request-framed [] body h = read_lines-crlf [] body
read_request-framed ([] ∷ ls) body h = absurd (h.0.0 refl)
read_request-framed ((c ∷ l) ∷ ls) body h =
    let rest : Bytes = framed ls (13 ∷ 10 ∷ body) in
    read_lines-line [] (c ∷ l) rest h.0.1
    ∙ read_lines-crlf (c ∷ l) rest
    ∙ ap (λ m. end_line (c ∷ l) m rest) (read_request-framed ls body h.1)

-- The strings with a separator in front of all but the first.
abbrev pub behind : Bytes → List Bytes → Bytes
behind sep [] = []
behind sep (c ∷ cs) = sep ++ (c ++ behind sep cs)

abbrev pub separated : Bytes → List Bytes → Bytes
separated sep [] = []
separated sep (c ∷ cs) = c ++ behind sep cs

pub joined-separated : (sep : Bytes) (cs : List Bytes) → joined sep cs ≡ separated sep cs
unfolding joined
joined-separated sep [] = refl
joined-separated sep (c ∷ []) = sym (append-nil c)
joined-separated sep (c ∷ d ∷ cs) =
    append_assoc c sep (joined sep (d ∷ cs))
    ∙ ap (λ s. c ++ (sep ++ s)) (joined-separated sep (d ∷ cs))

abbrev pub token_lines : Option Bytes → List Bytes
token_lines none = []
token_lines (some jwt_token) = (codes "Authorization: Bearer " ++ jwt_token) ∷ []

abbrev pub cookie_lines : Option (List Bytes) → List Bytes
cookie_lines none = []
cookie_lines (some cookies) = (codes "Cookie: " ++ separated (codes "; ") cookies) ∷ []

-- The URL and the parameters, behind the method.
abbrev pub target : Bytes → Option Bytes → Bytes
target url none = url
target url (some query_params) = url ++ codes "/" ++ query_params

-- The header of a request, line by line; `kind` has the lines that only some requests have.
abbrev pub header :
    Bytes
    → Bytes
    → Bytes
    → Option Bytes
    → List Bytes
    → Option (List Bytes)
    → Option Bytes
    → List Bytes
header method host url query_params kind cookies jwt_token =
    (method ++ codes " " ++ target url query_params ++ codes " HTTP/1.1")
    ∷ (codes "Host: " ++ host)
    ∷ (kind ++ (token_lines jwt_token ++ cookie_lines cookies))

abbrev pub body_kind : Bytes → Bytes → List Bytes
body_kind content_type body =
    (codes "Content-Type: " ++ content_type)
    ∷ (codes "Content-Length: " ++ print_decimal (length body))
    ∷ []

-- Lines that fit in their array, and a request that fits in its own.
abbrev pub Short : Bytes → Type 0
Short l = length l < linelen

pub record Fits (lines : List Bytes) (body : Bytes) : Type 0 where
  pub lines_fit : All Short lines
  pub body_fits : Short body
  pub request_fits : length (framed lines (13 ∷ 10 ∷ body)) < buflen
