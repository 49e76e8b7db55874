-- ===== src/Http/Requests/RoundTrip.antt =====
-- Reading back requests that are made of fields without carriage returns.
use teme_pcom.Prelude.{
  get_or, drop, All, All-append, Bytes, List, Option, [], arith, codes, length, none, refl, some,
  ◌++◌, ◌∷◌, ◌≡◌, ◌≢◌,
}
use teme_pcom.Http.Requests.{compute_plain_request, compute_body_request}
use teme_pcom.Http.Requests.Building.{compute_body_request-framed, compute_plain_request-framed}
use teme_pcom.Http.Requests.Framing.{
  header, body_kind, Fits, framed, separated, behind, target, read_request-framed, cookie_lines,
  read_request, token_lines, IsLine,
}
use teme_pcom.Http.Requests.Decimal.{
  strtol-print_decimal, print_decimal-NoCr, print_decimal, strtol, NoCr,
}

-- The property, where there is a value.
abbrev pub IfSome {ℓ} : {A : Type ℓ} → (A → Type 0) → Option A → Type 0
IfSome P none = Unit
IfSome P (some a) = P a

append_ne_nil : (xs ys : Bytes) → xs ≢ [] → xs ++ ys ≢ []
append_ne_nil [] ys h e = h refl
append_ne_nil (x ∷ xs) ys h e = absurd (cc)

IsLine-append : (xs ys : Bytes) → IsLine xs → NoCr ys → IsLine (xs ++ ys)
IsLine-append xs ys h k = (append_ne_nil xs ys h.0, All-append (λ c. c ≢ 13) xs ys h.1 k)

-- A C string without carriage returns.
abbrev pub IsText : Bytes → Type 0
IsText = All (λ c. (c ≢ 13) × (c ≢ 0))

-- A C string.
abbrev pub IsString : Bytes → Type 0
IsString = All (λ c. c ≢ 0)

IsText-NoCr : (s : Bytes) → IsText s → NoCr s
IsText-NoCr [] h = tt
IsText-NoCr (c ∷ s) h = (h.0.0, IsText-NoCr s h.1)

behind-NoCr : (sep : Bytes) (cs : List Bytes) → NoCr sep → All IsText cs → NoCr (behind sep cs)
behind-NoCr sep [] hs h = tt
behind-NoCr sep (c ∷ cs) hs h =
    All-append (λ b. b ≢ 13) sep (c ++ behind sep cs) hs
      (All-append (λ b. b ≢ 13) c (behind sep cs) (IsText-NoCr c h.0) (behind-NoCr sep cs hs h.1))

separated-NoCr :
    (sep : Bytes) (cs : List Bytes) → NoCr sep → All IsText cs → NoCr (separated sep cs)
separated-NoCr sep [] hs h = tt
separated-NoCr sep (c ∷ cs) hs h =
    All-append (λ b. b ≢ 13) c (behind sep cs) (IsText-NoCr c h.0) (behind-NoCr sep cs hs h.1)

target-NoCr :
    (url : Bytes) (query_params : Option Bytes)
    → IsText url
    → IfSome IsText query_params
    → NoCr (target url query_params)
target-NoCr url none hu hq = IsText-NoCr url hu
target-NoCr url (some q) hu hq =
    All-append (λ b. b ≢ 13) (url ++ codes "/") q
      (All-append (λ b. b ≢ 13) url (codes "/") (IsText-NoCr url hu) (omega arith))
      (IsText-NoCr q hq)

first-IsLine :
    (method url : Bytes) (query_params : Option Bytes)
    → method ≢ []
    → IsText method
    → IsText url
    → IfSome IsText query_params
    → IsLine (method ++ codes " " ++ target url query_params ++ codes " HTTP/1.1")
first-IsLine method url query_params he hm hu hq =
    IsLine-append ((method ++ codes " ") ++ target url query_params) (codes " HTTP/1.1")
      (IsLine-append (method ++ codes " ") (target url query_params)
        (IsLine-append method (codes " ") (he, IsText-NoCr method hm) (omega arith))
        (target-NoCr url query_params hu hq))
      (omega arith)

-- The optional lines.
cookie_lines-IsLine :
    (cookies : Option (List Bytes))
    → IfSome (All IsText) cookies
    → All IsLine (cookie_lines cookies)
cookie_lines-IsLine none hc = tt
cookie_lines-IsLine (some cs) hc =
    let value = separated-NoCr (codes "; ") cs (omega arith) hc in
    (
      IsLine-append (codes "Cookie: ") (separated (codes "; ") cs) ((λ e. cc), omega arith) value,
      tt,
    )

tail-IsLine :
    (token : Option Bytes) (cookies : Option (List Bytes))
    → IfSome IsText token
    → IfSome (All IsText) cookies
    → All IsLine (token_lines token ++ cookie_lines cookies)
tail-IsLine none cookies ht hc = cookie_lines-IsLine cookies hc
tail-IsLine (some t) cookies ht hc = (
  IsLine-append (codes "Authorization: Bearer ") t ((λ e. cc), omega arith) (IsText-NoCr t ht),
  cookie_lines-IsLine cookies hc,
)

-- The fields of a request are C strings without carriage returns, and there is a method.
pub record IsClean (method host url : Bytes) (query_params : Option Bytes)
    (cookies : Option (List Bytes)) (jwt_token : Option Bytes) : Type 0 where
  pub has_method : method ≢ []
  pub method_clean : IsText method
  pub host_clean : IsText host
  pub url_clean : IsText url
  pub query_clean : IfSome IsText query_params
  pub cookies_clean : IfSome (All IsText) cookies
  pub token_clean : IfSome IsText jwt_token

header-IsLine :
    (method host url : Bytes) (query_params : Option Bytes) (kind : List Bytes)
    (cookies : Option (List Bytes)) (jwt_token : Option Bytes)
    → IsClean method host url query_params cookies jwt_token
    → All IsLine kind
    → All IsLine (header method host url query_params kind cookies jwt_token)
header-IsLine method host url query_params kind cookies jwt_token h k = (
  first-IsLine method url query_params h.has_method h.method_clean h.url_clean h.query_clean,
  (
    IsLine-append (codes "Host: ") host ((λ e. cc), omega arith) (IsText-NoCr host h.host_clean),
    All-append IsLine kind _ k (tail-IsLine jwt_token cookies h.token_clean h.cookies_clean),
  ),
)

-- Where the fields are C strings without carriage returns, the method is not empty, the fields of
-- the body are C strings, and the header's lines, the body and the whole fit in their arrays of 1000,
-- 1000 and 4096 bytes, a request with a body is built, and reads back as its header lines, among them
-- the Content-Length, whose number strtol reads as the length of the body, and the body behind the
-- empty line.
pub read_request-compute_body_request :
    (method host url : Bytes) (query_params : Option Bytes) (content_type : Bytes)
    (body_data : List Bytes) (cookies : Option (List Bytes)) (jwt_token : Option Bytes)
    → IsClean method host url query_params cookies jwt_token
    → IsText content_type
    → All IsString body_data
    → let body = separated (codes "&") body_data in
      let lines =
        header method host url query_params (body_kind content_type body) cookies jwt_token in
      Fits lines body
      → (request : Bytes) × (compute_body_request method host url query_params content_type
            body_data cookies jwt_token
          ≡ some request)
        × (read_request request ≡ some (lines, body))
        × (strtol (drop 16 (get_or lines 3 [])) ≡ length body)
read_request-compute_body_request method host url query_params content_type body_data cookies
      jwt_token h hc strings fits =
    let body : Bytes = separated (codes "&") body_data in
    let number = print_decimal (length body) in
    let lines : List Bytes =
      header method host url query_params (body_kind content_type body) cookies jwt_token in
    let typed =
      IsLine-append (codes "Content-Type: ") content_type ((λ e. cc), omega arith)
        (IsText-NoCr content_type hc) in
    let counted =
      IsLine-append (codes "Content-Length: ") number ((λ e. cc), omega arith)
        (print_decimal-NoCr (length body)) in
    (
      framed lines (13 ∷ 10 ∷ body),
      compute_body_request-framed method host url query_params content_type body_data cookies
          jwt_token fits,
      read_request-framed lines body (
          header-IsLine method host url query_params (body_kind content_type body) cookies jwt_token
            h (typed, (counted, tt))),
      strtol-print_decimal (length body),
    )

-- Where the fields are C strings without carriage returns, the method is not empty, and the header's
-- lines and the whole fit in their arrays of 1000 and 4096 bytes, a request without a body is built,
-- and reads back as its header lines, with nothing behind the empty line.
pub read_request-compute_plain_request :
    (method host url : Bytes) (query_params : Option Bytes) (cookies : Option (List Bytes))
    (jwt_token : Option Bytes)
    → IsClean method host url query_params cookies jwt_token
    → let lines = header method host url query_params [] cookies jwt_token in
      Fits lines []
      → (request : Bytes) × (compute_plain_request method host url query_params cookies jwt_token
          ≡ some request)
        × (read_request request ≡ some (lines, []))
read_request-compute_plain_request method host url query_params cookies jwt_token h fits =
    let lines : List Bytes = header method host url query_params [] cookies jwt_token in
    (
      framed lines (13 ∷ 10 ∷ []),
      compute_plain_request-framed method host url query_params cookies jwt_token fits,
      read_request-framed lines []
          (header-IsLine method host url query_params [] cookies jwt_token h tt),
    )
