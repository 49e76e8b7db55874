-- ===== src/Http/Connection/Response.antt =====
-- The response as it comes in, in chunks of any size.
use teme_pcom.Prelude.{
  min, ◌%◌, ◌^◌, All, Bool-cases, Bytes, List, Option, [], ap, append-nil, append_assoc, arith,
  drop, false, inl, inr, length, length-append, ltb, ltb→lt, lt→ltb, none, refl, some, subst, suc,
  sym, true, zero, ℕ, ◌++◌, ◌+◌, ◌-◌, ◌<◌, ◌∙◌, ◌∷◌, ◌≡◌, ◌≢◌, ◌≤◌,
}
use teme_pcom.Http.Connection.{
  end_of_file, content_length_name, read_failed, is_short, int_as_size, length_at, read_rest,
  receive_from_server, terminated, header_terminator, read_header, ReadCall, gave, text,
}
use teme_pcom.Http.Buffer.{
  buffer_find_insensitive, buffer_find, buffer_init, tolower, buffer_add, Buffer, bytes_of, size,
}
use teme_pcom.Http.Buffer.First.{
  FindsFirst, buffer_find-FindsFirst, buffer_find_insensitive-FindsFirst,
}
use teme_pcom.Http.Connection.Prefixes.{holding, FindsFirst-front, FindsFirst-none}
use teme_pcom.Http.Requests.Decimal.{print_decimal, strtol, strtol-print_decimal_cr}

-- A whole response: its header ends at the first empty line, and the first Content-Length stands
-- in the header, with the number of the bytes behind it.
pub record IsResponse (reply : Bytes) : Type 0 where
  pub header_at : ℕ
  pub name_at : ℕ
  pub body_length : ℕ
  pub others : Bytes
  pub ends : FindsFirst (λ c. c) (holding reply) header_terminator (some header_at)
  pub named : FindsFirst tolower (holding reply) content_length_name (some name_at)
  pub value : drop (name_at + 16) reply ≡ print_decimal body_length ++ 13 ∷ others
  pub inside : name_at + 16 + length (print_decimal body_length) < header_at + 4
  pub whole : length reply ≡ header_at + 4 + body_length
  -- the length is an int
  pub sized : length reply < 2 ^ 31

abbrev pub concat : List Bytes → Bytes
concat [] = []
concat (c ∷ chunks) = c ++ concat chunks

-- The chunks as read gives them, and what it gives later.
abbrev pub reads : List Bytes → List ReadCall → List ReadCall
reads [] more = more
reads (c ∷ chunks) more = gave c ∷ reads chunks more

ne-length : (c : Bytes) → c ≢ [] → 0 < length c
ne-length [] h = absurd (h refl)
ne-length (b ∷ c) h = omega arith

-- The part of the text behind a position, as far as it has come in.
drop-front :
    (k : ℕ) (front back : Bytes) → k ≤ length front → drop k front ++ back ≡ drop k (front ++ back)
drop-front zero front back h = refl
drop-front (suc k) [] back h = absurd (omega arith)
drop-front (suc k) (c ∷ front) back h = drop-front k front back (omega arith)

length-drop : (k : ℕ) (s : Bytes) → length (drop k s) ≡ length s - k
length-drop zero s = omega arith
length-drop (suc k) [] = omega arith
length-drop (suc k) (c ∷ s) = omega (arith, length-drop k s)

-- A text that goes on with `back` begins with the digits and the carriage return, if it is as long.
begins_with :
    (digits front back others : Bytes)
    → front ++ back ≡ digits ++ 13 ∷ others
    → length digits < length front
    → (left : Bytes) × (front ≡ digits ++ 13 ∷ left)
begins_with [] [] back others e h = absurd (omega arith)
begins_with [] (c ∷ front) back others e h = (front, cc)
begins_with (d ∷ digits) [] back others e h = absurd (omega arith)
begins_with (d ∷ digits) (c ∷ front) back others e h =
    let (left, same) = begins_with digits front back others (cc) (omega arith) in (left, cc)

int_as_size-small : (n : ℕ) → n < 2 ^ 31 → int_as_size n ≡ n
unfolding int_as_size
int_as_size-small n h =
    let low : min n (2 ^ 63 - 1) % 2 ^ 32 ≡ n = omega (arith, h) in
    let test : ltb n (2 ^ 31) ≡ true = ground arith in rw (low, test) refl

length_at-IsResponse :
    (reply back : Bytes) (b : Buffer) (r : IsResponse reply)
    → bytes_of b ++ back ≡ reply
    → r.header_at + 4 ≤ size b
    → length_at b r.name_at ≡ r.body_length
length_at-IsResponse reply back b r e le =
    let k : ℕ = r.name_at + 16 in
    let in_front = drop-front k (bytes_of b) back (omega (arith, r.inside)) in
    let digits = print_decimal r.body_length in
    let (left, same) =
      begins_with digits (drop k (bytes_of b)) back r.others (in_front ∙ ap (drop k) e ∙ r.value)
        (omega (arith, r.inside, length-drop k (bytes_of b))) in
    ap int_as_size (ap strtol same ∙ strtol-print_decimal_cr r.body_length left)
    ∙ int_as_size-small r.body_length (omega (arith, r.whole, r.sized))

-- A buffer that has the total is returned, whatever read would give.
read_rest-full :
    (more : List ReadCall) (total_size : ℕ) (b : Buffer)
    → size b ≡ total_size
    → read_rest more (some total_size) b ≡ text (some (bytes_of b ++ 0 ∷ [])) more
unfolding read_rest is_short terminated buffer_add
read_rest-full [] n b h = let full : ltb (size b) n ≡ false = ground arith in rw full refl
read_rest-full (read_failed ∷ more) n b h =
    let full : ltb (size b) n ≡ false = ground arith in rw full refl
read_rest-full (end_of_file ∷ more) n b h =
    let full : ltb (size b) n ≡ false = ground arith in rw full refl
read_rest-full (gave c ∷ more) n b h =
    let full : ltb (size b) n ≡ false = ground arith in rw full refl

read_rest-reads :
    (chunks : List Bytes) (more : List ReadCall) (reply : Bytes) (b : Buffer)
    → All (λ c. c ≢ []) chunks
    → bytes_of b ++ concat chunks ≡ reply
    → read_rest (reads chunks more) (some (length reply)) b ≡ text (some (reply ++ 0 ∷ [])) more
unfolding read_rest is_short buffer_add
read_rest-reads [] more reply b h e =
    let same : bytes_of b ≡ reply = sym (append-nil (bytes_of b)) ∙ e in
    read_rest-full more (length reply) b (ap length same)
    ∙ ap (λ s. text (some (s ++ 0 ∷ [])) more) same
read_rest-reads (c ∷ chunks) more reply b h e =
    let grows = ne-length c h.0 in
    let total_length = ap length (sym e) ∙ length-append (bytes_of b) (c ++ concat chunks) in
    let parts = length-append c (concat chunks) in
    let short : ltb (size b) (length reply) ≡ true = lt→ltb _ _ (omega arith) in
    rw short (
      read_rest-reads chunks more reply (buffer_add b c) h.1
        (append_assoc (bytes_of b) c (concat chunks) ∙ e))

read_header-reads :
    (chunks : List Bytes) (more : List ReadCall) (reply : Bytes) (header_end : Option ℕ)
    (b : Buffer) (r : IsResponse reply)
    → All (λ c. c ≢ []) chunks
    → bytes_of b ++ concat chunks ≡ reply
    → size b < r.header_at + 4
    → read_header (reads chunks more) header_end b ≡ text (some (reply ++ 0 ∷ [])) more
unfolding read_header buffer_add
read_header-reads [] more reply header_end b r h e lt =
    let same : bytes_of b ≡ reply = sym (append-nil (bytes_of b)) ∙ e in
    absurd (omega (arith, ap length same, r.whole))
read_header-reads (c ∷ chunks) more reply header_end b r h e lt =
    let b' : Buffer = holding (bytes_of b ++ c) in
    let split : (bytes_of b ++ c) ++ concat chunks ≡ reply =
      append_assoc (bytes_of b) c (concat chunks) ∙ e in
    let ends =
      subst (λ s. FindsFirst (λ c. c) (holding s) header_terminator (some r.header_at)) (sym split)
        r.ends in
    let named =
      subst (λ s. FindsFirst tolower (holding s) content_length_name (some r.name_at)) (sym split)
        r.named in
    elim (Bool-cases (ltb (size b') (r.header_at + 4))) [
      | inl t ↦
          let missing =
            FindsFirst-none (λ c. c) header_terminator (bytes_of b ++ c) (concat chunks) r.header_at
              (buffer_find b' header_terminator) ends (ltb→lt _ _ t)
              (buffer_find-FindsFirst b' header_terminator) in
          rw (read_header, missing)
            (read_header-reads chunks more reply none b' r h.1 split (ltb→lt _ _ t))
      | inr f ↦
          let le : r.header_at + 4 ≤ size b' = ground arith in
          let there =
            FindsFirst-front (λ c. c) header_terminator (bytes_of b ++ c) (concat chunks)
              r.header_at (buffer_find b' header_terminator) ends le
              (buffer_find-FindsFirst b' header_terminator) in
          let name_there =
            FindsFirst-front tolower content_length_name (bytes_of b ++ c) (concat chunks) r.name_at
              (buffer_find_insensitive b' content_length_name) named (omega (arith, r.inside))
              (buffer_find_insensitive-FindsFirst b' content_length_name) in
          let number = length_at-IsResponse reply (concat chunks) b' r split le in
          let total_size : (r.body_length + (r.header_at + 4)) % 2 ^ 64 ≡ length reply =
            omega (arith, r.whole, r.sized) in
          rw (read_header, there, name_there, number, total_size)
            (read_rest-reads chunks more reply b' h.1 split)
    ]

-- A whole response of less than 2^31 bytes that comes in on an open connection, cut up in any way, is returned whole with a
-- NUL behind it, without a further read: what later calls return is left.
pub receive_from_server-IsResponse :
    (chunks : List Bytes) (more : List ReadCall)
    → All (λ c. c ≢ []) chunks
    → IsResponse (concat chunks)
    → receive_from_server (reads chunks more) ≡ text (some (concat chunks ++ 0 ∷ [])) more
unfolding receive_from_server buffer_init
receive_from_server-IsResponse chunks more h r =
    read_header-reads chunks more (concat chunks) (some 0) buffer_init r h refl (omega arith)
