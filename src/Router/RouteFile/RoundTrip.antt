-- ===== src/Router/RouteFile/RoundTrip.antt =====
-- The text of a table of routes gives the table.
use teme_pcom.Prelude.{
  ap₂, c_string, ◌==◌, All, All-append, Bool, Bytes, List, [], ap, append-nil, append_assoc, arith,
  codes, false, length, length-append, ltb, map, refl, set, sym, true, ℕ, ◌*◌, ◌++◌, ◌+◌, ◌<◌, ◌∙◌,
  ◌∷◌, ◌≡◌, ◌≤◌,
}
use teme_pcom.Http.Numbers.{ℤ, pos, print_int}
use teme_pcom.Http.Numbers.Bounds.{printed, EndsNumber, strtol_end-print_int, to_int-same}
use teme_pcom.Http.Requests.Decimal.{print_decimal, is_digit}
use teme_pcom.Router.Checksum.{AreBytes}
use teme_pcom.Router.RouteFile.{
  lines_from, read_rtable, read_rows, is_separator, with_token, strtok_from, atoi, low_byte, Row,
  set_field, set_fields,
}
use teme_pcom.Router.RouteFile.Lines.{
  lines_from-line, c_string-same, IsDigits, print_decimal-IsDigits, length-print_decimal,
  strtok_from-word, strtok_from-last,
}

-- Three addresses with dots, a blank behind each.
abbrev separators : Bytes
separators = codes "... ... ... "

abbrev pub print_fields : Bytes → Bytes → Bytes
print_fields [] seps = []
print_fields (b ∷ bytes) [] = []
print_fields (b ∷ bytes) (s ∷ seps) = print_decimal b ++ s ∷ print_fields bytes seps

abbrev pub print_body : Bytes × ℕ → Bytes
print_body (bytes, k) = print_fields bytes separators ++ print_decimal k

-- A line of the file for a row: its twelve bytes and its interface.
abbrev pub print_rows : List (Bytes × ℕ) → Bytes
print_rows [] = []
print_rows (row ∷ rows) = print_body row ++ 10 ∷ print_rows rows

abbrev pub IsRow : Bytes × ℕ → Type 0
IsRow (bytes, k) = (length bytes ≡ 12) × AreBytes bytes × (k < 1000)

abbrev pub row_of : Bytes × ℕ → Row
row_of (bytes, k) = record { addresses = bytes; interface = pos k }

atoi-print :
    (n : ℕ) (rest : Bytes) → n < 1000 → EndsNumber rest → atoi (print_decimal n ++ rest) ≡ pos n
unfolding atoi print_int
atoi-print n rest h end =
    rw (atoi, strtol_end-print_int (pos n) rest (omega (arith, h)) end)
      (to_int-same (pos n) (omega (arith, h)))

-- Of a word of digits no byte is special.
IsDigits-All :
    (p : ℕ → Bool)
    → ((c : ℕ) → is_digit c ≡ true → p c ≡ false)
    → (s : Bytes) → IsDigits s
    → All (λ c. p c ≡ false) s
IsDigits-All p f [] h = tt
IsDigits-All p f (c ∷ s) h = (f c h.0, IsDigits-All p f s h.1)

module _ (p : ℕ → Bool) (digits : (c : ℕ) → is_digit c ≡ true → p c ≡ false) where
  print_fields-All :
      (bytes seps : Bytes)
      → All (λ c. p c ≡ false) seps
      → All (λ c. p c ≡ false) (print_fields bytes seps)
  print_fields-All [] seps h = tt
  print_fields-All (b ∷ bytes) [] h = tt
  print_fields-All (b ∷ bytes) (s ∷ seps) h =
      All-append _ (print_decimal b) (s ∷ print_fields bytes seps)
        (IsDigits-All p digits (print_decimal b) (print_decimal-IsDigits b))
        (h.0, print_fields-All bytes seps h.1)

length-print_fields :
    (bytes seps : Bytes) → AreBytes bytes → length (print_fields bytes seps) ≤ 4 * length seps
length-print_fields [] seps h = omega arith
length-print_fields (b ∷ bytes) [] h = omega arith
length-print_fields (b ∷ bytes) (s ∷ seps) h = omega (
  arith,
  length-append (print_decimal b) (s ∷ print_fields bytes seps),
  length-print_decimal b (omega (arith, h.0)),
  length-print_fields bytes seps h.1,
)

with_token-print :
    (n : ℕ) (tokens : List Bytes) → with_token (print_decimal n) tokens ≡ print_decimal n ∷ tokens
with_token-print n tokens =
    let (c, s, same, digit, read) = printed n [] tt in
    let e : print_decimal n ≡ c ∷ s = sym (append-nil (print_decimal n)) ∙ same in rw e refl

digit-IsNoSeparator : (c : ℕ) → is_digit c ≡ true → is_separator c ≡ false
digit-IsNoSeparator c h = ground arith

strtok_from-fields :
    (bytes seps rest : Bytes)
    → length bytes ≡ length seps
    → All (λ s. is_separator s ≡ true) seps
    → strtok_from [] (print_fields bytes seps ++ rest)
      ≡ map print_decimal bytes ++ strtok_from [] rest
strtok_from-fields [] seps rest e h = refl
strtok_from-fields (b ∷ bytes) [] rest e h = absurd (omega (arith, e))
strtok_from-fields (b ∷ bytes) (s ∷ seps) rest e h =
    ap (strtok_from []) (append_assoc (print_decimal b) (s ∷ print_fields bytes seps) rest)
    ∙ strtok_from-word [] (print_decimal b) (print_fields bytes seps ++ rest) s
        (IsDigits-All is_separator digit-IsNoSeparator (print_decimal b) (print_decimal-IsDigits b))
        h.0
    ∙ with_token-print b (strtok_from [] (print_fields bytes seps ++ rest))
    ∙ ap (◌∷◌ (print_decimal b)) (strtok_from-fields bytes seps rest (omega (arith, e)) h.1)

-- The token of the interface, with the end of the line.
abbrev last_token : ℕ → Bytes
last_token k = print_decimal k ++ 10 ∷ []

strtok_from-last_token : (k : ℕ) → strtok_from [] (last_token k) ≡ last_token k ∷ []
strtok_from-last_token k =
    let (c, s, same, digit, read) = printed k (10 ∷ []) refl in
    strtok_from-last [] (last_token k) (
      All-append _ (print_decimal k) (10 ∷ [])
        (IsDigits-All is_separator digit-IsNoSeparator (print_decimal k) (print_decimal-IsDigits k))
        (refl, tt))
    ∙ rw same refl

set-append :
    (done old : Bytes) (o v : ℕ) → set (done ++ o ∷ old) (length done) v ≡ (done ++ v ∷ []) ++ old
set-append [] old o v = refl
set-append (x ∷ done) old o v = ap (◌∷◌ x) (set-append done old o v)

set_fields-printed :
    (done todo old : Bytes) (k : ℕ) (i : ℤ)
    → length old ≡ length todo
    → length done + length todo ≡ 12
    → AreBytes todo
    → k < 1000
    → set_fields
        (length done)
        (map print_decimal todo ++ last_token k ∷ [])
        (record { addresses = done ++ old; interface = i })
      ≡ record { addresses = done ++ todo; interface = pos k }
unfolding set_fields set_field low_byte
set_fields-printed done [] [] k i e all bytes small =
    let twelve : length done ≡ 12 = omega (arith, all) in
    rw (set_fields, set_field, twelve, atoi-print k (10 ∷ []) small refl) refl
set_fields-printed done [] (o ∷ old) k i e all bytes small = absurd (omega (arith, e))
set_fields-printed done (b ∷ todo) [] k i e all bytes small = absurd (omega (arith, e))
set_fields-printed done (b ∷ todo) (o ∷ old) k i e all bytes small =
    let before : ltb (length done) 12 ≡ true = ground (arith, all) in
    let read : atoi (print_decimal b) ≡ pos b =
      ap atoi (sym (append-nil (print_decimal b))) ∙ atoi-print b [] (omega (arith, bytes.0)) tt in
    let low : low_byte (atoi (print_decimal b)) ≡ b = rw read (omega (arith, bytes.0)) in
    let next : length (done ++ b ∷ []) ≡ length done + 1 = length-append done (b ∷ []) in
    rw
      (
        set_fields,
        set_field,
        before,
        low,
        set-append done old o b,
        ← next,
        ← append_assoc done (b ∷ []) todo,
      )
      (set_fields-printed (done ++ b ∷ []) todo old k i (omega (arith, e))
        (omega (arith, all, next)) bytes.1 small)

line_end-free : (c : ℕ) → is_digit c ≡ true → (c == 10) ≡ false
line_end-free c h = ground arith

nul-free : (c : ℕ) → is_digit c ≡ true → (c == 0) ≡ false
nul-free c h = ground arith

separators-All : (p : ℕ → Bool) (v : Bool) → p b'.' ≡ v → p b' ' ≡ v → All (λ c. p c ≡ v) separators
separators-All p v d b = (d, (d, (d, (b, (d, (d, (d, (b, (d, (d, (d, (b, tt))))))))))))

body-All :
    (p : ℕ → Bool) (digits : (c : ℕ) → is_digit c ≡ true → p c ≡ false)
    → All (λ c. p c ≡ false) separators
    → (row : Bytes × ℕ) → All (λ c. p c ≡ false) (print_body row)
body-All p digits h (bytes, k) =
    All-append _ (print_fields bytes separators) (print_decimal k)
      (print_fields-All p digits bytes separators h)
      (IsDigits-All p digits (print_decimal k) (print_decimal-IsDigits k))

length-print_body : (row : Bytes × ℕ) → IsRow row → length (print_body row) < 63
length-print_body (bytes, k) h = omega (
  arith,
  length-append (print_fields bytes separators) (print_decimal k),
  length-print_fields bytes separators h.1,
  length-print_decimal k h.2,
)

row-printed :
    (row : Bytes × ℕ) (old : Row)
    → IsRow row
    → length old.addresses ≡ 12
    → set_fields 0 (strtok_from [] (c_string (print_body row ++ 10 ∷ []))) old ≡ row_of row
row-printed (bytes, k) old h twelve =
    let line = print_body (bytes, k) ++ 10 ∷ [] in
    let whole : c_string line ≡ line = c_string-same line (
      All-append _ (print_body (bytes, k)) (10 ∷ [])
        (body-All (λ c. c == 0) nul-free (separators-All (λ c. c == 0) false refl refl) (bytes, k))
        (refl, tt)) in
    let parts : strtok_from [] line ≡ map print_decimal bytes ++ last_token k ∷ [] =
      ap (strtok_from []) (append_assoc (print_fields bytes separators) (print_decimal k) (10 ∷ []))
      ∙ strtok_from-fields bytes separators (last_token k) h.0
          (separators-All is_separator true refl refl)
      ∙ ap (λ t. map print_decimal bytes ++ t) (strtok_from-last_token k) in
    ap (λ l. set_fields 0 (strtok_from [] l) old) whole
    ∙ ap (λ t. set_fields 0 t old) parts
    ∙ set_fields-printed [] bytes old.addresses k old.interface (omega (arith, twelve, h.0))
        (omega (arith, h.0)) h.1 h.2

module _ (rtable : ℕ → Row) (space : (j : ℕ) → length (rtable j).addresses ≡ 12) where
  read_rows-print_rows :
      (rows : List (Bytes × ℕ)) (j : ℕ)
      → All IsRow rows
      → read_rows rtable j (lines_from 63 [] (print_rows rows)) ≡ map row_of rows
  unfolding read_rows lines_from
  read_rows-print_rows [] j h = refl
  read_rows-print_rows (row ∷ rows) j h =
      ap (read_rows rtable j) (
        lines_from-line 63 [] (print_body row) (print_rows rows)
          (body-All (λ c. c == 10) line_end-free (separators-All (λ c. c == 10) false refl refl)
            row)
          (length-print_body row h.0))
      ∙ ap₂ (λ r rs. r ∷ rs) (row-printed row (rtable j) h.0 (space j))
          (read_rows-print_rows rows (j + 1) h.1)

  -- From the text of a table (a line for each route: prefix, next hop and mask in dotted decimal and
  -- an interface below 1000) read_rtable gives the table back, whatever the array held before.
  pub read_rtable-print_rows :
      (rows : List (Bytes × ℕ))
      → All IsRow rows
      → read_rtable (print_rows rows) rtable ≡ map row_of rows
  unfolding read_rtable
  read_rtable-print_rows rows h = read_rows-print_rows rows 0 h
