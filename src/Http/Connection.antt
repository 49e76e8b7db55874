-- ===== src/Http/Connection.antt =====
-- Tema_3/helpers.c: send_to_server and receive_from_server. What the successive calls of write and
-- read return is a list; where it ends, the function waits in the call. The value
-- of a Content-Length is taken to begin with a digit.
pub mod Prefixes
pub mod Response
use teme_pcom.Prelude.{
  min, ◌%◌, ◌^◌, ◌-◌, ltb, ◌==◌, ◌++◌, take, Bool, Bytes, List, Option, [], codes, drop,
  if◌then◌else◌, length, ltb, none, some, true, ℕ, ◌+◌, ◌-◌, ◌∷◌,
}
use teme_pcom.Http.Requests.Decimal.{strtol}
use teme_pcom.Http.Buffer.{
  Buffer, buffer_init, buffer_add, buffer_find, buffer_find_insensitive, size, bytes_of,
}

pub data ReadCall : Type 0 where
  read_failed : ReadCall
  end_of_file : ReadCall
  gave : Bytes → ReadCall

-- exit (0), or a wait in read, or the text with what later calls return.
pub data Reply : Type 0 where
  exits : Reply
  waits : Reply
  text : Option Bytes → List ReadCall → Reply

abbrev pub header_terminator : Bytes
header_terminator = 13 ∷ 10 ∷ 13 ∷ 10 ∷ []

abbrev pub content_length_name : Bytes
content_length_name = codes "Content-Length: "

-- A long that is not negative, as an int, and that as a size_t: strtol stops at the greatest long, and
-- an int that is negative is far up.
unfoldable pub int_as_size : ℕ → ℕ
int_as_size n =
    let low = min n (2 ^ 63 - 1) % 2 ^ 32 in
    if ltb low (2 ^ 31) then low else low + (2 ^ 64 - 2 ^ 32)

-- The number behind the name that stands at `start`, as it is added to the header's size.
abbrev pub length_at : Buffer → ℕ → ℕ
length_at b start = int_as_size (strtol (drop (start + length content_length_name) (bytes_of b)))

-- buffer.size < total; the total of a header_end that is -1 is the greatest size_t.
unfoldable pub is_short : Option ℕ → Buffer → Bool
is_short none b = true
is_short (some total_size) b = ltb (size b) total_size

-- The text, with a NUL behind it.
unfoldable pub terminated : Buffer → List ReadCall → Reply
terminated b calls = text ((buffer_add b (0 ∷ [])).contents) calls

-- The `while` loop, up to the total.
unfoldable pub read_rest : List ReadCall → Option ℕ → Buffer → Reply
read_rest [] total_size b = if is_short total_size b then waits else terminated b []
read_rest (read_failed ∷ calls) total_size b =
    if is_short total_size b then exits else terminated b (read_failed ∷ calls)
read_rest (end_of_file ∷ calls) total_size b =
    if is_short total_size b then terminated b calls else terminated b (end_of_file ∷ calls)
read_rest (gave chunk ∷ calls) total_size b =
    let rest = read_rest calls total_size (buffer_add b chunk) in
    if is_short total_size b then rest else terminated b (gave chunk ∷ calls)

-- The `do` loop: reads until the header is there with a Content-Length, or the peer has closed.
unfoldable pub read_header : List ReadCall → Option ℕ → Buffer → Reply
read_header [] header_end b = waits
read_header (read_failed ∷ calls) header_end b = exits
read_header (end_of_file ∷ calls) header_end b = read_rest calls header_end b
read_header (gave chunk ∷ calls) header_end b =
    let b' = buffer_add b chunk in
    let again = λ (header_end' : Option ℕ). read_header calls header_end' b' in
    elim (buffer_find b' header_terminator) [
      | none ↦ again none
      | some at ↦ elim (buffer_find_insensitive b' content_length_name) [
        | none ↦ again (some (at + length header_terminator))
        | some start ↦
            read_rest calls (some ((length_at b' start + (at + length header_terminator)) % 2 ^ 64))
              b'
      ]
    ]

unfoldable pub receive_from_server : List ReadCall → Reply
receive_from_server calls = read_header calls (some 0) buffer_init

pub data WriteCall : Type 0 where
  write_failed : WriteCall
  wrote : ℕ → WriteCall

-- exit (0), or a wait in write, or the end of the loop; with the bytes that went out, and at the
-- end what later calls return.
pub data SendReply : Type 0 where
  send_exits : Bytes → SendReply
  send_waits : Bytes → SendReply
  sends : Bytes → List WriteCall → SendReply

-- The loop, with the bytes that went out and those that remain; it writes at least once.
unfoldable pub write_from : List WriteCall → Bytes → Bytes → SendReply
write_from [] out rest = send_waits out
write_from (write_failed ∷ calls) out rest = send_exits out
write_from (wrote bytes ∷ calls) out rest =
    let more = write_from calls (out ++ take bytes rest) (drop bytes rest) in
    if bytes == 0
    then sends out calls
    else if ltb 0 (length (drop bytes rest))
    then more
    else sends (out ++ take bytes rest) calls

unfoldable pub send_to_server : List WriteCall → Bytes → SendReply
send_to_server calls message = write_from calls [] message
