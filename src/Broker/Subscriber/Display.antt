-- ===== src/Broker/Subscriber/Display.antt =====
-- The numbers that a subscriber shows, against the numbers that were published.
use teme_pcom.Prelude.{
  false, ◌==◌, append_assoc, zero, suc, Bytes, [], arith, codes, ℕ, ◌%◌, ◌*◌, ◌++◌, ◌+◌, ◌/◌, ◌<◌,
  ◌^◌, ◌∷◌, ◌≡◌,
}
use teme_pcom.Broker.Server.{to_packet, UdpPayload, World}
use teme_pcom.Http.Requests.Decimal.{print_decimal}
use teme_pcom.Broker.Subscriber.{ntohs, signed, heading, Doubles, show_message}

-- An unsigned number in network order, in four bytes.
abbrev pub long_bytes : ℕ → Bytes
long_bytes n = n / 2 ^ 24 ∷ n / 2 ^ 16 % 256 ∷ n / 2 ^ 8 % 256 ∷ n % 256 ∷ []

-- An INT datagram: a sign byte and a number of 32 bits in network order.
abbrev pub int_datagram : Bytes → ℕ → ℕ → Bytes → UdpPayload
int_datagram topic sign n padding = record {
  topic = topic;
  data_type = 0;
  payload = sign ∷ (long_bytes n ++ padding);
}

abbrev minus_of : ℕ → Bytes
minus_of zero = []
minus_of (suc sign) = codes "-"

-- A subscriber shows an INT that was published, after the server's forwarding, as a line with the
-- sender's address, its port with the two bytes swapped, the topic, and the number in decimal digits,
-- behind a minus sign just if the sign byte is not 0.
pub show_message-int_datagram :
    {D : Type 0} (f : Doubles D) (w : World) (topic : Bytes) (sign n high low : ℕ) (padding : Bytes)
    → n < 2 ^ 32
    → high < 256
    → low < 256
    → w.from_port ≡ high * 256 + low
    → show_message f (to_packet w (int_datagram topic sign n padding))
      ≡ w.from_ip
        ++ (codes ":"
            ++ (print_decimal (low * 256 + high)
                ++ (codes " - "
                    ++ (topic
                        ++ (codes " - INT - "
                            ++ (minus_of sign ++ (print_decimal n ++ 10 ∷ [])))))))
unfolding show_message heading signed
show_message-int_datagram f w topic zero n high low padding h hh hl port =
    let same : n / 2 ^ 24 * 256 + n / 2 ^ 16 % 256 ≡ n / 2 ^ 16 = omega arith in
    let tail : n / 2 ^ 8 % 256 * 256 + n % 256 ≡ n % 65536 = omega arith in
    let whole : n / 2 ^ 16 * 65536 + n % 65536 ≡ n = omega arith in
    let swapped : ntohs w.from_port ≡ low * 256 + high = omega (arith, port, hh, hl) in
    rw (same, tail, whole, swapped) (simp append_assoc)
show_message-int_datagram f w topic (suc sign) n high low padding h hh hl port =
    let same : n / 2 ^ 24 * 256 + n / 2 ^ 16 % 256 ≡ n / 2 ^ 16 = omega arith in
    let tail : n / 2 ^ 8 % 256 * 256 + n % 256 ≡ n % 65536 = omega arith in
    let whole : n / 2 ^ 16 * 65536 + n % 65536 ≡ n = omega arith in
    let nonzero : (suc sign == 0) ≡ false = ground arith in
    let swapped : ntohs w.from_port ≡ low * 256 + high = omega (arith, port, hh, hl) in
    rw (same, tail, whole, swapped, nonzero) (simp append_assoc)
