-- ===== src/Router/Icmp/Answers.antt =====
-- What the sender of a packet gets back.
use teme_pcom.Prelude.{◌<◌, Bytes, [], arith, length, refl, ℕ, ◌%◌, ◌+◌, ◌∷◌, ◌≡◌, ◌≤◌}
use teme_pcom.Router.Checksum.{checksum, AreBytes}
use teme_pcom.Router.Frame.{
  icmp_check, max_packet_len, slice, put, address_bytes, ethr_dhost, ethr_shost, ip_hdr, tot_len,
  ttl, proto, source_addr, dest_addr, icmp_hdr, mcode,
}
use teme_pcom.Router.Frame.Slices.{length-put}
use teme_pcom.Router.Icmp.{
  icmp_send_dest_unreachable_or_timeout, copied_to, Network, renew_checksum, swap_addresses,
  icmp_send_echo_reply,
}
use teme_pcom.Router.Icmp.Sums.{
  slice-AreBytes, put-AreBytes, renew_checksum-AreBytes, renew_checksum-verifies,
}
use teme_pcom.Router.Icmp.Apart.{
  put_word, put_byte, IsNetwork, put_before, put_behind, renew_before, renew_behind, length-renew,
  length-swap, swap_before, swap_behind, swap-dest, swap-source, swap-AreBytes, back_behind,
  back-dhost, back-shost,
}

-- The answer goes back to the packet's sender, from the interface that it came in by, and its IP
-- header checks.
pub record IsAnswer (net : Network) (i : ℕ) (before after : Bytes) : Type 0 where
  pub dhost : slice ethr_dhost 6 after ≡ slice ethr_shost 6 before
  pub shost : slice ethr_shost 6 after ≡ net.interface_mac i
  pub dest : slice dest_addr 4 after ≡ slice source_addr 4 before
  pub source : slice source_addr 4 after ≡ address_bytes (net.interface_ip i)
  pub checks : checksum 0 (slice ip_hdr 20 after) ≡ 0

-- The bytes behind the ICMP header stay, and the checksum of the header alone is right.
pub record IsEchoReply (before after : Bytes) : Type 0 where
  pub type_is : slice icmp_hdr 1 after ≡ 0 ∷ []
  pub code_is : slice mcode 1 after ≡ 0 ∷ []
  pub data_same : (n : ℕ) → slice 38 n after ≡ slice 38 n before
  pub icmp_checks : checksum 0 (slice icmp_hdr 8 after) ≡ 0

-- The ICMP message of a type is right with its 36 bytes, but the bytes behind its header are those
-- that the packet had there.
pub record IsIcmpError (type : ℕ) (before after : Bytes) : Type 0 where
  pub type_is : slice icmp_hdr 1 after ≡ type ∷ []
  pub code_is : slice mcode 1 after ≡ 0 ∷ []
  pub length_is : slice tot_len 2 after ≡ 0 ∷ 56 ∷ []
  pub ttl_is : slice ttl 1 after ≡ 64 ∷ []
  pub proto_is : slice proto 1 after ≡ 1 ∷ []
  pub icmp_checks : checksum 0 (slice icmp_hdr 36 after) ≡ 0
  pub data_same : slice 38 32 after ≡ slice 38 32 before

ruleset apart = (
  put_before, put_behind, put_byte, put_word, renew_before, renew_behind, swap_before, swap_behind,
  swap-dest, swap-source, back_behind, back-dhost, back-shost,
)

ruleset lengths = (length-put, length-renew, length-swap)

module _ (net : Network) (known : IsNetwork net) (i : ℕ) (frame : Bytes) (bytes : AreBytes frame)
    (size : length frame ≡ max_packet_len) where
  renewed-verifies :
      (start a c n at : ℕ) (f : Bytes)
      → n ≡ a + (2 + c)
      → at ≡ start + a
      → a % 2 ≡ 0
      → c % 2 ≡ 0
      → start + n ≤ 1400
      → length f ≡ length frame
      → AreBytes f
      → checksum 0 (slice start n (renew_checksum start n at f)) ≡ 0
  renewed-verifies start a c n at f e d even_a even_c fits same b =
      renew_checksum-verifies start a c n at f e d even_a even_c (omega (arith, fits))
        (omega (arith, fits, same, size)) b

  echo_asked : Bytes
  echo_asked = put mcode (0 ∷ []) (put icmp_hdr (0 ∷ []) frame)

  echo_asked-AreBytes : AreBytes echo_asked
  unfolding echo_asked
  echo_asked-AreBytes =
      put-AreBytes mcode (0 ∷ []) _ (omega arith, tt)
        (put-AreBytes icmp_hdr (0 ∷ []) frame (omega arith, tt) bytes)

  echo-IsEchoReply : IsEchoReply frame (icmp_send_echo_reply net i frame)
  unfolding icmp_send_echo_reply echo_asked
  echo-IsEchoReply = record {
    type_is = simp (apart, lengths, known, size) refl;
    code_is = simp (apart, lengths, known, size) refl;
    data_same = λ n. simp (apart, lengths, known, size) refl;
    icmp_checks =
        simp (apart, lengths, known, size)
          (renewed-verifies 34 2 4 8 36 echo_asked refl refl refl refl (omega arith)
            (simp lengths refl) echo_asked-AreBytes);
  }

  echo-IsAnswer : IsAnswer net i frame (icmp_send_echo_reply net i frame)
  unfolding icmp_send_echo_reply echo_asked
  echo-IsAnswer = record {
    dhost = simp (apart, lengths, known, size) refl;
    shost = simp (apart, lengths, known, size) refl;
    dest = simp (apart, lengths, known, size) refl;
    source = simp (apart, lengths, known, size) refl;
    checks =
        simp (apart, lengths, known, size)
          (renewed-verifies 14 10 8 20 24 (swap_addresses net i (renew_checksum 34 8 36 echo_asked))
            refl refl refl refl (omega arith) (simp lengths refl)
            (swap-AreBytes net i known _ (renew_checksum-AreBytes 34 8 36 _ echo_asked-AreBytes)));
  }

  -- An echo request is answered to its sender, from the address of the interface that it came in by
  -- and with a right IP checksum, by an ICMP message of type 0 and code 0 with the same identifier,
  -- number and data, whose checksum is right for the eight bytes of its header alone.
  pub icmp_send_echo_reply-IsAnswer :
      IsAnswer net i frame (icmp_send_echo_reply net i frame)
      × IsEchoReply frame (icmp_send_echo_reply net i frame)
  icmp_send_echo_reply-IsAnswer = (echo-IsAnswer, echo-IsEchoReply)

module _ (net : Network) (known : IsNetwork net) (type i : ℕ) (frame : Bytes)
    (bytes : AreBytes frame) (byte : type < 256) (size : length frame ≡ max_packet_len) where
  error_type : Bytes
  error_type =
      put mcode (0 ∷ []) (put icmp_hdr (type ∷ []) (put copied_to (slice ip_hdr 28 frame) frame))

  error_type-AreBytes : AreBytes error_type
  unfolding error_type
  error_type-AreBytes =
      put-AreBytes mcode (0 ∷ []) _ (omega arith, tt)
        (put-AreBytes icmp_hdr (type ∷ []) _ (byte, tt)
          (put-AreBytes copied_to _ frame (slice-AreBytes ip_hdr 28 frame bytes) bytes))

  error_header : Bytes
  error_header = put tot_len (0 ∷ 56 ∷ []) (
      put ttl (64 ∷ []) (
        put proto (1 ∷ [])
          (swap_addresses net i (renew_checksum icmp_hdr 36 icmp_check error_type))))

  error_header-AreBytes : AreBytes error_header
  unfolding error_header
  error_header-AreBytes =
      put-AreBytes tot_len (0 ∷ 56 ∷ []) _ (omega arith, (omega arith, tt))
        (put-AreBytes ttl (64 ∷ []) _ (omega arith, tt)
          (put-AreBytes proto (1 ∷ []) _ (omega arith, tt)
            (swap-AreBytes net i known _
              (renew_checksum-AreBytes icmp_hdr 36 icmp_check _ error_type-AreBytes))))

  -- A packet that cannot go on is answered to its sender, from the address of the interface that it
  -- came in by, by an ICMP message of the given type and code 0. Both checksums and the IP header's
  -- fields are right, but the 32 bytes behind the ICMP checksum are those of the packet itself, not
  -- its IP header.
  pub icmp_send_dest_unreachable_or_timeout-IsAnswer :
      IsAnswer net i frame (icmp_send_dest_unreachable_or_timeout net type i frame)
      × IsIcmpError type frame (icmp_send_dest_unreachable_or_timeout net type i frame)
  unfolding icmp_send_dest_unreachable_or_timeout error_header error_type
  icmp_send_dest_unreachable_or_timeout-IsAnswer = (
    record {
      dhost = simp (apart, lengths, known, size) refl;
      shost = simp (apart, lengths, known, size) refl;
      dest = simp (apart, lengths, known, size) refl;
      source = simp (apart, lengths, known, size) refl;
      checks =
          simp (apart, lengths, known, size)
            (renewed-verifies net known i frame bytes size 14 10 8 20 24 error_header refl refl refl
              refl (omega arith) (simp lengths refl) error_header-AreBytes);
    },
    record {
      type_is = simp (apart, lengths, known, size) refl;
      code_is = simp (apart, lengths, known, size) refl;
      length_is = simp (apart, lengths, known, size) refl;
      ttl_is = simp (apart, lengths, known, size) refl;
      proto_is = simp (apart, lengths, known, size) refl;
      icmp_checks =
          simp (apart, lengths, known, size)
            (renewed-verifies net known i frame bytes size 34 2 32 36 36 error_type refl refl refl
              refl (omega arith) (simp lengths refl) error_type-AreBytes);
      data_same = simp (apart, lengths, known, size) refl;
    },
  )
