-- ===== src/Router/Loop/Echo.antt =====
-- The packets for the router itself.
use teme_pcom.Prelude.{
  ==_iff, Bool-cases, Bytes, [], arith, false, inl, inr, length, refl, some, suc, true, zero, ℕ,
  ◌&&◌, ◌++◌, ◌+◌, ◌<◌, ◌==◌, ◌∙◌, ◌∷◌, ◌≡◌, ◌≤◌,
}
use teme_pcom.Router.Checksum.{AreBytes}
use teme_pcom.Router.Frame.{
  max_packet_len, put, slice, byte_at, word_at, address_at, address_of, ethr_type, proto,
  source_addr, dest_addr, icmp_hdr,
}
use teme_pcom.Router.Frame.Slices.{length-put}
use teme_pcom.Router.Icmp.{Network, icmp_send_echo_reply}
use teme_pcom.Router.Icmp.Apart.{IsNetwork}
use teme_pcom.Router.Icmp.Answers.{IsAnswer, IsEchoReply, icmp_send_echo_reply-IsAnswer}
use teme_pcom.Router.Loop.{
  Router, answer_own, on_ip, on_frame, receive, send_to_link, is_for_another,
}
use teme_pcom.Router.Loop.Forwards.{IsForeign, answer_own-foreign, received}

module _ (net : Network) (interface len : ℕ) (r : Router) where
  -- The state behind an answer to a ping.
  abbrev pub answered : Router
  answered =
      send_to_link len interface (record r { buf = icmp_send_echo_reply net interface r.buf })

  answer_own-ping :
      (n i k : ℕ)
      → i ≤ k
      → k < i + n
      → i + n ≤ 3
      → (net.interface_ip k == address_at dest_addr r.buf) ≡ true
      → ((j : ℕ) → j < k → (net.interface_ip j == address_at dest_addr r.buf) ≡ false)
      → (byte_at proto r.buf == 1 && byte_at icmp_hdr r.buf == 8) ≡ true
      → IsForeign net (address_at dest_addr answered.buf)
      → answer_own net interface len n i r false ≡ (answered, true)
  unfolding answer_own
  answer_own-ping zero i k le lt bound own first ping foreign = absurd (omega (arith, le, lt))
  answer_own-ping (suc n) i k le lt bound own first ping foreign = elim (Bool-cases (i == k)) [
    | inl t ↦
        let i≡k : i ≡ k = (==_iff i k).0 t in
        let here : (net.interface_ip i == address_at dest_addr r.buf) ≡ true = rw i≡k own in
        rw (answer_own, here, ping)
          (answer_own-foreign net interface len n (i + 1) answered true (omega (arith, bound))
            foreign)
    | inr f ↦
        let before : i < k = ground arith in
        rw (answer_own, first i before)
          (answer_own-ping n (i + 1) k (omega (arith, before)) (omega (arith, lt))
            (omega (arith, bound)) own first ping foreign)
  ]

module _ (net : Network) (known : IsNetwork net) (interface : ℕ) (frame : Bytes) (r : Router) where
  -- A ping for an address of the router, from a sender that is not the router itself, gets one answer
  -- of its own length by the interface that it came in by: an echo reply to its sender. Its IP
  -- checksum is not looked at.
  pub receive-IsEchoReply :
      (k : ℕ)
      → length r.buf ≡ max_packet_len
      → AreBytes (put 0 frame r.buf)
      → is_for_another (net.interface_mac interface) (put 0 frame r.buf) ≡ false
      → (word_at ethr_type (put 0 frame r.buf) == 2054) ≡ false
      → k < 3
      → (net.interface_ip k == address_at dest_addr (put 0 frame r.buf)) ≡ true
      → ((j : ℕ) → j < k → (net.interface_ip j == address_at dest_addr (put 0 frame r.buf)) ≡ false)
      → (byte_at proto (put 0 frame r.buf) == 1 && byte_at icmp_hdr (put 0 frame r.buf) == 8) ≡ true
      → IsForeign net (address_at source_addr (put 0 frame r.buf))
      → (r' : Router) × (receive net (interface, frame) r ≡ some r')
        × (r'.sent
            ≡ r.sent
              ++ (record { len = length frame; frame_data = r'.buf; interface = interface }) ∷ [])
        × IsAnswer net interface (put 0 frame r.buf) r'.buf
        × IsEchoReply (put 0 frame r.buf) r'.buf
  unfolding receive on_frame on_ip
  receive-IsEchoReply k size bytes for_us not_arp lt own first ping foreign =
      let s = received net interface frame r in
      let (answer, echo) =
        icmp_send_echo_reply-IsAnswer net known interface (put 0 frame r.buf) bytes
          (length-put 0 frame r.buf ∙ size) in
      let gone : IsForeign net
          (address_of (slice dest_addr 4 (icmp_send_echo_reply net interface s.buf))) =
        rw answer.dest foreign in
      let all =
        answer_own-ping net interface (length frame) s 3 0 k (omega arith) (omega (arith, lt))
          (omega arith) own first ping gone in
      (
        answered net interface (length frame) s,
        rw (receive, on_frame, for_us, not_arp, on_ip, all) refl,
        refl,
        answer,
        echo,
      )
