-- ===== src/Router/Loop/Replies.antt =====
-- ARP requests that are answered, and ARP replies that release packets.
use teme_pcom.Prelude.{
  subst, List, ◌≤◌, Bool-cases, Bytes, List, Option-cases, [], ap, arith, false, inl, inr, leb,
  leb→le, length, refl, some, true, ℕ, ◌++◌, ◌+◌, ◌<◌, ◌==◌, ◌∙◌, ◌∷◌, ◌≡◌,
}
use teme_pcom.Router.Trie.{Trie, RouteTableEntry, get_best_route}
use teme_pcom.Router.Frame.{
  max_packet_len, slice, put, word_at, address_at, address_bytes, ethr_dhost, ethr_shost, ethr_type,
  opcode, shwa, sprotoa, thwa, tprotoa, dest_addr,
}
use teme_pcom.Router.Frame.Slices.{slice-put, length-put}
use teme_pcom.Router.Arp.{SentFrame, to_frame, arp_table_size}
use teme_pcom.Router.Arp.Cache.{mac_of, mac_of-learn}
use teme_pcom.Router.Arp.Frames.{IsReleased, to_frame-IsReleased}
use teme_pcom.Router.Frame.Slices.{length-slice}
use teme_pcom.Router.Arp.Replies.{HaveRoutes, kept, frames, release-frames}
use teme_pcom.Router.Icmp.{Network}
use teme_pcom.Router.Icmp.Apart.{
  IsNetwork, put_before, put_behind, put_byte, put_word, copy_behind, copy_self, mac_behind,
  mac_self,
}
use teme_pcom.Router.Loop.{
  Router, arp_reply, arp_length, on_arp, on_arp_reply, on_frame, receive, is_for_another,
}
use teme_pcom.Router.Loop.Rounds.{Inv, learn-some}

-- An ARP reply to the sender of a request, which tells the interface's addresses.
pub record IsArpReply (net : Network) (i : ℕ) (before after : Bytes) : Type 0 where
  pub dhost : slice ethr_dhost 6 after ≡ slice ethr_shost 6 before
  pub shost : slice ethr_shost 6 after ≡ net.interface_mac i
  pub front_same : slice ethr_type 8 after ≡ slice ethr_type 8 before
  pub opcode_is : slice opcode 2 after ≡ 0 ∷ 2 ∷ []
  pub sender_mac : slice shwa 6 after ≡ net.interface_mac i
  pub sender_ip : slice sprotoa 4 after ≡ address_bytes (net.interface_ip i)
  pub target_mac : slice thwa 6 after ≡ slice shwa 6 before
  pub target_ip : slice tprotoa 4 after ≡ slice sprotoa 4 before

ruleset apart =
    (put_before, put_behind, put_byte, put_word, copy_behind, copy_self, mac_behind, mac_self)

put_address :
    (at a : ℕ) (frame : Bytes)
    → leb (at + 4) (length frame) ≡ true
    → slice at 4 (put at (address_bytes a) frame) ≡ address_bytes a
put_address at a frame h = slice-put at (address_bytes a) frame (leb→le (at + 4) (length frame) h)

module _ (net : Network) (known : IsNetwork net) (i : ℕ) where
  arp_reply-IsArpReply :
      (frame : Bytes)
      → length frame ≡ max_packet_len
      → IsArpReply net i frame (arp_reply net i frame)
  unfolding arp_reply
  arp_reply-IsArpReply frame size =
      let six = known.macs i in
      record {
        dhost = simp (apart, length-put, six, size) refl;
        shost = simp (apart, length-put, six, size) refl;
        front_same = simp (apart, length-put, six, size) refl;
        opcode_is = simp (apart, length-put, six, size) refl;
        sender_mac = simp (apart, length-put, six, size) refl;
        sender_ip = simp (apart, put_address, length-put, six, size) refl;
        target_mac = simp (apart, length-put, six, size) refl;
        target_ip = simp (apart, length-put, six, size) refl;
      }

  -- An ARP request that came to the interface is answered by one frame of 42 bytes by the same
  -- interface: an ARP reply to its sender, whoever is asked for, that gives the interface's addresses.
  pub receive-IsArpReply :
      (frame : Bytes) (r : Router)
      → length r.buf ≡ max_packet_len
      → is_for_another (net.interface_mac i) (put 0 frame r.buf) ≡ false
      → word_at ethr_type (put 0 frame r.buf) ≡ 2054
      → word_at opcode (put 0 frame r.buf) ≡ 1
      → (r' : Router) × (receive net (i, frame) r ≡ some r')
        × (r'.sent
            ≡ r.sent ++ (record { len = arp_length; frame_data = r'.buf; interface = i }) ∷ [])
        × IsArpReply net i (put 0 frame r.buf) r'.buf
        × (r'.queue ≡ r.queue)
  unfolding receive on_frame on_arp
  receive-IsArpReply frame r size for_us arp asks = (
    record r {
      buf = arp_reply net i (put 0 frame r.buf);
      sent =
          r.sent
          ++ (record {
            len = arp_length;
            frame_data = arp_reply net i (put 0 frame r.buf);
            interface = i;
          })
            ∷ [];
    },
    rw (receive, on_frame, for_us, arp, on_arp, asks) refl,
    refl,
    arp_reply-IsArpReply (put 0 frame r.buf) (length-put 0 frame r.buf ∙ size),
    refl,
  )

module _ (interface_mac : ℕ → Bytes) (len : ℕ) (root : Trie) (ip : ℕ) (mac : Bytes) where
  frames-append :
      (ps qs : List Bytes)
      → frames interface_mac len root ip mac (ps ++ qs)
        ≡ frames interface_mac len root ip mac ps ++ frames interface_mac len root ip mac qs
  frames-append [] qs = refl
  frames-append (p ∷ ps) qs = elim (Option-cases (get_best_route root (address_at dest_addr p))) [
    | inl e ↦ rw (frames, e) (frames-append ps qs)
    | inr (best, e) ↦ elim (Bool-cases (best.next_hop == ip)) [
      | inl t ↦
          rw (frames, e, t) (ap (◌∷◌ (to_frame interface_mac len mac best p)) (frames-append ps qs))
      | inr f ↦ rw (frames, e, f) (frames-append ps qs)
    ]
  ]

  frames-at :
      (before behind : List Bytes) (p : Bytes) (best : RouteTableEntry)
      → get_best_route root (address_at dest_addr p) ≡ some best
      → (best.next_hop == ip) ≡ true
      → frames interface_mac len root ip mac (before ++ p ∷ behind)
        ≡ frames interface_mac len root ip mac before
          ++ to_frame interface_mac len mac best p ∷ frames interface_mac len root ip mac behind
  frames-at before behind p best way hop =
      frames-append before (p ∷ behind) ∙ rw (frames, way, hop) refl

-- A packet that waits is long enough for its headers.
long_at :
    (root : Trie) (m : ℕ) (before behind : List Bytes) (p : Bytes)
    → 34 ≤ m
    → HaveRoutes root m (before ++ p ∷ behind)
    → 34 ≤ length p
long_at root m [] behind p head h = ground (arith, h.0.0)
long_at root m (q ∷ before) behind p head h = long_at root m before behind p head h.1

module _ (net : Network) (i : ℕ) (frame : Bytes) (r : Router) where
  abbrev reply_ip : ℕ
  reply_ip = address_at sprotoa (put 0 frame r.buf)

  abbrev reply_mac : Bytes
  reply_mac = slice shwa 6 (put 0 frame r.buf)

  -- When an ARP reply from its next hop comes in, which is no longer than the packets that wait, a
  -- packet is sent, wherever it stands in the queue: behind the frames of the packets in front of it
  -- and before those of the packets behind it, by its route's interface, to the MAC address of the
  -- reply, with all behind its Ethernet header as it was, but as many bytes of it as the ARP reply
  -- had. The address is in the ARP table from then on. The queue keeps the packets for other next
  -- hops only.
  pub receive-releases :
      (m : ℕ) (before behind : List Bytes) (p : Bytes) (best : RouteTableEntry)
      → IsNetwork net
      → 34 ≤ m
      → length frame ≤ m
      → Inv net m r
      → length r.arp_table < arp_table_size
      → is_for_another (net.interface_mac i) (put 0 frame r.buf) ≡ false
      → word_at ethr_type (put 0 frame r.buf) ≡ 2054
      → word_at opcode (put 0 frame r.buf) ≡ 2
      → r.queue ≡ before ++ p ∷ behind
      → get_best_route net.rtable_root (address_at dest_addr p) ≡ some best
      → (best.next_hop == address_at sprotoa (put 0 frame r.buf)) ≡ true
      → (r' : Router) × (f : SentFrame) × (receive net (i, frame) r ≡ some r')
        × (r'.sent
            ≡ r.sent
              ++ (frames net.interface_mac (length frame) net.rtable_root reply_ip reply_mac before
                  ++ f
                    ∷ frames net.interface_mac
                        (length frame)
                        net.rtable_root
                        reply_ip
                        reply_mac
                        behind))
        × IsReleased (net.interface_mac best.interface) reply_mac (length frame) best.interface p f
        × (r'.queue
            ≡ kept net.interface_mac (length frame) net.rtable_root reply_ip reply_mac r.queue)
        × (mac_of reply_ip r'.arp_table ≡ some reply_mac)
  unfolding receive on_frame on_arp on_arp_reply
  receive-releases m before behind p best known head fits h room for_us arp replies place way hop =
      let (t, e, le) = learn-some reply_ip reply_mac r.arp_table room in
      let all =
        release-frames m net.interface_mac (length frame) net.rtable_root reply_ip reply_mac r.queue
          r.sent head fits h.routed in
      let found = mac_of-learn reply_ip reply_ip reply_mac r.arp_table t e in
      let q : List Bytes =
        kept net.interface_mac (length frame) net.rtable_root reply_ip reply_mac r.queue in
      let six =
        length-slice shwa 6 (put 0 frame r.buf) (omega (arith, length-put 0 frame r.buf, h.size)) in
      let long =
        long_at net.rtable_root m before behind p head
          (subst (HaveRoutes net.rtable_root m) place h.routed) in
      (
        record r {
          buf = put 0 frame r.buf;
          arp_table = t;
          queue = q;
          sent =
              r.sent
              ++ frames net.interface_mac (length frame) net.rtable_root reply_ip reply_mac r.queue;
          queue_len = length q;
        },
        to_frame net.interface_mac (length frame) reply_mac best p,
        rw (receive, on_frame, for_us, arp, on_arp, replies, on_arp_reply, e, h.counted, all) refl,
        ap (λ ps. r.sent ++ ps)
            (ap (frames net.interface_mac (length frame) net.rtable_root reply_ip reply_mac) place
              ∙ frames-at net.interface_mac (length frame) net.rtable_root reply_ip reply_mac before
                  behind p best way hop),
        to_frame-IsReleased net.interface_mac (length frame) reply_mac best p six
            (known.macs best.interface) long,
        refl,
        found ∙ ground arith,
      )
