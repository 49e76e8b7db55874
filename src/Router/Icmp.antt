-- ===== src/Router/Icmp.antt =====
-- Tema_1/router.c: icmp_send_echo_reply and icmp_send_dest_unreachable_or_timeout, as the frame
-- that they leave in the buffer. The data of a checksum here has an even length.
pub mod Sums
pub mod Apart
pub mod Answers
use teme_pcom.Prelude.{
  ==_iff, All, All-append, Bool, Bool-cases, Bytes, List, Option, Option-cases, [], any, any-append,
  any-at, any-find_index, any-found, ap, append-nil, append_assoc, ap₂, arith, c_string, codes,
  count, count-append, drop, drop-append, false, find_index, find_index-first, find_index-none,
  find_index-none-at, find_index-some, find_index_unique, get_elem?, get_elem?-lt,
  get_elem?-set-cases, get_elem?-set_ne, get_elem?-set_self, get_elem?-snoc, get_elem?-snoc-cases,
  get_elem?-snoc_lt, get_or, get_or-set_last, if◌then◌else◌, inl, inr, leb, leb→le, length,
  length-append, length-set, length-take, ltb, ltb→lt, lt→ltb, map, min, none, not, refl, replicate,
  set, set-set, set-snoc, some, str_eq, str_eq_iff, str_eq_refl, str_eq→eq, subst, suc, sym, take,
  take-append, take_all, tests, total, total-append, total-set, total-take_last, total_differ,
  total_same, total_zero, true, zero, ℕ, ◌%◌, ◌&&◌, ◌*◌, ◌++◌, ◌+◌, ◌-◌, ◌/◌, ◌<◌, ◌==◌, ◌^◌, ◌||◌,
  ◌↔◌, ◌∙◌, ◌∷◌, ◌≡◌, ◌≢◌, ◌≤◌, ◌⊎◌,
}
use teme_pcom.Router.Trie.{Trie}
use teme_pcom.Router.Checksum.{checksum, word_bytes}
use teme_pcom.Router.Frame.{
  slice, put, address_bytes, ethr_dhost, ethr_shost, ip_hdr, tot_len, ttl, proto, ip_checksum,
  source_addr, dest_addr, icmp_hdr, mcode, icmp_check,
}

-- The routes, and what get_interface_ip (with inet_aton) and get_interface_mac give.
pub record Network : Type 0 where
  pub rtable_root : Trie
  pub interface_ip : ℕ → ℕ
  pub interface_mac : ℕ → Bytes

-- The word at a position as the checksum of the n bytes from `start` on, which it is one of.
unfoldable pub renew_checksum : ℕ → ℕ → ℕ → Bytes → Bytes
renew_checksum start n at frame =
    let frame = put at (0 ∷ 0 ∷ []) frame in
    put at (word_bytes (checksum 0 (slice start n frame))) frame

-- The IP addresses of an answer from an interface, and the Ethernet addresses.
unfoldable pub swap_addresses : Network → ℕ → Bytes → Bytes
swap_addresses net interface frame =
    let frame = put dest_addr (slice source_addr 4 frame) frame in
    put source_addr (address_bytes (net.interface_ip interface)) frame

unfoldable pub send_back : Network → ℕ → Bytes → Bytes
send_back net interface frame =
    let frame = put ethr_dhost (slice ethr_shost 6 frame) frame in
    put ethr_shost (net.interface_mac interface) frame

unfoldable pub icmp_send_echo_reply : Network → ℕ → Bytes → Bytes
icmp_send_echo_reply net interface frame =
    let frame = put icmp_hdr (0 ∷ []) frame in
    let frame = put mcode (0 ∷ []) frame in
    let frame = renew_checksum icmp_hdr 8 icmp_check frame in
    let frame = swap_addresses net interface frame in
    let frame = renew_checksum ip_hdr 20 ip_checksum frame in send_back net interface frame

-- icmp_hdr + sizeof (struct icmp_hdr), which is eight headers further on.
abbrev pub copied_to : ℕ
copied_to = 98

-- The length of the answer: two IP headers, an ICMP header and eight bytes behind the Ethernet
-- header.
abbrev pub answer_length : ℕ
answer_length = 70

unfoldable pub icmp_send_dest_unreachable_or_timeout : Network → ℕ → ℕ → Bytes → Bytes
icmp_send_dest_unreachable_or_timeout net type interface frame =
    let frame = put copied_to (slice ip_hdr 28 frame) frame in
    let frame = put icmp_hdr (type ∷ []) frame in
    let frame = put mcode (0 ∷ []) frame in
    let frame = renew_checksum icmp_hdr 36 icmp_check frame in
    let frame = swap_addresses net interface frame in
    let frame = put proto (1 ∷ []) frame in
    let frame = put ttl (64 ∷ []) frame in
    let frame = put tot_len (0 ∷ 56 ∷ []) frame in
    let frame = renew_checksum ip_hdr 20 ip_checksum frame in send_back net interface frame
