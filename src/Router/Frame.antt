-- ===== src/Router/Frame.antt =====
-- Frames as bytes, and where the headers of Tema_1/include/protocols.h have their fields: the
-- Ethernet header at 0, the ARP or IP header at 14, the ICMP header at 34.
pub mod Slices
use teme_pcom.Prelude.{
  ==_iff, All, All-append, Bool, Bool-cases, Bytes, List, Option, Option-cases, [], any, any-append,
  any-at, any-find_index, any-found, ap, append-nil, append_assoc, ap₂, arith, c_string, codes,
  count, count-append, drop, drop-append, false, find_index, find_index-first, find_index-none,
  find_index-none-at, find_index-some, find_index_unique, get_elem?, get_elem?-lt,
  get_elem?-set-cases, get_elem?-set_ne, get_elem?-set_self, get_elem?-snoc, get_elem?-snoc-cases,
  get_elem?-snoc_lt, get_or, get_or-set_last, if◌then◌else◌, inl, inr, leb, leb→le, length,
  length-append, length-set, length-take, ltb, ltb→lt, lt→ltb, map, min, none, not, refl, replicate,
  set, set-set, set-snoc, some, str_eq, str_eq_iff, str_eq_refl, str_eq→eq, subst, suc, sym, take,
  take-append, take_all, tests, total, total-append, total-set, total-take_last, total_differ,
  total_same, total_zero, true, zero, ℕ, ◌%◌, ◌&&◌, ◌*◌, ◌++◌, ◌+◌, ◌-◌, ◌/◌, ◌<◌, ◌==◌, ◌^◌, ◌||◌,
  ◌↔◌, ◌∙◌, ◌∷◌, ◌≡◌, ◌≢◌, ◌≤◌, ◌⊎◌,
}

-- MAX_PACKET_LEN, the size of the buffer
abbrev pub max_packet_len : ℕ
max_packet_len = 1400

-- The n bytes at a position.
unfoldable pub slice : ℕ → ℕ → Bytes → Bytes
slice at n frame = take n (drop at frame)

-- memcpy to a position of an array; nothing is written past its end.
unfoldable pub put : ℕ → Bytes → Bytes → Bytes
put at bytes [] = []
put zero [] (c ∷ frame) = c ∷ frame
put zero (x ∷ bytes) (c ∷ frame) = x ∷ put zero bytes frame
put (suc at) bytes (c ∷ frame) = c ∷ put at bytes frame

abbrev pub byte_at : ℕ → Bytes → ℕ
byte_at at frame = get_or frame at 0

-- Words of 16 and 32 bits, as ntohs and ntohl give them.
abbrev pub word_at : ℕ → Bytes → ℕ
word_at at frame = 2 ^ 8 * byte_at at frame + byte_at (at + 1) frame

abbrev pub address_of : Bytes → ℕ
address_of bytes = 2 ^ 16 * word_at 0 bytes + word_at 2 bytes

abbrev pub address_at : ℕ → Bytes → ℕ
address_at at frame = address_of (slice at 4 frame)

-- htonl
abbrev pub address_bytes : ℕ → Bytes
address_bytes a = a / 2 ^ 24 ∷ a / 2 ^ 16 % 2 ^ 8 ∷ a / 2 ^ 8 % 2 ^ 8 ∷ a % 2 ^ 8 ∷ []

-- struct ether_hdr
abbrev pub ethr_dhost : ℕ
ethr_dhost = 0

abbrev pub ethr_shost : ℕ
ethr_shost = 6

abbrev pub ethr_type : ℕ
ethr_type = 12

-- struct arp_hdr
abbrev pub opcode : ℕ
opcode = 20

abbrev pub shwa : ℕ
shwa = 22

abbrev pub sprotoa : ℕ
sprotoa = 28

abbrev pub thwa : ℕ
thwa = 32

abbrev pub tprotoa : ℕ
tprotoa = 38

-- struct ip_hdr
abbrev pub ip_hdr : ℕ
ip_hdr = 14

abbrev pub tot_len : ℕ
tot_len = 16

abbrev pub ttl : ℕ
ttl = 22

abbrev pub proto : ℕ
proto = 23

abbrev pub ip_checksum : ℕ
ip_checksum = 24

abbrev pub source_addr : ℕ
source_addr = 26

abbrev pub dest_addr : ℕ
dest_addr = 30

-- struct icmp_hdr
abbrev pub icmp_hdr : ℕ
icmp_hdr = 34

abbrev pub mcode : ℕ
mcode = 35

abbrev pub icmp_check : ℕ
icmp_check = 36
