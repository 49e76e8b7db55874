-- ===== src/Router/Arp/Cache.antt =====
-- The ARP table as a map from addresses to MAC addresses.
use teme_pcom.Prelude.{
  Bytes, List, Option, Option-cases, [], arith, find_index, get_elem?, if◌then◌else◌, inl, inr,
  none, refl, set, some, suc, zero, ℕ, ◌++◌, ◌==◌, ◌∷◌, ◌≡◌,
}
use teme_pcom.Router.Arp.{ArpTableEntry, get_arp_table_entry, learn}

-- The MAC address of the entry that the search finds.
abbrev pub mac_of : ℕ → List ArpTableEntry → Option Bytes
mac_of ip t = elim (get_arp_table_entry ip t) [
  | none ↦ none
  | some i ↦ elim (get_elem? t i) [ none ↦ none | some e ↦ some e.mac ]
]

abbrev first_mac : ℕ → List ArpTableEntry → Option Bytes
first_mac ip [] = none
first_mac ip (e ∷ t) = if e.ip == ip then some e.mac else first_mac ip t

mac_of-first_mac : (ip : ℕ) (t : List ArpTableEntry) → mac_of ip t ≡ first_mac ip t
unfolding get_arp_table_entry find_index
mac_of-first_mac ip [] = refl
mac_of-first_mac ip (e ∷ t) = ground (arith, mac_of-first_mac ip t)

first_mac-snoc :
    (ip j : ℕ) (mac : Bytes) (t : List ArpTableEntry)
    → get_arp_table_entry ip t ≡ none
    → first_mac j (t ++ (record { ip = ip; mac = mac }) ∷ [])
      ≡ (if ip == j then some mac else first_mac j t)
unfolding get_arp_table_entry find_index
first_mac-snoc ip j mac [] h = ground arith
first_mac-snoc ip j mac (e ∷ t) h = ground (arith, first_mac-snoc ip j mac t)

first_mac-set :
    (ip j i : ℕ) (mac : Bytes) (t : List ArpTableEntry) (e : ArpTableEntry)
    → get_arp_table_entry ip t ≡ some i
    → get_elem? t i ≡ some e
    → first_mac j (set t i (record e { mac = mac })) ≡ (if ip == j then some mac else first_mac j t)
unfolding get_arp_table_entry find_index
first_mac-set ip j i mac [] e h at = absurd (cc)
first_mac-set ip j zero mac (d ∷ t) e h at =
    let d≡e : d ≡ e = ground arith in
    let named : e.ip ≡ ip = rw (← d≡e) (ground arith) in ground arith
first_mac-set ip j (suc i) mac (d ∷ t) e h at = ground (arith, first_mac-set ip j i mac t e)

-- An address that is learned, where the table has room for it, is found with the MAC address that
-- was learned last, and all other addresses are found as before.
pub mac_of-learn :
    (ip j : ℕ) (mac : Bytes) (t t' : List ArpTableEntry)
    → learn ip mac t ≡ some t'
    → mac_of j t' ≡ (if ip == j then some mac else mac_of j t)
unfolding learn
mac_of-learn ip j mac t t' h = elim (Option-cases (get_arp_table_entry ip t)) [
  | inl new ↦
      let eq : t' ≡ t ++ (record { ip = ip; mac = mac }) ∷ [] = ground arith in
      rw (eq, mac_of-first_mac j (t ++ (record { ip = ip; mac = mac }) ∷ []), mac_of-first_mac j t)
        (first_mac-snoc ip j mac t new)
  | inr (i, old) ↦ elim (Option-cases (get_elem? t i)) [
    | inl miss ↦ absurd (ground arith)
    | inr (e, at) ↦
        let eq : t' ≡ set t i (record e { mac = mac }) = ground arith in
        rw (eq, mac_of-first_mac j (set t i (record e { mac = mac })), mac_of-first_mac j t)
          (first_mac-set ip j i mac t e old at)
  ]
]
