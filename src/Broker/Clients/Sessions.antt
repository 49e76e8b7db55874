-- ===== src/Broker/Clients/Sessions.antt =====
-- A client across its sessions: registering, leaving and coming back.
use teme_pcom.Prelude.{
  Bytes, List, Option-cases, [], ap, arith, false, find_index-some, get_elem?, get_elem?-lt,
  get_elem?-set_ne, get_elem?-set_self, get_elem?-snoc, get_elem?-snoc_lt, inl, inr, length,
  length-set, none, refl, set, some, subst, sym, take_all, true, ℕ, ◌++◌, ◌<◌, ◌↔◌, ◌∙◌, ◌∷◌, ◌≡◌,
  ◌≢◌,
}
use teme_pcom.Broker.Clients.{
  Added, Client, add_or_reconnect_client, added, already_connected, disconnect_at,
  find_client_by_fd, find_client_by_id, fresh_client, handle_disconnect, has_fd, is_connected_id,
  max_id_len,
}
use teme_pcom.Broker.Clients.Registry.{
  IsUnused, Registration, WellFormed, add_or_reconnect_client-Registration,
  add_or_reconnect_client-WellFormed, connect_at-free, connected_as, find_client_by_fd-at,
  find_client_by_id-at, new_slot, old_slot, overrun, refused, set-WellFormed,
}

-- The slot of a client that has just been registered.
registered_slot :
    {id : Bytes} {fd : ℕ} {clients clients' : List Client} {i : ℕ} {r : Added}
    → length id < max_id_len
    → Registration id fd clients r
    → r ≡ added clients' i
    → (c : Client) × (get_elem? clients' i ≡ some c)
      × (c.id ≡ id)
      × (c.sockfd ≡ some fd)
      × (c.connected ≡ true)
registered_slot {id} {fd} {clients} short (new_slot unknown room e) h =
    let c : Client = connected_as (fresh_client id) fd in
    let at : get_elem? (clients ++ c ∷ []) (length clients) ≡ some c = get_elem?-snoc clients c in
    (c, cc, take_all max_id_len id (omega arith), refl, refl)
registered_slot {id} {fd} {clients} short (old_slot i c known at same free e) h =
    let c' : Client = connected_as c fd in
    let there : get_elem? (set clients i c') i ≡ some c' =
      get_elem?-set_self clients i c' (get_elem?-lt clients i c at) in
    (c', cc, same, refl, refl)
registered_slot short (refused i c known at same busy e) h = absurd (cc)
registered_slot short (overrun unknown full e) h = absurd (cc)

other_slots :
    {id : Bytes} {fd : ℕ} {clients clients' : List Client} {i : ℕ} {r : Added}
    → Registration id fd clients r
    → r ≡ added clients' i
    → (j : ℕ) → j < length clients
    → j ≢ i
    → get_elem? clients' j ≡ get_elem? clients j
other_slots {id} {fd} {clients} (new_slot unknown room e) h j lt ne =
    let same = get_elem?-snoc_lt clients (connected_as (fresh_client id) fd) j lt in cc
other_slots {id} {fd} {clients} {i = k} (old_slot i c known at same free e) h j lt ne =
    let e' : added (set clients i (connected_as c fd)) i ≡ added _ k = sym e ∙ h in
    let i≡k : i ≡ k = cc in
    let same = get_elem?-set_ne clients i j (connected_as c fd) (λ q. ne (sym q ∙ i≡k)) in cc
other_slots (refused i c known at same busy e) h j lt ne = absurd (cc)
other_slots (overrun unknown full e) h j lt ne = absurd (cc)

-- The table is as it was at all other indices.
abbrev pub SameElsewhere : ℕ → List Client → List Client → Type 0
SameElsewhere i clients clients' =
    (j : ℕ) → j < length clients → j ≢ i → get_elem? clients' j ≡ get_elem? clients j

-- After a registration the client is found by its id and by its socket at the index that was
-- returned, it counts as connected, and all other slots are as before.
add_or_reconnect_client-registers :
    (id : Bytes) (fd : ℕ) (clients clients' : List Client) (i : ℕ)
    → WellFormed clients
    → length id < max_id_len
    → IsUnused fd clients
    → add_or_reconnect_client id fd clients ≡ added clients' i
    → (find_client_by_id id clients' ≡ some i)
      × (find_client_by_fd fd clients' ≡ some i)
      × (is_connected_id id clients' ≡ true)
      × SameElsewhere i clients clients'
unfolding is_connected_id
add_or_reconnect_client-registers id fd clients clients' i w short u h =
    let o = add_or_reconnect_client-Registration id fd clients in
    let w' = add_or_reconnect_client-WellFormed id fd clients clients' i w short u h in
    let (c, at, same, sock, conn) = registered_slot short o h in
    let by_id : find_client_by_id id clients' ≡ some i =
      ap (λ x. find_client_by_id x clients') (sym same) ∙ find_client_by_id-at i c w' at in
    (
      by_id,
      find_client_by_fd-at i c fd w' at sock,
      rw (by_id, is_connected_id, at) conn,
      other_slots o h,
    )

-- A registration is refused exactly when a client with that id is connected, and then it changes
-- nothing.
pub add_or_reconnect_client-refused_iff :
    (id : Bytes) (fd : ℕ) (clients clients' : List Client)
    → (add_or_reconnect_client id fd clients ≡ already_connected clients')
      ↔ ((is_connected_id id clients ≡ true) × (clients' ≡ clients))
unfolding is_connected_id
add_or_reconnect_client-refused_iff id fd clients clients' =
    elim (add_or_reconnect_client-Registration id fd clients) [
      | new_slot unknown room e ↦ (λ h. absurd (cc), λ p. ground arith)
      | old_slot i c known at same free e ↦ (λ h. absurd (cc), λ p. ground arith)
      | refused i c known at same busy e ↦
          (λ h. (rw (known, is_connected_id, at) busy, cc), λ p. cc)
      | overrun unknown full e ↦ (λ h. absurd (cc), λ p. ground arith)
    ]

-- What the search by socket returns.
client_by_fd :
    (fd : ℕ) (clients : List Client) (i : ℕ)
    → find_client_by_fd fd clients ≡ some i
    → (c : Client) × (get_elem? clients i ≡ some c)
unfolding find_client_by_fd
client_by_fd fd clients i h =
    let (c, at, passes, bound) = find_index-some (λ c. has_fd fd c.sockfd) clients i h in (c, at)

pub disconnect_at-WellFormed :
    (i : ℕ) (clients : List Client) → WellFormed clients → WellFormed (disconnect_at i clients)
unfolding disconnect_at
disconnect_at-WellFormed i clients w = elim (Option-cases (get_elem? clients i)) [
  | inl e ↦ rw (e, disconnect_at) w
  | inr (c, at) ↦
      rw (at, disconnect_at)
        (set-WellFormed clients i c (record c { sockfd = none; connected = false }) w at refl
          (inr (refl, refl)) (λ fd s. absurd (cc)))
]

-- Closing a connection keeps the table well formed.
handle_disconnect-WellFormed :
    (fd : ℕ) (clients : List Client)
    → WellFormed clients
    → WellFormed (handle_disconnect fd clients)
unfolding handle_disconnect
handle_disconnect-WellFormed fd clients w = elim (Option-cases (find_client_by_fd fd clients)) [
  | inl e ↦ rw (e, handle_disconnect) w
  | inr (i, e) ↦ rw (e, handle_disconnect) (disconnect_at-WellFormed i clients w)
]

-- A client that was registered on a socket, left, and registers again on another socket that
-- nobody holds, gets the slot back that it had.
pub reconnect_same_slot :
    (id : Bytes) (fd fd' : ℕ) (clients clients' : List Client) (i : ℕ)
    → WellFormed clients
    → length id < max_id_len
    → IsUnused fd clients
    → add_or_reconnect_client id fd clients ≡ added clients' i
    → (clients'' : List Client) × (add_or_reconnect_client id fd' (handle_disconnect fd clients')
        ≡ added clients'' i)
      × (length clients'' ≡ length clients')
unfolding handle_disconnect disconnect_at add_or_reconnect_client
reconnect_same_slot id fd fd' clients clients' i w short u h =
    let o = add_or_reconnect_client-Registration id fd clients in
    let w' = add_or_reconnect_client-WellFormed id fd clients clients' i w short u h in
    let (c, at, same, sock, conn) = registered_slot short o h in
    let gone : Client = record c { sockfd = none; connected = false } in
    let by_fd = find_client_by_fd-at i c fd w' at sock in
    let left : handle_disconnect fd clients' ≡ set clients' i gone =
      rw (by_fd, handle_disconnect, at, disconnect_at) refl in
    let there = get_elem?-set_self clients' i gone (get_elem?-lt clients' i c at) in
    let w'' : WellFormed (set clients' i gone) =
      subst WellFormed left (handle_disconnect-WellFormed fd clients' w') in
    let known : find_client_by_id id (set clients' i gone) ≡ some i =
      ap (λ x. find_client_by_id x (set clients' i gone)) (sym same)
      ∙ find_client_by_id-at i gone w'' there in
    let back = connected_as gone fd' in
    (
      set (set clients' i gone) i back,
      ap (add_or_reconnect_client id fd') left
          ∙ (rw (known, add_or_reconnect_client)
              (connect_at-free i fd' (set clients' i gone) gone there refl)),
      length-set (set clients' i gone) i back ∙ length-set clients' i gone,
    )
