-- ===== src/Broker/Clients/Registry.antt =====
-- The table of clients: distinct ids, distinct open sockets, and what a registration does.
use teme_pcom.Prelude.{
  Bool-cases, Bytes, List, Option, Option-cases, [], ap, arith, false, find_index-none-at,
  find_index-some, find_index_unique, get_elem?, get_elem?-set-cases, get_elem?-snoc,
  get_elem?-snoc-cases, inl, inr, length, ltb, none, refl, set, set-snoc, some, str_eq, str_eq_iff,
  str_eq_refl, str_eq→eq, subst, sym, take_all, true, ℕ, ◌++◌, ◌<◌, ◌∙◌, ◌∷◌, ◌≡◌, ◌≢◌, ◌≤◌, ◌⊎◌,
}
use teme_pcom.Broker.Clients.{
  Added, Client, add_or_reconnect_client, added, already_connected, connect_at, find_client_by_fd,
  find_client_by_id, fresh_client, has_fd, max_clients, max_id_len, past_the_table,
}

-- A connected client has a socket, and a disconnected one has none.
abbrev pub HasState : Client → Type 0
HasState c =
    ((c.connected ≡ true) × (c.sockfd ≢ none)) ⊎ ((c.connected ≡ false) × (c.sockfd ≡ none))

pub record WellFormed (clients : List Client) : Type 0 where
  pub ids_differ :
      (i j : ℕ) (c d : Client)
      → get_elem? clients i ≡ some c
      → get_elem? clients j ≡ some d
      → c.id ≡ d.id
      → i ≡ j
  pub fds_differ :
      (i j : ℕ) (c d : Client) (fd : ℕ)
      → get_elem? clients i ≡ some c
      → get_elem? clients j ≡ some d
      → c.sockfd ≡ some fd
      → d.sockfd ≡ some fd
      → i ≡ j
  pub states : (i : ℕ) (c : Client) → get_elem? clients i ≡ some c → HasState c

-- No client holds the socket.
abbrev pub IsUnused : ℕ → List Client → Type 0
IsUnused fd clients = (i : ℕ) (c : Client) → get_elem? clients i ≡ some c → c.sockfd ≢ some fd

pub has_fd→eq : (fd : ℕ) (s : Option ℕ) → has_fd fd s ≡ true → s ≡ some fd
unfolding has_fd
has_fd→eq fd none h = cc
has_fd→eq fd (some s) h = ground arith

pub eq→has_fd : (fd : ℕ) (s : Option ℕ) → s ≡ some fd → has_fd fd s ≡ true
unfolding has_fd
eq→has_fd fd s h = ground arith

-- The searches find the client that is there.
pub find_client_by_id-at :
    {clients : List Client} (i : ℕ) (c : Client)
    → WellFormed clients
    → get_elem? clients i ≡ some c
    → find_client_by_id c.id clients ≡ some i
unfolding find_client_by_id
find_client_by_id-at {clients} i c w at =
    find_index_unique (λ d. str_eq d.id c.id) clients i c at (str_eq_refl c.id)
      λ j d e q. w.ids_differ j i d c e at (str_eq→eq d.id c.id q)

pub find_client_by_fd-at :
    {clients : List Client} (i : ℕ) (c : Client) (fd : ℕ)
    → WellFormed clients
    → get_elem? clients i ≡ some c
    → c.sockfd ≡ some fd
    → find_client_by_fd fd clients ≡ some i
unfolding find_client_by_fd
find_client_by_fd-at {clients} i c fd w at e =
    find_index_unique (λ d. has_fd fd d.sockfd) clients i c at (eq→has_fd fd c.sockfd e)
      λ j d e' q. w.fds_differ j i d c fd e' at (has_fd→eq fd d.sockfd q) e

-- Changing the state of the client at one index, and not its id.
pub set-WellFormed :
    (clients : List Client) (i : ℕ) (c c' : Client)
    → WellFormed clients
    → get_elem? clients i ≡ some c
    → c'.id ≡ c.id
    → HasState c'
    → ((fd : ℕ) → c'.sockfd ≡ some fd → IsUnused fd clients)
    → WellFormed (set clients i c')
set-WellFormed clients i c c' w at same_id st fresh = record {
  ids_differ = λ j k d e hd he same. elim (get_elem?-set-cases clients i j c' d hd) [
    | inl (ej, ed) ↦ elim (get_elem?-set-cases clients i k c' e he) [
      | inl (ek, ee) ↦ omega arith
      | inr (nk, ge) ↦ ej ∙ w.ids_differ i k c e at ge (cc)
    ]
    | inr (nj, gd) ↦ elim (get_elem?-set-cases clients i k c' e he) [
      | inl (ek, ee) ↦ w.ids_differ j i d c gd at (cc) ∙ sym ek
      | inr (nk, ge) ↦ w.ids_differ j k d e gd ge same
    ]
  ];
  fds_differ = λ j k d e fd hd he sd se. elim (get_elem?-set-cases clients i j c' d hd) [
    | inl (ej, ed) ↦ elim (get_elem?-set-cases clients i k c' e he) [
      | inl (ek, ee) ↦ omega arith
      | inr (nk, ge) ↦ absurd (fresh fd (cc) k e ge se)
    ]
    | inr (nj, gd) ↦ elim (get_elem?-set-cases clients i k c' e he) [
      | inl (ek, ee) ↦ absurd (fresh fd (cc) j d gd sd)
      | inr (nk, ge) ↦ w.fds_differ j k d e fd gd ge sd se
    ]
  ];
  states = λ j d hd. elim (get_elem?-set-cases clients i j c' d hd) [
    | inl (ej, ed) ↦ rw ed st
    | inr (nj, gd) ↦ w.states j d gd
  ];
}

-- A new client behind the others.
snoc-WellFormed :
    (clients : List Client) (c' : Client)
    → WellFormed clients
    → ((i : ℕ) (c : Client) → get_elem? clients i ≡ some c → c.id ≢ c'.id)
    → HasState c'
    → ((fd : ℕ) → c'.sockfd ≡ some fd → IsUnused fd clients)
    → WellFormed (clients ++ c' ∷ [])
snoc-WellFormed clients c' w new st fresh = record {
  ids_differ = λ j k d e hd he same. elim (get_elem?-snoc-cases clients c' j d hd) [
    | inl (ej, ed) ↦ elim (get_elem?-snoc-cases clients c' k e he) [
      | inl (ek, ee) ↦ omega arith
      | inr ge ↦ absurd (new k e ge (cc))
    ]
    | inr gd ↦ elim (get_elem?-snoc-cases clients c' k e he) [
      | inl (ek, ee) ↦ absurd (new j d gd (cc))
      | inr ge ↦ w.ids_differ j k d e gd ge same
    ]
  ];
  fds_differ = λ j k d e fd hd he sd se. elim (get_elem?-snoc-cases clients c' j d hd) [
    | inl (ej, ed) ↦ elim (get_elem?-snoc-cases clients c' k e he) [
      | inl (ek, ee) ↦ omega arith
      | inr ge ↦ absurd (fresh fd (cc) k e ge se)
    ]
    | inr gd ↦ elim (get_elem?-snoc-cases clients c' k e he) [
      | inl (ek, ee) ↦ absurd (fresh fd (cc) j d gd sd)
      | inr ge ↦ w.fds_differ j k d e fd gd ge sd se
    ]
  ];
  states = λ j d hd. elim (get_elem?-snoc-cases clients c' j d hd) [
    | inl (ej, ed) ↦ rw ed st
    | inr gd ↦ w.states j d gd
  ];
}

-- The client that the call leaves at its index.
abbrev pub connected_as : Client → ℕ → Client
connected_as c fd = record c { sockfd = some fd; connected = true }

-- The three ways in which the call ends: a new slot, a slot taken up again, or no change.
pub data Registration (id : Bytes) (fd : ℕ) (clients : List Client) (r : Added) : Type 0 where
  new_slot :
      find_client_by_id id clients ≡ none
      → length clients < max_clients
      → r ≡ added (clients ++ connected_as (fresh_client id) fd ∷ []) (length clients)
      → Registration id fd clients r
  old_slot :
      (i : ℕ) (c : Client)
      → find_client_by_id id clients ≡ some i
      → get_elem? clients i ≡ some c
      → c.id ≡ id
      → c.connected ≡ false
      → r ≡ added (set clients i (connected_as c fd)) i
      → Registration id fd clients r
  refused :
      (i : ℕ) (c : Client)
      → find_client_by_id id clients ≡ some i
      → get_elem? clients i ≡ some c
      → c.id ≡ id
      → c.connected ≡ true
      → r ≡ already_connected clients
      → Registration id fd clients r
  overrun :
      find_client_by_id id clients ≡ none
      → max_clients ≤ length clients
      → r ≡ past_the_table
      → Registration id fd clients r

pub connect_at-free :
    (i fd : ℕ) (clients : List Client) (c : Client)
    → get_elem? clients i ≡ some c
    → c.connected ≡ false
    → connect_at i fd clients ≡ added (set clients i (connected_as c fd)) i
unfolding connect_at
connect_at-free i fd clients c at free = rw (at, connect_at, free)

connect_at-busy :
    (i fd : ℕ) (clients : List Client) (c : Client)
    → get_elem? clients i ≡ some c
    → c.connected ≡ true
    → connect_at i fd clients ≡ already_connected clients
unfolding connect_at
connect_at-busy i fd clients c at busy = rw (at, connect_at, busy)

-- The client at the index that the search by id returns.
pub client_found :
    (id : Bytes) (clients : List Client) (i : ℕ)
    → find_client_by_id id clients ≡ some i
    → (c : Client) × (get_elem? clients i ≡ some c) × (c.id ≡ id)
unfolding find_client_by_id
client_found id clients i h =
    let (c, at, same, bound) = find_index-some (λ c. str_eq c.id id) clients i h in
    (c, at, str_eq→eq c.id id same)

pub add_or_reconnect_client-Registration :
    (id : Bytes) (fd : ℕ) (clients : List Client)
    → Registration id fd clients (add_or_reconnect_client id fd clients)
unfolding add_or_reconnect_client
add_or_reconnect_client-Registration id fd clients =
    elim (Option-cases (find_client_by_id id clients)) [
      | inl unknown ↦ elim (Bool-cases (ltb (length clients) max_clients)) [
        | inl room ↦ new_slot unknown (ground arith) (
            rw (unknown, add_or_reconnect_client, room)
              (connect_at-free (length clients) fd (clients ++ fresh_client id ∷ [])
                  (fresh_client id) (get_elem?-snoc clients (fresh_client id)) refl
                ∙ ap (λ l. added l (length clients)) (set-snoc clients (fresh_client id) _)))
        | inr full ↦ overrun unknown (ground arith) (rw (unknown, add_or_reconnect_client, full))
      ]
      | inr (i, known) ↦
          let (c, at, same) = client_found id clients i known in
          elim (Bool-cases c.connected) [
            | inl busy ↦
                refused i c known at same busy
                  (rw (known, add_or_reconnect_client) (connect_at-busy i fd clients c at busy))
            | inr free ↦
                old_slot i c known at same free
                  (rw (known, add_or_reconnect_client) (connect_at-free i fd clients c at free))
          ]
    ]

unknown_id :
    (id : Bytes) (clients : List Client) (i : ℕ) (c : Client)
    → find_client_by_id id clients ≡ none
    → get_elem? clients i ≡ some c
    → c.id ≢ id
unfolding find_client_by_id
unknown_id id clients i c h at e =
    ground (arith, find_index-none-at (λ d. str_eq d.id id) clients i c h at, str_eq_iff c.id id)

IsUnused-as :
    {fd fd' : ℕ} (clients : List Client)
    → IsUnused fd clients
    → some fd ≡ some fd'
    → IsUnused fd' clients
IsUnused-as clients u e i c at s = u i c at (s ∙ sym e)

outcome-WellFormed :
    {id : Bytes} {fd : ℕ} {clients clients' : List Client} {i : ℕ} {r : Added}
    → WellFormed clients
    → length id < max_id_len
    → IsUnused fd clients
    → Registration id fd clients r
    → r ≡ added clients' i
    → WellFormed clients'
outcome-WellFormed {id} {fd} {clients} w short u (new_slot unknown room e) h =
    let done =
      snoc-WellFormed clients (connected_as (fresh_client id) fd) w
        (λ i c at same.
          unknown_id id clients i c unknown at (same ∙ take_all max_id_len id (omega arith)))
        (inl (refl, cc)) (λ fd' s. IsUnused-as clients u s) in
    subst WellFormed (cc) done
outcome-WellFormed {id} {fd} {clients} w short u (old_slot i c known at same free e) h =
    let done =
      set-WellFormed clients i c (connected_as c fd) w at refl (inl (refl, cc))
        (λ fd' s. IsUnused-as clients u s) in
    subst WellFormed (cc) done
outcome-WellFormed w short u (refused i c known at same busy e) h = absurd (cc)
outcome-WellFormed w short u (overrun unknown full e) h = absurd (cc)

-- Registering a client by an id that fits, on a socket that no client holds, keeps the ids and the
-- open sockets distinct, and every client either connected with a socket or neither.
pub add_or_reconnect_client-WellFormed :
    (id : Bytes) (fd : ℕ) (clients clients' : List Client) (i : ℕ)
    → WellFormed clients
    → length id < max_id_len
    → IsUnused fd clients
    → add_or_reconnect_client id fd clients ≡ added clients' i
    → WellFormed clients'
add_or_reconnect_client-WellFormed id fd clients clients' i w short u h =
    outcome-WellFormed w short u (add_or_reconnect_client-Registration id fd clients) h
