-- ===== src/Broker/Clients.antt =====
-- Tema_2/utils.c and utils.h: the table of clients. `clients[0 .. num_clients)` is a list, an id is
-- the bytes before its NUL, and the socket -1 is `none`.
pub mod Registry
pub mod Sessions
use teme_pcom.Prelude.{
  Bool, Bytes, List, Option, [], false, find_index, get_elem?, if◌then◌else◌, length, ltb, none,
  set, some, str_eq, take, true, ℕ, ◌++◌, ◌+◌, ◌==◌, ◌∷◌,
}

abbrev pub max_clients : ℕ
max_clients = 32

abbrev pub max_id_len : ℕ
max_id_len = 11

pub record Client : Type 0 where
  pub id : Bytes
  pub sockfd : Option ℕ
  pub connected : Bool
  pub sent_message : Bool

-- sockfd == fd, for a descriptor fd
unfoldable pub has_fd : ℕ → Option ℕ → Bool
has_fd fd none = false
has_fd fd (some s) = s == fd

unfoldable pub find_client_by_id : Bytes → List Client → Option ℕ
find_client_by_id id clients = find_index (λ c. str_eq c.id id) clients

unfoldable pub find_client_by_fd : ℕ → List Client → Option ℕ
find_client_by_fd fd clients = find_index (λ c. has_fd fd c.sockfd) clients

unfoldable pub is_connected_id : Bytes → List Client → Bool
is_connected_id id clients = elim (find_client_by_id id clients) [
  | none ↦ false
  | some i ↦ elim (get_elem? clients i) [ none ↦ false | some c ↦ c.connected ]
]

-- A slot of the zeroed table that takes a new id (strncpy stops at MAX_ID_LEN bytes).
abbrev pub fresh_client : Bytes → Client
fresh_client id = record {
  id = take max_id_len id;
  sockfd = some 0;
  connected = false;
  sent_message = false;
}

-- What the call returns, with the table that it leaves: an index, -1, or a write past the table.
pub data Added : Type 0 where
  added : List Client → ℕ → Added
  already_connected : List Client → Added
  past_the_table : Added

-- The second half of add_or_reconnect_client, at the index that was found or made.
unfoldable pub connect_at : ℕ → ℕ → List Client → Added
connect_at index new_fd clients = elim (get_elem? clients index) [
  | none ↦ past_the_table
  | some c ↦
      if c.connected
      then already_connected clients
      else added (set clients index (record c { sockfd = some new_fd; connected = true })) index
]

unfoldable pub add_or_reconnect_client : Bytes → ℕ → List Client → Added
add_or_reconnect_client id new_fd clients = elim (find_client_by_id id clients) [
  | none ↦
      if ltb (length clients) max_clients
      then connect_at (length clients) new_fd (clients ++ fresh_client id ∷ [])
      else past_the_table
  | some index ↦ connect_at index new_fd clients
]

-- clients[i].sockfd = -1 and clients[i].connected = 0
unfoldable pub disconnect_at : ℕ → List Client → List Client
disconnect_at i clients = elim (get_elem? clients i) [
  | none ↦ clients
  | some c ↦ set clients i (record c { sockfd = none; connected = false })
]

-- Only the first client with that socket is reset.
unfoldable pub handle_disconnect : ℕ → List Client → List Client
handle_disconnect sockfd clients = elim (find_client_by_fd sockfd clients) [
  | none ↦ clients
  | some i ↦ disconnect_at i clients
]
