-- ===== src/Http/Session.antt =====
-- The state of main in Tema_3/client.c, and the actions that its commands are made of. An action
-- that ends the program or waits for ever keeps the state that it has reached.
pub mod Actions
pub mod Keeps
pub mod Tidy
pub mod Safe
pub mod Held
use teme_pcom.Prelude.{Bool, Bytes, List, Option, ℕ}
use teme_pcom.Http.Connection.{ReadCall, WriteCall}

-- A char pointer that free is called on: `wild` before it is set, and once it is freed.
pub data Pointer : Type 0 where
  wild : Pointer
  live : Bytes → Pointer

-- What connect does, and what the calls of write and read return on the socket.
pub record Connection : Type 0 where
  pub opens : Bool
  pub writes : List WriteCall
  pub reads : List ReadCall

pub record Session : Type 0 where
  -- what is left of the standard input, and what was printed
  pub input : Bytes
  pub printed : Bytes
  -- the connections that will be made, the one that is open, and the messages that were written
  pub connections : List Connection
  pub sockfd : Option Connection
  pub requests : List Bytes
  -- the array of the last command, up to what was ever written to it
  pub command : Bytes
  pub cookies : Pointer
  pub cookies_exist : Bool
  pub acces_token : Pointer
  pub acces_token_exist : Bool
  -- what an int holds before it is set
  pub unset_int : ℕ

-- The end of the program, a call that does not return, a use of `cookies` or `acces_token` where it
-- is wild, another access that C leaves undefined, and the end of the model's fuel.
pub data Ending : Type 0 where
  exits waits dangling fault out_of_fuel : Ending

pub data Result (A : Type 0) : Type 0 where
  ok : A → Result A
  ends : Ending → Result A

abbrev pub Action : Type 0 → Type 0
Action A = Session → Result A × Session

module _ {A : Type 0} where
  unfoldable pub pure : A → Action A
  pure a s = (ok a, s)

  unfoldable pub stop : Ending → Action A
  stop e s = (ends e, s)

infixl 5 ◌>>=◌ ◌>>◌
unfoldable pub ◌>>=◌ : {A B : Type 0} → Action A → (A → Action B) → Action B
◌>>=◌ m f s = let (r, s') = m s in elim r [ ok a ↦ f a s' | ends e ↦ (ends e, s') ]

abbrev pub ◌>>◌ : {B : Type 0} → Action (Unit {0}) → Action B → Action B
m >> k = m >>= λ _. k

unfoldable pub gets : {A : Type 0} → (Session → A) → Action A
gets f s = (ok (f s), s)
