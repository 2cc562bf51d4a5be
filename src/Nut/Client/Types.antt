-- ===== src/Nut/Client/Types.antt =====
-- The connection of the NUT client, its errors, and operations on it as a monad.
use nut_dog.Prelude.{Bool, Option, List, Text}

-- A server at the end of a connection, with the network to it. `S` is its state. Each function gives
-- the bytes that arrive next, or `none` for an error; `upgrade` is the TLS handshake for a server's name,
-- which takes over what is left unread, and `hang_up` tells whether closing returns an error.
pub record Peer (S : Type 0) : Type 0 where
  pub dial : Text → S → Option (Text × S)
  pub answer : Text → S → Option (Text × S)
  pub upgrade : Text → Bool → Text → S → Option (Text × S)
  pub hang_up : S → Bool × S

-- What the client has written: whether TLS was on, and the text.
pub record Written : Type 0 where
  pub secure : Bool
  pub text : Text

-- A connection, with the bytes that have arrived and are not read.
pub record Session (S : Type 0) : Type 0 where
  pub peer : S
  pub incoming : Text
  pub secure : Bool
  pub is_open : Bool
  pub written : List Written

pub record Options : Type 0 where
  pub tls : Bool
  pub insecure_skip_verify : Bool
  pub username : Text
  pub password : Text
  pub login : Bool

-- The errors, by their causes; `out_of_fuel` is none of the source's.
pub data NetError : Type 0 where
  dial_failed write_failed read_failed starttls_failed handshake_failed close_failed : NetError
  starttls_refused nut_error : Text → NetError
  cmd_failed : Text → Text → NetError
  out_of_fuel : NetError

pub data Result {ℓ} (A : Type ℓ) : Type ℓ where
  ok : A → Result A
  err : NetError → Result A

-- An operation on a connection.
abbrev pub Net : Type 0 → Type 0 → Type 0
Net S A = Session S → Result A × Session S

module _ {S : Type 0} where
  abbrev pub pure : {A : Type 0} → A → Net S A
  pure a s = (ok a, s)

  abbrev pub raise : {A : Type 0} → NetError → Net S A
  raise e s = (err e, s)

abbrev pub bind : {S A B : Type 0} → (A → Net S B) → Result A × Session S → Result B × Session S
bind f (ok a, s) = f a s
bind f (err e, s) = (err e, s)

infixl 5 ◌>>=◌ ◌>>◌
abbrev pub ◌>>=◌ : {S A B : Type 0} → Net S A → (A → Net S B) → Net S B
◌>>=◌ m f s = bind f (m s)

abbrev pub ◌>>◌ : {S A B : Type 0} → Net S A → Net S B → Net S B
m >> k = m >>= λ _. k
