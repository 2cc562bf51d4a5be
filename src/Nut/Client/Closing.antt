-- ===== src/Nut/Client/Closing.antt =====
-- That every operation of the client closes its connection.
use nut_dog.Prelude.{◌≡◌, refl, false, Option, none, some, Text}
use nut_dog.Nut.Client.{
  Peer, Session, Options, Result, ok, err, Net, bind, close_on_error, connected, connect, fetch,
  check_auth, set_var,
}

module _ {S : Type 0} (p : Peer S) where
  -- At an error the connection is closed.
  abbrev IsClosedAtError : {A : Type 0} → Result A × Session S → Type 0
  IsClosedAtError (ok a, s) = Unit
  IsClosedAtError (err e, s) = s.is_open ≡ false

  close_on_error-IsClosedAtError :
      (r : Result (Unit {0}) × Session S) → IsClosedAtError (close_on_error p r)
  close_on_error-IsClosedAtError (ok u, s) = tt
  close_on_error-IsClosedAtError (err e, s) = refl

  connected-IsClosedAtError :
      (addr : Text) (opts : Options) (o : Option (Text × S)) (s : Session S)
      → s.is_open ≡ false
      → IsClosedAtError (connected p addr opts o s)
  unfolding connected
  connected-IsClosedAtError addr opts none s h = h
  connected-IsClosedAtError addr opts (some (more, peer)) s h = close_on_error-IsClosedAtError _

  connect-IsClosedAtError :
      (addr : Text) (opts : Options) (s : Session S)
      → s.is_open ≡ false
      → IsClosedAtError (connect p addr opts s)
  unfolding connect
  connect-IsClosedAtError addr opts s h =
      connected-IsClosedAtError addr opts (p.dial addr s.peer) s h

  bind_closes :
      {A B : Type 0} (f : A → Net S B) (r : Result A × Session S)
      → IsClosedAtError r
      → ((a : A) (s : Session S) → (f a s).1.is_open ≡ false)
      → (bind f r).1.is_open ≡ false
  bind_closes f (ok a, s) h k = k a s
  bind_closes f (err e, s) h k = h

  -- `Fetch`, `SetVar` and `CheckAuth` leave no connection open, whatever the server does and whether or not they
  -- return an error.
  pub operations_close :
      (addr ups name value : Text) (opts : Options) (s : Session S)
      → s.is_open ≡ false
      → ((fetch p addr ups opts s).1.is_open ≡ false)
        × ((set_var p addr ups name value opts s).1.is_open ≡ false)
        × ((check_auth p addr opts s).1.is_open ≡ false)
  unfolding fetch set_var check_auth
  operations_close addr ups name value opts s h =
      let first = connect-IsClosedAtError addr opts s h in
      let r = connect p addr opts s in
      (
        bind_closes _ r first (λ u t. refl),
        bind_closes _ r first (λ u t. refl),
        bind_closes _ r first (λ u t. refl),
      )
