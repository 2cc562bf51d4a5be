-- ===== src/Nut/Client/Secrecy.antt =====
-- What the client writes before TLS is on.
use nut_dog.Prelude.{
  suc, ◌≡◌, refl, sym, subst, length, inr, Bool, true, false, Option, none, some, [], ◌∷◌, ◌++◌,
  Text, codes, ◌==◌, if◌then◌else◌,
}
use nut_dog.GoStrings.{has_prefix}
use nut_dog.GoStrings.Parts.{quote}
use nut_dog.Nut.Client.{
  Peer, Session, Options, Result, ok, err, Net, raise, bind, raw_from, raw_result, collect_vars,
  send, cmd_ok, upgraded, start_tls, authenticate, close_on_error, connected, connect, then_close,
  then_logout, list_vars, fetch_open, fetch, check_auth, set_var, host_of, starttls_refused,
}
use nut_dog.Nut.Client.Covering.{
  IsCovered, IsSecure, KeepsSecure, bind-IsSecure, collect_for-KeepsSecure, send-IsCovered,
  send-KeepsSecure, if-KeepsSecure, cmd_ok-KeepsSecure,
}

module _ {S : Type 0} (p : Peer S) where
  -- TLS is on after a success, and at an error nothing was written in the clear but the request for it.
  abbrev IsUpgraded : {A : Type 0} → Result A × Session S → Type 0
  IsUpgraded (ok a, s) = IsSecure s
  IsUpgraded (err e, s) = IsCovered s.written

  bind-IsUpgraded :
      {A B : Type 0} (f : A → Net S B) (r : Result A × Session S)
      → ((a : A) (s : Session S) → IsCovered s.written → IsUpgraded (f a s))
      → IsCovered r.1.written
      → IsUpgraded (bind f r)
  bind-IsUpgraded f (ok a, s) k h = k a s h
  bind-IsUpgraded f (err e, s) k h = h

  raw_result_keeps :
      (s : Session S) (r : Option Text × Text) → (raw_result s r).1.written ≡ s.written
  raw_result_keeps s (none, rest) = refl
  raw_result_keeps s (some line, rest) = refl

  upgraded-IsUpgraded :
      (o : Option (Text × S)) (s : Session S) → IsCovered s.written → IsUpgraded (upgraded p o s)
  upgraded-IsUpgraded none s h = h
  upgraded-IsUpgraded (some (more, peer)) s h = (refl, h)

  if-IsUpgraded :
      {A : Type 0} (b : Bool) (m n : Net S A) (s : Session S)
      → IsUpgraded (m s)
      → IsUpgraded (n s)
      → IsUpgraded ((if b then m else n) s)
  if-IsUpgraded true m n s h k = h
  if-IsUpgraded false m n s h k = k

  start_tls-IsUpgraded :
      (addr : Text) (insecure : Bool) (s : Session S)
      → IsCovered s.written
      → IsUpgraded (start_tls p addr insecure s)
  unfolding start_tls
  start_tls-IsUpgraded addr insecure s h =
      bind-IsUpgraded _ (send p (codes "STARTTLS\n") s)
        (λ u s₁ h₁.
          bind-IsUpgraded _ (raw_result s₁ (raw_from [] s₁.incoming))
            (λ line s₂ h₂.
              if-IsUpgraded (has_prefix line (codes "OK"))
                (λ s₃. upgraded p (p.upgrade (host_of p addr) insecure s₃.incoming s₃.peer) s₃)
                (raise (starttls_refused line)) s₂
                (upgraded-IsUpgraded (p.upgrade (host_of p addr) insecure s₂.incoming s₂.peer) s₂
                  h₂)
                h₂)
            (subst IsCovered (sym (raw_result_keeps s₁ (raw_from [] s₁.incoming))) h₁))
        (send-IsCovered p (codes "STARTTLS\n") s h (inr refl))

  secure-IsUpgraded : {B : Type 0} (r : Result B × Session S) → IsSecure r.1 → IsUpgraded r
  secure-IsUpgraded (ok b, s) h = h
  secure-IsUpgraded (err e, s) h = h.1

  bind_after :
      {A B : Type 0} (f : A → Net S B) (r : Result A × Session S)
      → ((a : A) → KeepsSecure (f a))
      → IsUpgraded r
      → IsUpgraded (bind f r)
  bind_after f (ok a, s) k h = secure-IsUpgraded (f a s) (k a s h)
  bind_after f (err e, s) k h = h

  authenticate-IsUpgraded :
      (addr : Text) (opts : Options) (s : Session S)
      → opts.tls ≡ true
      → IsCovered s.written
      → IsUpgraded (authenticate p addr opts s)
  unfolding authenticate
  authenticate-IsUpgraded addr opts s tls h = rw tls (
      bind_after _ (start_tls p addr opts.insecure_skip_verify s)
        (λ u.
          if-KeepsSecure p (opts.username == []) _ _ (λ t k. k)
            (λ s' k.
              bind-IsSecure _ (cmd_ok p (codes "USERNAME " ++ opts.username) s')
                (λ v. cmd_ok-KeepsSecure p (codes "PASSWORD " ++ opts.password))
                (cmd_ok-KeepsSecure p (codes "USERNAME " ++ opts.username) s' k)))
        (start_tls-IsUpgraded addr opts.insecure_skip_verify s h))

  closed-IsUpgraded :
      (r : Result (Unit {0}) × Session S) → IsUpgraded r → IsUpgraded (close_on_error p r)
  closed-IsUpgraded (ok u, s) h = h
  closed-IsUpgraded (err e, s) h = h

  connect-IsUpgraded :
      (addr : Text) (opts : Options) (s : Session S)
      → opts.tls ≡ true
      → IsCovered s.written
      → IsUpgraded (connect p addr opts s)
  unfolding connect
  connect-IsUpgraded addr opts s tls h = go (p.dial addr s.peer)
    where
      go : (o : Option (Text × S)) → IsUpgraded (connected p addr opts o s)
      go none = h
      go (some (more, peer)) =
          let s' = record s { peer = peer; incoming = more; secure = false; is_open = true } in
          closed-IsUpgraded (authenticate p addr opts s')
            (authenticate-IsUpgraded addr opts s' tls h)

  bind-IsCovered :
      {A B : Type 0} (f : A → Net S B) (r : Result A × Session S)
      → ((a : A) → KeepsSecure (f a))
      → IsUpgraded r
      → IsCovered (bind f r).1.written
  bind-IsCovered f (ok a, s) k h = (k a s h).1
  bind-IsCovered f (err e, s) k h = h

  then_close-KeepsSecure : {A : Type 0} (m : Net S A) → KeepsSecure m → KeepsSecure (then_close p m)
  then_close-KeepsSecure m k s h = k s h

  list_vars-KeepsSecure : (ups : Text) → KeepsSecure (list_vars p ups)
  unfolding list_vars collect_vars
  list_vars-KeepsSecure ups s h =
      bind-IsSecure _ (send p (codes "LIST VAR " ++ ups ++ 10 ∷ []) s)
        (λ u s' h'. collect_for-KeepsSecure (suc (length s'.incoming)) ups [] s' h')
        (send-KeepsSecure p (codes "LIST VAR " ++ ups ++ 10 ∷ []) s h)

  fetch_open-KeepsSecure : (ups : Text) (opts : Options) → KeepsSecure (fetch_open p ups opts)
  unfolding fetch_open then_logout
  fetch_open-KeepsSecure ups opts =
      if-KeepsSecure p opts.login _ _
        (λ s h.
          bind-IsSecure _ (cmd_ok p (codes "LOGIN " ++ ups) s)
            (λ u s' h'. send-KeepsSecure p (codes "LOGOUT\n") _ (list_vars-KeepsSecure ups s' h'))
            (cmd_ok-KeepsSecure p (codes "LOGIN " ++ ups) s h))
        (list_vars-KeepsSecure ups)

  -- With TLS asked for, and whatever the server does, `Fetch`, `SetVar` and `CheckAuth` write nothing in
  -- the clear but the request for TLS: no user name, no password and no command.
  pub tls_covers :
      (addr ups name value : Text) (opts : Options) (s : Session S)
      → opts.tls ≡ true
      → IsCovered s.written
      → IsCovered (fetch p addr ups opts s).1.written
        × IsCovered (set_var p addr ups name value opts s).1.written
        × IsCovered (check_auth p addr opts s).1.written
  unfolding fetch set_var check_auth
  tls_covers addr ups name value opts s tls h =
      let first = connect-IsUpgraded addr opts s tls h in
      let r = connect p addr opts s in
      let cmd = codes "SET VAR " ++ ups ++ b' ' ∷ name ++ b' ' ∷ quote value in
      (
        bind-IsCovered _ r
            (λ u. then_close-KeepsSecure (fetch_open p ups opts) (fetch_open-KeepsSecure ups opts))
            first,
        bind-IsCovered _ r
            (λ u. then_close-KeepsSecure {A = Unit {0}} (cmd_ok p cmd) (cmd_ok-KeepsSecure p cmd))
            first,
        bind-IsCovered _ r (λ u s' k. k) first,
      )
