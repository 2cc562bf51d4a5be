-- ===== src/Main/Signals.antt =====
-- The shed signal from the shedder over the NUT client to the server, and back to the shed reader.
use nut_dog.Prelude.{
  ◌≡◌, refl, sym, ap, ◌∙◌, Bool, true, false, none, some, arith, Text, codes, ◌==◌, Dict, lookup,
  lookup_or, if◌then◌else◌,
}
use nut_dog.Control.{shed_asserted, shed_released}
use nut_dog.Nut.Client.{Session, NetError, Result, ok, err, fetch, set_var}
use nut_dog.Effects.Shedder.{
  NutShedder, nut_shedder, wrap_set, wrap_set-inv, parse_shed_status, status_shed, status_ok, drive,
}
use nut_dog.Effects.Shedder
use nut_dog.Config.{Config}
use nut_dog.Main.{Outside, Machine, Wiring, local_upsd_addr, read_shed, shed_read}
use nut_dog.Main.Preflight.{local_opts}
use nut_dog.Main.Start.{error_of, local_var_setter, local_shedder}

-- What `Assert` sets, and what `Release` sets.
abbrev pub status_of : Bool → Text
status_of asserting = if asserting then status_shed else status_ok

-- A reply with this status among its variables.
abbrev pub Shows : Text → Result (Dict Text) → Type 0
Shows status (ok vars) = lookup (codes "ups.status") vars ≡ some status
Shows status (err e) = ⊥

module _ {S E F : Type 0} (o : Outside S E F) where
  shed_read-Shows :
      (status : Text) (r : Result (Dict Text) × Session S) (m : Machine S F)
      → Shows status r.0
      → (shed_read o r m).0 ≡ parse_shed_status status
  unfolding shed_read lookup_or
  shed_read-Shows status (ok vars, net) m h = rw (shed_read, lookup_or, h) refl
  shed_read-Shows status (err e, net) m h = absurd h

  no_error : (r : Result (Unit {0})) → error_of r ≡ none → r ≡ ok tt
  no_error (ok u) h = refl
  no_error (err e) h = absurd (ground arith)

  drive_status :
      {W : Type 0} (s : NutShedder NetError W) (asserting : Bool) (load ups : Text) (w : W)
      → lookup load s.shed_ups ≡ some ups
      → drive (nut_shedder s) asserting load w
        ≡ wrap_set (s.set_var ups (codes "ups.status") (status_of asserting) w)
  unfolding nut_shedder Shedder.set
  drive_status s true load ups w found = rw (nut_shedder, Shedder.set, found) refl
  drive_status s false load ups w found = rw (nut_shedder, Shedder.set, found) refl

  read_status :
      (asserting : Bool)
      → parse_shed_status (status_of asserting)
        ≡ (if asserting then shed_asserted else shed_released)
  unfolding parse_shed_status ◌==◌
  read_status true = refl
  read_status false = refl

  -- Where a fetch after a status has been set without an error shows that status, the shed reader reads a signal that
  -- the shedder has asserted without an error as asserted, and one that it has released so as released.
  pub signal_read_back :
      (c : Config) (wired : Wiring S) (load ups : Text) (asserting : Bool) (m : Machine S F)
      → let addr = local_upsd_addr c in
        let opts = local_opts o.getenv c in
        let driven = drive (nut_shedder (local_shedder o c wired)) asserting load m in
        ((b : Bool) (net : Session S)
          → let r = set_var o.peer addr ups (codes "ups.status") (status_of b) opts net in
            r.0 ≡ ok tt → Shows (status_of b) (fetch o.peer addr ups opts r.1).0)
        → lookup load wired.shed_ups ≡ some ups
        → driven.0 ≡ none
        → (read_shed o addr opts wired.shed_ups load driven.1).0
          ≡ (if asserting then shed_asserted else shed_released)
  unfolding local_var_setter read_shed
  signal_read_back c wired load ups asserting m honest found ok_driven =
      let addr = local_upsd_addr c in
      let opts = local_opts o.getenv c in
      let r = set_var o.peer addr ups (codes "ups.status") (status_of asserting) opts m.net in
      let same = drive_status (local_shedder o c wired) asserting load ups m found in
      let set =
        (local_shedder o c wired).set_var ups (codes "ups.status") (status_of asserting) m in
      let inv = wrap_set-inv set in
      let fine : r.0 ≡ ok tt = no_error r.0 (inv.1 (ap (λ x. x.0) (sym same) ∙ ok_driven)) in
      let after : Machine S F = record m { net = r.1 } in
      let reached : (drive (nut_shedder (local_shedder o c wired)) asserting load m).1 ≡ after =
        ap (λ x. x.1) same ∙ inv.0 in
      let read =
        shed_read-Shows (status_of asserting) (fetch o.peer addr ups opts r.1) after
          (honest asserting m.net fine) in
      ap (λ w. (read_shed o addr opts wired.shed_ups load w).0) reached
      ∙ rw (read_shed, found) (read ∙ read_status asserting)
