-- ===== src/Tests/Talking.antt =====
-- The NUT client against a server that answers by a script.
use nut_dog.Prelude.{
  ℕ, ◌≡◌, ◌≢◌, refl, inl, inr, Bool, true, false, Option, none, some, List, [], ◌∷◌, ◌++◌, length,
  arith, All, Text, codes, ◌==◌, Dict, UniqueKeys, lookup,
}
use nut_dog.Nut.Client.{
  Peer, Written, Session, Options, NetError, Result, ok, err, out_of_fuel, nut_error, read_failed,
  starttls_refused, collect_vars, fetch, set_var, check_auth,
}
use nut_dog.Nut.Client.Reading.{collect_vars_total}
use nut_dog.Nut.Client.RoundTrip.{block}
use nut_dog.Nut.Client.Closing.{operations_close}
use nut_dog.Nut.Client.Fetching.{fetch-block}
use nut_dog.Nut.Client.Covering.{IsCovered}
use nut_dog.Nut.Client.Secrecy.{tls_covers}
use nut_dog.Tests.{ups_a}

abbrev pub scripted : Peer (List Text)
scripted = record {
  dial = λ addr s. some ([], s);
  answer = λ text s. elim s [ [] ↦ none | answer ∷ more ↦ some (answer, more) ];
  upgrade = λ host insecure unread s. some ([], s);
  hang_up = λ s. (false, s);
}

abbrev pub unconnected : {S : Type 0} → S → Session S
unconnected peer = record {
  peer = peer;
  incoming = [];
  secure = false;
  is_open = false;
  written = [];
}

abbrev vars : Dict Text
vars = (codes "ups.status", codes "OL") ∷ (codes "ups.mfr", codes "A \"B\" C") ∷ []

abbrev plain : Options
plain = record {
  tls = false;
  insecure_skip_verify = false;
  username = [];
  password = [];
  login = false;
}

abbrev private : Options
private = record plain { tls = true; username = codes "me"; password = codes "secret" }

abbrev listing : Text
listing = codes "BEGIN LIST VAR u\nVAR u ups.status \"OL\"\nEND LIST VAR u\n"

fetches :
    ((fetch scripted (codes "h:1") (codes "u") plain (unconnected (listing ∷ []))).0
      ≡ ok ((codes "ups.status", codes "OL") ∷ []))
    × ((fetch scripted (codes "h:1") (codes "u") plain (unconnected (codes "ERR NO\n" ∷ []))).0
        ≡ err (nut_error (codes "NO")))
    × ((fetch scripted (codes "h:1") (codes "u") private (unconnected (codes "ERR\n" ∷ []))).0
        ≡ err (starttls_refused (codes "ERR")))
unfolding fetch ◌==◌ nut_dog.Nut.Client.on_line nut_dog.Nut.Client.parse_var_line
    nut_dog.Prelude.insert nut_dog.Nut.Client.without_err
fetches = (refl, refl, refl)

collect_vars_total_example :
    (collect_vars ups_a (record (unconnected tt) { incoming = codes "VAR x\n" })).0
    ≢ err out_of_fuel
collect_vars_total_example =
    collect_vars_total ups_a (record (unconnected tt) { incoming = codes "VAR x\n" })

tls_covers_example :
    let s = unconnected (codes "OK STARTTLS\n" ∷ codes "OK\n" ∷ codes "OK\n" ∷ listing ∷ []) in
    IsCovered (fetch scripted (codes "h:1") (codes "u") private s).1.written
    × IsCovered
        (set_var scripted
          (codes "h:1")
          (codes "u")
          (codes "ups.status")
          (codes "OL")
          private
          s).1.written
    × IsCovered (check_auth scripted (codes "h:1") private s).1.written
tls_covers_example =
    tls_covers scripted (codes "h:1") (codes "u") (codes "ups.status") (codes "OL") private
      (unconnected (codes "OK STARTTLS\n" ∷ codes "OK\n" ∷ codes "OK\n" ∷ listing ∷ [])) refl tt

abbrev at_script : Session (List Text)
at_script = unconnected (block ups_a vars [] ∷ [])

fetch-block_example : (fetch scripted (codes "h:1") ups_a plain at_script).0 ≡ ok vars
unfolding lookup ◌==◌
fetch-block_example =
    fetch-block scripted (codes "h:1") ups_a [] vars plain at_script (block ups_a vars [] ∷ []) []
      (refl, refl, refl) (ground arith) (ground arith) (refl, (refl, tt)) refl refl

operations_close_example :
    ((fetch scripted (codes "h:1") ups_a private at_script).1.is_open ≡ false)
    × ((set_var scripted
          (codes "h:1")
          ups_a
          (codes "ups.status")
          (codes "OL")
          private
          at_script).1.is_open
        ≡ false)
    × ((check_auth scripted (codes "h:1") private at_script).1.is_open ≡ false)
operations_close_example =
    operations_close scripted (codes "h:1") ups_a (codes "ups.status") (codes "OL") private
      at_script refl
