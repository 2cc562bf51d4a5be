-- ===== src/Nut/Client/Fetching.antt =====
-- What `Fetch` returns of a server that prints its variables.
use nut_dog.Prelude.{
  ◌≡◌, refl, ap, true, false, some, [], ◌∷◌, ◌++◌, Text, codes, Dict, UniqueKeys, ◌==◌,
}
use nut_dog.Nut.Client.{
  Peer, Written, Session, Options, ok, authenticate, connected, connect, send, list_vars,
  fetch_open, fetch,
}
use nut_dog.Nut.Client.RoundTrip.{block, IsWord, IsPrintable, collect_vars-block}

-- Neither TLS nor an account nor LOGIN is asked for.
abbrev pub IsPlain : Options → Type 0
IsPlain opts = (opts.tls ≡ false) × (opts.username ≡ []) × (opts.login ≡ false)

module _ {S : Type 0} (p : Peer S) where
  -- The connection at its start.
  abbrev opened : S → Session S → Session S
  opened peer s = record s { peer = peer; incoming = []; secure = false; is_open = true }

  connect_plain :
      (addr : Text) (opts : Options) (s : Session S) (peer : S)
      → IsPlain opts
      → p.dial addr s.peer ≡ some ([], peer)
      → connect p addr opts s ≡ (ok tt, opened peer s)
  unfolding connect connected authenticate ◌==◌
  connect_plain addr opts s peer plain dialled =
      rw (connect, dialled, connected, authenticate, plain.0, plain.1) refl

  list_vars-block :
      (ups rest : Text) (vars : Dict Text) (s : Session S) (peer : S)
      → IsWord ups
      → IsPrintable vars
      → UniqueKeys vars
      → s.incoming ≡ []
      → p.answer (codes "LIST VAR " ++ ups ++ 10 ∷ []) s.peer ≡ some (block ups vars rest, peer)
      → (list_vars p ups s).0 ≡ ok vars
  unfolding list_vars send
  list_vars-block ups rest vars s peer hu h u empty answered =
      let cmd = codes "LIST VAR " ++ ups ++ 10 ∷ [] in
      let w : Written = record { secure = s.secure; text = cmd } in
      let sent : Session S = record {
        peer = peer;
        incoming = s.incoming ++ block ups vars rest;
        secure = s.secure;
        is_open = s.is_open;
        written = s.written ++ w ∷ [];
      } in
      let whole : s.incoming ++ block ups vars rest ≡ block ups vars rest = rw empty refl in
      rw (list_vars, send, answered)
        (ap (λ r. r.0) (collect_vars-block ups rest vars sent hu h u whole))

  -- Of a server that answers LIST VAR with its variables, `Fetch` returns them all and nothing else, where neither TLS
  -- nor an account is asked for, no variable is printed twice, the names are words, and no value has a quote at an
  -- end or breaks a line.
  pub fetch-block :
      (addr ups rest : Text) (vars : Dict Text) (opts : Options) (s : Session S)
      (dialled answered : S)
      → IsPlain opts
      → IsWord ups
      → IsPrintable vars
      → UniqueKeys vars
      → p.dial addr s.peer ≡ some ([], dialled)
      → p.answer (codes "LIST VAR " ++ ups ++ 10 ∷ []) dialled
        ≡ some (block ups vars rest, answered)
      → (fetch p addr ups opts s).0 ≡ ok vars
  unfolding fetch fetch_open
  fetch-block addr ups rest vars opts s dialled answered plain hu h u dials answers =
      rw (fetch, connect_plain addr opts s dialled plain dials, fetch_open, plain.2)
        (list_vars-block ups rest vars (opened dialled s) answered hu h u refl answers)
