-- ===== src/Main/Polling.antt =====
-- What a poll and the reading of a shed signal make of what the server answers.
use nut_dog.Prelude.{
  ◌≡◌, ◌≢◌, refl, inl, inr, none, some, Option-cases, Text, arith, codes, Dict, lookup, ◌++◌, [],
  ◌∷◌, UniqueKeys, ap,
}
use nut_dog.Control.{UpsConfig, classify, source_unknown}
use nut_dog.Nut.{telemetry_from_vars}
use nut_dog.Nut.Vars.{telemetry_without_status}
use nut_dog.Nut.Client.{Session, Result, ok, err, fetch}
use nut_dog.Nut.Client.RoundTrip.{block, IsWord, IsPrintable}
use nut_dog.Nut.Client.Fetching.{IsPlain, fetch-block}
use nut_dog.Main.{Outside, Machine, UpsPoll, polled, poll}

module _ {S E F : Type 0} (o : Outside S E F) where
  polled_known :
      (c : UpsConfig) (ups : Text) (r : Result (Dict Text) × Session S) (m : Machine S F)
      → classify c (polled o ups r m).0 ≢ source_unknown
      → (vars : Dict Text) × (net : Session S) × (r ≡ (ok vars, net))
        × (lookup (codes "ups.status") vars ≢ none)
  unfolding polled
  polled_known c ups (err e, net) m h = absurd (h (unfold classify in refl))
  polled_known c ups (ok vars, net) m h =
      (vars, net, refl, λ k. h ((telemetry_without_status c vars).1 k))

  -- A UPS is classified as anything but unknown after a poll only if it is configured, its variables have been
  -- fetched from its own address, and its status is one of them.
  pub poll_known :
      (specs : Dict UpsPoll) (c : UpsConfig) (ups : Text) (m : Machine S F)
      → classify c (poll o specs ups m).0 ≢ source_unknown
      → (spec : UpsPoll) × (vars : Dict Text) × (net : Session S) × (lookup ups specs ≡ some spec)
        × (fetch o.peer spec.addr spec.ups spec.opts m.net ≡ (ok vars, net))
        × (lookup (codes "ups.status") vars ≢ none)
  unfolding poll
  poll_known specs c ups m h = elim (Option-cases (lookup ups specs)) [
    | inl e ↦ absurd (h (rw (poll, e) (unfold classify in refl)))
    | inr (spec, e) ↦
        let (vars, net, fetched, status) =
          polled_known c ups (fetch o.peer spec.addr spec.ups spec.opts m.net) m
            (λ k. h (rw (poll, e) k)) in
        (spec, vars, net, e, fetched, status)
  ]

  pub polled_ok :
      (ups : Text) (vars : Dict Text) (r : Result (Dict Text) × Session S) (m : Machine S F)
      → r.0 ≡ ok vars
      → (polled o ups r m).0 ≡ telemetry_from_vars vars
  unfolding polled
  polled_ok ups vars (ok v, net) m e =
      ap telemetry_from_vars (ap (λ r. elim r [ ok x ↦ x | err x ↦ vars ]) e)
  polled_ok ups vars (err x, net) m e = absurd (ground arith)

  -- A configured UPS whose server answers LIST VAR with its variables is polled as these variables read, under the
  -- conditions on which `Fetch` returns them.
  pub poll-block :
      (specs : Dict UpsPoll) (spec : UpsPoll) (ups rest : Text) (vars : Dict Text) (m : Machine S F)
      (dialled answered : S)
      → lookup ups specs ≡ some spec
      → IsPlain spec.opts
      → IsWord spec.ups
      → IsPrintable vars
      → UniqueKeys vars
      → o.peer.dial spec.addr m.net.peer ≡ some ([], dialled)
      → o.peer.answer (codes "LIST VAR " ++ spec.ups ++ 10 ∷ []) dialled
        ≡ some (block spec.ups vars rest, answered)
      → (poll o specs ups m).0 ≡ telemetry_from_vars vars
  unfolding poll
  poll-block specs spec ups rest vars m dialled answered found plain hu h u dials answers =
      rw (poll, found)
        (polled_ok ups vars (fetch o.peer spec.addr spec.ups spec.opts m.net) m (
          fetch-block o.peer spec.addr spec.ups rest vars spec.opts m.net dialled answered plain hu
            h u dials answers))
