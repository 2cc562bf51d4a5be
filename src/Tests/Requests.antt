-- ===== src/Tests/Requests.antt =====
-- The power API, with a token and one load that may be controlled.
use nut_dog.Prelude.{
  ℕ, ◌≡◌, ◌≢◌, refl, ap, ◌↔◌, ◌⊎◌, ◌+◌, ◌<◌, inl, inr, true, false, Option, none, some, List, [],
  ◌∷◌, ◌++◌, arith, Dict, lookup, lookup_or, ◌==◌, UniqueKeys, Text, codes, pos, pos_part, neg_part,
  ◌≤ℤ◌, if◌then◌else◌, has,
}
use nut_dog.Control.{Request, request_off, actual_up, actual_string}
use nut_dog.Powerapi.{
  Entry, Server, HttpRequest, http_error, no_content, state_body, new, authorised, handle_power,
  handle_state, desired, publish_actual, bad_request,
}
use nut_dog.Powerapi.Handlers.{Asks, handle_power_status}
use nut_dog.Powerapi.Standing.{live, live_exact}
use nut_dog.Powerapi.Runs.{Event, power, tick, run, history, run-history, unlisted_never_requested}
use nut_dog.Powerapi.Routes.{Call, handled, not_allowed, page_not_found, request_of, handle}
use nut_dog.Powerapi.Routing.{power_path, state_path, handle_changes}
use nut_dog.Tests.{p1, bc1}

abbrev server : Server
server = new (codes "t0k") (p1 ∷ []) (pos 100)

-- A stand-in for the JSON decoder: the body is the word.
abbrev decode : Text → Option Text
decode body = some body

abbrev off_p1 : HttpRequest
off_p1 = record { authorization = codes "Bearer t0k"; load = p1; body = codes "off" }

abbrev off_bc1 : HttpRequest
off_bc1 = record off_p1 { load = bc1 }

abbrev nonsense : HttpRequest
nonsense = record off_p1 { body = codes "later" }

abbrev requested_off : Server
requested_off = (handle_power decode (pos 7) off_p1 server).0

answers :
    ((handle_power decode (pos 7) off_p1 server).1 ≡ no_content)
    × ((handle_power decode (pos 7) off_bc1 server).1 ≡ http_error 404 (codes "unknown load"))
    × ((handle_power decode (pos 7) nonsense server).1 ≡ bad_request)
    × ((handle_power decode (pos 7) (record off_p1 { authorization = codes "Basic t0k" }) server).1
        ≡ http_error 401 (codes "unauthorized"))
    × ((desired (λ _. pos 106) requested_off).1 ≡ (p1, request_off) ∷ [])
    × ((desired (λ _. pos 107) requested_off).1 ≡ [])
    × (handle_state (pos 5000000007) off_p1 (publish_actual ((p1, actual_up) ∷ []) (pos 7) server)
        ≡ state_body (codes "up") (pos 5))
unfolding handle_power authorised ◌==◌ new lookup_or nut_dog.Prelude.fill desired handle_state
    publish_actual actual_string
answers = (refl, refl, refl, refl, refl, refl, refl)

handle_power_status_example :
    let answer = (handle_power decode (pos 7) off_p1 server).1 in
    let listed = lookup_or false p1 server.loads in
    ((answer ≡ http_error 401 (codes "unauthorized")) ↔ (authorised server off_p1 ≡ false))
    × ((answer ≡ http_error 404 (codes "unknown load"))
        ↔ ((authorised server off_p1 ≡ true) × (listed ≡ false)))
    × ((answer ≡ no_content) ↔ (
        (authorised server off_p1 ≡ true)
        × (listed ≡ true)
        × ((req : Request) × Asks decode (codes "off") req)))
    × ((answer ≡ bad_request) ↔ (
        (authorised server off_p1 ≡ true)
        × (listed ≡ true)
        × ((req : Request) → ¬ Asks decode (codes "off") req)))
handle_power_status_example = handle_power_status decode (pos 7) off_p1 server

abbrev entry : Entry
entry = record { req = request_off; at = pos 7 }

live_exact_example :
    (live (pos 100) (pos 106) (some entry) ≡ some entry)
    ↔ ((pos 100 ≤ℤ pos 0) ⊎ (106 + 0 < 7 + 100 + 0))
live_exact_example = live_exact (pos 100) (pos 106) entry (ground arith)

abbrev calls : List Event
calls =
    power (pos 7) off_p1
    ∷ tick (λ _. pos 50)
    ∷ power (pos 60) off_bc1
    ∷ power (pos 90) off_p1
    ∷ tick (λ _. pos 120)
    ∷ []

run-history_example : lookup p1 (run decode server calls).want ≡ history decode server p1 none calls
unfolding new lookup
run-history_example = run-history decode server p1 calls tt

unlisted_never_requested_example :
    lookup bc1 (desired (λ _. pos 130) (run decode (new (codes "t0k") (p1 ∷ []) (pos 100)) calls)).1
    ≡ none
unfolding has ◌==◌
unlisted_never_requested_example =
    unlisted_never_requested decode (codes "t0k") (p1 ∷ []) (pos 100) calls (λ _. pos 130) bc1 refl

abbrev put_off : Call
put_off = record {
  method = codes "PUT";
  path = power_path p1;
  authorization = codes "bearer t0k";
  body = codes "off";
}

routes :
    ((handle decode (pos 7) put_off server).1 ≡ handled no_content)
    × ((handle decode (pos 7) (record put_off { method = codes "POST" }) server).1
        ≡ not_allowed (codes "PUT"))
    × ((handle decode
          (pos 7)
          (record put_off { method = codes "HEAD"; path = state_path p1 })
          server).1
        ≡ handled (state_body (codes "unknown") (pos 0)))
    × ((handle decode (pos 7) (record put_off { path = codes "api" ∷ [] }) server).1
        ≡ page_not_found)
unfolding handle authorised ◌==◌ new lookup_or nut_dog.Prelude.fill actual_string
routes = (refl, refl, refl, refl)

was_changed : (handle decode (pos 7) put_off server).0 ≢ server
unfolding handle authorised ◌==◌ new lookup_or nut_dog.Prelude.fill
was_changed e = ground (arith, ap (λ s. lookup p1 s.want) e)

handle_changes_example :
    (load : Text) × (put_off.path ≡ power_path load)
    × (put_off.method ≡ codes "PUT")
    × (authorised server (request_of put_off load) ≡ true)
    × (lookup_or false load server.loads ≡ true)
    × ((req : Request) × Asks decode put_off.body req)
handle_changes_example = handle_changes decode (pos 7) put_off server was_changed
