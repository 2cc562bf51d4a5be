-- ===== src/Powerapi.antt =====
-- internal/powerapi/powerapi.go: the server that another controller asks for power states. A method
-- is a function of the server that returns the new one; the mutex makes each of them atomic. The
-- clock's readings are arguments. Logging is left out. The routing of net/http, which hands a handler
-- the load of the path, is in Powerapi/Routes.
pub mod Handlers
pub mod Standing
pub mod Runs
pub mod Routes
pub mod Routing
use nut_dog.Prelude.{
  ℕ, Bool, true, false, ◌&&◌, not, Option, none, some, List, [], ◌∷◌, Text, codes, ◌==◌, Dict,
  lookup, lookup_or, insert, delete, fill, pos, ℤ, ltb_ℤ, leb_ℤ, if◌then◌else◌,
}
use nut_dog.Clock.{Time, Duration, sub_time, whole_seconds}
use nut_dog.GoStrings.{cut, equal_fold}
use nut_dog.Control.{
  Request, no_request, request_hold, request_off, request_on, ActualState, actual_unknown,
  actual_string,
}

-- requestByName
unfoldable pub request_by_name : Text → Option Request
request_by_name name =
    if name == codes "on"
    then some request_on
    else if name == codes "off"
    then some request_off
    else if name == codes "hold"
    then some request_hold
    else none

pub record Entry : Type 0 where
  pub req : Request
  pub at : Time

pub record Observation : Type 0 where
  pub state : ActualState
  pub at : Time

pub record Server : Type 0 where
  pub token : Text
  pub loads : Dict Bool
  pub ttl : Duration
  pub want : Dict Entry
  pub seen : Dict Observation

-- New
unfoldable pub new : Text → List Text → Duration → Server
new token loads ttl = record {
  token = token;
  loads = fill (λ _. true) loads;
  ttl = ttl;
  want = [];
  seen = [];
}

-- The loop of `PublishActual`.
unfoldable pub observe : Dict ActualState → Time → Dict Observation → Dict Observation
observe [] now seen = seen
observe ((load, st) ∷ actual) now seen =
    observe actual now (insert load (record { state = st; at = now }) seen)

-- PublishActual
unfoldable pub publish_actual : Dict ActualState → Time → Server → Server
unfolding observe
publish_actual actual now s = record s { seen = observe actual now s.seen }

-- The test on an entry in `Desired`, at the clock's reading.
unfoldable pub expired : Duration → Time → Entry → Bool
unfolding sub_time
expired ttl now e = ltb_ℤ (pos 0) ttl && leb_ℤ ttl (sub_time now e.at)

-- The loop of `Desired` over the entries: it deletes from `s.want` and adds to `out`. The clock is
-- read once for each entry, `now load` at the entry of `load`.
unfoldable pub sweep :
    (Text → Time) → Duration → Dict Entry → Dict Entry → Dict Request → Dict Entry × Dict Request
unfolding expired
sweep now ttl [] want out = (want, out)
sweep now ttl ((load, e) ∷ entries) want out =
    let gone = expired ttl (now load) e in
    sweep now ttl entries (if gone then delete load want else want)
      (if gone then out else insert load e.req out)

-- Desired
unfoldable pub desired : (Text → Time) → Server → Server × Dict Request
unfolding sweep
desired now s =
    let (want, out) = sweep now s.ttl s.want s.want [] in (record s { want = want }, out)

-- What a handler reads of a request: the Authorization header, empty if missing, the load of the
-- path, and the body.
pub record HttpRequest : Type 0 where
  pub authorization : Text
  pub load : Text
  pub body : Text

pub data Response : Type 0 where
  http_error : ℕ → Text → Response
  no_content : Response
  state_body : (actual : Text) (age_seconds : ℤ) → Response

-- authorised
unfoldable pub authorised : Server → HttpRequest → Bool
unfolding cut equal_fold
authorised s r = elim (cut b' ' r.authorization) [
  | none ↦ false
  | some (scheme, got) ↦ equal_fold scheme (codes "bearer") && got == s.token
]

-- The body that `handleState` encodes: unknown, of age 0, before the first observation.
unfoldable pub state_of : Time → Option Observation → Response
unfolding whole_seconds
state_of now none = state_body (actual_string actual_unknown) (pos 0)
state_of now (some o) = state_body (actual_string o.state) (whole_seconds (sub_time now o.at))

-- handleState
unfoldable pub handle_state : Time → HttpRequest → Server → Response
unfolding state_of
handle_state now r s =
    if not (authorised s r)
    then http_error 401 (codes "unauthorized")
    else if not (lookup_or false r.load s.loads)
    then http_error 404 (codes "unknown load")
    else state_of now (lookup r.load s.seen)

abbrev pub bad_request : Response
bad_request = http_error 400 (codes "want {\"desired\": \"on\"|\"off\"|\"hold\"}")

-- `decode` is encoding/json behind a reader of at most 1024 bytes: the field `desired` of the body, and
-- `none` where decoding fails.
module _ (decode : Text → Option Text) where
  -- The request that a body asks for; `none` where the handler answers 400.
  unfoldable pub asked : Text → Option Request
  unfolding request_by_name
  asked body = elim (decode body) [ none ↦ none | some word ↦ request_by_name word ]

  -- handlePower
  unfoldable pub handle_power : Time → HttpRequest → Server → Server × Response
  unfolding asked
  handle_power now r s =
      if not (authorised s r)
      then (s, http_error 401 (codes "unauthorized"))
      else if not (lookup_or false r.load s.loads)
      then (s, http_error 404 (codes "unknown load"))
      else elim (asked r.body) [
        | none ↦ (s, bad_request)
        | some d ↦
            (record s { want = insert r.load (record { req = d; at = now }) s.want }, no_content)
      ]
