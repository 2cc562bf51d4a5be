-- ===== src/Powerapi/Routes.antt =====
-- Handler of internal/powerapi/powerapi.go: the routes of the API. A path is the list of its segments, cleaned
-- and decoded, as net/http matches them: a pattern with GET takes HEAD too, a path that is known under another
-- method is answered with 405 and the methods that it has, and any other path with 404.
use nut_dog.Prelude.{
  Bool, ◌||◌, Option, none, some, List, [], ◌∷◌, Text, codes, ◌==◌, if◌then◌else◌,
}
use nut_dog.Clock.{Time}
use nut_dog.Powerapi.{Server, HttpRequest, Response, handle_power, handle_state}

-- A request as it arrives.
pub record Call : Type 0 where
  pub method : Text
  pub path : List Text
  pub authorization : Text
  pub body : Text

-- What is answered: by a handler, or by the mux itself.
pub data Answer : Type 0 where
  handled : Response → Answer
  not_allowed : (allow : Text) → Answer
  page_not_found : Answer

-- A segment of a pattern: a word, or `{load}`.
pub data Segment : Type 0 where
  word : Text → Segment
  wildcard : Segment

-- The load that the wildcard of a pattern matches, with what it was so far.
unfoldable pub match_path : List Segment → List Text → Text → Option Text
match_path [] [] load = some load
match_path [] (s ∷ path) load = none
match_path (p ∷ pattern) [] load = none
match_path (word w ∷ pattern) (s ∷ path) load =
    let rest = match_path pattern path load in if w == s then rest else none
match_path (wildcard ∷ pattern) (s ∷ path) load = match_path pattern path s

abbrev pub power_pattern : List Segment
power_pattern = word (codes "api") ∷ word (codes "loads") ∷ wildcard ∷ word (codes "power") ∷ []

abbrev pub state_pattern : List Segment
state_pattern = word (codes "api") ∷ word (codes "loads") ∷ wildcard ∷ word (codes "state") ∷ []

abbrev pub takes_get : Text → Bool
takes_get method = method == codes "GET" || method == codes "HEAD"

-- what the handlers read of a request
abbrev pub request_of : Call → Text → HttpRequest
request_of c load = record { authorization = c.authorization; load = load; body = c.body }

module _ (decode : Text → Option Text) (now : Time) where
  abbrev pub answered_by : Server × Response → Server × Answer
  answered_by (s, r) = (s, handled r)

  -- GET /api/loads/{load}/state, or no pattern at all
  unfoldable pub route_state : Call → Server → Option Text → Server × Answer
  unfolding handle_state
  route_state c s none = (s, page_not_found)
  route_state c s (some load) =
      if takes_get c.method
      then (s, handled (handle_state now (request_of c load) s))
      else (s, not_allowed (codes "GET, HEAD"))

  -- PUT /api/loads/{load}/power, or the other pattern
  unfoldable pub route_power : Call → Server → Option Text → Server × Answer
  unfolding handle_power route_state match_path
  route_power c s none = route_state c s (match_path state_pattern c.path [])
  route_power c s (some load) =
      if c.method == codes "PUT"
      then answered_by (handle_power decode now (request_of c load) s)
      else (s, not_allowed (codes "PUT"))

  -- Handler
  unfoldable pub handle : Call → Server → Server × Answer
  unfolding route_power match_path
  handle c s = route_power c s (match_path power_pattern c.path [])
