-- ===== src/Powerapi/Handlers.antt =====
-- The handlers: who is let in, what each answer means, and what a request changes.
use nut_dog.Prelude.{
  ◌≡◌, ◌≢◌, ◌↔◌, inl, inr, true, false, Option, Option-cases, some, All, [], ◌∷◌, ◌++◌, map, arith,
  Text, codes, ◌==◌, eq_iff, lookup, lookup_or, lookup-insert, nat_eq, if◌then◌else◌,
}
use nut_dog.Clock.{Time}
use nut_dog.GoStrings.{cut, to_lower}
use nut_dog.GoStrings.Cut.{cut_sound, cut_complete}
use nut_dog.Control.{Request, no_request, request_hold, request_off, request_on}
use nut_dog.Powerapi.{
  Server, HttpRequest, http_error, no_content, bad_request, authorised, asked, handle_power,
  request_by_name,
}

-- The scheme is bearer in any case.
abbrev pub IsBearer : Text → Type 0
IsBearer scheme = map to_lower scheme ≡ codes "bearer"

bearer-no_space :
    (scheme : Text) (t : Text)
    → map to_lower scheme ≡ t
    → All (λ c. nat_eq c b' ' ≡ false) t
    → All (λ c. nat_eq c b' ' ≡ false) scheme
unfolding to_lower
bearer-no_space [] t e h = tt
bearer-no_space (c ∷ s) [] e h = cc
bearer-no_space (c ∷ s) (d ∷ t) e h = (ground arith, bearer-no_space s t (ground arith) h.1)

-- A request is let in exactly when its Authorization header is the scheme, in any case, a space and
-- the server's token.
pub authorised_iff :
    (s : Server) (r : HttpRequest)
    → (authorised s r ≡ true)
      ↔ ((scheme : Text) × (r.authorization ≡ scheme ++ b' ' ∷ s.token) × IsBearer scheme)
unfolding authorised
authorised_iff s r = (
  λ h. elim (Option-cases (cut b' ' r.authorization)) [
    | inl e ↦ ground arith
    | inr ((scheme, got), e) ↦ (
      scheme,
      ground (arith, cut_sound b' ' r.authorization scheme got, eq_iff got s.token),
      ground (arith, eq_iff (map to_lower scheme) (codes "bearer")),
    )
  ],
  λ (scheme, e, bearer). ground (
    arith,
    e,
    bearer,
    cut_complete b' ' scheme s.token
        (bearer-no_space scheme (codes "bearer") bearer (ground arith)),
    eq_iff (map to_lower scheme) (codes "bearer"),
    eq_iff s.token s.token,
  ),
)

-- The words of the wire vocabulary.
abbrev pub Means : Text → Request → Type 0
Means word request_on = word ≡ codes "on"
Means word request_off = word ≡ codes "off"
Means word request_hold = word ≡ codes "hold"
Means word no_request = ⊥

request_by_name_iff :
    (word : Text) (req : Request) → (request_by_name word ≡ some req) ↔ Means word req
unfolding request_by_name
request_by_name_iff word req = (
  λ h.
      ground
        (arith, eq_iff word (codes "on"), eq_iff word (codes "off"), eq_iff word (codes "hold")),
  λ h.
      ground
        (arith, eq_iff word (codes "on"), eq_iff word (codes "off"), eq_iff word (codes "hold")),
)

module _ (decode : Text → Option Text) where
  -- The body decodes to a word that means the request.
  abbrev pub Asks : Text → Request → Type 0
  Asks body req = (word : Text) × (decode body ≡ some word) × Means word req

  pub asked_iff : (body : Text) (req : Request) → (asked decode body ≡ some req) ↔ Asks body req
  unfolding asked
  asked_iff body req = (
    λ h. elim (Option-cases (decode body)) [
      | inl e ↦ absurd (ground arith)
      | inr (word, e) ↦ (word, e, (request_by_name_iff word req).0 (ground arith))
    ],
    λ (word, e, m). ground (arith, e, (request_by_name_iff word req).1 m),
  )

  -- The handler answers 401 exactly to a request that is not let in, 404 exactly to one that is let in
  -- and names a load that the caller may not control, 204 exactly to one that is let in, names a load
  -- that the caller may control and asks for on, off or hold, and 400 otherwise.
  pub handle_power_status :
      (now : Time) (r : HttpRequest) (s : Server)
      → let answer = (handle_power decode now r s).1 in
        let listed = lookup_or false r.load s.loads in
        ((answer ≡ http_error 401 (codes "unauthorized")) ↔ (authorised s r ≡ false))
        × ((answer ≡ http_error 404 (codes "unknown load"))
            ↔ ((authorised s r ≡ true) × (listed ≡ false)))
        × ((answer ≡ no_content)
            ↔ ((authorised s r ≡ true) × (listed ≡ true) × ((req : Request) × Asks r.body req)))
        × ((answer ≡ bad_request)
            ↔ ((authorised s r ≡ true) × (listed ≡ true) × ((req : Request) → ¬ Asks r.body req)))
  unfolding handle_power
  handle_power_status now r s = (
    (λ h. ground arith, λ h. ground arith),
    (λ h. ground arith, λ h. ground arith),
    (
      λ h. elim (Option-cases (asked decode r.body)) [
        | inl e ↦ absurd (ground arith)
        | inr (req, e) ↦ (ground arith, ground arith, (req, (asked_iff r.body req).0 e))
      ],
      λ (auth, listed, (req, a)). ground (arith, (asked_iff r.body req).1 a),
    ),
    (
      λ h. (ground arith, ground arith, λ req a. ground (arith, (asked_iff r.body req).1 a)),
      λ (auth, listed, never). elim (Option-cases (asked decode r.body)) [
        | inl e ↦ ground arith
        | inr (req, e) ↦ absurd (never req ((asked_iff r.body req).0 e))
      ],
    ),
  )

  -- A request that is answered with an error changes nothing in the server.
  pub handle_power_refused :
      (now : Time) (r : HttpRequest) (s : Server)
      → (handle_power decode now r s).1 ≢ no_content
      → (handle_power decode now r s).0 ≡ s
  unfolding handle_power
  handle_power_refused now r s h = ground arith

  -- An accepted request is recorded at its load with the time of its arrival; the requests for the other
  -- loads and the rest of the server stay as they are.
  pub handle_power_accepted :
      (now : Time) (r : HttpRequest) (s : Server) (req : Request)
      → (handle_power decode now r s).1 ≡ no_content
      → Asks r.body req
      → let after = (handle_power decode now r s).0 in
        (after ≡ record s { want = after.want })
        × ((j : Text)
            → lookup j after.want
              ≡ (if r.load == j then some (record { req = req; at = now }) else lookup j s.want))
  unfolding handle_power
  handle_power_accepted now r s req h a = (
    ground arith,
    λ j. ground (
      arith,
      (asked_iff r.body req).1 a,
      lookup-insert r.load j (record { req = req; at = now }) s.want,
    ),
  )
