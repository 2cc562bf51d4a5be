-- ===== src/Powerapi/Routing.antt =====
-- Which requests reach a handler of the power API, and which can change anything.
use nut_dog.Prelude.{
  ◌≡◌, ◌≢◌, inl, inr, refl, true, false, Bool-cases, Option, Option-cases, none, some, List, [],
  ◌∷◌, arith, Text, codes, ◌==◌, eq_iff, lookup_or, if◌then◌else◌,
}
use nut_dog.Clock.{Time}
use nut_dog.Control.{Request}
use nut_dog.Powerapi.{Server, authorised, asked, handle_power, handle_state, no_content}
use nut_dog.Powerapi.Handlers.{Asks, handle_power_status}
use nut_dog.Powerapi.Routes.{
  Call, handled, not_allowed, page_not_found, match_path, power_pattern, state_pattern, takes_get,
  request_of, route_state, route_power, handle,
}

-- The paths of the two patterns.
abbrev pub power_path : Text → List Text
power_path load = codes "api" ∷ codes "loads" ∷ load ∷ codes "power" ∷ []

abbrev pub state_path : Text → List Text
state_path load = codes "api" ∷ codes "loads" ∷ load ∷ codes "state" ∷ []

match-power_path : (load : Text) → match_path power_pattern (power_path load) [] ≡ some load
unfolding match_path ◌==◌
match-power_path load = refl

match-state_path :
    (load : Text)
    → (match_path power_pattern (state_path load) [] ≡ none)
      × (match_path state_pattern (state_path load) [] ≡ some load)
unfolding match_path ◌==◌
match-state_path load = (refl, refl)

-- Only the paths of a pattern match it.
match_power_inv :
    (path : List Text) (load : Text)
    → match_path power_pattern path [] ≡ some load
    → path ≡ power_path load
unfolding match_path
match_power_inv (a ∷ b ∷ c ∷ d ∷ []) load h =
    ground (arith, eq_iff (codes "api") a, eq_iff (codes "loads") b, eq_iff (codes "power") d)
match_power_inv [] load h = absurd (ground arith)
match_power_inv (a ∷ []) load h = absurd (ground arith)
match_power_inv (a ∷ b ∷ []) load h = absurd (ground arith)
match_power_inv (a ∷ b ∷ c ∷ []) load h = absurd (ground arith)
match_power_inv (a ∷ b ∷ c ∷ d ∷ e ∷ f) load h = absurd (ground arith)

match_state_inv :
    (path : List Text) (load : Text)
    → match_path state_pattern path [] ≡ some load
    → path ≡ state_path load
unfolding match_path
match_state_inv (a ∷ b ∷ c ∷ d ∷ []) load h =
    ground (arith, eq_iff (codes "api") a, eq_iff (codes "loads") b, eq_iff (codes "state") d)
match_state_inv [] load h = absurd (ground arith)
match_state_inv (a ∷ []) load h = absurd (ground arith)
match_state_inv (a ∷ b ∷ []) load h = absurd (ground arith)
match_state_inv (a ∷ b ∷ c ∷ []) load h = absurd (ground arith)
match_state_inv (a ∷ b ∷ c ∷ d ∷ e ∷ f) load h = absurd (ground arith)

module _ (decode : Text → Option Text) (now : Time) (c : Call) (s : Server) where
  -- The API answers a PUT of a load's power by `handlePower`, a GET or HEAD of its state by `handleState`, with
  -- the load of the path; another method on one of these paths is refused with the methods that it has, any
  -- other path is not found, and neither changes the server.
  pub handle_exact :
      ((load : Text)
        → c.path ≡ power_path load
        → handle decode now c s ≡ (
            if c.method == codes "PUT"
            then (
              (handle_power decode now (request_of c load) s).0,
              handled (handle_power decode now (request_of c load) s).1,
            )
            else (s, not_allowed (codes "PUT"))))
      × ((load : Text)
          → c.path ≡ state_path load
          → handle decode now c s ≡ (
              if takes_get c.method
              then (s, handled (handle_state now (request_of c load) s))
              else (s, not_allowed (codes "GET, HEAD"))))
      × (((load : Text) → (c.path ≢ power_path load) × (c.path ≢ state_path load))
          → handle decode now c s ≡ (s, page_not_found))
  unfolding handle route_power route_state
  handle_exact = (
    λ load e. rw (e, match-power_path load) refl,
    λ load e. rw (e, (match-state_path load).0, (match-state_path load).1) refl,
    λ other. elim (Option-cases (match_path power_pattern c.path [])) [
      | inl e ↦ elim (Option-cases (match_path state_pattern c.path [])) [
        | inl f ↦ rw (e, f) refl
        | inr (load, f) ↦ absurd ((other load).1 (match_state_inv c.path load f))
      ]
      | inr (load, e) ↦ absurd ((other load).0 (match_power_inv c.path load e))
    ],
  )

  -- A request changes the server only if it is a PUT of the power of a load that the caller may control, is let
  -- in, and asks for on, off or hold.
  pub handle_changes :
      (handle decode now c s).0 ≢ s
      → (load : Text) × (c.path ≡ power_path load)
        × (c.method ≡ codes "PUT")
        × (authorised s (request_of c load) ≡ true)
        × (lookup_or false load s.loads ≡ true)
        × ((req : Request) × Asks decode c.body req)
  unfolding handle route_power route_state
  handle_changes changed = elim (Option-cases (match_path power_pattern c.path [])) [
    | inl e ↦ elim (Option-cases (match_path state_pattern c.path [])) [
      | inl f ↦ absurd (changed (rw (e, f) refl))
      | inr (load, f) ↦ absurd (changed (ground (arith, e, f)))
    ]
    | inr (load, e) ↦ elim (Bool-cases (c.method == codes "PUT")) [
      | inl put ↦
          let r = request_of c load in
          let accepted : (handle_power decode now r s).1 ≡ no_content =
            elim (Option-cases (asked decode c.body)) [
              | inl none_asked ↦ absurd (changed (ground (arith, e, put)))
              | inr (req, asks) ↦ ground (arith, e, put)
            ] in
          let means = (handle_power_status decode now r s).2.0 accepted in
          (
            load,
            match_power_inv c.path load e,
            (eq_iff c.method (codes "PUT")).0 put,
            means.0,
            means.1,
            means.2,
          )
      | inr other ↦ absurd (changed (ground (arith, e, other)))
    ]
  ]
