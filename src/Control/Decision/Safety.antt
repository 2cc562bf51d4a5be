-- ===== src/Control/Decision/Safety.antt =====
-- What justifies the actions of `Decide`, and that a critical UPS is always answered.
use nut_dog.Prelude.{
  ◌≡◌, ◌≢◌, Option-cases, sym, ◌∙◌, ◌⊎◌, ◌↔◌, inl, inr, none, some, List, [], ◌∷◌, map, arith, All,
  All-append, All-map_of, All-of_map, Any-of_map, Any-map, All-map, Any-of_keep, All-sort_strings,
  lookup-keys, Any, In, Text, ◌==◌, Dict, lookup, lookup_or, keys, UniqueKeys, sort_strings,
}
use nut_dog.Control.{
  UpsConfig, source_shed, source_healthy, Desired, desired_hold, desired_off, desired_on,
  no_request, request_off, LoadType, chassis, nut_server, actual_down, actual_unknown,
  shed_asserted, LoadConfig, no_load, Action, action, ActionKind, chassis_shutdown,
  chassis_power_up, assert_server_shed, release_server_shed, wake_server, Readings, classify_all,
  decide_load, decide_all, decide, reconcile_load,
}
use nut_dog.Control.Decision.{
  state_of, wanted, observed, actions_for, actions_of, actions_of-decide, decide_load-actions_for,
}
use nut_dog.Control.Sources.{desired_for_load_exact, LetsRun}
use nut_dog.Control.Actions.{Observed, wish, reconcile, reconcile_sound}

lookup_or-some :
    (loads : Dict LoadConfig) (name : Text) {lc : LoadConfig}
    → lookup name loads ≡ some lc
    → lookup_or no_load name loads ≡ lc
unfolding lookup_or
lookup_or-some loads name e = rw (e, lookup_or)

-- What justifies an action of a load that is wanted so: off, where one of its UPSes is critical or off
-- is requested; on, where all its UPSes are healthy and the request is none or on.
abbrev pub Because : Dict UpsConfig → Readings → Text → LoadConfig → Desired → Type 0
Because cfgs r name lc desired_off =
    Any (λ u. state_of cfgs r.tel u ≡ source_shed) lc.governed_by
    ⊎ (lookup_or no_request name r.ext ≡ request_off)
Because cfgs r name lc desired_on =
    All (λ u. state_of cfgs r.tel u ≡ source_healthy) lc.governed_by
    × LetsRun (lookup_or no_request name r.ext)
Because cfgs r name lc desired_hold = ⊥

-- The load of the action is configured, and its direction is justified.
abbrev pub IsJustified : Dict UpsConfig → Dict LoadConfig → Readings → Action → Type 0
IsJustified cfgs loads r a =
    (lc : LoadConfig) × (lookup a.load loads ≡ some lc) × Because cfgs r a.load lc (wish a.kind)

-- A map of the left side of a sum.
Sum_map : {A B C : Type 0} → (A → B) → A ⊎ C → B ⊎ C
Sum_map f (inl a) = inl (f a)
Sum_map f (inr c) = inr c

module _ (cfgs : Dict UpsConfig) (loads : Dict LoadConfig) (r : Readings) where
  -- What is wanted of a load, in terms of its UPSes and its request.
  wanted_exact :
      (name : Text) (lc : LoadConfig)
      → ((wanted cfgs r name lc ≡ desired_off) ↔ (
          Any (λ u. state_of cfgs r.tel u ≡ source_shed) lc.governed_by
          ⊎ (lookup_or no_request name r.ext ≡ request_off)))
        × ((wanted cfgs r name lc ≡ desired_on) ↔ (
            All (λ u. state_of cfgs r.tel u ≡ source_healthy) lc.governed_by
            × LetsRun (lookup_or no_request name r.ext)))
  wanted_exact name lc =
      let st = state_of cfgs r.tel in
      let us = lc.governed_by in
      let (off, on) = desired_for_load_exact (map st us) (lookup_or no_request name r.ext) in
      (
        (λ h. Sum_map (Any-of_map _ st us) (off.0 h), λ h. off.1 (Sum_map (Any-map _ st us) h)),
        (
          λ h. let (healthy, req) = on.0 h in (All-of_map _ st us healthy, req),
          λ h. on.1 (All-map _ st us h.0, h.1),
        ),
      )

  because :
      (name : Text) (lc : LoadConfig) (k : ActionKind)
      → wish k ≡ wanted cfgs r name lc
      → Because cfgs r name lc (wish k)
  because name lc chassis_shutdown e = (wanted_exact name lc).0.0 (sym e)
  because name lc assert_server_shed e = (wanted_exact name lc).0.0 (sym e)
  because name lc chassis_power_up e = (wanted_exact name lc).1.0 (sym e)
  because name lc release_server_shed e = (wanted_exact name lc).1.0 (sym e)
  because name lc wake_server e = (wanted_exact name lc).1.0 (sym e)

  justify :
      (name : Text) (lc : LoadConfig) (a : Action)
      → lookup name loads ≡ some lc
      → (a.load ≡ name) × (wish a.kind ≡ wanted cfgs r name lc)
      → IsJustified cfgs loads r a
  justify name lc a e (n, w) = (lc, rw n e, rw n (because name lc a.kind w))

  decide_load-IsJustified :
      (name : Text)
      → lookup name loads ≢ none
      → All (IsJustified cfgs loads r) (decide_load (classify_all cfgs r.tel) loads r name)
  decide_load-IsJustified name h = elim (Option-cases (lookup name loads)) [
    | inl e ↦ absurd (h e)
    | inr (lc, e) ↦
        rw (decide_load-actions_for cfgs loads r name, lookup_or-some loads name e)
          (All-map_of (λ a. justify name lc a e) _
            (reconcile_sound name lc.type (wanted cfgs r name lc) (observed r name)).0)
  ]

  decide_all-IsJustified :
      (names : List Text)
      → All (λ n. lookup n loads ≢ none) names
      → All (IsJustified cfgs loads r) (decide_all (classify_all cfgs r.tel) loads r names)
  unfolding decide_all
  decide_all-IsJustified [] h = tt
  decide_all-IsJustified (n ∷ names) h =
      All-append _ (decide_load (classify_all cfgs r.tel) loads r n) _
        (decide_load-IsJustified n h.0) (decide_all-IsJustified names h.1)

  -- Every action is for a configured load. One that sheds it is there only if one of its UPSes is
  -- critical or off is requested; one that releases, wakes or powers it up, only if all its UPSes are
  -- healthy and the request is none or on.
  pub decide-IsJustified : All (IsJustified cfgs loads r) (decide cfgs loads r)
  unfolding decide
  decide-IsJustified =
      decide_all-IsJustified (sort_strings (keys loads))
        (All-sort_strings _ (keys loads) (lookup-keys loads))

-- The action that sheds a load of each type.
abbrev pub shed_kind : LoadType → ActionKind
shed_kind chassis = chassis_shutdown
shed_kind nut_server = assert_server_shed

-- What a load that is to be shed gets: a chassis is down, its power state could not be read, or the actions shut
-- it down; the shed signal of a server is asserted, or the actions assert it.
abbrev pub IsShedBy : LoadType → Text → Observed → List Action → Type 0
IsShedBy chassis l o actions =
    (o.actual ≡ actual_down)
    ⊎ ((o.actual ≡ actual_unknown) ⊎ In (action chassis_shutdown l) actions)
IsShedBy nut_server l o actions =
    (o.shed ≡ shed_asserted) ⊎ In (action assert_server_shed l) actions

-- More actions shed no less.
pub IsShedBy-map :
    (lt : LoadType) (l : Text) (o : Observed) (xs ys : List Action)
    → (In (action (shed_kind lt) l) xs → In (action (shed_kind lt) l) ys)
    → IsShedBy lt l o xs
    → IsShedBy lt l o ys
IsShedBy-map chassis l o xs ys f (inl h) = inl h
IsShedBy-map chassis l o xs ys f (inr (inl h)) = inr (inl h)
IsShedBy-map chassis l o xs ys f (inr (inr m)) = inr (inr (f m))
IsShedBy-map nut_server l o xs ys f (inl h) = inl h
IsShedBy-map nut_server l o xs ys f (inr m) = inr (f m)

sheds : (l : Text) (lt : LoadType) (o : Observed) → IsShedBy lt l o (reconcile l lt desired_off o)
unfolding reconcile_load
sheds l lt o = ground arith

-- Of a configured load with a critical UPS, whatever is requested, or with a request for off: a chassis is down, its
-- power state could not be read, or it gets the action that shuts it down; the shed signal of a NUT server is
-- asserted, or the server gets the action that asserts it.
pub decide_sheds :
    (cfgs : Dict UpsConfig) (loads : Dict LoadConfig) (r : Readings) (l : Text) (lc : LoadConfig)
    → UniqueKeys loads
    → lookup l loads ≡ some lc
    → Any (λ u. state_of cfgs r.tel u ≡ source_shed) lc.governed_by
      ⊎ (lookup_or no_request l r.ext ≡ request_off)
    → IsShedBy lc.type l (observed r l) (decide cfgs loads r)
decide_sheds cfgs loads r l lc unique e why =
    let off = (wanted_exact cfgs loads r l lc).0.1 why in
    let mine : actions_of l (decide cfgs loads r) ≡ actions_for cfgs r l lc =
      actions_of-decide cfgs loads r l unique ∙ (rw e) in
    IsShedBy-map lc.type l (observed r l) (reconcile l lc.type desired_off (observed r l))
      (decide cfgs loads r)
      (λ emitted.
        Any-of_keep (λ a. a ≡ action (shed_kind lc.type) l) (λ a. a.load == l) (decide cfgs loads r)
          (rw (mine, off) emitted))
      (sheds l lc.type (observed r l))
