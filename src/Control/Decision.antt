-- ===== src/Control/Decision.antt =====
-- `Decide`: every load by itself, in name order, whatever the order of the maps' entries.
pub mod Order
pub mod Safety
use nut_dog.Prelude.{
  ℕ, zero, suc, subst, Bool-cases, ◌<◌, ◌≡◌, refl, sym, ap, ◌∙◌, ◌⊎◌, inl, inr, Bool, true, false,
  Option, none, some, List, [], ◌∷◌, ◌++◌, map, append-nil, arith, All, All-append, All-map_of,
  All-of_map, Any-of_map, Any-map, All-map, Any-of_keep, All-sort_strings, lookup-keys, Any, In,
  Any-append_left, Any-append_right, keep, keep-append, keep-All, keep_none, Text, ◌==◌, eq_iff,
  eq_refl, Dict, lookup, lookup_or, keys, count, count-keys, UniqueKeys, sort_strings,
  count-sort_strings, sort_strings-perm, lookup-perm, IsSorted, sort_strings-IsSorted, text_le,
  if◌then◌else◌,
}
use nut_dog.Control.{
  UpsConfig, Telemetry, no_telemetry, SourceState, source_unknown, source_shed, source_healthy,
  Desired, desired_off, desired_on, Request, no_request, request_off, ActualState, actual_unknown,
  ShedState, shed_unknown, LoadType, chassis, nut_server, LoadConfig, no_load, Action, action,
  ActionKind, chassis_shutdown, assert_server_shed, Readings, classify, classify_all, states_of,
  desired_of, decide_load, decide_all, decide, desired_for_load, reconcile_load,
}
use nut_dog.Control.Sources.{desired_for_load_exact, LetsRun}
use nut_dog.Control.Actions.{
  Observed, IsAtTarget, reconcile, reconcile_sound, reconcile_silent_iff, reconcile-load,
}

-- How one UPS is classified: a UPS that is not configured is unknown, and so is one with no reading.
abbrev pub state_of : Dict UpsConfig → Dict Telemetry → Text → SourceState
state_of cfgs tel u = elim (lookup u cfgs) [
  | none ↦ source_unknown
  | some c ↦ classify c (lookup_or no_telemetry u tel)
]

-- What is wanted of a load with the given configuration.
abbrev pub wanted : Dict UpsConfig → Readings → Text → LoadConfig → Desired
wanted cfgs r name lc =
    desired_for_load (map (state_of cfgs r.tel) lc.governed_by) (lookup_or no_request name r.ext)

-- What was observed of a load.
abbrev pub observed : Readings → Text → Observed
observed r name = record {
  actual = lookup_or actual_unknown name r.actual;
  shed = lookup_or shed_unknown name r.shed;
}

lookup-classify_all :
    (cfgs : Dict UpsConfig) (tel : Dict Telemetry) (u : Text)
    → lookup_or source_unknown u (classify_all cfgs tel) ≡ state_of cfgs tel u
unfolding lookup_or lookup classify_all
lookup-classify_all [] tel u = refl
lookup-classify_all ((j, c) ∷ cfgs) tel u =
    ground (arith, lookup-classify_all cfgs tel u, eq_iff j u)

states_of-state_of :
    (cfgs : Dict UpsConfig) (tel : Dict Telemetry) (us : List Text)
    → states_of (classify_all cfgs tel) us ≡ map (state_of cfgs tel) us
unfolding states_of
states_of-state_of cfgs tel [] = refl
states_of-state_of cfgs tel (u ∷ us) =
    cc (lookup-classify_all cfgs tel u, states_of-state_of cfgs tel us)

pub desired_of-wanted :
    (cfgs : Dict UpsConfig) (r : Readings) (name : Text) (lc : LoadConfig)
    → desired_of (classify_all cfgs r.tel) r.ext name lc ≡ wanted cfgs r name lc
unfolding desired_of
desired_of-wanted cfgs r name lc =
    ap (λ ss. desired_for_load ss (lookup_or no_request name r.ext))
      (states_of-state_of cfgs r.tel lc.governed_by)

-- The actions of a load that is configured.
abbrev pub actions_for : Dict UpsConfig → Readings → Text → LoadConfig → List Action
actions_for cfgs r name lc = reconcile name lc.type (wanted cfgs r name lc) (observed r name)

repeat : ℕ → List Action → List Action
repeat zero xs = []
repeat (suc n) xs = xs ++ repeat n xs

-- The actions of one load among a list of actions.
abbrev pub actions_of : Text → List Action → List Action
actions_of l = keep (λ a. a.load == l)

names-All :
    (l : Text) (xs : List Action) → All (λ a. a.load ≡ l) xs → All (λ a. (a.load == l) ≡ true) xs
names-All l [] h = tt
names-All l (a ∷ xs) h = ((eq_iff a.load l).1 h.0, names-All l xs h.1)

names_none :
    (n l : Text) (xs : List Action)
    → (n == l) ≡ false
    → All (λ a. a.load ≡ n) xs
    → All (λ a. (a.load == l) ≡ false) xs
names_none n l [] e h = tt
names_none n l (a ∷ xs) e h = (rw h.0 e, names_none n l xs e h.1)

module _ (cfgs : Dict UpsConfig) (loads : Dict LoadConfig) (r : Readings) where
  abbrev src : Dict SourceState
  src = classify_all cfgs r.tel

  decide_load-actions_for :
      (name : Text)
      → decide_load src loads r name ≡ actions_for cfgs r name (lookup_or no_load name loads)
  unfolding decide_load
  decide_load-actions_for name =
      ap (λ d. reconcile name (lookup_or no_load name loads).type d (observed r name))
        (desired_of-wanted cfgs r name (lookup_or no_load name loads))

  decide_load-names : (name : Text) → All (λ a. a.load ≡ name) (decide_load src loads r name)
  unfolding decide_load
  decide_load-names name = reconcile-load name _ _ _ _

  actions_of-decide_all :
      (l : Text) (names : List Text)
      → actions_of l (decide_all src loads r names)
        ≡ repeat (count l names) (decide_load src loads r l)
  unfolding decide_all count repeat
  actions_of-decide_all l [] = refl
  actions_of-decide_all l (n ∷ names) = elim (Bool-cases (n == l)) [
    | inl e ↦
        let same : n ≡ l = (eq_iff n l).0 e in
        rw
          (
            keep-append,
            keep-All _ _ (
                names-All l _ (
                  subst (λ k. All (λ a. a.load ≡ k) (decide_load src loads r n)) same
                    (decide_load-names n))),
            e,
          )
          (cc (actions_of-decide_all l names, same))
    | inr e ↦
        rw (keep-append, keep_none _ _ (names_none n l _ e (decide_load-names n)), e)
          (actions_of-decide_all l names)
  ]

  -- The actions for one load among those of `Decide` are the actions of that load's own reconcile,
  -- from its own UPSes, request and observed state; a load that is not configured gets none.
  pub actions_of-decide :
      (l : Text)
      → UniqueKeys loads
      → actions_of l (decide cfgs loads r)
        ≡ elim (lookup l loads) [ none ↦ [] | some lc ↦ actions_for cfgs r l lc ]
  unfolding decide repeat lookup_or
  actions_of-decide l h =
      actions_of-decide_all l (sort_strings (keys loads))
      ∙ rw (count-sort_strings l (keys loads), count-keys l loads h, decide_load-actions_for l)
          (pick (lookup l loads))
    where
      pick :
          (o : Option LoadConfig)
          → repeat
              (elim o [ none ↦ 0 | some lc ↦ 1 ])
              (actions_for cfgs r l (elim o [ none ↦ no_load | some lc ↦ lc ]))
            ≡ elim o [ none ↦ [] | some lc ↦ actions_for cfgs r l lc ]
      pick none = refl
      pick (some lc) = append-nil _
