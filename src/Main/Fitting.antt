-- ===== src/Main/Fitting.antt =====
-- That an action fits the type of its load, in a decision and in what a tick applies, and that the ticks keep the
-- controller's configuration.
use nut_dog.Prelude.{
  ◌≡◌, ◌≢◌, refl, inl, inr, Bool, true, false, none, some, List, [], ◌∷◌, arith, All, All-append,
  All-map_of, All-sort_strings, of_All-In, Option-cases, Text, Dict, lookup, lookup_or, keys,
  lookup-keys, sort_strings,
}
use nut_dog.Control.{
  LoadType, chassis, nut_server, ActionKind, chassis_shutdown, chassis_power_up, assert_server_shed,
  release_server_shed, wake_server, Action, Desired, ActualState, ShedState, LoadConfig, no_load,
  SourceState, UpsConfig, Readings, reconcile_load, decide_load, decide_all, decide, classify_all,
}
use nut_dog.App.{
  Ports, Controller, hold_startup_wakes, hold_since, start_clock, plan, tick, read_all, on_metrics,
  record_tick,
}
use nut_dog.App.Grace.{hold_startup_wakes-sheds}

-- Whether actions of a kind are for loads of a type.
abbrev pub fits : LoadType → ActionKind → Bool
fits chassis chassis_shutdown = true
fits chassis chassis_power_up = true
fits nut_server assert_server_shed = true
fits nut_server release_server_shed = true
fits nut_server wake_server = true
fits lt k = false

-- The action is for a load of its type.
abbrev pub IsFitting : Dict LoadConfig → Action → Type 0
IsFitting loads a =
    (lc : LoadConfig) × (lookup a.load loads ≡ some lc) × (fits lc.type a.kind ≡ true)

reconcile_load-fits :
    (name : Text) (lt : LoadType) (d : Desired) (p : ActualState) (s : ShedState)
    → All (λ a. (a.load ≡ name) × (fits lt a.kind ≡ true)) (reconcile_load name lt d p s)
unfolding reconcile_load
reconcile_load-fits name lt d p s = ground arith

lookup_or-found :
    (loads : Dict LoadConfig) (name : Text) (lc : LoadConfig)
    → lookup name loads ≡ some lc
    → lookup_or no_load name loads ≡ lc
unfolding lookup_or
lookup_or-found loads name lc e = rw (lookup_or, e) refl

module _ (cfgs : Dict UpsConfig) (loads : Dict LoadConfig) (r : Readings)
    (src : Dict SourceState) where
  decide_load-IsFitting :
      (name : Text)
      → lookup name loads ≢ none
      → All (IsFitting loads) (decide_load src loads r name)
  unfolding decide_load
  decide_load-IsFitting name h = elim (Option-cases (lookup name loads)) [
    | inl e ↦ absurd (h e)
    | inr (lc, e) ↦
        rw (lookup_or-found loads name lc e)
          (All-map_of (λ a k. (lc, rw k.0 e, k.1)) _ (reconcile_load-fits name lc.type _ _ _))
  ]

  decide_all-IsFitting :
      (names : List Text)
      → All (λ n. lookup n loads ≢ none) names
      → All (IsFitting loads) (decide_all src loads r names)
  unfolding decide_all
  decide_all-IsFitting [] h = tt
  decide_all-IsFitting (n ∷ names) h =
      All-append _ (decide_load src loads r n) _ (decide_load-IsFitting n h.0)
        (decide_all-IsFitting names h.1)

-- Every action of a decision fits the type of its load.
pub decide-IsFitting :
    (cfgs : Dict UpsConfig) (loads : Dict LoadConfig) (r : Readings)
    → All (IsFitting loads) (decide cfgs loads r)
unfolding decide
decide-IsFitting cfgs loads r =
    decide_all-IsFitting cfgs loads r (classify_all cfgs r.tel) (sort_strings (keys loads))
      (All-sort_strings _ (keys loads) (lookup-keys loads))

module _ {W : Type 0} (p : Ports W) where
  -- So does every action that a tick applies.
  pub plan-IsFitting : (c : Controller) (w : W) → All (IsFitting c.loads) (plan p c w).1
  unfolding plan
  plan-IsFitting c w =
      let (r, w₁) = read_all p c w in
      let decided = decide c.ups_configs c.loads r in
      All-map_of (λ a m. of_All-In _ decided a (decide-IsFitting c.ups_configs c.loads r) m) _
        (hold_startup_wakes-sheds p c decided (on_metrics p (record_tick c r) w₁)).0

  -- The configuration of a controller is that of another.
  abbrev pub Same : Controller → Controller → Type 0
  Same c d = (c.ups_configs ≡ d.ups_configs) × (c.loads ≡ d.loads) × (c.ups_names ≡ d.ups_names)

  hold_keeps :
      (c : Controller) (actions : List Action) (w : W) → Same (hold_startup_wakes p c actions w).0 c
  unfolding hold_startup_wakes hold_since start_clock
  hold_keeps c actions w = ground arith

  -- A tick keeps the controller's configuration.
  pub tick_keeps : (c : Controller) (w : W) → Same (tick p c w).0 c
  unfolding tick plan
  tick_keeps c w = hold_keeps c _ _
