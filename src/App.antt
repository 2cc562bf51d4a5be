-- ===== src/App.antt =====
-- internal/app/app.go: the reconcile loop. `W` is the outside world with the objects that the
-- controller shares with others (the metrics, the power API); an interface is a function on it, and
-- one that may be nil is an option. Logging is left out, but for the verbose one, which is in
-- App/Verbose.
pub mod Grace
pub mod Recording
pub mod Ticks
pub mod Keeping
pub mod Worlds
pub mod Polled
pub mod Verbose
use nut_dog.Prelude.{
  Bool, true, false, not, ◌&&◌, Option, none, some, List, [], ◌∷◌, ◌++◌, keep, Text, codes, Dict,
  lookup_or, insert, keys, sort_strings, ℤ, pos, leb_ℤ, if◌then◌else◌,
}
use nut_dog.Clock.{Time, Duration, sub_time, is_zero}
use nut_dog.Control.{
  Status, Telemetry, no_telemetry, UpsConfig, SourceState, source_unknown, LoadType, chassis,
  nut_server, LoadConfig, no_load, ActualState, actual_unknown, ShedState, shed_unknown,
  shed_asserted, shed_released, Request, no_request, ActionKind, wake_server, chassis_power_up,
  Action, Readings, classify, states_of, desired_for_load, decide,
}
use nut_dog.Metrics.{Metrics, record_source, record_load, record_startup_grace, observe_reconcile}

-- The interfaces. `now` is the clock, `metrics` the update of the metrics object, and `unix_now` the
-- clock that the metrics read by themselves.
pub record Ports (W : Type 0) : Type 0 where
  pub poll : Text → W → Telemetry × W
  pub probe : Text → W → ActualState × W
  pub read_shed : Option (Text → W → ShedState × W)
  pub apply : List Action → W → W
  pub requests : Option (W → Dict Request × W)
  pub publish_actual : Option (Dict ActualState → Time → W → W)
  pub now : W → Time × W
  pub unix_now : W → ℤ × W
  pub metrics : Option ((Metrics → Metrics) → W → W)

pub record Controller : Type 0 where
  pub ups_configs : Dict UpsConfig
  pub loads : Dict LoadConfig
  pub startup_grace : Duration
  pub started_at : Time
  pub ups_names : List Text
  pub load_names : List Text

-- New, with the fields that `main` sets afterwards at their zero values
unfoldable pub new : Dict UpsConfig → Dict LoadConfig → Controller
new ups_configs loads = record {
  ups_configs = ups_configs;
  loads = loads;
  startup_grace = pos 0;
  started_at = pos 0;
  ups_names = sort_strings (keys ups_configs);
  load_names = sort_strings (keys loads);
}

-- isPowerOn
unfoldable pub is_power_on : ActionKind → Bool
is_power_on wake_server = true
is_power_on chassis_power_up = true
is_power_on k = false

-- UPSConfig{}
abbrev pub no_config : UpsConfig
no_config = record { shed_runtime = pos 0; shed_charge = pos 0; recover_charge = pos 0 }

abbrev pub is_nut_server : LoadType → Bool
is_nut_server nut_server = true
is_nut_server chassis = false

-- strings.Join(parts, " ")
abbrev pub join_flags : List Text → Text
join_flags [] = []
join_flags (f ∷ []) = f
join_flags (f ∷ g ∷ fs) = f ++ b' ' ∷ join_flags (g ∷ fs)

-- "?" where there is no part
abbrev pub or_question : List Text → Text
or_question [] = codes "?"
or_question (f ∷ fs) = join_flags (f ∷ fs)

-- statusString
unfoldable pub status_string : Status → Text
status_string s = or_question (
    (if s.on_line then codes "OL" ∷ [] else [])
    ++ ((if s.on_battery then codes "OB" ∷ [] else [])
        ++ (if s.low_battery then codes "LB" ∷ [] else [])))

module _ {W : Type 0} (p : Ports W) where
  -- The update of the metrics object, if there is one.
  abbrev pub on_metrics : (Metrics → Metrics) → W → W
  on_metrics f w = elim p.metrics [ none ↦ w | some update ↦ update f w ]

  -- StartClock
  unfoldable pub start_clock : Controller → W → Controller × W
  start_clock c w = let (t, w') = p.now w in (record c { started_at = t }, w')

  -- The first loop of `Tick`: tel[u] = c.Poller.Poll(u)
  unfoldable pub poll_all : List Text → Dict Telemetry → W → Dict Telemetry × W
  poll_all [] tel w = (tel, w)
  poll_all (u ∷ us) tel w = let (t, w') = p.poll u w in poll_all us (insert u t tel) w'

  -- The reading of one load's shed signal.
  unfoldable pub shed_of : LoadType → Text → Dict ShedState → W → Dict ShedState × W
  shed_of lt l shed w = elim p.read_shed [
    | none ↦ (shed, w)
    | some read ↦
        if is_nut_server lt then (let (s, w') = read l w in (insert l s shed, w')) else (shed, w)
  ]

  -- The second loop of `Tick`.
  unfoldable pub probe_all :
      Dict LoadConfig
      → List Text
      → Dict ActualState
      → Dict ShedState
      → W
      → Dict ActualState × Dict ShedState × W
  unfolding shed_of
  probe_all loads [] actual shed w = (actual, shed, w)
  probe_all loads (l ∷ ls) actual shed w =
      let (a, w₁) = p.probe l w in
      let (shed', w₂) = shed_of (lookup_or no_load l loads).type l shed w₁ in
      probe_all loads ls (insert l a actual) shed' w₂

  -- requested; a nil map reads as an empty one
  unfoldable pub requested : W → Dict Request × W
  requested w = elim p.requests [ none ↦ ([], w) | some desired ↦ desired w ]

-- The first loop of `record`: the classifications, as they are computed and recorded.
unfoldable pub record_sources :
    Controller
    → Dict Telemetry
    → List Text
    → Dict SourceState
    → Metrics
    → Dict SourceState × Metrics
record_sources c tel [] src m = (src, m)
record_sources c tel (u ∷ us) src m =
    let s = classify (lookup_or no_config u c.ups_configs) (lookup_or no_telemetry u tel) in
    record_sources c tel us (insert u s src) (record_source u s m)

-- The second loop of `record`.
unfoldable pub record_loads :
    Dict LoadConfig → Dict SourceState → Readings → List Text → Metrics → Metrics
record_loads loads src r [] m = m
record_loads loads src r (l ∷ ls) m =
    let lc = lookup_or no_load l loads in
    let req = lookup_or no_request l r.ext in
    record_loads loads src r ls (
      record_load l (desired_for_load (states_of src lc.governed_by) req) req
        (lookup_or actual_unknown l r.actual) (lookup_or shed_unknown l r.shed)
        (is_nut_server lc.type) m)

-- record
unfoldable pub record_tick : Controller → Readings → Metrics → Metrics
unfolding record_sources record_loads
record_tick c r m =
    let (src, m') = record_sources c r.tel c.ups_names [] m in
    record_loads c.loads src r c.load_names m'

-- The loop of `holdStartupWakes` that drops the power-on actions.
unfoldable pub hold_power_on : List Action → List Action
unfolding is_power_on
hold_power_on actions = keep (λ a. not (is_power_on a.kind)) actions

module _ {W : Type 0} (p : Ports W) where
  -- holdStartupWakes, once the grace has a start: the clock is read again
  unfoldable pub hold_since : Controller → List Action → W → Controller × List Action × W
  unfolding hold_power_on
  hold_since c actions w =
      let (t, w') = p.now w in
      if leb_ℤ c.startup_grace (sub_time t c.started_at)
      then (c, actions, on_metrics p (record_startup_grace false) w')
      else (c, hold_power_on actions, on_metrics p (record_startup_grace true) w')

  -- holdStartupWakes
  unfoldable pub hold_startup_wakes : Controller → List Action → W → Controller × List Action × W
  unfolding hold_since start_clock
  hold_startup_wakes c actions w =
      if leb_ℤ c.startup_grace (pos 0)
      then (c, actions, w)
      else if is_zero c.started_at
      then (let (c', w') = start_clock p c w in hold_since c' actions w')
      else hold_since c actions w

  -- c.Actual.PublishActual(actual, c.now()()), where there is a sink
  unfoldable pub publish : Dict ActualState → W → W
  publish actual w = elim p.publish_actual [
    | none ↦ w
    | some sink ↦ (let (t, w') = p.now w in sink actual t w')
  ]

  -- What `Tick` reads, in its order: the polls, the probes, and after publishing these the requests.
  unfoldable pub read_all : Controller → W → Readings × W
  unfolding poll_all probe_all publish requested
  read_all c w =
      let (tel, w₁) = poll_all p c.ups_names [] w in
      let (actual, shed, w₂) = probe_all p c.loads c.load_names [] [] w₁ in
      let (ext, w₃) = requested p (publish actual w₂) in
      (record { tel = tel; actual = actual; shed = shed; ext = ext }, w₃)

  -- c.Metrics.ObserveReconcile(), which reads the clock only where there are metrics
  unfoldable pub observe : W → W
  observe w = elim p.metrics [
    | none ↦ w
    | some update ↦ (let (t, w') = p.unix_now w in update (observe_reconcile t) w')
  ]

  -- `Tick` up to the call of `Apply`: the actions that are to be applied.
  unfoldable pub plan : Controller → W → Controller × List Action × W
  plan c w =
      let (r, w₁) = read_all c w in
      hold_startup_wakes c (decide c.ups_configs c.loads r) (on_metrics p (record_tick c r) w₁)

  -- Tick
  unfoldable pub tick : Controller → W → Controller × W
  unfolding plan observe
  tick c w = let (c', actions, w') = plan c w in (c', observe (p.apply actions w'))
