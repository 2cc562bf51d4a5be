-- ===== src/Metrics/Collectors.antt =====
-- New of internal/metrics/metrics.go: the collectors are made, found by the names of the variables, and
-- registered. The registry `R` is Prometheus' own, a parameter with the two collectors of its library.
use nut_dog.Prelude.{Option, none, some, List, [], ◌∷◌, ◌++◌, Text, codes, Dict, insert, pos}
use Prim.Native.String.{String}
use nut_dog.Metrics.{Metrics}
use nut_dog.Metrics.Polls.{Spec, PollMetrics, telemetry_specs}

pub data Kind : Type 0 where
  gauge counter : Kind

-- GaugeOpts or CounterOpts, with the names of the labels; a collector without labels has none.
pub record Opts : Type 0 where
  pub kind : Kind
  pub name : Text
  pub help : Text
  pub labels : List Text

pub data Collector : Type 0 where
  vector : Opts → Collector
  go_collector process_collector : Collector

-- What the library brings: the names that its own two collectors describe, and MustRegister on a new
-- registry, with `none` for its panic.
pub record Prometheus (R : Type 0) : Type 0 where
  pub go_names : List Text
  pub process_names : List Text
  pub must_register : List Collector → Option R

-- The names of the labels.
abbrev by_ups : List Text
by_ups = codes "ups" ∷ []

abbrev by_load_state : List Text
by_load_state = codes "load" ∷ codes "state" ∷ []

abbrev by_load_action : List Text
by_load_action = codes "load" ∷ codes "action" ∷ []

-- a gauge or a counter of these names and labels
abbrev made : Kind → String → String → List Text → Collector
made kind name help labels =
    vector (record { kind = kind; name = codes name; help = codes help; labels = labels })

-- The collectors that `New` lists by hand, in the order of the list.
unfoldable pub own_collectors : List Collector
own_collectors =
    made gauge "nut_dog_ups_reachable" "1 if the last poll of this UPS succeeded, else 0." by_ups
    ∷ made gauge "nut_dog_ups_last_success_timestamp_seconds"
        "Unix time of the last successful poll of this UPS." by_ups
    ∷ made counter "nut_dog_ups_poll_failures_total" "Count of failed polls per UPS." by_ups
    ∷ made gauge "nut_dog_ups_status" "ups.status flags, 1 if present this poll else 0."
        (codes "ups" ∷ codes "flag" ∷ [])
    ∷ made gauge "nut_dog_ups_source_state" "nut-dog's classification of the UPS (one-hot)."
        (codes "ups" ∷ codes "state" ∷ [])
    ∷ made gauge "nut_dog_load_desired_state" "Desired power state per load (one-hot)."
        by_load_state
    ∷ made gauge "nut_dog_load_requested_state"
        "What an external controller asked for, one-hot (none = nobody asked)." by_load_state
    ∷ made gauge "nut_dog_startup_grace_active" "1 while power-on actions are held after start." []
    ∷ made gauge "nut_dog_load_actual_state" "Observed power state per load (one-hot)."
        by_load_state
    ∷ made gauge "nut_dog_load_shed_signal" "Shed-signal position per NUT-server load (one-hot)."
        by_load_state
    ∷ made gauge "nut_dog_reconcile_timestamp_seconds"
        "Unix time of the last completed reconcile tick." []
    ∷ made counter "nut_dog_actions_total"
        "Actions the controller decided to apply (counted even in dryRun)." by_load_action
    ∷ made counter "nut_dog_action_failures_total" "Actions whose execution failed (armed only)."
        by_load_action
    ∷ made gauge "nut_dog_dry_run" "1 if running in dryRun (observe-only), 0 if armed." []
    ∷ made gauge "nut_dog_build_info" "Build info; constant 1 labelled by version."
        (codes "version" ∷ [])
    ∷ go_collector
    ∷ process_collector
    ∷ []

-- Before anything is recorded no vector has a series, and a gauge without labels is 0.
abbrev pub never_recorded : Metrics
never_recorded = record {
  ups_source = [];
  load_desired = [];
  load_requested = [];
  grace_active = 0;
  load_actual = [];
  load_shed = [];
  reconcile_time = pos 0;
  actions = [];
  action_fails = [];
  dry_run = 0;
  build_info = [];
}

-- The loop over the names of a spec: they share one gauge.
unfoldable pub share_gauge : Opts → List Text → Dict Opts → Dict Opts
share_gauge g [] telemetry = telemetry
share_gauge g (v ∷ names) telemetry = share_gauge g names (insert v g telemetry)

module _ {F : Type 0} where
  abbrev pub never_polled : PollMetrics F
  never_polled = record {
    ups_reachable = [];
    ups_last_success = [];
    ups_poll_fails = [];
    ups_status = [];
    telemetry = [];
  }

  -- the gauge of a spec
  unfoldable pub gauge_of : Spec F → Opts
  gauge_of s = record { kind = gauge; name = s.metric; help = s.help; labels = by_ups }

  abbrev pub var_names : Spec F → List Text
  var_names s = s.first ∷ s.aliases

  -- The loop over the specs: m.telemetry and cs.
  unfoldable pub add_specs : List (Spec F) → Dict Opts → List Collector → Dict Opts × List Collector
  unfolding share_gauge gauge_of
  add_specs [] telemetry cs = (telemetry, cs)
  add_specs (s ∷ specs) telemetry cs =
      add_specs specs (share_gauge (gauge_of s) (var_names s) telemetry)
        (cs ++ vector (gauge_of s) ∷ [])

-- What `New` makes: the registry, the gauge of each variable, and the values, with build_info set.
pub record Made (R F : Type 0) : Type 0 where
  pub registry : R
  pub telemetry : Dict Opts
  pub metrics : Metrics
  pub polls : PollMetrics F

module _ {R F : Type 0} (p : Prometheus R) (one : F) where
  abbrev pub registered : Text → Dict Opts → Option R → Option (Made R F)
  registered version telemetry none = none
  registered version telemetry (some registry) = some (record {
    registry = registry;
    telemetry = telemetry;
    metrics = record never_recorded { build_info = insert version 1 [] };
    polls = never_polled;
  })

  -- New; `none` is the panic of MustRegister.
  unfoldable pub new : Text → Option (Made R F)
  unfolding add_specs own_collectors telemetry_specs
  new version =
      let (telemetry, cs) = add_specs (telemetry_specs one) [] own_collectors in
      registered version telemetry (p.must_register cs)
