-- ===== src/Metrics.antt =====
-- internal/metrics/metrics.go: what is recorded. A gauge or counter vector with one label is a map of
-- values, one with two labels a map of such maps; a float that is 0, 1 or a count is a number. The
-- values that Prometheus serves are these.
pub mod OneHot
pub mod Counters
pub mod Polls
pub mod Collectors
pub mod Registered
use nut_dog.Prelude.{
  ℕ, ◌+◌, Bool, true, false, Option, none, some, List, [], ◌∷◌, Text, codes, ◌==◌, Dict, lookup,
  lookup_or, insert, delete, ℤ, if◌then◌else◌,
}
use nut_dog.Clock.{Time}
use nut_dog.Control.{
  SourceState, source_unknown, source_shed, source_hold, source_healthy, Desired, desired_hold,
  desired_off, desired_on, Request, request_string, ActualState, actual_string, ShedState,
  shed_unknown, shed_asserted, shed_released,
}

-- A vector with two labels.
abbrev pub Vec2 {ℓ} : Type ℓ → Type ℓ
Vec2 V = Dict (Dict V)

module _ {ℓ} {V : Type ℓ} where
  -- The value of a series; `none` where the series is not there.
  unfoldable pub series : Text → Text → Vec2 V → Option V
  series a b g = lookup b (lookup_or [] a g)

  -- g.WithLabelValues(a, b).Set(v)
  unfoldable pub set_series : Text → Text → V → Vec2 V → Vec2 V
  set_series a b v g = insert a (insert b v (lookup_or [] a g)) g

-- the value of a counter, which starts at 0
unfoldable pub counted : Text → Text → Vec2 ℕ → ℕ
counted a b g = elim (series a b g) [ none ↦ 0 | some n ↦ n ]

-- c.WithLabelValues(a, b).Inc()
unfoldable pub increment : Text → Text → Vec2 ℕ → Vec2 ℕ
increment a b g = set_series a b (counted a b g + 1) g

unfoldable pub b2f : Bool → ℕ
b2f true = 1
b2f false = 0

abbrev pub source_states : List Text
source_states = codes "unknown" ∷ codes "shed" ∷ codes "hold" ∷ codes "healthy" ∷ []

abbrev pub desired_states : List Text
desired_states = codes "hold" ∷ codes "off" ∷ codes "on" ∷ []

abbrev pub request_states : List Text
request_states = codes "none" ∷ codes "hold" ∷ codes "off" ∷ codes "on" ∷ []

abbrev pub actual_states : List Text
actual_states = codes "unknown" ∷ codes "up" ∷ codes "down" ∷ []

abbrev pub shed_states : List Text
shed_states = codes "unknown" ∷ codes "released" ∷ codes "asserted" ∷ []

-- sourceString
unfoldable pub source_string : SourceState → Text
source_string source_shed = codes "shed"
source_string source_hold = codes "hold"
source_string source_healthy = codes "healthy"
source_string source_unknown = codes "unknown"

-- desiredString
unfoldable pub desired_string : Desired → Text
desired_string desired_off = codes "off"
desired_string desired_on = codes "on"
desired_string desired_hold = codes "hold"

-- shedString
unfoldable pub shed_string : ShedState → Text
shed_string shed_released = codes "released"
shed_string shed_asserted = codes "asserted"
shed_string shed_unknown = codes "unknown"

-- setOneHot
unfoldable pub set_one_hot : Text → List Text → Text → Vec2 ℕ → Vec2 ℕ
set_one_hot id [] active g = g
set_one_hot id (s ∷ states) active g =
    set_one_hot id states active (set_series id s (b2f (s == active)) g)

-- The collectors of `Metrics` that the controller and the executor write, and build_info; those of
-- `RecordPoll` are in `Polls`.
pub record Metrics : Type 0 where
  pub ups_source : Vec2 ℕ
  pub load_desired : Vec2 ℕ
  pub load_requested : Vec2 ℕ
  pub grace_active : ℕ
  pub load_actual : Vec2 ℕ
  pub load_shed : Vec2 ℕ
  pub reconcile_time : ℤ
  pub actions : Vec2 ℕ
  pub action_fails : Vec2 ℕ
  pub dry_run : ℕ
  pub build_info : Dict ℕ

-- SetDryRun
unfoldable pub set_dry_run : Bool → Metrics → Metrics
unfolding b2f
set_dry_run dry m = record m { dry_run = b2f dry }

-- RecordSource
unfoldable pub record_source : Text → SourceState → Metrics → Metrics
record_source ups s m = record m {
  ups_source = set_one_hot ups source_states (source_string s) m.ups_source;
}

-- RecordLoad
unfoldable pub record_load :
    Text → Desired → Request → ActualState → ShedState → Bool → Metrics → Metrics
record_load load d requested a sh nut_server m = record m {
  load_desired = set_one_hot load desired_states (desired_string d) m.load_desired;
  load_requested = set_one_hot load request_states (request_string requested) m.load_requested;
  load_actual = set_one_hot load actual_states (actual_string a) m.load_actual;
  load_shed =
      if nut_server then set_one_hot load shed_states (shed_string sh) m.load_shed else m.load_shed;
}

-- RecordStartupGrace
unfoldable pub record_startup_grace : Bool → Metrics → Metrics
unfolding b2f
record_startup_grace active m = record m { grace_active = b2f active }

-- ObserveReconcile, at the clock's Unix time
unfoldable pub observe_reconcile : ℤ → Metrics → Metrics
observe_reconcile now m = record m { reconcile_time = now }

-- RecordAction
unfoldable pub record_action : Text → Text → Bool → Metrics → Metrics
record_action load action failed m = record m {
  actions = increment load action m.actions;
  action_fails = if failed then increment load action m.action_fails else m.action_fails;
}

-- Every recorder does nothing on a nil `*Metrics`.
abbrev pub on_metrics : (Metrics → Metrics) → Option Metrics → Option Metrics
on_metrics f none = none
on_metrics f (some m) = some (f m)
