-- ===== src/Control.antt =====
-- internal/control/control.go, the decision core: what each UPS reading means, what is wanted of a
-- load, and the actions that close the gap. An `int` is an integer with no bound: the code only
-- compares the values that it reads.
mod Types
unfoldable pub use Types.*
pub mod Sources
pub mod Actions
pub mod Decision
use nut_dog.Prelude.{
  ℕ, ◌≡◌, Bool, true, false, ◌&&◌, ◌||◌, not, List, [], ◌∷◌, ◌++◌, map, Text, Dict, lookup,
  lookup_or, keys, sort_strings, ℤ, pos, ltb_ℤ, leb_ℤ, if◌then◌else◌,
}

-- The body of `Classify` for a UPS on battery.
classify_battery : UpsConfig → Telemetry → SourceState
classify_battery c t =
    if t.status.low_battery
    then source_shed
    else if leb_ℤ (pos 0) t.runtime && leb_ℤ t.runtime c.shed_runtime
    then source_shed
    else if ltb_ℤ (pos 0) c.shed_charge && (leb_ℤ (pos 0) t.charge && leb_ℤ t.charge c.shed_charge)
    then source_shed
    else source_hold

-- Classify
unfoldable pub classify : UpsConfig → Telemetry → SourceState
unfolding classify_battery
classify c t =
    if not t.ok
    then source_unknown
    else if t.status.on_battery
    then classify_battery c t
    else if t.status.on_line
    then (if ltb_ℤ t.charge (pos 0) || leb_ℤ c.recover_charge t.charge
        then source_healthy
        else source_hold)
    else source_hold

-- The variables of the loop in `desiredFromSources`.
record Seen : Type 0 where
  any_shed : Bool
  any_unknown : Bool
  all_healthy : Bool

-- One round of that loop.
see : Seen → SourceState → Seen
see v source_unknown = record v { all_healthy = false; any_unknown = true }
see v source_shed = record v { all_healthy = false; any_shed = true }
see v source_hold = record v { all_healthy = false }
see v source_healthy = v

see_all : Seen → List SourceState → Seen
unfolding see
see_all v [] = v
see_all v (s ∷ ss) = see_all (see v s) ss

verdict : Seen → Desired
verdict v =
    if v.any_shed
    then desired_off
    else if v.any_unknown
    then desired_hold
    else if v.all_healthy
    then desired_on
    else desired_hold

-- desiredFromSources
unfoldable pub desired_from_sources : List SourceState → Desired
unfolding see_all verdict
desired_from_sources states =
    verdict (see_all (record { any_shed = false; any_unknown = false; all_healthy = true }) states)

-- The `switch` of `DesiredForLoad` on the request, given the verdict of the UPSes.
resolve : Desired → Request → Desired
resolve desired_off req = desired_off
resolve d request_off = desired_off
resolve desired_on request_on = desired_on
resolve desired_hold request_on = desired_hold
resolve d request_hold = desired_hold
resolve d no_request = d

-- DesiredForLoad
unfoldable pub desired_for_load : List SourceState → Request → Desired
unfolding resolve
desired_for_load states req = resolve (desired_from_sources states) req

-- `acts = append(acts, a)` under a test
abbrev when : Bool → Action → List Action
when true a = a ∷ []
when false a = []

-- ReconcileLoad
unfoldable pub reconcile_load : Text → LoadType → Desired → ActualState → ShedState → List Action
reconcile_load name chassis desired_off actual_up signal = action chassis_shutdown name ∷ []
reconcile_load name chassis desired_on actual_down signal = action chassis_power_up name ∷ []
reconcile_load name nut_server desired_off power signal =
    when (not (is_asserted signal)) (action assert_server_shed name)
reconcile_load name nut_server desired_on power signal =
    when (not (is_released signal)) (action release_server_shed name)
    ++ when (is_down power) (action wake_server name)
reconcile_load name lt d power signal = []

-- What one poll reads: telemetry by UPS, and power state, shed signal and request by load.
pub record Readings : Type 0 where
  pub tel : Dict Telemetry
  pub actual : Dict ActualState
  pub shed : Dict ShedState
  pub ext : Dict Request

-- src, the classification of every configured UPS: `src[name] = Classify(c, tel[name])`
unfoldable pub classify_all : Dict UpsConfig → Dict Telemetry → Dict SourceState
classify_all [] tel = []
classify_all ((name, c) ∷ cfgs) tel =
    (name, classify c (lookup_or no_telemetry name tel)) ∷ classify_all cfgs tel

-- The states of a load's governing UPSes; a UPS that `src` lacks is unknown, the zero value.
unfoldable pub states_of : Dict SourceState → List Text → List SourceState
states_of src governed_by = map (λ u. lookup_or source_unknown u src) governed_by

-- What `Decide` wants of one load.
unfoldable pub desired_of : Dict SourceState → Dict Request → Text → LoadConfig → Desired
unfolding states_of
desired_of src ext name lc =
    desired_for_load (states_of src lc.governed_by) (lookup_or no_request name ext)

-- One round of the loop in `Decide`.
unfoldable pub decide_load : Dict SourceState → Dict LoadConfig → Readings → Text → List Action
unfolding desired_of
decide_load src loads r name =
    let lc = lookup_or no_load name loads in
    reconcile_load name lc.type (desired_of src r.ext name lc)
      (lookup_or actual_unknown name r.actual) (lookup_or shed_unknown name r.shed)

-- The loop over the names.
unfoldable pub decide_all : Dict SourceState → Dict LoadConfig → Readings → List Text → List Action
decide_all src loads r [] = []
decide_all src loads r (name ∷ names) = decide_load src loads r name ++ decide_all src loads r names

-- Decide
unfoldable pub decide : Dict UpsConfig → Dict LoadConfig → Readings → List Action
unfolding decide_all decide_load classify_all
decide ups_cfgs loads r =
    decide_all (classify_all ups_cfgs r.tel) loads r (sort_strings (keys loads))
