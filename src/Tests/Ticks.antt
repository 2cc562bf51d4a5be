-- ===== src/Tests/Ticks.antt =====
-- Ticks of a controller whose startup grace is running, on two UPSes of which one drains.
use nut_dog.Prelude.{
  ◌≡◌, ◌≢◌, refl, ◌↔◌, ◌⊎◌, inl, inr, ◌≤◌, ◌<◌, true, false, none, some, List, [], ◌∷◌, arith, All,
  Any, In, Dict, lookup, lookup_or, ◌==◌, UniqueKeys, Text, pos, negsuc, ◌≤ℤ◌, ◌++◌, ℤ,
  if◌then◌else◌,
}
use nut_dog.Clock.{Time}
use nut_dog.Control.{
  desired_off, nut_server, chassis, actual_up, actual_down, shed_released, request_on, Action,
  action, chassis_power_up, assert_server_shed, classify, Desired,
}
use nut_dog.Control.Decision.{observed, wanted}
use nut_dog.Control.Decision.Safety.{IsJustified, IsShedBy}
use nut_dog.Metrics.{Metrics, desired_states, desired_string}
use nut_dog.Metrics.OneHot.{IsOneHot}
use nut_dog.App.{Ports, Controller, new, read_all, plan, tick, hold_startup_wakes, record_tick}
use nut_dog.App.Recording.{record_tick-wanted}
use nut_dog.App.Ticks.{plan-IsJustified, plan_sheds}
use nut_dog.Tests.{draining, well, ups_a, p1, bc1, two_upses, two_loads, server_load, one_drains}

-- The world: what was applied, and the clock.
record World : Type 0 where
  applied : List Action
  clock : Time

abbrev at : Time → World
at t = record { applied = []; clock = t }

abbrev ports : Ports World
ports = record {
  poll = λ u w. (if u == ups_a then draining else well, w);
  probe = λ l w. (if l == p1 then actual_up else actual_down, w);
  read_shed = some (λ l w. (shed_released, w));
  apply = λ actions w. record w { applied = w.applied ++ actions };
  requests = some (λ w. ((p1, request_on) ∷ [], w));
  publish_actual = none;
  now = λ w. (w.clock, w);
  unix_now = λ w. (pos 0, w);
  metrics = none;
}

-- A grace of 180 nanoseconds that began at 1.
abbrev starting : Controller
starting = record {
  ups_configs = two_upses;
  loads = two_loads;
  startup_grace = pos 180;
  started_at = pos 1;
  ups_names = (new two_upses two_loads).ups_names;
  load_names = (new two_upses two_loads).load_names;
}

-- Within the grace the shed is applied and the power-up is not; after it both are.
ticks :
    ((tick ports starting (at (pos 100))).1.applied ≡ action assert_server_shed p1 ∷ [])
    × ((tick ports starting (at (pos 181))).1.applied
        ≡ action chassis_power_up bc1 ∷ action assert_server_shed p1 ∷ [])
unfolding tick hold_startup_wakes nut_dog.Clock.sub_time read_all new nut_dog.Prelude.sort_strings
    nut_dog.Prelude.keys nut_dog.Prelude.text_le lookup_or ◌==◌ nut_dog.Control.decide
    nut_dog.Control.reconcile_load nut_dog.Control.desired_for_load
    nut_dog.Control.desired_from_sources classify nut_dog.Prelude.insert
ticks = (refl, refl)

plan-IsJustified_example :
    All
      (IsJustified two_upses two_loads (read_all ports starting (at (pos 100))).0)
      (plan ports starting (at (pos 100))).1
plan-IsJustified_example = plan-IsJustified ports starting (at (pos 100))

plan_sheds_example :
    IsShedBy nut_server p1
      (observed (read_all ports starting (at (pos 100))).0 p1)
      (plan ports starting (at (pos 100))).1
unfolding lookup ◌==◌ classify lookup_or read_all new nut_dog.Prelude.sort_strings
    nut_dog.Prelude.keys nut_dog.Prelude.text_le nut_dog.Prelude.insert
plan_sheds_example =
    plan_sheds ports starting (at (pos 100)) p1 server_load (refl, (refl, tt)) refl (inl (inl refl))

abbrev pub no_metrics : Metrics
no_metrics = record {
  ups_source = [];
  load_desired = [];
  load_requested = [];
  grace_active = 0;
  load_actual = [];
  load_shed = [];
  reconcile_time = pos 0;
  actions = [];
  action_fails = [];
  dry_run = 0;
  build_info = [];
}

record_tick-wanted_example :
    IsOneHot p1 desired_states
      (desired_string (wanted two_upses one_drains p1 server_load))
      (record_tick (new two_upses two_loads) one_drains no_metrics).load_desired
unfolding lookup ◌==◌
record_tick-wanted_example =
    record_tick-wanted two_upses two_loads one_drains no_metrics p1 server_load refl
