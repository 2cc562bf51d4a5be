-- ===== src/Tests.antt =====
-- Runs of the program's parts on concrete inputs, and each theorem applied to one.
pub mod Decisions
pub mod Ticks
pub mod Requests
pub mod Effecting
pub mod Reading
pub mod Settings
pub mod Polls
pub mod Talking
pub mod Rendering
pub mod Wiring
pub mod Probing
pub mod Programs
pub mod Runs
use nut_dog.Prelude.{true, false, List, [], ◌∷◌, Text, codes, Dict, pos}
use nut_dog.Control.{
  Status, Telemetry, UpsConfig, LoadConfig, chassis, nut_server, ActualState, actual_up,
  actual_down, ShedState, shed_released, shed_asserted, Request, request_on, request_off, Readings,
}

abbrev pub on_line_only : Status
on_line_only = record { on_line = true; on_battery = false; low_battery = false }

abbrev pub on_battery_only : Status
on_battery_only = record { on_line = false; on_battery = true; low_battery = false }

-- A UPS that is on battery with four minutes left, and one that is well.
abbrev pub draining : Telemetry
draining = record { ok = true; status = on_battery_only; runtime = pos 240; charge = pos 60 }

abbrev pub drained : Telemetry
drained = record { ok = true; status = on_battery_only; runtime = pos 100; charge = pos 50 }

abbrev pub well : Telemetry
well = record { ok = true; status = on_line_only; runtime = pos 1800; charge = pos 95 }

abbrev pub floors : UpsConfig
floors = record { shed_runtime = pos 300; shed_charge = pos 20; recover_charge = pos 80 }

abbrev pub ups_a : Text
ups_a = codes "ups-a"

abbrev pub ups_b : Text
ups_b = codes "ups-b"

abbrev pub p1 : Text
p1 = codes "p1"

abbrev pub bc1 : Text
bc1 = codes "bc1"

abbrev pub two_upses : Dict UpsConfig
two_upses = (ups_a, floors) ∷ (ups_b, floors) ∷ []

abbrev pub server_load : LoadConfig
server_load = record { type = nut_server; governed_by = ups_a ∷ ups_b ∷ [] }

abbrev pub chassis_load : LoadConfig
chassis_load = record { type = chassis; governed_by = ups_b ∷ [] }

abbrev pub two_loads : Dict LoadConfig
two_loads = (p1, server_load) ∷ (bc1, chassis_load) ∷ []

-- One UPS drains while both loads run, and power is requested for the server.
abbrev pub one_drains : Readings
one_drains = record {
  tel = (ups_a, draining) ∷ (ups_b, well) ∷ [];
  actual = (p1, actual_up) ∷ (bc1, actual_down) ∷ [];
  shed = (p1, shed_released) ∷ [];
  ext = (p1, request_on) ∷ [];
}
