-- ===== src/Control/Types.antt =====
-- The data of internal/control/control.go. The first constructor of each enumeration is Go's zero
-- value, which a missing key of a map reads as.
use nut_dog.Prelude.{Bool, true, false, List, [], Text, codes, ℤ, pos}

pub record Status : Type 0 where
  pub on_line : Bool
  pub on_battery : Bool
  pub low_battery : Bool

pub record Telemetry : Type 0 where
  pub ok : Bool
  pub status : Status
  pub runtime : ℤ
  pub charge : ℤ

-- Telemetry{}
abbrev pub no_telemetry : Telemetry
no_telemetry = record {
  ok = false;
  status = record { on_line = false; on_battery = false; low_battery = false };
  runtime = pos 0;
  charge = pos 0;
}

pub record UpsConfig : Type 0 where
  pub shed_runtime : ℤ
  pub shed_charge : ℤ
  pub recover_charge : ℤ

pub data SourceState : Type 0 where
  source_unknown source_shed source_hold source_healthy : SourceState

pub data Desired : Type 0 where
  desired_hold desired_off desired_on : Desired

pub data Request : Type 0 where
  no_request request_hold request_off request_on : Request

-- Request.String
unfoldable pub request_string : Request → Text
request_string request_hold = codes "hold"
request_string request_off = codes "off"
request_string request_on = codes "on"
request_string no_request = codes "none"

pub data LoadType : Type 0 where
  chassis nut_server : LoadType

pub data ActualState : Type 0 where
  actual_unknown actual_up actual_down : ActualState

-- ActualState.String
unfoldable pub actual_string : ActualState → Text
actual_string actual_up = codes "up"
actual_string actual_down = codes "down"
actual_string actual_unknown = codes "unknown"

pub data ShedState : Type 0 where
  shed_unknown shed_asserted shed_released : ShedState

pub data ActionKind : Type 0 where
  chassis_shutdown chassis_power_up assert_server_shed release_server_shed wake_server : ActionKind

-- ActionKind.String; its default case is for a value that is none of the five
unfoldable pub kind_string : ActionKind → Text
kind_string chassis_shutdown = codes "ChassisShutdown"
kind_string chassis_power_up = codes "ChassisPowerUp"
kind_string assert_server_shed = codes "AssertServerShed"
kind_string release_server_shed = codes "ReleaseServerShed"
kind_string wake_server = codes "WakeServer"

-- Action; `load` is its field `Load`
pub record Action : Type 0 where
  pub kind : ActionKind
  pub load : Text

abbrev pub action : ActionKind → Text → Action
action k l = record { kind = k; load = l }

pub record LoadConfig : Type 0 where
  pub type : LoadType
  pub governed_by : List Text

-- LoadConfig{}
abbrev pub no_load : LoadConfig
no_load = record { type = chassis; governed_by = [] }

-- The comparisons with one constant that the code makes.
abbrev pub is_asserted : ShedState → Bool
is_asserted shed_asserted = true
is_asserted _ = false

abbrev pub is_released : ShedState → Bool
is_released shed_released = true
is_released _ = false

abbrev pub is_down : ActualState → Bool
is_down actual_down = true
is_down _ = false
