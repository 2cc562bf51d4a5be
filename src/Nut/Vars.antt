-- ===== src/Nut/Vars.antt =====
-- `TelemetryFromVars` and `ParseUPSC` of internal/nut/nut.go.
use nut_dog.Prelude.{◌≡◌, none, arith, Text, codes, Dict, lookup, ◌↔◌}
use nut_dog.Control.{UpsConfig, classify, source_unknown}
use nut_dog.Nut.{telemetry_from_vars}

-- Variables without a status are classified unknown, whatever else they hold and whatever the
-- floors are.
pub telemetry_without_status :
    (c : UpsConfig) (vars : Dict Text)
    → (classify c (telemetry_from_vars vars) ≡ source_unknown)
      ↔ (lookup (codes "ups.status") vars ≡ none)
unfolding telemetry_from_vars classify
telemetry_without_status c vars = (λ h. ground arith, λ h. ground arith)
