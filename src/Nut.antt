-- ===== src/Nut.antt =====
-- internal/nut/nut.go: from the variables of a NUT server to a telemetry. The client beside it
-- (client.go) is Nut/Client.
pub mod Client
pub mod Flags
pub mod Vars
use nut_dog.Prelude.{
  Bool, true, false, Option, none, some, List, [], ◌∷◌, Text, codes, ◌==◌, Dict, lookup, insert, ℤ,
  negsuc, if◌then◌else◌,
}
use nut_dog.GoStrings.{cut, split, fields, trim_space}
use nut_dog.GoStrings.Numbers.{atoi}
use nut_dog.Control.{Status, Telemetry}

-- the flags of a `Status{}`
abbrev pub no_flags : Status
no_flags = record { on_line = false; on_battery = false; low_battery = false }

-- one step of `parseStatus`: its switch on a token
unfoldable pub set_flag : Text → Status → Status
set_flag tok s =
    if tok == codes "OL"
    then record s { on_line = true }
    else if tok == codes "OB"
    then record s { on_battery = true }
    else if tok == codes "LB"
    then record s { low_battery = true }
    else s

unfoldable pub set_flags : List Text → Status → Status
unfolding set_flag
set_flags [] s = s
set_flags (tok ∷ toks) s = set_flags toks (set_flag tok s)

-- parseStatus
unfoldable pub parse_status : Text → Status
unfolding set_flags fields
parse_status val = set_flags (fields val) no_flags

-- A numeric variable: -1 where it is absent or no integer.
unfoldable pub number_of : Option Text → ℤ
unfolding atoi trim_space
number_of none = negsuc 0
number_of (some v) = elim (atoi (trim_space v)) [ none ↦ negsuc 0 | some n ↦ n ]

-- TelemetryFromVars
unfoldable pub telemetry_from_vars : Dict Text → Telemetry
unfolding lookup number_of parse_status
telemetry_from_vars vars = record {
  ok = elim (lookup (codes "ups.status") vars) [ none ↦ false | some st ↦ true ];
  status = elim (lookup (codes "ups.status") vars) [ none ↦ no_flags | some st ↦ parse_status st ];
  runtime = number_of (lookup (codes "battery.runtime") vars);
  charge = number_of (lookup (codes "battery.charge") vars);
}

-- one line of the output of `upsc`, put into the map
unfoldable pub read_line : Text → Dict Text → Dict Text
unfolding cut insert trim_space
read_line line vars = elim (cut b':' line) [
  | none ↦ vars
  | some p ↦ insert (trim_space p.0) (trim_space p.1) vars
]

unfoldable pub read_lines : List Text → Dict Text → Dict Text
unfolding read_line
read_lines [] vars = vars
read_lines (line ∷ lines) vars = read_lines lines (read_line line vars)

-- ParseUPSC
unfoldable pub parse_upsc : Text → Telemetry
unfolding read_lines split telemetry_from_vars
parse_upsc raw = telemetry_from_vars (read_lines (split 10 raw) [])
