-- ===== src/Nut/Flags.antt =====
-- `parseStatus` of internal/nut/nut.go against the tokens of the text, and against the controller's
-- printer of a status (internal/app/app.go).
use nut_dog.Prelude.{
  ◌≡◌, refl, Bool, true, false, ◌||◌, List, [], ◌∷◌, arith, Text, codes, ◌==◌, eq_iff, has,
}
use nut_dog.GoStrings.{fields}
use nut_dog.Control.{Status}
use nut_dog.Nut.{no_flags, set_flag, set_flags, parse_status}
use nut_dog.App.{status_string}

-- Flags that are in the status or among the tokens.
abbrev pub flagged : List Text → Status → Status
flagged toks s = record {
  on_line = s.on_line || has (codes "OL") toks;
  on_battery = s.on_battery || has (codes "OB") toks;
  low_battery = s.low_battery || has (codes "LB") toks;
}

set_flags-flagged : (toks : List Text) (s : Status) → set_flags toks s ≡ flagged toks s
unfolding set_flags has set_flag
set_flags-flagged [] s = ground arith
set_flags-flagged (tok ∷ toks) s = ground (
  arith,
  eq_iff tok (codes "OL"),
  eq_iff tok (codes "OB"),
  eq_iff tok (codes "LB"),
  set_flags-flagged toks (set_flag tok s),
)

-- A flag of the parsed status is set exactly if its token is one of the space-separated fields,
-- whatever their order and number and whatever else is among them.
pub parse_status_exact :
    (val : Text)
    → parse_status val ≡ record {
      on_line = has (codes "OL") (fields val);
      on_battery = has (codes "OB") (fields val);
      low_battery = has (codes "LB") (fields val);
    }
unfolding parse_status
parse_status_exact val = set_flags-flagged (fields val) no_flags

of_flags : (ol ob lb : Bool) → Status
of_flags ol ob lb = record { on_line = ol; on_battery = ob; low_battery = lb }

parse_status-of_flags :
    (ol ob lb : Bool) → parse_status (status_string (of_flags ol ob lb)) ≡ of_flags ol ob lb
unfolding parse_status status_string of_flags ◌==◌
parse_status-of_flags false false false = refl
parse_status-of_flags false false true = refl
parse_status-of_flags false true false = refl
parse_status-of_flags false true true = refl
parse_status-of_flags true false false = refl
parse_status-of_flags true false true = refl
parse_status-of_flags true true false = refl
parse_status-of_flags true true true = refl

-- Parsing what the controller prints for a status gives the status back.
parse_status-status_string : (s : Status) → parse_status (status_string s) ≡ s
unfolding of_flags
parse_status-status_string s = parse_status-of_flags s.on_line s.on_battery s.low_battery
