-- ===== src/Probe.antt =====
-- cmd/nut-probe/main.go: the variables of one UPS and the telemetry derived from them, printed. The flags are
-- those that flag.Parse leaves; the error of `Fetch` is printed by its cause.
pub mod Reports
use nut_dog.Prelude.{
  ℕ, Bool, true, false, Option, none, some, List, [], ◌∷◌, ◌++◌, length, Text, codes, ◌==◌, Dict,
  lookup_or, keys, sort_strings, if◌then◌else◌,
}
use nut_dog.GoStrings.Format.{print_nat, print_int, print_bool, pad_right}
use nut_dog.Control.{Status, Telemetry}
use nut_dog.Nut.{telemetry_from_vars}
use nut_dog.Nut.Client.{Peer, Session, Options, NetError, Result, ok, err, fetch}

pub record Flags : Type 0 where
  pub addr : Text
  pub ups : Text
  pub use_tls : Bool
  pub insecure : Bool
  pub login : Bool

-- The defaults of the flags.
abbrev pub default_flags : Flags
default_flags = record {
  addr = codes "localhost:3493";
  ups = [];
  use_tls = false;
  insecure = false;
  login = false;
}

-- What is printed on the standard error.
pub data Complaint : Type 0 where
  ups_required : Complaint
  fetch_failed : (ups addr : Text) → NetError → Complaint

-- How the command ends: its output, its complaint, its exit status, and the connection it leaves.
pub record Outcome (S : Type 0) : Type 0 where
  pub printed : Text
  pub complaint : Option Complaint
  pub status : ℕ
  pub net : Session S

-- %+v of a Status and of a Telemetry
unfoldable pub print_status : Status → Text
unfolding print_bool
print_status s =
    codes "{OnLine:"
    ++ (print_bool s.on_line
        ++ (codes " OnBattery:"
            ++ (print_bool s.on_battery
                ++ (codes " LowBattery:" ++ (print_bool s.low_battery ++ codes "}")))))

unfoldable pub print_telemetry : Telemetry → Text
unfolding print_bool print_status print_int
print_telemetry t =
    codes "{OK:"
    ++ (print_bool t.ok
        ++ (codes " Status:"
            ++ (print_status t.status
                ++ (codes " Runtime:"
                    ++ (print_int t.runtime
                        ++ (codes " Charge:" ++ (print_int t.charge ++ codes "}")))))))

-- The lines that are printed: the heading, one of a variable, and the last.
unfoldable pub heading : Flags → ℕ → Text
unfolding print_nat
heading flags count =
    codes "--- "
    ++ (print_nat count
        ++ (codes " vars from " ++ (flags.ups ++ (b'@' ∷ flags.addr ++ codes " ---"))))

unfoldable pub row : Text → Text → Text
unfolding pad_right
row name value = pad_right 28 name ++ b' ' ∷ value

unfoldable pub derived : Telemetry → Text
unfolding print_telemetry
derived t = codes "derived telemetry: " ++ print_telemetry t

-- The loop over the sorted names.
unfoldable pub print_rows : Dict Text → List Text → Text
unfolding row lookup_or
print_rows vars [] = []
print_rows vars (k ∷ names) = row k (lookup_or [] k vars) ++ 10 ∷ print_rows vars names

-- What is printed of the variables.
unfoldable pub report : Flags → Dict Text → Text
unfolding heading print_rows derived
report flags vars =
    heading flags (length vars)
    ++ 10
      ∷ (print_rows vars (sort_strings (keys vars))
          ++ 10 ∷ (derived (telemetry_from_vars vars) ++ 10 ∷ []))

-- the options of the client
unfoldable pub options_of : (Text → Text) → Flags → Options
options_of getenv flags = record {
  tls = flags.use_tls;
  insecure_skip_verify = flags.insecure;
  username = getenv (codes "NUT_USERNAME");
  password = getenv (codes "NUT_PASSWORD");
  login = flags.login;
}

module _ {S : Type 0} (getenv : Text → Text) (p : Peer S) where
  -- `main` behind `Fetch`
  abbrev pub finish : Flags → Result (Dict Text) × Session S → Outcome S
  finish flags (err e, net) = record {
    printed = [];
    complaint = some (fetch_failed flags.ups flags.addr e);
    status = 1;
    net = net;
  }
  finish flags (ok vars, net) = record {
    printed = report flags vars;
    complaint = none;
    status = 0;
    net = net;
  }

  -- main
  unfoldable pub main : Flags → Session S → Outcome S
  unfolding report options_of fetch
  main flags net =
      if flags.ups == []
      then record { printed = []; complaint = some ups_required; status = 2; net = net }
      else finish flags (fetch p flags.addr flags.ups (options_of getenv flags) net)
