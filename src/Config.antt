-- ===== src/Config.antt =====
-- internal/config/config.go: the configuration, its checks and what the control core is given of it.
-- Reading the file and its YAML is in Config/File; the tags of the fields are left out. A pointer that may be
-- nil is an option.
mod Types
unfoldable pub use Types.*
pub mod Accepted
pub mod Derived
pub mod File
use nut_dog.Prelude.{
  ℕ, ◌||◌, ◌&&◌, not, Bool, true, false, Option, none, some, ◌⊎◌, inl, inr, List, [], ◌∷◌, ◌++◌,
  Text, codes, ◌==◌, Dict, lookup, ℤ, pos, leb_ℤ, ltb_ℤ, if◌then◌else◌,
}
use nut_dog.Clock.{Duration, whole_seconds}
use nut_dog.Control.{UpsConfig, LoadConfig, LoadType, chassis, nut_server}

-- ShedUpsName
unfoldable pub shed_ups_name : Text → Text
shed_ups_name load = codes "shed-" ++ load

-- if test { return e }; next
abbrev pub fail_if : Bool → ConfigError → Option ConfigError → Option ConfigError
fail_if true e next = some e
fail_if false e next = next

-- An error that is returned from inside of a loop or a block ends what comes behind it.
abbrev pub and_then : Option ConfigError → Option ConfigError → Option ConfigError
and_then none next = next
and_then (some e) next = some e

abbrev pub empty : Text → Bool
empty [] = true
empty (c ∷ s) = false

-- whether a map lacks a key
abbrev pub missing {ℓ} : {V : Type ℓ} → Option V → Bool
missing none = true
missing (some v) = false

-- *d < 0
abbrev pub check_duration : Option Duration → ConfigError → Option ConfigError → Option ConfigError
check_duration none e next = some nil_duration
check_duration (some d) e next = fail_if (ltb_ℤ d (pos 0)) e next

-- The loop over `c.PowerAPI.Loads`.
unfoldable pub check_listed : Dict LoadSpec → List Text → Option ConfigError
check_listed loads [] = none
check_listed loads (l ∷ ls) =
    let rest = check_listed loads ls in
    fail_if (missing (lookup l loads)) (power_api_unknown_load l) rest

unfoldable pub check_power_api : Dict LoadSpec → Option PowerApiSpec → Option ConfigError
unfolding check_listed
check_power_api loads none = none
check_power_api loads (some p) =
    fail_if (empty p.listen || empty p.token_env) power_api_incomplete
      (check_duration p.request_ttl request_ttl_negative (check_listed loads p.loads))

abbrev pub incomplete_driver : Option DriverSpec → Bool
incomplete_driver none = false
incomplete_driver (some d) = empty d.type || empty d.port

unfoldable pub check_ups : Text → UpsSpec → Option ConfigError
check_ups name u = fail_if (empty u.host || empty u.ups_name) (ups_incomplete name) (
    fail_if (leb_ℤ u.shed_runtime (pos 0)) (ups_shed_runtime name)
      (fail_if (incomplete_driver u.driver) (ups_driver_incomplete name) none))

-- The loop over the UPSes.
unfoldable pub check_upses : Dict UpsSpec → Option ConfigError
unfolding check_ups
check_upses [] = none
check_upses ((name, u) ∷ upses) = and_then (check_ups name u) (check_upses upses)

abbrev pub lacks_cmc : Option CmcSpec → Bool
lacks_cmc none = true
lacks_cmc (some c) = empty c.host

abbrev pub lacks_wake : Option WakeSpec → Bool
lacks_wake none = true
lacks_wake (some w) = empty w.mac || empty w.broadcast

abbrev pub lacks_probe : Option ProbeSpec → Bool
lacks_probe none = true
lacks_probe (some p) = empty p.host

abbrev pub lacks_secondary : Option SecondarySpec → Bool
lacks_secondary none = true
lacks_secondary (some s) = empty s.user || empty s.password_env

-- The `switch` on the type of a load.
unfoldable pub check_type : Text → LoadSpec → Option ConfigError
check_type name l =
    if l.type == type_chassis
    then fail_if (lacks_cmc l.cmc) (chassis_needs_cmc name) none
    else if l.type == type_nut_server
    then fail_if (lacks_wake l.wake) (needs_wake name) (
        fail_if (lacks_probe l.probe) (needs_probe name)
          (fail_if (lacks_secondary l.secondary) (needs_secondary name) none))
    else some (unknown_type name)

-- The loop over `l.GovernedBy`.
unfoldable pub check_governed : Dict UpsSpec → Text → List Text → Option ConfigError
check_governed upses name [] = none
check_governed upses name (u ∷ us) =
    let rest = check_governed upses name us in
    fail_if (missing (lookup u upses)) (governed_by_unknown name u) rest

abbrev pub no_names : List Text → Bool
no_names [] = true
no_names (n ∷ ns) = false

unfoldable pub check_load : Dict UpsSpec → Text → LoadSpec → Option ConfigError
unfolding check_type check_governed
check_load upses name l =
    and_then (check_type name l) (
      fail_if (no_names l.governed_by) (not_governed name)
        (check_governed upses name l.governed_by))

-- The loop over the loads.
unfoldable pub check_loads : Dict UpsSpec → Dict LoadSpec → Option ConfigError
unfolding check_load
check_loads upses [] = none
check_loads upses ((name, l) ∷ loads) = and_then (check_load upses name l) (check_loads upses loads)

-- nutServers > 0, behind that loop
unfoldable pub any_nut_server : Dict LoadSpec → Bool
any_nut_server [] = false
any_nut_server ((name, l) ∷ loads) = l.type == type_nut_server || any_nut_server loads

-- hasLocalDriver
unfoldable pub has_local_driver : Dict UpsSpec → Bool
has_local_driver [] = false
has_local_driver ((name, u) ∷ upses) = not (missing u.driver) || has_local_driver upses

abbrev pub no_entries : Dict UpsSpec → Bool
no_entries [] = true
no_entries (e ∷ es) = false

-- The checks of the local upsd.
unfoldable pub check_upsd : Config → Option ConfigError
unfolding any_nut_server has_local_driver
check_upsd c =
    fail_if ((any_nut_server c.loads || has_local_driver c.upses) && empty c.local_upsd.listen)
      upsd_needs_listen
      (fail_if
        (any_nut_server c.loads
          && (empty c.local_upsd.admin_user || empty c.local_upsd.admin_password_env))
        upsd_needs_admin none)

-- validate; `none` is its nil
unfoldable pub validate : Config → Option ConfigError
unfolding check_power_api check_upses check_loads check_upsd
validate c = fail_if (leb_ℤ c.poll_interval (pos 0)) poll_interval_not_positive (
    fail_if (no_entries c.upses) no_upses (
      check_duration c.startup_grace startup_grace_negative (
        and_then (check_power_api c.loads c.power_api) (
          and_then (check_upses c.upses) (and_then (check_loads c.upses c.loads) (check_upsd c))))))

abbrev pub or_default : Option Duration → Duration → Option Duration
or_default none d = some d
or_default (some x) d = some x

abbrev pub with_ttl : Option PowerApiSpec → Option PowerApiSpec
with_ttl none = none
with_ttl (some p) = some (record p { request_ttl = or_default p.request_ttl (pos 36000000000000) })

-- The defaults that `Load` fills in: ten hours, and 180 seconds.
unfoldable pub with_defaults : Config → Config
with_defaults c = record c {
  power_api = with_ttl c.power_api;
  startup_grace = or_default c.startup_grace (pos 180000000000);
}

-- `Load`, from the parsed configuration on.
unfoldable pub load : Config → ConfigError ⊎ Config
unfolding with_defaults validate
load c = elim (validate (with_defaults c)) [ none ↦ inr (with_defaults c) | some e ↦ inl e ]

-- ControlUPS
unfoldable pub control_ups : Dict UpsSpec → Dict UpsConfig
unfolding whole_seconds
control_ups [] = []
control_ups ((name, u) ∷ upses) =
    (
      name,
      record {
        shed_runtime = whole_seconds u.shed_runtime;
        shed_charge = u.shed_charge_pct;
        recover_charge = u.recover_charge_pct;
      },
    )
    ∷ control_ups upses

-- ControlLoads
unfoldable pub control_loads : Dict LoadSpec → Dict LoadConfig
control_loads [] = []
control_loads ((name, l) ∷ loads) =
    (
      name,
      record {
        type = if l.type == type_nut_server then nut_server else chassis;
        governed_by = l.governed_by;
      },
    )
    ∷ control_loads loads
