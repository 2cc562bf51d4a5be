-- ===== src/Config/Types.antt =====
-- The data of internal/config/config.go, and the errors of its checks.
use nut_dog.Prelude.{Bool, Option, List, Text, codes, Dict, ℤ}
use nut_dog.Clock.{Duration}

pub record PowerApiSpec : Type 0 where
  pub listen : Text
  pub token_env : Text
  pub loads : List Text
  pub request_ttl : Option Duration

pub record LocalUpsdSpec : Type 0 where
  pub listen : Text
  pub admin_user : Text
  pub admin_password_env : Text

pub record DriverSpec : Type 0 where
  pub type : Text
  pub port : Text
  pub options : Dict Text
  pub secret_options : Dict Text

pub record UpsSpec : Type 0 where
  pub host : Text
  pub ups_name : Text
  pub tls : Bool
  pub insecure : Bool
  pub username_env : Text
  pub password_env : Text
  pub shed_runtime : Duration
  pub shed_charge_pct : ℤ
  pub recover_charge_pct : ℤ
  pub driver : Option DriverSpec

pub record CmcSpec : Type 0 where
  pub host : Text
  pub ssh_user : Text
  pub host_key : Text

pub record WakeSpec : Type 0 where
  pub mac : Text
  pub broadcast : Text

pub record ProbeSpec : Type 0 where
  pub host : Text

pub record SecondarySpec : Type 0 where
  pub user : Text
  pub password_env : Text

pub record LoadSpec : Type 0 where
  pub type : Text
  pub governed_by : List Text
  pub cmc : Option CmcSpec
  pub wake : Option WakeSpec
  pub probe : Option ProbeSpec
  pub secondary : Option SecondarySpec

pub record Config : Type 0 where
  pub poll_interval : Duration
  pub startup_grace : Option Duration
  pub dry_run : Bool
  pub verbose : Bool
  pub metrics_listen : Text
  pub power_api : Option PowerApiSpec
  pub local_upsd : LocalUpsdSpec
  pub upses : Dict UpsSpec
  pub loads : Dict LoadSpec

-- TypeChassis and TypeNutServer
abbrev pub type_chassis : Text
type_chassis = codes "chassis"

abbrev pub type_nut_server : Text
type_nut_server = codes "nut-server"

-- The errors of `validate`, in its order, and the panic on a duration that is nil.
pub data ConfigError : Type 0 where
  poll_interval_not_positive no_upses startup_grace_negative : ConfigError
  power_api_incomplete request_ttl_negative : ConfigError
  power_api_unknown_load : Text → ConfigError
  ups_incomplete ups_shed_runtime ups_driver_incomplete : Text → ConfigError
  chassis_needs_cmc needs_wake needs_probe needs_secondary unknown_type not_governed :
      Text → ConfigError
  governed_by_unknown : Text → Text → ConfigError
  upsd_needs_listen upsd_needs_admin nil_duration : ConfigError
