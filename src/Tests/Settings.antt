-- ===== src/Tests/Settings.antt =====
-- A configuration with one UPS and one NUT server.
use nut_dog.Prelude.{
  ◌≡◌, ◌≢◌, refl, ◌↔◌, inl, inr, false, none, some, [], ◌∷◌, All, lookup, ◌==◌, codes, pos,
}
use nut_dog.Control.{LoadConfig, nut_server}
use nut_dog.Config.{
  Config, LoadSpec, UpsSpec, ups_shed_runtime, power_api_unknown_load, validate, with_defaults,
  load, control_ups, control_loads, type_nut_server,
}
use nut_dog.Config.Accepted.{IsValid, validate_exact}
use nut_dog.Config.Derived.{load_governed}
use nut_dog.Tests.{ups_a, p1}

abbrev pub ups_spec : UpsSpec
ups_spec = record {
  host = codes "localhost:3493";
  ups_name = ups_a;
  tls = false;
  insecure = false;
  username_env = [];
  password_env = [];
  shed_runtime = pos 300000000000;
  shed_charge_pct = pos 20;
  recover_charge_pct = pos 80;
  driver = none;
}

abbrev server_spec : LoadSpec
server_spec = record {
  type = type_nut_server;
  governed_by = ups_a ∷ [];
  cmc = none;
  wake = some (record { mac = codes "00:11:22:33:44:55"; broadcast = codes "10.0.0.255:9" });
  probe = some (record { host = codes "p1:22" });
  secondary = some (record { user = codes "p1"; password_env = codes "P1_PASSWORD" });
}

abbrev pub settings : Config
settings = record {
  poll_interval = pos 5000000000;
  startup_grace = none;
  dry_run = false;
  verbose = false;
  metrics_listen = [];
  power_api = some (record {
    listen = codes ":8080";
    token_env = codes "TOKEN";
    loads = p1 ∷ [];
    request_ttl = none;
  });
  local_upsd = record {
    listen = codes ":3493";
    admin_user = codes "admin";
    admin_password_env = codes "ADMIN_PASSWORD";
  };
  upses = (ups_a, ups_spec) ∷ [];
  loads = (p1, server_spec) ∷ [];
}

loads_settings :
    (load settings ≡ inr (with_defaults settings))
    × (load (record settings { loads = [] }) ≡ inl (power_api_unknown_load p1))
    × (load (record settings { upses = (ups_a, record ups_spec { shed_runtime = pos 0 }) ∷ [] })
        ≡ inl (ups_shed_runtime ups_a))
unfolding load lookup ◌==◌
loads_settings = (refl, refl, refl)

validate_exact_example :
    (validate (with_defaults settings) ≡ none) ↔ IsValid (with_defaults settings)
validate_exact_example = validate_exact (with_defaults settings)

abbrev pub server_config : LoadConfig
server_config = record { type = nut_server; governed_by = ups_a ∷ [] }

load_governed_example :
    (server_config.governed_by ≢ [])
    × All
        (λ u. lookup u (control_ups (with_defaults settings).upses) ≢ none)
        server_config.governed_by
unfolding load lookup ◌==◌ control_loads
load_governed_example = load_governed settings (with_defaults settings) p1 server_config refl refl
