-- ===== src/Nutconf.antt =====
-- internal/nutconf/nutconf.go: the configuration files of the NUT server, rendered from the
-- configuration. The environment is a function. `WriteFiles` is in Nutconf/Writing.
pub mod Secrets
pub mod Panics
pub mod Servers
pub mod Users
pub mod Sections
pub mod Writing
use nut_dog.Prelude.{
  Bool, true, false, ◌||◌, Option, none, some, ◌⊎◌, inl, inr, List, [], ◌∷◌, ◌++◌, Text, codes,
  ◌==◌, Dict, lookup, lookup_or, keys, insert, sort_strings, ℕ, if◌then◌else◌,
}
use nut_dog.GoNet.{holds, split_host_port}
use nut_dog.Config.{
  Config, LoadSpec, UpsSpec, DriverSpec, SecondarySpec, type_nut_server, shed_ups_name, empty,
}

-- shedDev
abbrev pub shed_dev : Text
shed_dev =
    codes
      "ups.status: OL\nups.mfr: nut-dog\nups.model: shed-signal\nbattery.charge: 100\nbattery.runtime: 9999\n"

-- The errors of `resolveSecret`, with the name of the variable, and those of `Render`; `nil_secondary` is
-- the panic on a NUT server without a secondary.
pub data SecretError : Type 0 where
  secret_empty secret_newline : Text → SecretError

pub data RenderError : Type 0 where
  ups_option : Text → Text → SecretError → RenderError
  listen_invalid : Text → RenderError
  admin_secret : SecretError → RenderError
  secondary_secret : Text → SecretError → RenderError
  nil_secondary : Text → RenderError

-- What is written, and then the rest, up to the first error.
abbrev pub joined : {E : Type 0} → E ⊎ Text → E ⊎ Text → E ⊎ Text
joined (inl e) rest = inl e
joined (inr t) (inl e) = inl e
joined (inr t) (inr u) = inr (t ++ u)

-- what is written with a secret, or the error with its cause
abbrev pub with_secret :
    {E : Type 0} → SecretError ⊎ Text → (SecretError → E) → (Text → Text) → E ⊎ Text
with_secret (inl e) wrap write = inl (wrap e)
with_secret (inr v) wrap write = inr (write v)

-- nutServers, before the names are sorted
unfoldable pub server_names : Dict LoadSpec → List Text
server_names [] = []
server_names ((name, l) ∷ loads) =
    let rest = server_names loads in if l.type == type_nut_server then name ∷ rest else rest

-- nutServers
unfoldable pub nut_servers : Dict LoadSpec → List Text
unfolding server_names
nut_servers loads = sort_strings (server_names loads)

-- sortedKeys
unfoldable pub sorted_keys {ℓ} : {V : Type ℓ} → Dict V → List Text
sorted_keys m = sort_strings (keys m)

-- "[%s]\n" and "    %s = %s\n"
abbrev pub header : Text → Text
header name = b'[' ∷ (name ++ codes "]\n")

abbrev pub setting : Text → Text → Text
setting k v = codes "    " ++ (k ++ (codes " = " ++ (v ++ codes "\n")))

-- renderUpsdConf
unfoldable pub render_upsd_conf : Config → RenderError ⊎ Text
unfolding split_host_port
render_upsd_conf c = elim (split_host_port c.local_upsd.listen) [
  | none ↦ inl (listen_invalid c.local_upsd.listen)
  | some (host, port) ↦ inr (codes "LISTEN " ++ (host ++ (b' ' ∷ (port ++ codes "\n"))))
]

-- The loop of `renderUpsConf` over the options of a driver.
unfoldable pub render_options : Dict Text → List Text → Text
unfolding lookup_or
render_options options [] = []
render_options options (k ∷ ks) = setting k (lookup_or [] k options) ++ render_options options ks

-- The section of a driver, up to its secret options.
unfoldable pub driver_block : Text → DriverSpec → Text
unfolding render_options sorted_keys
driver_block ups_name d =
    header ups_name
    ++ (setting (codes "driver") d.type
        ++ (setting (codes "port") d.port ++ render_options d.options (sorted_keys d.options)))

-- The loop of `renderUpsConf` over the NUT servers.
unfoldable pub render_sheds : List Text → Text
unfolding shed_ups_name
render_sheds [] = []
render_sheds (name ∷ names) =
    let shed = shed_ups_name name in
    (b'['
      ∷ (shed ++ (codes "]\n    driver = dummy-ups\n    port = " ++ (shed ++ codes ".dev\n\n"))))
    ++ render_sheds names

-- the accounts of the administrator and of a secondary, with the password
abbrev pub admin_account : Text → Text → Text
admin_account user pw =
    b'['
    ∷ (user
        ++ (codes "]\n    password = "
            ++ (pw ++ codes "\n    actions = SET\n    instcmds = all\n\n")))

abbrev pub secondary_account : Text → Text → Text
secondary_account user pw =
    b'[' ∷ (user ++ (codes "]\n    password = " ++ (pw ++ codes "\n    upsmon secondary\n\n")))

-- the secondary of cfg.Loads[name]
abbrev pub secondary_of : Option LoadSpec → Option SecondarySpec
secondary_of none = none
secondary_of (some l) = l.secondary

-- the driver of cfg.UPSes[name]
abbrev pub driver_of : Option UpsSpec → Option (Text × DriverSpec)
driver_of none = none
driver_of (some u) = elim u.driver [ none ↦ none | some d ↦ some (u.ups_name, d) ]

module _ (getenv : Text → Text) where
  -- resolveSecret
  unfoldable pub resolve_secret : Text → SecretError ⊎ Text
  unfolding holds
  resolve_secret env =
      if empty (getenv env)
      then inl (secret_empty env)
      else if holds 13 (getenv env) || holds 10 (getenv env)
      then inl (secret_newline env)
      else inr (getenv env)

  -- The loop of `renderUpsConf` over the secret options of the driver of a UPS.
  unfoldable pub render_secrets : Text → Dict Text → List Text → RenderError ⊎ Text
  unfolding resolve_secret lookup_or
  render_secrets name options [] = inr []
  render_secrets name options (k ∷ ks) =
      joined (with_secret (resolve_secret (lookup_or [] k options)) (ups_option name k) (setting k))
        (render_secrets name options ks)

  -- The round of the first loop of `renderUpsConf` for the UPS `name`.
  unfoldable pub render_driver : Text → Option (Text × DriverSpec) → RenderError ⊎ Text
  unfolding driver_block render_secrets sorted_keys
  render_driver name none = inr []
  render_driver name (some (ups_name, d)) =
      joined (inr (driver_block ups_name d)) (
        joined (render_secrets name d.secret_options (sorted_keys d.secret_options))
          (inr (10 ∷ [])))

  -- The first loop of `renderUpsConf`.
  unfoldable pub render_drivers : Dict UpsSpec → List Text → RenderError ⊎ Text
  unfolding render_driver
  render_drivers upses [] = inr []
  render_drivers upses (name ∷ names) =
      joined (render_driver name (driver_of (lookup name upses))) (render_drivers upses names)

  -- renderUpsConf
  unfoldable pub render_ups_conf : Config → RenderError ⊎ Text
  unfolding render_drivers render_sheds nut_servers
  render_ups_conf c =
      joined (render_drivers c.upses (sorted_keys c.upses))
        (inr (render_sheds (nut_servers c.loads)))

  -- the account of the administrator
  unfoldable pub render_admin : Config → RenderError ⊎ Text
  unfolding resolve_secret
  render_admin c =
      if empty c.local_upsd.admin_user
      then inr []
      else with_secret (resolve_secret c.local_upsd.admin_password_env) admin_secret
          (admin_account c.local_upsd.admin_user)

  -- The round of the loop of `renderUpsdUsers` for the load `name`.
  unfoldable pub render_secondary : Text → Option SecondarySpec → RenderError ⊎ Text
  unfolding resolve_secret
  render_secondary name none = inl (nil_secondary name)
  render_secondary name (some sec) =
      with_secret (resolve_secret sec.password_env) (secondary_secret name)
        (secondary_account sec.user)

  -- The loop of `renderUpsdUsers`.
  unfoldable pub render_secondaries : Dict LoadSpec → List Text → RenderError ⊎ Text
  unfolding render_secondary
  render_secondaries loads [] = inr []
  render_secondaries loads (name ∷ names) =
      joined (render_secondary name (secondary_of (lookup name loads)))
        (render_secondaries loads names)

  -- renderUpsdUsers
  unfoldable pub render_upsd_users : Config → RenderError ⊎ Text
  unfolding render_admin render_secondaries nut_servers
  render_upsd_users c = joined (render_admin c) (render_secondaries c.loads (nut_servers c.loads))

-- The loop of `Render` over the NUT servers.
unfoldable pub shed_files : List Text → Dict Text → Dict Text
unfolding shed_ups_name
shed_files [] files = files
shed_files (name ∷ names) files =
    shed_files names (insert (shed_ups_name name ++ codes ".dev") shed_dev files)

-- `Render` behind its three calls: their first error, or what is made of the contents
abbrev pub rendered :
    RenderError ⊎ Text
    → RenderError ⊎ Text
    → RenderError ⊎ Text
    → (Text → Text → Text → Dict Text)
    → RenderError ⊎ Dict Text
rendered (inl e) upsd users write = inl e
rendered (inr t) (inl e) users write = inl e
rendered (inr t) (inr u) (inl e) write = inl e
rendered (inr t) (inr u) (inr v) write = inr (write t u v)

-- Render
unfoldable pub render : (Text → Text) → Config → RenderError ⊎ Dict Text
unfolding render_ups_conf render_upsd_conf render_upsd_users shed_files nut_servers
render getenv c =
    rendered (render_ups_conf getenv c) (render_upsd_conf c) (render_upsd_users getenv c)
      (λ ups upsd users. insert (codes "nut.conf") (codes "MODE=netserver\n") (
        shed_files (nut_servers c.loads) (
          insert (codes "upsd.users") users
            (insert (codes "upsd.conf") upsd (insert (codes "ups.conf") ups [])))))

-- The mode of a file in `WriteFiles`: 0o640 or 0o644.
unfoldable pub file_mode : Text → ℕ
file_mode name = if name == codes "ups.conf" || name == codes "upsd.users" then 416 else 420
