-- ===== src/Config/Accepted.antt =====
-- Which configurations are accepted.
use nut_dog.Prelude.{
  ◌≡◌, ◌≢◌, refl, ◌↔◌, ◌⊎◌, true, Option, none, some, List, [], ◌∷◌, arith, All, Any, Text, eq_iff,
  Dict, lookup, pos, ◌≤ℤ◌,
}
use nut_dog.Config.{
  PowerApiSpec, UpsSpec, LoadSpec, Config, type_chassis, type_nut_server, check_listed,
  check_power_api, check_ups, check_upses, check_type, check_governed, check_load, check_loads,
  any_nut_server, has_local_driver, check_upsd, validate,
}

-- A value that is there and has the property.
abbrev pub There {ℓ} : {A : Type ℓ} → (A → Type 0) → Option A → Type 0
There P none = ⊥
There P (some a) = P a

-- The property, of a value that may be missing.
abbrev pub IfThere {ℓ} : {A : Type ℓ} → (A → Type 0) → Option A → Type 0
IfThere P none = Unit
IfThere P (some a) = P a

abbrev pub IsValidPowerApi : Dict LoadSpec → PowerApiSpec → Type 0
IsValidPowerApi loads p =
    (p.listen ≢ [])
    × (p.token_env ≢ [])
    × There (λ d. pos 0 ≤ℤ d) p.request_ttl
    × All (λ l. lookup l loads ≢ none) p.loads

abbrev pub IsValidUps : UpsSpec → Type 0
IsValidUps u =
    (u.host ≢ [])
    × (u.ups_name ≢ [])
    × (pos 1 ≤ℤ u.shed_runtime)
    × IfThere (λ d. (d.type ≢ []) × (d.port ≢ [])) u.driver

abbrev pub IsValidServer : LoadSpec → Type 0
IsValidServer l =
    There (λ w. (w.mac ≢ []) × (w.broadcast ≢ [])) l.wake
    × There (λ p. p.host ≢ []) l.probe
    × There (λ s. (s.user ≢ []) × (s.password_env ≢ [])) l.secondary

abbrev pub IsValidLoad : Dict UpsSpec → LoadSpec → Type 0
IsValidLoad upses l =
    (((l.type ≡ type_chassis) × There (λ c. c.host ≢ []) l.cmc)
      ⊎ ((l.type ≡ type_nut_server) × IsValidServer l))
    × (l.governed_by ≢ [])
    × All (λ u. lookup u upses ≢ none) l.governed_by

listed_iff :
    (loads : Dict LoadSpec) (ls : List Text)
    → (check_listed loads ls ≡ none) ↔ All (λ l. lookup l loads ≢ none) ls
unfolding check_listed
listed_iff loads [] = (λ h. tt, λ h. refl)
listed_iff loads (l ∷ ls) = ground (arith, listed_iff loads ls)

governed_iff :
    (upses : Dict UpsSpec) (name : Text) (us : List Text)
    → (check_governed upses name us ≡ none) ↔ All (λ u. lookup u upses ≢ none) us
unfolding check_governed
governed_iff upses name [] = (λ h. tt, λ h. refl)
governed_iff upses name (u ∷ us) = ground (arith, governed_iff upses name us)

power_api_iff :
    (loads : Dict LoadSpec) (p : Option PowerApiSpec)
    → (check_power_api loads p ≡ none) ↔ IfThere (IsValidPowerApi loads) p
unfolding check_power_api
power_api_iff loads none = (λ h. tt, λ h. refl)
power_api_iff loads (some p) =
    (λ h. ground (arith, listed_iff loads p.loads), λ h. ground (arith, listed_iff loads p.loads))

ups_iff : (name : Text) (u : UpsSpec) → (check_ups name u ≡ none) ↔ IsValidUps u
unfolding check_ups
ups_iff name u = (λ h. ground arith, λ h. ground arith)

type_iff :
    (name : Text) (l : LoadSpec)
    → (check_type name l ≡ none) ↔ (
        ((l.type ≡ type_chassis) × There (λ c. c.host ≢ []) l.cmc)
        ⊎ ((l.type ≡ type_nut_server) × IsValidServer l))
unfolding check_type
type_iff name l = (
  λ h. ground (arith, eq_iff l.type type_chassis, eq_iff l.type type_nut_server),
  λ h. ground (arith, eq_iff l.type type_chassis, eq_iff l.type type_nut_server),
)

load_iff :
    (upses : Dict UpsSpec) (name : Text) (l : LoadSpec)
    → (check_load upses name l ≡ none) ↔ IsValidLoad upses l
unfolding check_load
load_iff upses name l = (
  λ h. ground (arith, type_iff name l, governed_iff upses name l.governed_by),
  λ h. ground (arith, type_iff name l, governed_iff upses name l.governed_by),
)

upses_iff : (upses : Dict UpsSpec) → (check_upses upses ≡ none) ↔ All (λ e. IsValidUps e.1) upses
unfolding check_upses
upses_iff [] = (λ h. tt, λ h. refl)
upses_iff ((name, u) ∷ upses) = (
  λ h. ground (arith, ups_iff name u, upses_iff upses),
  λ h. ground (arith, ups_iff name u, upses_iff upses),
)

loads_iff :
    (upses : Dict UpsSpec) (loads : Dict LoadSpec)
    → (check_loads upses loads ≡ none) ↔ All (λ e. IsValidLoad upses e.1) loads
unfolding check_loads
loads_iff upses [] = (λ h. tt, λ h. refl)
loads_iff upses ((name, l) ∷ loads) = (
  λ h. ground (arith, load_iff upses name l, loads_iff upses loads),
  λ h. ground (arith, load_iff upses name l, loads_iff upses loads),
)

-- A NUT server is configured, and a driver that runs locally.
abbrev pub HasNutServer : Dict LoadSpec → Type 0
HasNutServer loads = Any (λ e. e.1.type ≡ type_nut_server) loads

abbrev pub HasLocalDriver : Dict UpsSpec → Type 0
HasLocalDriver upses = Any (λ e. e.1.driver ≢ none) upses

nut_server_iff : (loads : Dict LoadSpec) → (any_nut_server loads ≡ true) ↔ HasNutServer loads
unfolding any_nut_server
nut_server_iff [] = (λ h. cc, λ h. absurd h)
nut_server_iff ((name, l) ∷ loads) = (
  λ h. ground (arith, eq_iff l.type type_nut_server, nut_server_iff loads),
  λ h. ground (arith, eq_iff l.type type_nut_server, nut_server_iff loads),
)

local_driver_iff : (upses : Dict UpsSpec) → (has_local_driver upses ≡ true) ↔ HasLocalDriver upses
unfolding has_local_driver
local_driver_iff [] = (λ h. cc, λ h. absurd h)
local_driver_iff ((name, u) ∷ upses) =
    (λ h. ground (arith, local_driver_iff upses), λ h. ground (arith, local_driver_iff upses))

abbrev pub IsValidUpsd : Config → Type 0
IsValidUpsd c =
    (c.local_upsd.listen ≢ [] ⊎ (¬ HasNutServer c.loads × ¬ HasLocalDriver c.upses))
    × (¬ HasNutServer c.loads
        ⊎ ((c.local_upsd.admin_user ≢ []) × (c.local_upsd.admin_password_env ≢ [])))

upsd_iff : (c : Config) → (check_upsd c ≡ none) ↔ IsValidUpsd c
unfolding check_upsd
upsd_iff c = (
  λ h. ground (arith, nut_server_iff c.loads, local_driver_iff c.upses),
  λ h. ground (arith, nut_server_iff c.loads, local_driver_iff c.upses),
)

-- What a configuration must be: a positive poll interval, some UPS, a grace that is set and not
-- negative, and the power API, each UPS, each load and the local upsd complete, with the loads of the
-- power API and the UPSes that govern a load configured.
abbrev pub IsValid : Config → Type 0
IsValid c =
    (pos 1 ≤ℤ c.poll_interval)
    × (c.upses ≢ [])
    × There (λ d. pos 0 ≤ℤ d) c.startup_grace
    × IfThere (IsValidPowerApi c.loads) c.power_api
    × All (λ e. IsValidUps e.1) c.upses
    × All (λ e. IsValidLoad c.upses e.1) c.loads
    × IsValidUpsd c

-- `validate` returns no error exactly for a valid configuration.
pub validate_exact : (c : Config) → (validate c ≡ none) ↔ IsValid c
unfolding validate
validate_exact c = (
  λ h. ground (
    arith,
    power_api_iff c.loads c.power_api,
    upses_iff c.upses,
    loads_iff c.upses c.loads,
    upsd_iff c,
  ),
  λ h. ground (
    arith,
    power_api_iff c.loads c.power_api,
    upses_iff c.upses,
    loads_iff c.upses c.loads,
    upsd_iff c,
  ),
)
