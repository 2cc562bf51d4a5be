-- ===== src/Config/Derived.antt =====
-- What the control core is given of an accepted configuration.
use nut_dog.Prelude.{
  ◌≡◌, ◌≢◌, refl, subst, ◌⊎◌, inl, inr, Bool-cases, Option, none, some, List, [], ◌∷◌, arith, All,
  All-map_of, Text, ◌==◌, Dict, lookup,
}
use nut_dog.Control.{LoadConfig}
use nut_dog.Config.{
  UpsSpec, LoadSpec, Config, ConfigError, nil_duration, validate, with_defaults, with_ttl, load,
  control_ups, control_loads, PowerApiSpec, check_power_api, check_upses, check_loads, check_upsd,
  check_listed, check_governed,
}
use nut_dog.Config.Accepted.{IsValid, IsValidLoad, validate_exact}

pub lookup-control_ups :
    (u : Text) (upses : Dict UpsSpec) → lookup u upses ≢ none → lookup u (control_ups upses) ≢ none
unfolding lookup control_ups
lookup-control_ups u [] h = λ e. h refl
lookup-control_ups u ((name, spec) ∷ upses) h = λ e. ground (arith, lookup-control_ups u upses)

-- A load that the core is given comes from a configured one, with its UPSes.
control_loads-All :
    (P : List Text → Type 0) (l : Text) (loads : Dict LoadSpec) (lc : LoadConfig)
    → lookup l (control_loads loads) ≡ some lc
    → All (λ e. P e.1.governed_by) loads
    → P lc.governed_by
unfolding lookup control_loads
control_loads-All P l [] lc e h = absurd (ground arith)
control_loads-All P l ((name, spec) ∷ loads) lc e h = elim (Bool-cases (name == l)) [
  | inl t ↦ subst P (ground arith) h.0
  | inr f ↦ control_loads-All P l loads lc (ground arith) h.1
]

accepted_inv :
    (o : Option ConfigError) (d c' : Config)
    → elim o as (λ x. ConfigError ⊎ Config) [ none ↦ inr d | some e ↦ inl e ] ≡ inr c'
    → (c' ≡ d) × (o ≡ none)
accepted_inv none d c' e = (ground arith, refl)
accepted_inv (some x) d c' e = absurd (ground arith)

pub load_inv : (c c' : Config) → load c ≡ inr c' → (c' ≡ with_defaults c) × (validate c' ≡ none)
unfolding load
load_inv c c' e =
    let (same, accepted) = accepted_inv (validate (with_defaults c)) (with_defaults c) c' e in
    (same, rw same accepted)

-- What is refused is not valid.
pub load_refused : (c : Config) (e : ConfigError) → load c ≡ inl e → ¬ IsValid (with_defaults c)
unfolding load
load_refused c e refused valid =
    let accepted = (validate_exact (with_defaults c)).1 valid in ground (arith, accepted, refused)

-- Every load that the core is given of an accepted configuration has a governing UPS, and each of its
-- governing UPSes is one that the core is given.
pub load_governed :
    (c c' : Config) (l : Text) (lc : LoadConfig)
    → load c ≡ inr c'
    → lookup l (control_loads c'.loads) ≡ some lc
    → (lc.governed_by ≢ []) × All (λ u. lookup u (control_ups c'.upses) ≢ none) lc.governed_by
load_governed c c' l lc e found =
    let valid = (validate_exact c').0 (load_inv c c' e).1 in
    let (some_ups, known) =
      control_loads-All (λ us. (us ≢ []) × All (λ u. lookup u c'.upses ≢ none) us) l c'.loads lc
        found
        (All-map_of {P = λ (x : Text × LoadSpec). IsValidLoad c'.upses x.1}
          {Q = λ (x : Text × LoadSpec).
            (x.1.governed_by ≢ []) × All (λ u. lookup u c'.upses ≢ none) x.1.governed_by}
          (λ x h. (h.1, h.2)) c'.loads valid.5) in
    (some_ups, All-map_of (λ u h. lookup-control_ups u c'.upses h) lc.governed_by known)

listed_no_nil : (loads : Dict LoadSpec) (ls : List Text) → check_listed loads ls ≢ some nil_duration
unfolding check_listed
listed_no_nil loads [] e = ground arith
listed_no_nil loads (l ∷ ls) e = ground (arith, listed_no_nil loads ls)

power_api_no_nil :
    (loads : Dict LoadSpec) (p : Option PowerApiSpec)
    → check_power_api loads (with_ttl p) ≢ some nil_duration
unfolding check_power_api
power_api_no_nil loads none e = ground arith
power_api_no_nil loads (some p) e = ground (arith, listed_no_nil loads p.loads)

upses_no_nil : (upses : Dict UpsSpec) → check_upses upses ≢ some nil_duration
unfolding check_upses
upses_no_nil [] e = ground arith
upses_no_nil ((name, u) ∷ upses) e = ground (arith, upses_no_nil upses)

governed_no_nil :
    (upses : Dict UpsSpec) (name : Text) (us : List Text)
    → check_governed upses name us ≢ some nil_duration
unfolding check_governed
governed_no_nil upses name [] e = ground arith
governed_no_nil upses name (u ∷ us) e = ground (arith, governed_no_nil upses name us)

loads_no_nil :
    (upses : Dict UpsSpec) (loads : Dict LoadSpec) → check_loads upses loads ≢ some nil_duration
unfolding check_loads
loads_no_nil upses [] e = ground arith
loads_no_nil upses ((name, l) ∷ loads) e =
    ground (arith, governed_no_nil upses name l.governed_by, loads_no_nil upses loads)

validate_no_nil : (c : Config) → validate (with_defaults c) ≢ some nil_duration
unfolding validate with_defaults check_upsd
validate_no_nil c e = ground (
  arith,
  power_api_no_nil c.loads c.power_api,
  upses_no_nil c.upses,
  loads_no_nil c.upses c.loads,
)

-- After the defaults no duration is nil where it is read: loading a configuration never panics.
pub load_total : (c : Config) → load c ≢ inl nil_duration
unfolding load
load_total c h = ground (arith, validate_no_nil c)
