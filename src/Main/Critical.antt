-- ===== src/Main/Critical.antt =====
-- From what a UPS reports, over any history of the program, to the actions of a tick.
use mathlib.Core.Path.{ap₂}
use nut_dog.Prelude.{
  ◌≡◌, ◌≢◌, refl, sym, ap, subst, ◌∙◌, inl, inr, true, false, Option, Option-cases, none, some,
  List, [], ◌∷◌, arith, Any, In, Text, codes, eq_iff, Dict, lookup, lookup_or, has, has-keys,
  has-sort_strings, UniqueKeys,
}
use nut_dog.Control.{
  Telemetry, no_telemetry, UpsConfig, LoadConfig, classify, source_shed, source_unknown,
}
use nut_dog.Control.Decision.{state_of, observed}
use nut_dog.Control.Decision.Safety.{IsShedBy}
use nut_dog.App.{Ports, Controller, read_all, plan}
use nut_dog.App.Ticks.{plan_sheds}
use nut_dog.App.Polled.{tel-Holds, tel-there}
use nut_dog.Nut.{telemetry_from_vars}
use nut_dog.Nut.Flags.{parse_status_exact}
use nut_dog.GoStrings.{fields}
use nut_dog.Nut.Client.{Session, ok, fetch}
use nut_dog.Effects.Chassis.{Runner}
use nut_dog.Effects.Ssh.{Ssh}
use nut_dog.Config.{Config, UpsSpec, LoadSpec, control_ups, control_loads}
use nut_dog.Config.Derived.{lookup-control_ups}
use nut_dog.Main.{Outside, Machine, Wiring, UpsPoll, new_poller, poll}
use nut_dog.Main.Start.{Running, Event, ports_of, start, loop}
use nut_dog.Main.Running.{IsConfigured, start_inv, loop_keeps}
use nut_dog.Main.Polling.{polled_ok}

-- The status has the words for a UPS on battery, and for a battery that is low.
abbrev pub IsCritical : Dict Text → Type 0
IsCritical vars =
    (st : Text) × (lookup (codes "ups.status") vars ≡ some st)
    × In (codes "OB") (fields st)
    × In (codes "LB") (fields st)

has-In : (k : Text) (xs : List Text) → In k xs → has k xs ≡ true
unfolding has
has-In k [] h = absurd h
has-In k (x ∷ xs) (inl e) = ground (arith, eq_iff x k)
has-In k (x ∷ xs) (inr m) = ground (arith, has-In k xs m)

critical_shed :
    (cfg : UpsConfig) (vars : Dict Text)
    → IsCritical vars
    → classify cfg (telemetry_from_vars vars) ≡ source_shed
unfolding classify telemetry_from_vars
critical_shed cfg vars (st, found, battery, low) =
    let says = parse_status_exact st in
    rw
      (
        classify,
        telemetry_from_vars,
        found,
        says,
        has-In (codes "OB") (fields st) battery,
        has-In (codes "LB") (fields st) low,
      )
      refl

pub state_found :
    (cfgs : Dict UpsConfig) (tel : Dict Telemetry) (u : Text) (cfg : UpsConfig) (t : Telemetry)
    → lookup u cfgs ≡ some cfg
    → lookup u tel ≡ some t
    → state_of cfgs tel u ≡ classify cfg t
unfolding lookup_or
state_found cfgs tel u cfg t e f =
    ap₂
      (λ x y. elim x [
        | none ↦ source_unknown
        | some a ↦ classify a (elim y [ none ↦ no_telemetry | some v ↦ v ])
      ])
      e f

-- Where and as whom a UPS is polled.
abbrev pub poll_of : (Text → Text) → UpsSpec → UpsPoll
poll_of getenv u = record {
  addr = u.host;
  ups = u.ups_name;
  opts = record {
    tls = u.tls;
    insecure_skip_verify = u.insecure;
    username = getenv u.username_env;
    password = getenv u.password_env;
    login = false;
  };
}

pub lookup-new_poller :
    (getenv : Text → Text) (u : Text) (upses : Dict UpsSpec)
    → lookup u (new_poller getenv upses)
      ≡ elim (lookup u upses) [ none ↦ none | some spec ↦ some (poll_of getenv spec) ]
unfolding lookup new_poller
lookup-new_poller getenv u [] = refl
lookup-new_poller getenv u ((name, spec) ∷ upses) = ground (arith, lookup-new_poller getenv u upses)

lookup-control_loads :
    (l : Text) (loads : Dict LoadSpec)
    → lookup l loads ≡ none
    → lookup l (control_loads loads) ≡ none
unfolding lookup control_loads
lookup-control_loads l [] h = refl
lookup-control_loads l ((name, spec) ∷ loads) h = ground (arith, lookup-control_loads l loads)

pub control_loads-UniqueKeys :
    (loads : Dict LoadSpec) → UniqueKeys loads → UniqueKeys (control_loads loads)
unfolding control_loads
control_loads-UniqueKeys [] h = tt
control_loads-UniqueKeys ((name, spec) ∷ loads) h =
    (lookup-control_loads name loads h.0, control_loads-UniqueKeys loads h.1)

module _ {S E F : Type 0} (o : Outside S E F) (c : Config) where
  -- The UPS answers every poll with these variables.
  abbrev pub Reports : UpsSpec → Dict Text → Type 0
  Reports u vars =
      (s : Session S) → (fetch o.peer u.host u.ups_name (poll_of o.getenv u).opts s).0 ≡ ok vars

  poll_told :
      (name : Text) (u : UpsSpec) (vars : Dict Text) (m : Machine S F)
      → lookup name c.upses ≡ some u
      → Reports u vars
      → (poll o (new_poller o.getenv c.upses) name m).0 ≡ telemetry_from_vars vars
  unfolding poll
  poll_told name u vars m found reports =
      let spec : lookup name (new_poller o.getenv c.upses) ≡ some (poll_of o.getenv u) =
        lookup-new_poller o.getenv name c.upses ∙ rw found refl in
      rw (poll, spec)
        (polled_ok o name vars (fetch o.peer u.host u.ups_name (poll_of o.getenv u).opts m.net) m
          (reports m.net))

  module _ (runner : Option (Runner E S)) (wired : Wiring S) (ctrl : Controller)
      (configured : IsConfigured c ctrl) (m : Machine S F) where
    abbrev ports : Ports (Machine S F)
    ports = ports_of o c runner wired

    is_polled :
        (name : Text) (u : UpsSpec) → lookup name c.upses ≡ some u → has name ctrl.ups_names ≡ true
    is_polled name u found =
        let given : lookup name (control_ups c.upses) ≢ none =
          lookup-control_ups name c.upses (λ k. ground (arith, found, k)) in
        rw (configured.2, has-sort_strings, has-keys)
          (elim (Option-cases (lookup name (control_ups c.upses))) [
            | inl e ↦ absurd (given e)
            | inr (cfg, e) ↦ rw e refl
          ])

    reported :
        (name : Text) (u : UpsSpec) (vars : Dict Text)
        → lookup name c.upses ≡ some u
        → Reports u vars
        → lookup name (read_all ports ctrl m).0.tel ≡ some (telemetry_from_vars vars)
    unfolding ports_of
    reported name u vars found reports =
        elim (Option-cases (lookup name (read_all ports ctrl m).0.tel)) [
          | inl e ↦ absurd (tel-there ports ctrl m name (is_polled name u found) e)
          | inr (t, e) ↦
              e
              ∙ ap (λ x. some x)
                  (tel-Holds ports (λ v t. v ≡ name → t ≡ telemetry_from_vars vars)
                    (λ v w same. rw same (poll_told name u vars w found reports)) ctrl m name t e
                    refl)
        ]

    is_critical :
        (name : Text) (u : UpsSpec) (vars : Dict Text)
        → lookup name c.upses ≡ some u
        → Reports u vars
        → IsCritical vars
        → state_of ctrl.ups_configs (read_all ports ctrl m).0.tel name ≡ source_shed
    is_critical name u vars found reports critical =
        let given : lookup name ctrl.ups_configs ≢ none =
          rw configured.0 (lookup-control_ups name c.upses (λ k. ground (arith, found, k))) in
        elim (Option-cases (lookup name ctrl.ups_configs)) [
          | inl e ↦ absurd (given e)
          | inr (cfg, e) ↦
              state_found ctrl.ups_configs (read_all ports ctrl m).0.tel name cfg
                (telemetry_from_vars vars) e (reported name u vars found reports)
              ∙ critical_shed cfg vars critical
        ]

Any-at : (P : Text → Type 0) (u : Text) (us : List Text) → P u → In u us → Any P us
Any-at P u [] h m = absurd m
Any-at P u (v ∷ us) h (inl e) = inl (subst P (sym e) h)
Any-at P u (v ∷ us) h (inr m) = inr (Any-at P u us h m)

-- From a start with a configuration on, and after any ticks and requests to the power API: if a UPS answers every poll
-- with variables whose ups.status has the words OB and LB, then in the next tick, whatever the other UPSes report and
-- whatever is requested, of the loads that it governs each chassis is down, its power state could not be read, or the
-- action that shuts it down is applied; and of each NUT server the shed signal is asserted, or the action that asserts
-- it is applied.
pub critical_sheds :
    {S E F K P : Type 0} (o : Outside S E F) (ssh : Ssh E K P S) (decode : Text → Option Text)
    (c : Config) (before : Machine S F) (events : List Event) (r : Running o) (name : Text)
    (u : UpsSpec) (vars : Dict Text) (l : Text) (lc : LoadConfig)
    → UniqueKeys c.loads
    → start o ssh c before ≡ inr r
    → lookup name c.upses ≡ some u
    → Reports o c u vars
    → IsCritical vars
    → lookup l (control_loads c.loads) ≡ some lc
    → In name lc.governed_by
    → let (ctrl, m) = loop decode r.0 events (r.1, r.2) in
      IsShedBy lc.type l (observed (read_all r.0 ctrl m).0 l) (plan r.0 ctrl m).1
critical_sheds {S} {E} {F} o ssh decode c before events r name u vars l lc unique started found
      reports critical governed at =
    let (runner, wired, ports, wires, ready, configured, api) =
      start_inv o c ssh before r started in
    let (ctrl, m) = loop decode r.0 events (r.1, r.2) in
    let keeps = loop_keeps decode r.0 events (r.1, r.2) in
    let conf : IsConfigured c ctrl =
      (keeps.0 ∙ configured.0, keeps.1 ∙ configured.1, keeps.2 ∙ configured.2) in
    let shed =
      plan_sheds (ports_of o c runner wired) ctrl m l lc
        (subst UniqueKeys (sym conf.1) (control_loads-UniqueKeys c.loads unique))
        (ap (lookup l) conf.1 ∙ governed)
        (inl (
          Any-at _ name lc.governed_by
            (is_critical o c runner wired ctrl conf m name u vars found reports critical) at)) in
    subst
      (λ (p : Ports (Machine S F)).
        IsShedBy lc.type l (observed (read_all p ctrl m).0 l) (plan p ctrl m).1)
      (sym ports) shed
