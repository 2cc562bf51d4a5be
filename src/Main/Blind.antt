-- ===== src/Main/Blind.antt =====
-- That the program does nothing of its own where no UPS can be read.
use nut_dog.Prelude.{
  ◌≡◌, ◌≢◌, refl, sym, ap, subst, ◌∙◌, inl, inr, false, Option, Option-cases, none, some, List, [],
  ◌∷◌, arith, All, All-map_of, Any, Text, Dict, lookup, lookup_or,
}
use nut_dog.Control.{
  Telemetry, no_telemetry, UpsConfig, LoadConfig, Desired, classify, source_shed, source_unknown,
  source_healthy, desired_off, desired_on, desired_hold, no_request, request_off, Readings,
}
use nut_dog.Control.Actions.{wish}
use nut_dog.Control.Decision.{state_of}
use nut_dog.Control.Decision.Safety.{Because}
use nut_dog.App.{Ports, Controller, read_all, plan}
use nut_dog.App.Ticks.{plan-IsJustified}
use nut_dog.App.Polled.{tel-Holds}
use nut_dog.Nut.Client.{Session, Result, ok, err, fetch}
use nut_dog.Effects.Chassis.{Runner}
use nut_dog.Effects.Ssh.{Ssh}
use nut_dog.Config.{Config, load, control_loads}
use nut_dog.Config.Derived.{load_governed}
use nut_dog.Main.{Outside, Machine, Wiring, UpsPoll, new_poller, poll, polled}
use nut_dog.Main.Start.{Running, Event, ports_of, start, loop}
use nut_dog.Main.Running.{start_inv, loop_keeps}

module _ (cfgs : Dict UpsConfig) (r : Readings) where
  -- A load of which every UPS is unknown is wanted off by a request for it only, and never on.
  only_requested :
      (name : Text) (lc : LoadConfig) (d : Desired)
      → lc.governed_by ≢ []
      → ((u : Text) → state_of cfgs r.tel u ≡ source_unknown)
      → Because cfgs r name lc d
      → (d ≡ desired_off) × (lookup_or no_request name r.ext ≡ request_off)
  only_requested name lc desired_off some_ups dark (inl any) = absurd (no_shed lc.governed_by any)
    where
      no_shed : (us : List Text) → Any (λ u. state_of cfgs r.tel u ≡ source_shed) us → ⊥
      no_shed [] h = h
      no_shed (u ∷ us) (inl e) = ground (arith, dark u, e)
      no_shed (u ∷ us) (inr h) = no_shed us h
  only_requested name lc desired_off some_ups dark (inr asked) = (refl, asked)
  only_requested name lc desired_on some_ups dark (healthy, runs) =
      absurd (no_health lc.governed_by some_ups healthy)
    where
      no_health :
          (us : List Text) → us ≢ [] → All (λ u. state_of cfgs r.tel u ≡ source_healthy) us → ⊥
      no_health [] h k = h refl
      no_health (u ∷ us) h k = ground (arith, dark u, k.0)
  only_requested name lc desired_hold some_ups dark h = absurd h

state_dark :
    (cfgs : Dict UpsConfig) (tel : Dict Telemetry) (u : Text)
    → ((t : Telemetry) → lookup u tel ≡ some t → t.ok ≡ false)
    → state_of cfgs tel u ≡ source_unknown
unfolding lookup_or classify
state_dark cfgs tel u h = go (lookup u cfgs) (lookup u tel) h
  where
    go :
        (x : Option UpsConfig) (y : Option Telemetry)
        → ((t : Telemetry) → y ≡ some t → t.ok ≡ false)
        → (elim x [
          | none ↦ source_unknown
          | some a ↦ classify a (elim y [ none ↦ no_telemetry | some v ↦ v ])
        ])
          ≡ source_unknown
    go none y k = refl
    go (some a) none k = refl
    go (some a) (some t) k = rw (classify, k t refl) refl

module _ {S E F : Type 0} (o : Outside S E F) (c : Config) where
  -- No UPS can be fetched.
  abbrev pub IsBlind : Type 0
  IsBlind =
      (u : Text) (spec : UpsPoll) (s : Session S) (vars : Dict Text)
      → lookup u (new_poller o.getenv c.upses) ≡ some spec
      → (fetch o.peer spec.addr spec.ups spec.opts s).0 ≢ ok vars

  polled_dark :
      (u : Text) (x : Result (Dict Text) × Session S) (m : Machine S F)
      → ((vars : Dict Text) → x.0 ≢ ok vars)
      → (polled o u x m).0.ok ≡ false
  unfolding polled
  polled_dark u (ok vars, net) m h = absurd (h vars refl)
  polled_dark u (err e, net) m h = refl

  poll_dark :
      (u : Text) (m : Machine S F)
      → IsBlind
      → (poll o (new_poller o.getenv c.upses) u m).0.ok ≡ false
  unfolding poll
  poll_dark u m blind = elim (Option-cases (lookup u (new_poller o.getenv c.upses))) [
    | inl e ↦ rw (poll, e) refl
    | inr (spec, e) ↦
        rw (poll, e)
          (polled_dark u (fetch o.peer spec.addr spec.ups spec.opts m.net) m
            (λ vars. blind u spec m.net vars e))
  ]

  module _ (runner : Option (Runner E S)) (wired : Wiring S) (ctrl : Controller)
      (m : Machine S F) where
    abbrev ports : Ports (Machine S F)
    ports = ports_of o c runner wired

    dark :
        IsBlind
        → (u : Text) → state_of ctrl.ups_configs (read_all ports ctrl m).0.tel u ≡ source_unknown
    unfolding ports_of
    dark blind u =
        state_dark ctrl.ups_configs (read_all ports ctrl m).0.tel u
          (tel-Holds ports (λ v t. t.ok ≡ false) (λ v w. poll_dark v w blind) ctrl m u)

-- From a start with an accepted configuration on, and after any ticks and requests to the power API: if no UPS can be
-- fetched, the next tick applies no other action than the sheds that the power API has been asked for.
pub blind_rests :
    {S E F K P : Type 0} (o : Outside S E F) (ssh : Ssh E K P S) (decode : Text → Option Text)
    (c₀ c : Config) (before : Machine S F) (events : List Event) (r : Running o)
    → load c₀ ≡ inr c
    → start o ssh c before ≡ inr r
    → IsBlind o c
    → let (ctrl, m) = loop decode r.0 events (r.1, r.2) in
      All
        (λ a.
          (wish a.kind ≡ desired_off)
          × (lookup_or no_request a.load (read_all r.0 ctrl m).0.ext ≡ request_off))
        (plan r.0 ctrl m).1
blind_rests {S} {E} {F} o ssh decode c₀ c before events r accepted started blind =
    let (runner, wired, ports, wires, ready, configured, api) =
      start_inv o c ssh before r started in
    let (ctrl, m) = loop decode r.0 events (r.1, r.2) in
    let keeps = loop_keeps decode r.0 events (r.1, r.2) in
    let same : ctrl.loads ≡ control_loads c.loads = keeps.1 ∙ configured.1 in
    let p = ports_of o c runner wired in
    let rests : All
        (λ a.
          (wish a.kind ≡ desired_off)
          × (lookup_or no_request a.load (read_all p ctrl m).0.ext ≡ request_off))
        (plan p ctrl m).1 =
      All-map_of
        (λ a (lc, found, why).
          only_requested ctrl.ups_configs (read_all p ctrl m).0 a.load lc (wish a.kind)
            (load_governed c₀ c a.load lc accepted (ap (lookup a.load) (sym same) ∙ found)).0
            (dark o c runner wired ctrl m blind) why)
        _ (plan-IsJustified p ctrl m) in
    subst
      (λ (q : Ports (Machine S F)).
        All
          (λ a.
            (wish a.kind ≡ desired_off)
            × (lookup_or no_request a.load (read_all q ctrl m).0.ext ≡ request_off))
          (plan q ctrl m).1)
      (sym ports) rests
