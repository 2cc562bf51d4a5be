-- ===== src/Main/Running.antt =====
-- The program from its start on: what a start that succeeds has made, and that no tick finds a part missing.
use nut_dog.Prelude.{
  sort_strings, keys, some_inj, ◌≡◌, ◌≢◌, refl, sym, ap, subst, ◌∙◌, ◌⊎◌, inl, inr, Bool, true,
  false, Bool-cases, Option, none, some, List, [], ◌∷◌, arith, All, All-map_of, Text, ◌==◌, eq_iff,
  Dict, lookup, UniqueKeys, if◌then◌else◌,
}
use nut_dog.Control.{LoadType, chassis, nut_server, LoadConfig, ActionKind, Action}
use nut_dog.App.{Ports, Controller, plan, tick, start_clock}
use nut_dog.App
use nut_dog.Effects.{do_action}
use nut_dog.Effects.Chassis.{Runner}
use nut_dog.Effects.Ssh.{Ssh, SshRunner, new_ssh_runner}
use nut_dog.Effects.Ssh
use nut_dog.Powerapi.{Server}
use nut_dog.Config.{
  Config, LoadSpec, load, control_ups, control_loads, type_chassis, type_nut_server,
}
use nut_dog.Main.{Outside, Machine, Wiring, wire_loads, has_chassis, new_poller}
use nut_dog.Main.Preflight.{preflight}
use nut_dog.Main.Start.{
  Exit, Setup, setup_failed, chassis_off, chassis_on, made_runner, executor_of, ports_of,
  controller_of, Running, api_of, begun, start_loop, wired_start, setup_chassis, set_up, start,
  Event, ticked, http_asked, on_event, loop, serve,
}
use nut_dog.Main.Dispatching.{is_miswired, do_action_wired}
use nut_dog.Main.Fitting.{fits, IsFitting, Same, plan-IsFitting, tick_keeps}
use nut_dog.Main.Rounds.{IsKnown, HasWiring}
use nut_dog.Main.Wired.{wire_loads_accepted, IsKnown-accepted}

-- The configured load behind one that the core is given.
control_loads_inv :
    (l : Text) (loads : Dict LoadSpec) (lc : LoadConfig)
    → lookup l (control_loads loads) ≡ some lc
    → (spec : LoadSpec) × (lookup l loads ≡ some spec)
      × (lc.type ≡ (if spec.type == type_nut_server then nut_server else chassis))
unfolding lookup control_loads
control_loads_inv l [] lc e = absurd (ground arith)
control_loads_inv l ((name, spec) ∷ loads) lc e = elim (Bool-cases (name == l)) [
  | inl t ↦ (spec, ground arith, ground arith)
  | inr f ↦
      let (spec', found, same) = control_loads_inv l loads lc (ground arith) in
      (spec', ground arith, same)
]

has_chassis_found :
    (l : Text) (loads : Dict LoadSpec) (spec : LoadSpec)
    → lookup l loads ≡ some spec
    → spec.type ≡ type_chassis
    → has_chassis loads ≡ true
unfolding lookup has_chassis
has_chassis_found l [] spec e t = absurd (ground arith)
has_chassis_found l ((name, s) ∷ loads) spec e t =
    ground (arith, eq_iff s.type type_chassis, has_chassis_found l loads spec)

-- The controller has what the core is given of a configuration, with the names in order.
abbrev pub IsConfigured : Config → Controller → Type 0
IsConfigured c ctrl =
    (ctrl.ups_configs ≡ control_ups c.upses)
    × (ctrl.loads ≡ control_loads c.loads)
    × (ctrl.ups_names ≡ sort_strings (keys (control_ups c.upses)))

inr_inj : {B : Type 0} (a b : B) → ◌≡◌ {A = Exit ⊎ B} (inr a) (inr b) → a ≡ b
inr_inj a b e = ap (λ x. elim x [ inl y ↦ a | inr y ↦ y ]) e

module _ {S E F : Type 0} (o : Outside S E F) (c : Config) where
  -- What a start makes: the ports over a runner and a wiring, with a runner where a chassis has to be acted on,
  -- and the power API, if it is configured.
  abbrev pub HasStarted : Running o → Type 0
  HasStarted started =
      (runner : Option (Runner E S)) × (wired : Wiring S) × (started.0 ≡ ports_of o c runner wired)
      × (wire_loads o runner c.loads ≡ some wired)
      × (c.dry_run ≡ false → has_chassis c.loads ≡ true → runner ≢ none)
      × IsConfigured c started.1
      × (api_of o c.power_api ≡ inr started.2.api)

  controller_of-IsConfigured :
      (ctrl : Controller) → controller_of o c ≡ some ctrl → IsConfigured c ctrl
  unfolding controller_of App.new
  controller_of-IsConfigured ctrl e = ground arith

  begun_inv :
      (runner : Option (Runner E S)) (wired : Wiring S) (ctrl : Controller) (m : Machine S F)
      (x : Exit ⊎ Option Server) (r : Running o)
      → wire_loads o runner c.loads ≡ some wired
      → (c.dry_run ≡ false → has_chassis c.loads ≡ true → runner ≢ none)
      → IsConfigured c ctrl
      → api_of o c.power_api ≡ x
      → begun o c runner wired ctrl m x ≡ inr r
      → HasStarted r
  unfolding start_clock ports_of
  begun_inv runner wired ctrl m (inl e) r h i k made eq = absurd (ground arith)
  begun_inv runner wired ctrl m (inr api) r h i k made eq =
      subst HasStarted (inr_inj _ r eq) (runner, wired, refl, h, i, k, made)

  wired_start_inv :
      (runner : Option (Runner E S)) (x : Option (Wiring S)) (y : Option Controller)
      (m : Machine S F) (r : Running o)
      → wire_loads o runner c.loads ≡ x
      → (c.dry_run ≡ false → has_chassis c.loads ≡ true → runner ≢ none)
      → controller_of o c ≡ y
      → wired_start o c runner x y m ≡ inr r
      → HasStarted r
  unfolding start_loop
  wired_start_inv runner none y m r h i k eq = absurd (ground arith)
  wired_start_inv runner (some wired) none m r h i k eq = absurd (ground arith)
  wired_start_inv runner (some wired) (some ctrl) m r h i k eq =
      begun_inv runner wired ctrl (preflight o c (new_poller o.getenv c.upses) runner wired m).1
        (api_of o c.power_api) r h i (controller_of-IsConfigured ctrl k) refl eq

  module _ {K P : Type 0} (ssh : Ssh E K P S) where
    made_runner_on :
        (dry : Bool) (x : E ⊎ SshRunner K P) → dry ≡ false → made_runner dry x ≢ chassis_off
    made_runner_on dry (inl e) h k = ground arith
    made_runner_on dry (inr r) h k = ground arith

    setup_on : c.dry_run ≡ false → has_chassis c.loads ≡ true → setup_chassis o ssh c ≢ chassis_off
    unfolding setup_chassis
    setup_on wet some_chassis = rw (setup_chassis, some_chassis) (made_runner_on c.dry_run _ wet)

    set_up_inv :
        (x : Setup K P) (m : Machine S F) (r : Running o)
        → (c.dry_run ≡ false → has_chassis c.loads ≡ true → x ≢ chassis_off)
        → set_up o ssh c x m ≡ inr r
        → HasStarted r
    set_up_inv setup_failed m r h eq = absurd (ground arith)
    set_up_inv chassis_off m r h eq =
        wired_start_inv none _ _ m r refl (λ wet found. absurd (h wet found refl)) refl eq
    set_up_inv (chassis_on runner) m r h eq =
        wired_start_inv (some (Ssh.run ssh runner)) _ _ m r refl (λ wet found k. ground arith) refl
          eq

    -- What a start that succeeds has made.
    pub start_inv : (m : Machine S F) (r : Running o) → start o ssh c m ≡ inr r → HasStarted r
    unfolding start
    start_inv m r eq = set_up_inv (setup_chassis o ssh c) _ r setup_on eq

-- The loop keeps the controller's configuration.
pub loop_keeps :
    {S F : Type 0} (decode : Text → Option Text) (p : Ports (Machine S F)) (events : List Event)
    (s : Controller × Machine S F)
    → Same p (loop decode p events s).0 s.0
unfolding loop on_event
loop_keeps decode p [] s = (refl, refl, refl)
loop_keeps decode p (ticked ∷ events) (c, m) =
    let one = tick_keeps p c m in
    let more = loop_keeps decode p events (tick p c m) in
    (more.0 ∙ one.0, more.1 ∙ one.1, more.2 ∙ one.2)
loop_keeps decode p (http_asked t r ∷ events) (c, m) =
    loop_keeps decode p events (c, serve decode p t r m)

fits_type :
    (lt : LoadType) (k : ActionKind)
    → fits lt k ≡ true
    → (fits chassis k ≡ true → lt ≡ chassis) × (fits nut_server k ≡ true → lt ≡ nut_server)
fits_type lt k h = ground arith

-- The type of a load, from the type that the core is given.
chassis_spec :
    (l : LoadSpec)
    → IsKnown l
    → (if l.type == type_nut_server then nut_server else chassis) ≡ chassis
    → l.type ≡ type_chassis
chassis_spec l (inl t) e = t
chassis_spec l (inr t) e = absurd (ground (arith, eq_iff l.type type_nut_server))

server_spec :
    (l : LoadSpec)
    → (if l.type == type_nut_server then nut_server else chassis) ≡ nut_server
    → l.type ≡ type_nut_server
server_spec l e = ground (arith, eq_iff l.type type_nut_server)

module _ {S E F : Type 0} (o : Outside S E F) where
  -- An action that fits a load of an accepted configuration finds its parts.
  fitting_wired :
      (c₀ c : Config) (runner : Option (Runner E S)) (wired : Wiring S) (a : Action)
      (m : Machine S F)
      → load c₀ ≡ inr c
      → UniqueKeys c.loads
      → wire_loads o runner c.loads ≡ some wired
      → (c.dry_run ≡ false → has_chassis c.loads ≡ true → runner ≢ none)
      → IsFitting (control_loads c.loads) a
      → is_miswired (do_action (executor_of o c runner wired) a m).0 ≡ false
  fitting_wired c₀ c runner wired a m accepted unique wires ready (lc, found, fit) =
      let (spec, there, same) = control_loads_inv a.load c.loads lc found in
      let (w, again, has) = wire_loads_accepted o runner c₀ c accepted unique in
      let wiring : HasWiring o runner a.load spec wired =
        subst (HasWiring o runner a.load spec) (some_inj w wired (sym again ∙ wires))
          (has a.load spec there) in
      let (on_chassis, on_server) = fits_type lc.type a.kind fit in
      do_action_wired o c wired runner a m (λ k. ground (arith, wiring.1))
        (λ wet f. ready wet (
          has_chassis_found a.load c.loads spec there (
            chassis_spec spec (IsKnown-accepted c₀ c a.load spec accepted there)
              (sym same ∙ on_chassis f))))
        (λ f k. ground (arith, wiring.2 (server_spec spec (sym same ∙ on_server f))))

-- In an accepted configuration whose program has started, and after any ticks and requests to the power API, no
-- action that a tick applies fails for a part that is missing: each has its target, the chassis, the shedder, the
-- waker and the dummy UPS of its shed signal, whichever of them it needs.
pub never_miswired :
    {S E F K P : Type 0} (o : Outside S E F) (ssh : Ssh E K P S) (decode : Text → Option Text)
    (c₀ c : Config) (before : Machine S F) (events : List Event) (r : Running o)
    → load c₀ ≡ inr c
    → UniqueKeys c.loads
    → start o ssh c before ≡ inr r
    → (runner : Option (Runner E S)) × (wired : Wiring S) × (r.0 ≡ ports_of o c runner wired)
      × (let (ctrl, m) = loop decode r.0 events (r.1, r.2) in
          All
            (λ a.
              (m' : Machine S F)
              → is_miswired (do_action (executor_of o c runner wired) a m').0 ≡ false)
            (plan r.0 ctrl m).1)
never_miswired o ssh decode c₀ c before events r accepted unique started =
    let (runner, wired, ports, wires, ready, configured, api) =
      start_inv o c ssh before r started in
    let (ctrl, m) = loop decode r.0 events (r.1, r.2) in
    let keeps = loop_keeps decode r.0 events (r.1, r.2) in
    (
      runner,
      wired,
      ports,
      All-map_of
          (λ a k m'.
            fitting_wired o c₀ c runner wired a m' accepted unique wires ready
              (subst (λ loads. IsFitting loads a) (keeps.1 ∙ configured.1) k))
          _ (plan-IsFitting r.0 ctrl m),
    )
