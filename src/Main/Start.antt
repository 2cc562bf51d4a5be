-- ===== src/Main/Start.antt =====
-- The start and the loop of cmd/nut-dog/main.go: the objects are made and wired, and then ticks and requests to
-- the power API follow each other.
use nut_dog.Prelude.{
  Bool, Option, none, some, ◌⊎◌, inl, inr, List, [], ◌∷◌, Text, codes, Dict, if◌then◌else◌,
}
use nut_dog.Clock.{Time, Duration}
use nut_dog.Control.{Request, ActualState}
use nut_dog.Nut.Client.{Options, NetError, Result, ok, err, set_var}
use nut_dog.Metrics.{Metrics, set_dry_run}
use nut_dog.Effects.{Effect, ChassisEffect, ShedderEffect, WakerEffect, Executor, apply}
use nut_dog.Effects.Chassis.{Runner, ActError, racadm_chassis}
use nut_dog.Effects.Shedder.{SetError, NutShedder, nut_shedder}
use nut_dog.Effects.Ssh.{Ssh, SshRunner, new_ssh_runner}
use nut_dog.Effects.Ssh
use nut_dog.Effects.Wol.{WolError, wake}
use nut_dog.Powerapi.{Server, publish_actual, desired}
use nut_dog.Powerapi.Routes.{Call, handle}
use nut_dog.Powerapi
use nut_dog.App.{Ports, Controller, start_clock, tick}
use nut_dog.App
use nut_dog.Config.{Config, PowerApiSpec, control_ups, control_loads}
use nut_dog.Main.{
  Outside, Machine, Wiring, new_poller, poll, probe, read_shed, outside, local_upsd_addr,
  wire_loads, has_chassis, cmc_user, cmc_host_key, unescape_newlines,
}
use nut_dog.Main.Preflight.{local_opts, preflight}

-- The errors of the effects.
pub data MainError (E : Type 0) : Type 0 where
  chassis_error : ActError E → MainError E
  shed_error : SetError NetError → MainError E
  wol_error : WolError E → MainError E

-- An effect, with its errors as those of another type.
abbrev pub with_error : {A B W : Type 0} → (A → B) → Option A × W → Option B × W
with_error f (none, w) = (none, w)
with_error f (some e, w) = (some (f e), w)

abbrev pub error_of : {A : Type 0} → Result A → Option NetError
error_of (ok a) = none
error_of (err e) = some e

-- What `main` ends with before the loop: the exits with status 1, and a panic on a part that is nil.
pub data Exit : Type 0 where
  ssh_failed token_empty nil_part : Exit

-- How the runner of the chassis comes out: an exit, none, or a runner.
pub data Setup (K P : Type 0) : Type 0 where
  setup_failed chassis_off : Setup K P
  chassis_on : SshRunner K P → Setup K P

abbrev pub made_runner : {E K P : Type 0} → Bool → E ⊎ SshRunner K P → Setup K P
made_runner dry_run (inl e) = if dry_run then chassis_off else setup_failed
made_runner dry_run (inr r) = chassis_on r

module _ {S E F : Type 0} (o : Outside S E F) where
  -- LocalVarSetter
  unfoldable pub local_var_setter :
      Text → Options → Text → Text → Text → Effect NetError (Machine S F)
  unfolding set_var
  local_var_setter addr opts ups name value m =
      let (r, net) = set_var o.peer addr ups name value opts m.net in
      (error_of r, record m { net = net })

  -- the NUTShedder
  abbrev pub local_shedder : Config → Wiring S → NutShedder NetError (Machine S F)
  local_shedder c wired = record {
    shed_ups = wired.shed_ups;
    set_var = local_var_setter (local_upsd_addr c) (local_opts o.getenv c);
  }

  -- The shedder, the chassis and the waker.
  unfoldable pub shedder_of : Config → Wiring S → ShedderEffect (MainError E) (Machine S F)
  unfolding local_var_setter nut_shedder local_opts local_upsd_addr
  shedder_of c wired = record {
    assert = λ load m. with_error shed_error ((nut_shedder (local_shedder c wired)).assert load m);
    release =
        λ load m. with_error shed_error ((nut_shedder (local_shedder c wired)).release load m);
  }

  unfoldable pub chassis_of :
      Option (Runner E S) → Option (ChassisEffect (MainError E) (Machine S F))
  unfolding racadm_chassis
  chassis_of none = none
  chassis_of (some runner) = some (record {
    shutdown =
        λ host m. with_error chassis_error (outside o ((racadm_chassis runner).shutdown host) m);
    power_up =
        λ host m. with_error chassis_error (outside o ((racadm_chassis runner).power_up host) m);
  })

  unfoldable pub waker_of : WakerEffect (MainError E) (Machine S F)
  unfolding wake
  waker_of = record {
    wake = λ mac broadcast m. with_error wol_error (outside o (wake o.udp mac broadcast) m);
  }

  -- the executor
  unfoldable pub executor_of :
      Config → Option (Runner E S) → Wiring S → Executor (MainError E) (Machine S F)
  unfolding shedder_of chassis_of waker_of
  executor_of c runner wired = record {
    dry_run = c.dry_run;
    targets = wired.targets;
    chassis = chassis_of runner;
    shedder = some (shedder_of c wired);
    waker = some waker_of;
  }

  abbrev pub with_metrics : Option Metrics × Machine S F → Machine S F
  with_metrics (none, m) = m
  with_metrics (some metrics, m) = record m { metrics = metrics }

  -- The power API as the controller sees it.
  abbrev pub requests_of : Machine S F → Dict Request × Machine S F
  requests_of m = elim m.api [
    | none ↦ ([], m)
    | some api ↦
        (let (api', out) = desired (o.now_at m.net.peer) api in (out, record m { api = some api' }))
  ]

  abbrev pub sink_of : Dict ActualState → Time → Machine S F → Machine S F
  sink_of actual t m = elim m.api [
    | none ↦ m
    | some api ↦ record m { api = some (publish_actual actual t api) }
  ]

  -- The controller's ports.
  unfoldable pub ports_of : Config → Option (Runner E S) → Wiring S → Ports (Machine S F)
  unfolding new_poller poll probe read_shed executor_of apply local_upsd_addr local_opts desired
      publish_actual
  ports_of c runner wired = record {
    poll = poll o (new_poller o.getenv c.upses);
    probe = probe o wired.probes;
    read_shed = some (read_shed o (local_upsd_addr c) (local_opts o.getenv c) wired.shed_ups);
    apply =
        λ actions m. with_metrics (apply (executor_of c runner wired) actions (some m.metrics) m);
    requests = elim c.power_api [ none ↦ none | some p ↦ some requests_of ];
    publish_actual = elim c.power_api [ none ↦ none | some p ↦ some sink_of ];
    now = outside o o.now;
    unix_now = outside o o.unix_now;
    metrics = some (λ f m. record m { metrics = f m.metrics });
  }

  -- The controller, up to its clock; `none` is the panic on a grace that is nil.
  abbrev pub with_grace : Controller → Option Duration → Option Controller
  with_grace ctrl none = none
  with_grace ctrl (some d) = some (record ctrl { startup_grace = d })

  unfoldable pub controller_of : Config → Option Controller
  unfolding App.new control_ups control_loads
  controller_of c =
      with_grace (App.new (control_ups c.upses) (control_loads c.loads)) c.startup_grace

  -- the token must be there
  abbrev pub api_with : Text → List Text → Option Duration → Exit ⊎ Option Server
  api_with [] loads ttl = inl token_empty
  api_with (b ∷ token) loads none = inl nil_part
  api_with (b ∷ token) loads (some ttl) = inr (some (Powerapi.new (b ∷ token) loads ttl))

  -- The power API, if it is configured.
  unfoldable pub api_of : Option PowerApiSpec → Exit ⊎ Option Server
  unfolding Powerapi.new
  api_of none = inr none
  api_of (some p) = api_with (o.getenv p.token_env) p.loads p.request_ttl

  -- what is running
  abbrev pub Running : Type 0
  Running = Ports (Machine S F) × Controller × Machine S F

  -- main, from the power API to `StartClock`
  abbrev pub begun :
      Config
      → Option (Runner E S)
      → Wiring S
      → Controller
      → Machine S F
      → Exit ⊎ Option Server
      → Exit ⊎ Running
  begun c runner wired ctrl m (inl e) = inl e
  begun c runner wired ctrl m (inr api) =
      let p = ports_of c runner wired in
      let (ctrl', m') = start_clock p ctrl (record m { api = api }) in inr (p, ctrl', m')

  unfoldable pub start_loop :
      Config → Option (Runner E S) → Wiring S → Controller → Machine S F → Exit ⊎ Running
  unfolding api_of start_clock ports_of
  start_loop c runner wired ctrl m = begun c runner wired ctrl m (api_of c.power_api)

  abbrev pub wired_start :
      Config
      → Option (Runner E S)
      → Option (Wiring S)
      → Option Controller
      → Machine S F
      → Exit ⊎ Running
  wired_start c runner none ctrl m = inl nil_part
  wired_start c runner (some wired) none m = inl nil_part
  wired_start c runner (some wired) (some ctrl) m =
      start_loop c runner wired ctrl (preflight o c (new_poller o.getenv c.upses) runner wired m).1

  module _ {K P : Type 0} (ssh : Ssh E K P S) where
    -- The setup of the chassis.
    unfoldable pub setup_chassis : Config → Setup K P
    unfolding has_chassis cmc_user cmc_host_key unescape_newlines new_ssh_runner
    setup_chassis c =
        if has_chassis c.loads
        then made_runner c.dry_run (
            new_ssh_runner ssh (cmc_user c) (unescape_newlines (o.getenv (codes "CMC_SSH_KEY")))
              (cmc_host_key c))
        else chassis_off

    abbrev pub set_up : Config → Setup K P → Machine S F → Exit ⊎ Running
    set_up c setup_failed m = inl ssh_failed
    set_up c chassis_off m = wired_start c none (wire_loads o none c.loads) (controller_of c) m
    set_up c (chassis_on r) m =
        let runner = some (Ssh.run ssh r) in
        wired_start c runner (wire_loads o runner c.loads) (controller_of c) m

    -- main, from a loaded configuration and metrics without an entry to the loop
    unfoldable pub start : Config → Machine S F → Exit ⊎ Running
    unfolding setup_chassis wire_loads controller_of start_loop preflight set_dry_run
    start c m = set_up c (setup_chassis c) (record m { metrics = set_dry_run c.dry_run m.metrics })

-- What the loop sees: a tick of its ticker, and between the ticks requests to the power API.
pub data Event : Type 0 where
  ticked : Event
  http_asked : Time → Call → Event

module _ {S F : Type 0} (decode : Text → Option Text) (p : Ports (Machine S F)) where
  -- The handler of the API that is running, if there is one.
  unfoldable pub serve : Time → Call → Machine S F → Machine S F
  unfolding handle
  serve t r m = elim m.api [
    | none ↦ m
    | some api ↦ record m { api = some (handle decode t r api).0 }
  ]

  unfoldable pub on_event : Event → Controller × Machine S F → Controller × Machine S F
  unfolding tick serve
  on_event ticked (c, m) = tick p c m
  on_event (http_asked t r) (c, m) = (c, serve t r m)

  -- The loop, behind the first tick, until the program is told to stop.
  unfoldable pub loop : List Event → Controller × Machine S F → Controller × Machine S F
  unfolding on_event
  loop [] s = s
  loop (e ∷ events) s = loop events (on_event e s)
