-- ===== src/Main.antt =====
-- cmd/nut-dog/main.go: how the program is put together. What is outside of it, as a whole, is a state `S`,
-- and the calls that leave the program are an `Outside`, which is a parameter. Logging is left out.
mod Types
unfoldable pub use Types.*
pub mod Start
pub mod Starting
pub mod Preflight
pub mod Dispatching
pub mod Fitting
pub mod Running
pub mod Rounds
pub mod Wired
pub mod Polling
pub mod Signals
pub mod Program
pub mod Beginning
pub mod Requested
pub mod Obeying
pub mod Carrying
pub mod Serving
pub mod Standing
pub mod Critical
pub mod Blind
use nut_dog.Prelude.{
  ℕ, Bool, true, false, ◌||◌, ◌&&◌, not, Option, none, some, ◌⊎◌, inl, inr, List, [], ◌∷◌, ◌++◌,
  Text, codes, ◌==◌, Dict, lookup, lookup_or, insert, nat_eq, ℤ, pos, if◌then◌else◌,
}
use nut_dog.Clock.{Time}
use nut_dog.GoNet.{split_host_port, join_host_port}
use nut_dog.Control.{
  Telemetry, no_telemetry, ActualState, actual_unknown, actual_up, actual_down, ShedState,
  shed_unknown,
}
use nut_dog.Nut.{telemetry_from_vars}
use nut_dog.Nut.Client.{Peer, Session, Options, NetError, Result, ok, err, fetch}
use nut_dog.Metrics.{Metrics}
use nut_dog.Metrics.Polls.{PollMetrics, record_poll, telemetry_specs}
use nut_dog.Effects.{Target}
use nut_dog.Effects.Chassis.{Runner, power_state}
use nut_dog.Effects.Shedder.{parse_shed_status}
use nut_dog.Effects.Ssh.{Ssh}
use nut_dog.Effects.Wol.{Udp}
use nut_dog.Powerapi.{Server}
use nut_dog.Config.{
  Config, UpsSpec, LoadSpec, CmcSpec, WakeSpec, ProbeSpec, type_chassis, type_nut_server,
  shed_ups_name, empty,
}

-- newPoller
unfoldable pub new_poller : (Text → Text) → Dict UpsSpec → Dict UpsPoll
new_poller getenv [] = []
new_poller getenv ((name, u) ∷ upses) =
    (
      name,
      record {
        addr = u.host;
        ups = u.ups_name;
        opts = record {
          tls = u.tls;
          insecure_skip_verify = u.insecure;
          username = getenv u.username_env;
          password = getenv u.password_env;
          login = false;
        };
      },
    )
    ∷ new_poller getenv upses

-- metricsListen
unfoldable pub metrics_listen : Config → Text
metrics_listen c = if empty c.metrics_listen then codes ":9334" else c.metrics_listen

-- localUpsdAddr
abbrev pub upsd_port : Option (Text × Text) → Text
upsd_port none = codes "3493"
upsd_port (some (host, port)) = if empty port then codes "3493" else port

unfoldable pub local_upsd_addr : Config → Text
unfolding split_host_port join_host_port
local_upsd_addr c =
    join_host_port (codes "127.0.0.1") (upsd_port (split_host_port c.local_upsd.listen))

-- hasChassis
unfoldable pub has_chassis : Dict LoadSpec → Bool
has_chassis [] = false
has_chassis ((name, l) ∷ loads) = l.type == type_chassis || has_chassis loads

-- The loops of `cmcUser` and `cmcHostKey`: the field of the first chassis that has it.
unfoldable pub cmc_field : (CmcSpec → Text) → Text → Dict LoadSpec → Text
cmc_field field default [] = default
cmc_field field default ((name, l) ∷ loads) =
    let rest = cmc_field field default loads in
    elim l.cmc [
      | none ↦ rest
      | some cmc ↦ if l.type == type_chassis && not (empty (field cmc)) then field cmc else rest
    ]

unfoldable pub cmc_user : Config → Text
unfolding cmc_field
cmc_user c = cmc_field (λ cmc. cmc.ssh_user) (codes "service") c.loads

unfoldable pub cmc_host_key : Config → Text
unfolding cmc_field
cmc_host_key c = cmc_field (λ cmc. cmc.host_key) [] c.loads

-- strings.ReplaceAll(key, `\n`, "\n")
unfoldable pub unescape_newlines : Text → Text
unescape_newlines [] = []
unescape_newlines (c ∷ []) = c ∷ []
unescape_newlines (c ∷ d ∷ s) =
    let later = unescape_newlines s in
    let rest = unescape_newlines (d ∷ s) in
    if nat_eq c b'\\' && nat_eq d b'n' then 10 ∷ later else c ∷ rest

module _ {S E F : Type 0} (o : Outside S E F) where
  -- tcpProbe
  unfoldable pub tcp_probe : Text → S → ActualState × S
  tcp_probe addr s =
      let (d, s') = o.dial_tcp addr s in
      (elim d [ answered ↦ actual_up | refused ↦ actual_unknown | unanswered ↦ actual_down ], s')

  -- the probe of a chassis; `none` is a runner that is not ready
  unfoldable pub chassis_probe : Option (Runner E S) → Text → S → ActualState × S
  unfolding power_state
  chassis_probe none host s = (actual_unknown, s)
  chassis_probe (some runner) host s = let (r, s') = power_state runner host s in (r.0, s')

  -- The `switch` of `wireLoads`; `none` is the panic on a part of the load that is nil.
  unfoldable pub wire_chassis :
      Option (Runner E S) → Text → Option CmcSpec → Wiring S → Option (Wiring S)
  unfolding chassis_probe
  wire_chassis runner name none wired = none
  wire_chassis runner name (some cmc) wired = some (record wired {
    probes = insert name (chassis_probe runner cmc.host) wired.probes;
    targets =
        insert name (record { cmc_host = cmc.host; wake_mac = []; wake_bcast = [] }) wired.targets;
  })

  unfoldable pub wire_server :
      Text → Option ProbeSpec → Option WakeSpec → Wiring S → Option (Wiring S)
  unfolding tcp_probe shed_ups_name
  wire_server name none wake wired = none
  wire_server name (some probe) none wired = none
  wire_server name (some probe) (some wake) wired = some (record {
    probes = insert name (tcp_probe probe.host) wired.probes;
    targets =
        insert name (record { cmc_host = []; wake_mac = wake.mac; wake_bcast = wake.broadcast })
          wired.targets;
    shed_ups = insert name (shed_ups_name name) wired.shed_ups;
  })

  unfoldable pub wire_load : Option (Runner E S) → Text → LoadSpec → Wiring S → Option (Wiring S)
  unfolding wire_chassis wire_server
  wire_load runner name l wired =
      if l.type == type_chassis
      then wire_chassis runner name l.cmc wired
      else if l.type == type_nut_server
      then wire_server name l.probe l.wake wired
      else some wired

  -- the next round, unless there was a panic
  abbrev pub then_wire : Option (Wiring S) → (Wiring S → Option (Wiring S)) → Option (Wiring S)
  then_wire none next = none
  then_wire (some wired) next = next wired

  -- The loop of `wireLoads`.
  unfoldable pub wire_all : Option (Runner E S) → Dict LoadSpec → Wiring S → Option (Wiring S)
  unfolding wire_load
  wire_all runner [] wired = some wired
  wire_all runner ((name, l) ∷ loads) wired =
      then_wire (wire_load runner name l wired) (wire_all runner loads)

  -- wireLoads
  unfoldable pub wire_loads : Option (Runner E S) → Dict LoadSpec → Option (Wiring S)
  unfolding wire_all
  wire_loads runner loads =
      wire_all runner loads (record { probes = []; targets = []; shed_ups = [] })

  -- what is done outside, from inside
  abbrev pub outside : {A : Type 0} → (S → A × S) → Machine S F → A × Machine S F
  outside call m = let (a, s) = call m.net.peer in (a, record m { net = record m.net { peer = s } })

  -- funcProber.Probe
  unfoldable pub probe : Dict (S → ActualState × S) → Text → Machine S F → ActualState × Machine S F
  probe probes load m = elim (lookup load probes) [
    | none ↦ (actual_unknown, m)
    | some fn ↦ outside fn m
  ]

  -- nutPoller.Poll, from what `Fetch` returns on: `RecordPoll` reads the clock after a success only.
  unfoldable pub polled :
      Text → Result (Dict Text) × Session S → Machine S F → Telemetry × Machine S F
  unfolding record_poll telemetry_specs telemetry_from_vars
  polled ups (err e, net) m = (
    no_telemetry,
    record m {
      net = net;
      polls =
          record_poll o.parse_float o.times (telemetry_specs o.one) ups false [] (pos 0) m.polls;
    },
  )
  polled ups (ok vars, net) m =
      let (t, s) = o.unix_now net.peer in
      (
        telemetry_from_vars vars,
        record m {
          net = record net { peer = s };
          polls = record_poll o.parse_float o.times (telemetry_specs o.one) ups true vars t m.polls;
        },
      )

  -- nutPoller.Poll
  unfoldable pub poll : Dict UpsPoll → Text → Machine S F → Telemetry × Machine S F
  unfolding polled fetch
  poll specs ups m = elim (lookup ups specs) [
    | none ↦ (no_telemetry, m)
    | some spec ↦ polled ups (fetch o.peer spec.addr spec.ups spec.opts m.net) m
  ]

  -- shedReader.ReadShed, from what `Fetch` returns on
  unfoldable pub shed_read : Result (Dict Text) × Session S → Machine S F → ShedState × Machine S F
  unfolding parse_shed_status lookup_or
  shed_read (err e, net) m = (shed_unknown, record m { net = net })
  shed_read (ok vars, net) m =
      (parse_shed_status (lookup_or [] (codes "ups.status") vars), record m { net = net })

  -- shedReader.ReadShed
  unfoldable pub read_shed :
      Text → Options → Dict Text → Text → Machine S F → ShedState × Machine S F
  unfolding shed_read fetch
  read_shed addr opts shed_ups load m = elim (lookup load shed_ups) [
    | none ↦ (shed_unknown, m)
    | some ups ↦ shed_read (fetch o.peer addr ups opts m.net) m
  ]
