-- ===== src/Tests/Runs.antt =====
-- Runs of the program: a UPS is critical, no UPS can be reached, a load is requested off.
use nut_dog.Prelude.{
  ℕ, ◌*◌, ◌+◌, ◌≡◌, ◌≢◌, refl, ◌⊎◌, inl, inr, true, false, Option, none, some, List, [], ◌∷◌, arith,
  All, In, Text, codes, ◌==◌, Dict, lookup, lookup_or, UniqueKeys, pos, if◌then◌else◌,
}
use nut_dog.Control.{action, desired_off, desired_on, no_request, request_off}
use nut_dog.Control.Actions.{wish}
use nut_dog.Control.Decision.{observed}
use nut_dog.Control.Decision.Safety.{IsShedBy}
use nut_dog.App.{read_all, plan}
use nut_dog.Nut.Client.{Peer}
use nut_dog.Config.{Config, PowerApiSpec}
use nut_dog.Main.{Outside, Machine, answered}
use nut_dog.Metrics.Collectors.{never_recorded, never_polled}
use nut_dog.Tests.Talking.{unconnected}
use nut_dog.Main.Start.{Running, ticked, start, loop}
use nut_dog.Main.Critical.{Reports, IsCritical, critical_sheds}
use nut_dog.Main.Blind.{IsBlind, blind_rests}
use nut_dog.Main.Start.{serve}
use nut_dog.Main.Standing.{off_request_obeyed}
use nut_dog.Tests.{ups_a, p1}
use nut_dog.Tests.Programs.{put_off}
use nut_dog.Tests.Rendering.{open_ssh}
use nut_dog.Tests.Settings.{settings, ups_spec, server_config}
use nut_dog.Tests.Wiring.{
  answering, works, outside_of, running_of, three_events, accepted, idle, decode,
}

abbrev only_token : Text → Text
only_token env = if env == codes "TOKEN" then codes "secret" else []

-- The UPS is on battery, and its battery is low.
abbrev listing : Text
listing = codes "VAR ups-a ups.status \"OB DISCHRG LB\"\nEND LIST VAR ups-a\n"

abbrev vars : Dict Text
vars = (codes "ups.status", codes "OB DISCHRG LB") ∷ []

abbrev failing : Outside (Unit {0}) (Unit {0}) ℕ
failing = outside_of only_token listing

started_failing : (r : Running failing) × (start failing open_ssh accepted idle ≡ inr r)
unfolding start lookup ◌==◌ nut_dog.Config.with_defaults
started_failing = running_of (start failing open_ssh accepted idle) refl

is_critical : IsCritical vars
unfolding lookup ◌==◌ nut_dog.GoStrings.fields
is_critical = (codes "OB DISCHRG LB", refl, inl refl, inr (inr (inl refl)))

reports : Reports failing accepted ups_spec vars
unfolding nut_dog.Nut.Client.fetch lookup ◌==◌ nut_dog.Nut.Client.on_line
    nut_dog.Nut.Client.parse_var_line nut_dog.Prelude.insert
reports s = refl

critical_sheds_example :
    let r = started_failing.0 in
    let (ctrl, m) = loop decode r.0 three_events (r.1, r.2) in
    IsShedBy server_config.type p1 (observed (read_all r.0 ctrl m).0 p1) (plan r.0 ctrl m).1
unfolding lookup ◌==◌ nut_dog.Config.with_defaults nut_dog.Config.control_loads
critical_sheds_example =
    critical_sheds failing open_ssh decode accepted idle three_events started_failing.0 ups_a
      ups_spec vars p1 server_config (refl, tt) started_failing.1 refl reports is_critical refl
      (inl refl)

-- No server can be dialled.
abbrev cut_off : Outside (Unit {0}) (Unit {0}) ℕ
cut_off = record failing { peer = record failing.peer { dial = λ addr s. none } }

started_blind : (r : Running cut_off) × (start cut_off open_ssh accepted idle ≡ inr r)
unfolding start lookup ◌==◌ nut_dog.Config.with_defaults
started_blind = running_of (start cut_off open_ssh accepted idle) refl

is_blind : IsBlind cut_off accepted
unfolding nut_dog.Nut.Client.fetch
is_blind u spec s vars found e = ground arith

blind_rests_example :
    let r = started_blind.0 in
    let (ctrl, m) = loop decode r.0 three_events (r.1, r.2) in
    All
      (λ a.
        (wish a.kind ≡ desired_off)
        × (lookup_or no_request a.load (read_all r.0 ctrl m).0.ext ≡ request_off))
      (plan r.0 ctrl m).1
unfolding nut_dog.Config.load lookup ◌==◌
blind_rests_example =
    blind_rests cut_off open_ssh decode settings accepted idle three_events started_blind.0 refl
      started_blind.1 is_blind

abbrev power_api : PowerApiSpec
power_api = record {
  listen = codes ":8080";
  token_env = codes "TOKEN";
  loads = p1 ∷ [];
  request_ttl = some (pos 36000000000000);
}

-- A world without a NUT server, whose state is the number of its clock's ticks: every reading of the clock is a second later.
abbrev timed : Outside ℕ (Unit {0}) ℕ
timed = record {
  getenv = only_token;
  peer = record (answering []) { dial = λ addr s. none };
  dial_tcp = λ addr s. (answered, s);
  udp = works;
  now = λ s. (pos (s * 1000000000), s + 1);
  now_at = λ s load. pos (s * 1000000000);
  unix_now = λ s. (pos s, s + 1);
  parse_float = λ text. none;
  times = λ a b. a * b;
  one = 1;
}

abbrev fresh : Machine ℕ ℕ
fresh = record { net = unconnected 0; polls = never_polled; metrics = never_recorded; api = none }

started_timed : (r : Running timed) × (start timed open_ssh accepted fresh ≡ inr r)
unfolding start lookup ◌==◌ nut_dog.Config.with_defaults
started_timed = running_of (start timed open_ssh accepted fresh) refl

-- A PUT of off, with the token, ten seconds after the clock's first, behind one tick.
off_request_obeyed_example :
    let r = started_timed.0 in
    let (ctrl, m) = loop decode r.0 (ticked ∷ []) (r.1, r.2) in
    let m' = serve decode r.0 (pos 10000000000) put_off m in
    IsShedBy server_config.type p1 (observed (read_all r.0 ctrl m').0 p1) (plan r.0 ctrl m').1
    × All (λ a. a.load ≡ p1 → wish a.kind ≢ desired_on) (plan r.0 ctrl m').1
unfolding lookup ◌==◌ nut_dog.Config.with_defaults nut_dog.Config.control_loads
    nut_dog.Powerapi.authorised nut_dog.Powerapi.new nut_dog.Prelude.has start loop
    nut_dog.Clock.sub_time nut_dog.App.publish started_timed running_of nut_dog.Nut.Client.fetch
    nut_dog.App.probe_all nut_dog.App.hold_startup_wakes nut_dog.Prelude.sort_strings
    nut_dog.Prelude.keys nut_dog.Prelude.insert read_all nut_dog.Control.decide
    nut_dog.Control.reconcile_load nut_dog.Control.desired_for_load
    nut_dog.Control.desired_from_sources nut_dog.Control.classify
off_request_obeyed_example =
    off_request_obeyed timed open_ssh decode accepted fresh (ticked ∷ []) started_timed.0 power_api
      (pos 36000000000000) (pos 10000000000) put_off p1 server_config (refl, tt) started_timed.1
      refl refl refl refl refl refl refl (codes "off", refl, refl) (inr refl)
