-- ===== src/Tests/Wiring.antt =====
-- The program with one UPS that cannot be reached and one NUT server.
use nut_dog.Prelude.{
  ℕ, ◌*◌, ◌≡◌, ◌≢◌, refl, sym, ◌∙◌, ◌⊎◌, inl, inr, Bool, true, false, Option, none, some, List, [],
  ◌∷◌, arith, All, Text, codes, ◌==◌, Dict, lookup, UniqueKeys, ℤ, pos, if◌then◌else◌,
}
use nut_dog.GoStrings.{has_prefix, contains}
use nut_dog.Effects.Shedder.{status_shed, status_ok, nut_shedder, drive}
use nut_dog.Main.{local_upsd_addr, read_shed}
use nut_dog.Main.Preflight.{local_opts}
use nut_dog.Main.Start.{local_shedder}
use nut_dog.Main.Signals.{status_of, Shows, signal_read_back}
use nut_dog.Nut.Client.{set_var}
use nut_dog.Control.{shed_asserted}
use nut_dog.Prelude.{◌++◌, if◌then◌else◌, Bool, true, false}
use nut_dog.Control.{classify, source_healthy}
use nut_dog.App.{plan}
use nut_dog.Nut.Client.{Peer, Session, Result, ok, fetch}
use nut_dog.Nutconf.Secrets.{succeeds}
use nut_dog.Metrics.Collectors.{never_recorded, never_polled}
use nut_dog.Effects.{do_action}
use nut_dog.Effects.Chassis.{Runner}
use nut_dog.Effects.Wol.{Udp}
use nut_dog.Config.{Config, LoadSpec, load, with_defaults}
use nut_dog.Main.{Outside, Machine, Wiring, UpsPoll, answered, wire_loads, new_poller, poll}
use nut_dog.Main.Start.{
  Exit, token_empty, Running, Event, ticked, http_asked, ports_of, executor_of, start, loop,
}
use nut_dog.Powerapi.Routing.{power_path}
use nut_dog.Main.Dispatching.{is_miswired}
use nut_dog.Main.Running.{never_miswired}
use nut_dog.Main.Rounds.{HasWiring}
use nut_dog.Main.Wired.{wire_loads_accepted}
use nut_dog.Tests.{ups_a, floors}
use nut_dog.Tests.Settings.{settings}
use nut_dog.Tests.Talking.{unconnected}
use nut_dog.Tests.Rendering.{open_ssh}

-- A server that answers every command with the same text, at one moment, and a network that works.
abbrev pub answering : {S : Type 0} → Text → Peer S
answering text = record {
  dial = λ addr s. some ([], s);
  answer = λ command s. some (text, s);
  upgrade = λ host insecure unread s. some ([], s);
  hang_up = λ s. (false, s);
}

abbrev pub works : {S : Type 0} → Udp (Unit {0}) S
works = record {
  resolve = λ addr s. (none, s);
  dial = λ addr s. (none, s);
  allow_broadcast = λ s. (none, s);
  write = λ packet s. (none, s);
  close = λ s. s;
}

abbrev pub outside_of : (Text → Text) → Text → Outside (Unit {0}) (Unit {0}) ℕ
outside_of getenv text = record {
  getenv = getenv;
  peer = answering text;
  dial_tcp = λ addr s. (answered, s);
  udp = works;
  now = λ s. (pos 1000, s);
  now_at = λ s load. pos 1000;
  unix_now = λ s. (pos 1, s);
  parse_float = λ text. none;
  times = λ a b. a * b;
  one = 1;
}

abbrev pub idle : Machine (Unit {0}) ℕ
idle = record { net = unconnected tt; polls = never_polled; metrics = never_recorded; api = none }

abbrev pub silent : Outside (Unit {0}) (Unit {0}) ℕ
silent = outside_of (λ env. codes "secret") []

abbrev pub tokenless : Outside (Unit {0}) (Unit {0}) ℕ
tokenless = outside_of (λ env. []) []

abbrev pub accepted : Config
accepted = with_defaults settings

-- What has started, and that it has.
unfoldable pub running_of : {A : Type 0} (x : Exit ⊎ A) → succeeds x ≡ true → (a : A) × (x ≡ inr a)
running_of (inl e) h = absurd (ground arith)
running_of (inr a) h = (a, refl)

pub started : (r : Running silent) × (start silent open_ssh accepted idle ≡ inr r)
unfolding start lookup ◌==◌ with_defaults
started = running_of (start silent open_ssh accepted idle) refl

abbrev pub three_events : List Event
three_events =
    ticked
    ∷ http_asked (pos 5) (record {
      method = codes "PUT";
      path = power_path (codes "p1");
      authorization = codes "Bearer secret";
      body = codes "off";
    })
    ∷ ticked
    ∷ []

abbrev pub decode : Text → Option Text
decode body = some body

never_miswired_example :
    (runner : Option (Runner (Unit {0}) (Unit {0}))) × (wired : Wiring (Unit {0})) × (started.0.0
      ≡ ports_of silent accepted runner wired)
    × (let (ctrl, m) = loop decode started.0.0 three_events (started.0.1, started.0.2) in
        All
          (λ a.
            (m' : Machine (Unit {0}) ℕ)
            → is_miswired (do_action (executor_of silent accepted runner wired) a m').0 ≡ false)
          (plan started.0.0 ctrl m).1)
unfolding load lookup ◌==◌
never_miswired_example =
    never_miswired silent open_ssh decode settings accepted idle three_events started.0 refl
      (refl, tt) started.1

wire_loads_accepted_example :
    (w : Wiring (Unit {0})) × (wire_loads silent none accepted.loads ≡ some w)
    × ((name : Text) (l : LoadSpec)
        → lookup name accepted.loads ≡ some l
        → HasWiring silent none name l w)
unfolding load lookup ◌==◌
wire_loads_accepted_example = wire_loads_accepted silent none settings accepted refl (refl, tt)

-- The UPS answers, on line and charged.
abbrev listing : Text
listing =
    codes
      "VAR ups-a ups.status \"OL\"\nVAR ups-a battery.charge \"95\"\nVAR ups-a battery.runtime \"1800\"\nEND LIST VAR ups-a\n"

abbrev listed : Outside (Unit {0}) (Unit {0}) ℕ
listed = outside_of (λ env. []) listing

poll_healthy :
    classify floors (poll listed (new_poller listed.getenv accepted.upses) ups_a idle).0
    ≡ source_healthy
unfolding poll lookup ◌==◌ classify new_poller with_defaults nut_dog.Nut.Client.on_line
    nut_dog.Nut.Client.parse_var_line nut_dog.Prelude.insert
poll_healthy = refl

-- A server that keeps the status that is set.
abbrev keeping : Peer Text
keeping = record {
  dial = λ addr s. some ([], s);
  answer = λ command s.
      if has_prefix command (codes "SET VAR")
      then some (codes "OK\n", if contains command (codes "FSD") then status_shed else status_ok)
      else if has_prefix command (codes "LIST VAR")
      then some (codes "VAR shed-p1 ups.status \"" ++ (s ++ codes "\"\nEND LIST VAR shed-p1\n"), s)
      else some (codes "OK\n", s);
  upgrade = λ host insecure unread s. some ([], s);
  hang_up = λ s. (false, s);
}

abbrev kept : Outside Text (Unit {0}) ℕ
kept = record {
  getenv = λ env. codes "secret";
  peer = keeping;
  dial_tcp = λ addr s. (answered, s);
  udp = record {
    resolve = λ addr s. (none, s);
    dial = λ addr s. (none, s);
    allow_broadcast = λ s. (none, s);
    write = λ packet s. (none, s);
    close = λ s. s;
  };
  now = λ s. (pos 1000, s);
  now_at = λ s load. pos 1000;
  unix_now = λ s. (pos 1, s);
  parse_float = λ text. none;
  times = λ a b. a * b;
  one = 1;
}

abbrev healthy : Machine Text ℕ
healthy = record {
  net = unconnected status_ok;
  polls = never_polled;
  metrics = never_recorded;
  api = none;
}

abbrev one_signal : Wiring Text
one_signal = record { probes = []; targets = []; shed_ups = (codes "p1", codes "shed-p1") ∷ [] }

honest :
    (b : Bool) (net : Session Text)
    → let r =
        set_var keeping
          (local_upsd_addr accepted)
          (codes "shed-p1")
          (codes "ups.status")
          (status_of b)
          (local_opts kept.getenv accepted)
          net in
      r.0 ≡ ok tt
      → Shows
          (status_of b)
          (fetch keeping
            (local_upsd_addr accepted)
            (codes "shed-p1")
            (local_opts kept.getenv accepted)
            r.1).0
unfolding set_var fetch lookup ◌==◌ has_prefix contains local_opts with_defaults
    nut_dog.Nut.Client.on_line nut_dog.Nut.Client.parse_var_line nut_dog.Prelude.insert
honest true net h = refl
honest false net h = refl

signal_read_back_example :
    (read_shed kept
      (local_upsd_addr accepted)
      (local_opts kept.getenv accepted)
      one_signal.shed_ups
      (codes "p1")
      (drive (nut_shedder (local_shedder kept accepted one_signal)) true (codes "p1") healthy).1).0
    ≡ shed_asserted
unfolding set_var lookup ◌==◌ has_prefix contains nut_shedder nut_dog.Main.Start.local_var_setter
    local_opts with_defaults
signal_read_back_example =
    signal_read_back kept accepted one_signal (codes "p1") (codes "shed-p1") true healthy honest
      refl refl
