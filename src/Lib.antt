-- ===== src/Lib.antt =====
-- nut-dog sheds and restores loads (servers behind a NUT shed signal, a blade chassis behind racadm)
-- by what several UPSes report, and takes requests for power states from another controller.
--
-- One tick of the reconcile loop polls the UPSes, probes the loads, publishes what it saw, asks for the
-- standing requests, decides, records, holds back power-on actions for a while after a start, and hands
-- the actions to the executor. The parts, and the files that model them:
--
--   Control      internal/control/control.go, the pure decision: `classify` is Classify, `desired_for_load`
--                DesiredForLoad, `reconcile_load` ReconcileLoad, `decide` Decide.
--   App          internal/app/app.go: `tick` is Tick, `plan` its part up to the call of Apply,
--                `hold_startup_wakes` holdStartupWakes, `record_tick` record. The interfaces are the fields
--                of `Ports`, functions on a world `W` that holds all that the controller shares.
--   Effects      internal/effects/effects.go: `apply` is Apply, `do_action` do. Effects/Shedder,
--                Effects/Chassis, Effects/Wol and Effects/Ssh are shedder.go, chassis.go, wol.go and
--                sshexec.go beside it: `parse_shed_status`, `parse_chassis_power`, `magic_packet` and
--                `wake`, `new_ssh_runner` and `run`.
--   Powerapi     internal/powerapi/powerapi.go: `handle_power`, `handle_state`, `desired`,
--                `publish_actual`, each a function of the server's state. Powerapi/Routes is its Handler.
--   Config       internal/config/config.go: `load` is Load from the parsed configuration on, `validate`
--                validate, `control_ups` and `control_loads` what the decision is given. Config/File is the
--                whole of Load (`load_file`) and UnmarshalYAML.
--   Metrics      internal/metrics/metrics.go: what the controller and the executor record; Metrics/Polls is
--                RecordPoll (`record_poll`), Metrics/Collectors New.
--   Nut          internal/nut/nut.go: `parse_status`, `telemetry_from_vars`, `parse_upsc`. Nut/Client is
--                client.go beside it: `fetch` is Fetch, `set_var` SetVar, `check_auth` CheckAuth, operations on
--                a `Session` with a server that is a `Peer`.
--   Nutconf      internal/nutconf/nutconf.go: `render` is Render, and Nutconf/Writing WriteFiles.
--   Probe        cmd/nut-probe/main.go: `main`, with what it prints (`report`).
--   Main         cmd/nut-dog/main.go: the poller, the prober, the wiring and the shed reader; Main/Preflight
--                is preflight, and Main/Start the start of the program (`start`) and its loop (`loop`);
--                Main/Program is main as a whole (`begin`, `run_main`) with the routes of the metrics
--                server.
--                There the interfaces of App are filled by the other parts (`ports_of`), over one
--                state, `Machine`, and what is outside of the program is an `Outside`.
--   Clock, GoStrings, GoNet
--                what the program uses of Go's time, strings, strconv, fmt, path/filepath and net.
--   Prelude      lists, maps, integers and strings that the parts share.
--   Tests        runs on concrete inputs, and each theorem applied to one.
--
-- A string is the list of its bytes. A map is an association list, whose order stands for the
-- unspecified order of range; a map's keys are unique (`UniqueKeys`). An int that the program only
-- reads and compares is an integer with no bound; a Duration is an integer in the range of int64 where a
-- theorem says so, and the difference of two times saturates as Sub does. Every loop is over a list or a
-- text and is structural recursion, but for the one that reads the lines of a server: it is given
-- one unit of fuel more than there are bytes to read, and never runs out. An error is a value, by its cause and not by
-- its message. `int(d.Seconds())` is taken exactly, without the rounding of float64.
--
-- Parameters: encoding/json (`decode`), yaml.v3 with time.ParseDuration and the configuration file (`Source`),
-- strconv.ParseFloat and the product of float64, the collectors and the registry of Prometheus (`Prometheus`),
-- the file system (`FileSystem`), the environment, the clock, NUT servers and the network to them with TLS
-- (`Peer`), golang.org/x/crypto/ssh (`Ssh`), UDP sockets (`Udp`) and TCP dials (`Outside`). A peer's answer to what is written arrives whole, before it is read.
--
-- Not modelled: logging, but for the verbose log of a tick; deadlines, which are errors of the peer or the end
-- of what it sends; the parsing of the flags; what promhttp serves of the registry; the sockets that the two
-- HTTP servers listen on, and the waiting of their shutdown. A request to the power API is its method, its path
-- as net/http matches it, its Authorization header and its body. The mutex of the power API makes each of its
-- methods one step; the requests that it gets are served between the ticks.
pub mod Prelude
pub mod Clock
pub mod GoStrings
pub mod GoNet
pub mod Control
pub mod Config
pub mod Main
pub mod Metrics
pub mod Effects
pub mod Nut
pub mod Nutconf
pub mod App
pub mod Powerapi
pub mod Probe
pub mod Tests
