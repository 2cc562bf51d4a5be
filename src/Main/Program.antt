-- ===== src/Main/Program.antt =====
-- The whole of `main` in cmd/nut-dog/main.go: the configuration file, the rendering of the NUT server's files, the
-- metrics, the start, the loop and its end; and the two HTTP servers beside the loop.
use nut_dog.Prelude.{
  false, Option, none, some, ◌⊎◌, inl, inr, List, [], ◌∷◌, Text, codes, ◌==◌, Dict, if◌then◌else◌,
}
use nut_dog.Nut.Client.{Session}
use nut_dog.Nutconf.{RenderError, render}
use nut_dog.Nutconf.Writing.{FileSystem, WriteError, write_files}
use nut_dog.Metrics.Collectors.{Prometheus, Made}
use nut_dog.Metrics.Collectors
use nut_dog.Effects.Ssh.{Ssh}
use nut_dog.App.{Ports, Controller}
use nut_dog.Config.{Config}
use nut_dog.Config.File.{Source, LoadError, load_file}
use nut_dog.Main.{Outside, Machine, metrics_listen}
use nut_dog.Main.Start.{Exit, Running, Event, ticked, on_event, start}

-- The flags, as flag.Parse leaves them.
pub record Flags : Type 0 where
  pub config : Text
  pub render_nut : Text

-- Why `main` exits with status 1, or panics, before its loop.
pub data Failure (E : Type 0) : Type 0 where
  load_failed : LoadError E → Failure E
  render_failed : RenderError → Failure E
  write_failed : WriteError E → Failure E
  registry_refused : Failure E
  start_failed : Exit → Failure E

-- Before anything is connected.
abbrev pub disconnected : {S : Type 0} → S → Session S
disconnected s = record { peer = s; incoming = []; secure = false; is_open = false; written = [] }

module _ {S E F K P R N : Type 0} (o : Outside S E F) (ssh : Ssh E K P S) (source : Source N E)
    (fs : FileSystem E S) (prometheus : Prometheus R) (version : Text) where
  -- What `main` comes to: a failure; the files are rendered, with what is outside then; or the loop begins.
  abbrev pub Begun : Type 0
  Begun = Failure E ⊎ (S ⊎ Running o)

  -- behind WriteFiles
  abbrev pub written : Option (WriteError E) × S → Begun
  written (some e, s) = inl (write_failed e)
  written (none, s) = inr (inl s)

  -- behind Render
  abbrev pub rendered : Text → S → RenderError ⊎ Dict Text → Begun
  rendered dir s (inl e) = inl (render_failed e)
  rendered dir s (inr files) = written (write_files fs dir files s)

  abbrev pub running : Exit ⊎ Running o → Begun
  running (inl e) = inl (start_failed e)
  running (inr r) = inr (inr r)

  -- behind metrics.New
  abbrev pub with_made : Config → S → Option (Made R F) → Begun
  with_made c s none = inl registry_refused
  with_made c s (some made) = running (
      start o ssh c
        (record { net = disconnected s; polls = made.polls; metrics = made.metrics; api = none }))

  -- behind config.Load
  abbrev pub loaded : Text → S → LoadError E ⊎ Config → Begun
  loaded dir s (inl e) = inl (load_failed e)
  loaded dir s (inr c) =
      if dir == []
      then with_made c s (Collectors.new prometheus o.one version)
      else rendered dir s (render o.getenv c)

  -- main, up to its loop
  unfoldable pub begin : Flags → S → Begun
  unfolding load_file render write_files Collectors.new start
  begin flags s = loaded flags.render_nut s (load_file source flags.config)

-- What the loop waits for: a tick or a request, or the signal that ends the program.
pub data Step : Type 0 where
  next : Event → Step
  told_to_stop : Step

-- The addresses of the servers that `main` starts, in the order in which it shuts them down.
unfoldable pub servers : Config → List Text
unfolding metrics_listen
servers c = metrics_listen c ∷ elim c.power_api [ none ↦ [] | some p ↦ p.listen ∷ [] ]

module _ {S F : Type 0} (decode : Text → Option Text) (p : Ports (Machine S F)) (c : Config) where
  -- The loop of `main`: what it leaves, and the servers that it has shut down.
  unfoldable pub select :
      List Step → Controller × Machine S F → (Controller × Machine S F) × List Text
  unfolding on_event servers
  select [] s = (s, [])
  select (told_to_stop ∷ steps) s = (s, servers c)
  select (next e ∷ steps) s = select steps (on_event decode p e s)

  -- The first tick comes before the loop.
  unfoldable pub run_main :
      List Step → Controller × Machine S F → (Controller × Machine S F) × List Text
  unfolding select on_event
  run_main steps s = select steps (on_event decode p ticked s)

-- What the metrics server answers: the page of the registry, or a text.
pub data Page : Type 0 where
  metrics_page : Page
  ok_page : Text → Page
  no_page : Page

-- The routes of startMetricsServer, for any method.
unfoldable pub metrics_route : Text → Page
metrics_route path =
    if path == codes "/metrics"
    then metrics_page
    else if path == codes "/healthz"
    then ok_page (codes "ok\n")
    else no_page
