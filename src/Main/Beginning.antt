-- ===== src/Main/Beginning.antt =====
-- How `main` comes to its loop, or why it does not, and how the loop ends.
use nut_dog.Prelude.{
  ◌≡◌, ◌≢◌, refl, sym, subst, ◌⊎◌, inl, inr, Bool-cases, Option, none, some, List, [], ◌∷◌, ◌++◌,
  map, arith, Text, codes, if◌then◌else◌, ◌==◌, eq_iff, Dict, UniqueKeys,
}
use nut_dog.Nutconf.{RenderError, render}
use nut_dog.Nutconf.Writing.{FileSystem, WriteError, write_files}
use nut_dog.Metrics.Collectors.{Prometheus, Made}
use nut_dog.Metrics.Collectors
use nut_dog.Metrics.Registered.{RegistersDistinct, NamesOwn, new_registers}
use nut_dog.Effects.Ssh.{Ssh}
use nut_dog.App.{Ports, Controller}
use nut_dog.Config.{Config, load, validate, empty}
use nut_dog.Config.Accepted.{validate_exact}
use nut_dog.Nutconf.Panics.{IsReported, render-IsReported}
use nut_dog.Config.Derived.{load_inv}
use nut_dog.Config.File.{
  Source, LoadError, unmarshal_duration, load_file, load_file_inv, ExplainsLoad,
  load_file-ExplainsLoad,
}
use nut_dog.Main.{Outside, Machine, metrics_listen}
use nut_dog.Main.Start.{Exit, Running, Event, on_event, loop, start}
use nut_dog.Main.Starting.{Explains, start-Explains}
use nut_dog.Main.Program.{
  Flags, Failure, load_failed, render_failed, write_failed, registry_refused, start_failed, Begun,
  disconnected, written, rendered, running, with_made, loaded, begin, Step, next, told_to_stop,
  servers, select,
}

module _ {S E F K P R N : Type 0} (o : Outside S E F) (ssh : Ssh E K P S) (source : Source N E)
    (fs : FileSystem E S) (prometheus : Prometheus R) (version : Text) where
  -- The loads that YAML hands over are those of a map.
  abbrev pub GivesMaps : Type 0
  GivesMaps =
      (raw : Text) (c : Config)
      → source.unmarshal (unmarshal_duration source) raw ≡ inr c
      → UniqueKeys c.loads

  -- What has gone wrong at a failure.
  abbrev pub ExplainsEnd : Flags → S → Failure E → Type 0
  ExplainsEnd flags s (load_failed e) = ExplainsLoad source flags.config e
  ExplainsEnd flags s (render_failed e) =
      (c : Config) × (load_file source flags.config ≡ inr c)
      × (flags.render_nut ≢ [])
      × (render o.getenv c ≡ inl e)
      × IsReported e
  ExplainsEnd flags s (write_failed e) =
      (c : Config) × (files : Dict Text) × (load_file source flags.config ≡ inr c)
      × (flags.render_nut ≢ [])
      × (render o.getenv c ≡ inr files)
      × ((write_files fs flags.render_nut files s).0 ≡ some e)
  ExplainsEnd flags s registry_refused = ⊥
  ExplainsEnd flags s (start_failed e) =
      (c : Config) × (load_file source flags.config ≡ inr c)
      × (flags.render_nut ≡ [])
      × Explains o ssh c e

  -- Each failure is explained.
  abbrev IsEnding : Flags → S → Begun o ssh source fs prometheus version → Type 0
  IsEnding flags s (inl e) = ExplainsEnd flags s e
  IsEnding flags s (inr r) = Unit

  module _ (registers : RegistersDistinct prometheus) (names : NamesOwn prometheus)
      (maps : GivesMaps) where
    written-IsEnding :
        (flags : Flags) (s : S) (c : Config) (files : Dict Text) (x : Option (WriteError E) × S)
        → load_file source flags.config ≡ inr c
        → flags.render_nut ≢ []
        → render o.getenv c ≡ inr files
        → write_files fs flags.render_nut files s ≡ x
        → IsEnding flags s (written o ssh source fs prometheus version x)
    written-IsEnding flags s c files (none, s') accepted asked made e = tt
    written-IsEnding flags s c files (some x, s') accepted asked made e =
        (c, files, accepted, asked, made, rw e refl)

    -- An accepted configuration is that of a map, and valid.
    accepted_file :
        (path : Text) (c : Config)
        → load_file source path ≡ inr c
        → UniqueKeys c.loads × (validate c ≡ none)
    unfolding nut_dog.Config.with_defaults
    accepted_file path c accepted =
        let (raw, parsed, read, yaml, valid) = load_file_inv source path c accepted in
        let (same, validated) = load_inv parsed c valid in
        (subst (λ (d : Config). UniqueKeys d.loads) (sym same) (maps raw parsed yaml), validated)

    rendered-IsEnding :
        (flags : Flags) (s : S) (c : Config) (x : RenderError ⊎ Dict Text)
        → load_file source flags.config ≡ inr c
        → flags.render_nut ≢ []
        → render o.getenv c ≡ x
        → IsEnding flags s (rendered o ssh source fs prometheus version flags.render_nut s x)
    rendered-IsEnding flags s c (inl e) accepted asked made =
        let (unique, valid) = accepted_file flags.config c accepted in
        (
          c,
          accepted,
          asked,
          made,
          render-IsReported o.getenv c e unique ((validate_exact c).0 valid).5 made,
        )
    rendered-IsEnding flags s c (inr files) accepted asked made =
        written-IsEnding flags s c files (write_files fs flags.render_nut files s) accepted asked
          made refl

    running-IsEnding :
        (flags : Flags) (s : S) (c : Config) (x : Exit ⊎ Running o)
        → load_file source flags.config ≡ inr c
        → flags.render_nut ≡ []
        → ((e : Exit) → x ≡ inl e → Explains o ssh c e)
        → IsEnding flags s (running o ssh source fs prometheus version x)
    running-IsEnding flags s c (inl e) accepted plain h = (c, accepted, plain, h e refl)
    running-IsEnding flags s c (inr r) accepted plain h = tt

    with_made-IsEnding :
        (flags : Flags) (s : S) (c : Config) (x : Option (Made R F))
        → load_file source flags.config ≡ inr c
        → flags.render_nut ≡ []
        → x ≢ none
        → IsEnding flags s (with_made o ssh source fs prometheus version c s x)
    unfolding nut_dog.Config.with_defaults
    with_made-IsEnding flags s c none accepted plain h = absurd (h refl)
    with_made-IsEnding flags s c (some made) accepted plain h =
        let (raw, parsed, read, yaml, valid) = load_file_inv source flags.config c accepted in
        let unique = (accepted_file flags.config c accepted).0 in
        let first : Machine S F = record {
          net = disconnected s;
          polls = made.polls;
          metrics = made.metrics;
          api = none;
        } in
        running-IsEnding flags s c (start o ssh c first) accepted plain
          (λ e failed. start-Explains o ssh c parsed first e valid unique failed)

    loaded-IsEnding :
        (flags : Flags) (s : S) (x : LoadError E ⊎ Config)
        → load_file source flags.config ≡ x
        → IsEnding flags s (loaded o ssh source fs prometheus version flags.render_nut s x)
    loaded-IsEnding flags s (inl e) accepted = load_file-ExplainsLoad source flags.config e accepted
    loaded-IsEnding flags s (inr c) accepted = elim (Bool-cases (flags.render_nut == [])) [
      | inl plain ↦
          let (made, new_made, shared, info) =
            new_registers prometheus o.one version registers names in
          rw plain (
            with_made-IsEnding flags s c (Collectors.new prometheus o.one version) accepted
              ((eq_iff flags.render_nut []).0 plain)
              (λ none_made. ground (arith, none_made, new_made)))
      | inr asked ↦ rw asked (
          rendered-IsEnding flags s c (render o.getenv c) accepted
            (λ e. ground (arith, asked, eq_iff flags.render_nut [])) refl)
    ]

    -- The program ends before its loop only for one of these reasons: the configuration file is not read, is not parsed,
    -- or holds what is not valid with its defaults; its files are asked for with -render-nut and cannot be rendered or
    -- written; or it is to run and a chassis is configured outside of a dry run and no runner can be made of the keys,
    -- or the power API is configured and its token is not in the environment. Registering the metrics never panics,
    -- and neither the check of the configuration nor the rendering nor the start reads a part that is nil. YAML is to
    -- hand over maps, and Prometheus to behave as documented.
    pub begin-ExplainsEnd :
        (flags : Flags) (s : S) (e : Failure E)
        → begin o ssh source fs prometheus version flags s ≡ inl e
        → ExplainsEnd flags s e
    unfolding begin
    begin-ExplainsEnd flags s e failed =
        subst (IsEnding flags s) failed
          (loaded-IsEnding flags s (load_file source flags.config) refl)

-- The loop handles the events in front of the signal, as they come, and none behind it; at the signal it shuts down
-- the server of the metrics, at the address that is configured or else :9334, and then, where the power API is
-- configured, the one at its address.
pub select-loop :
    {S F : Type 0} (decode : Text → Option Text) (p : Ports (Machine S F)) (c : Config)
    (events : List Event) (later : List Step) (s : Controller × Machine S F)
    → select decode p c (map next events ++ told_to_stop ∷ later) s ≡ (
      loop decode p events s,
      (if empty c.metrics_listen then codes ":9334" else c.metrics_listen)
          ∷ elim c.power_api [ none ↦ [] | some spec ↦ spec.listen ∷ [] ],
    )
unfolding select loop servers metrics_listen
select-loop decode p c [] later s = refl
select-loop decode p c (e ∷ events) later s =
    select-loop decode p c events later (on_event decode p e s)
