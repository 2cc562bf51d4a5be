-- ===== src/Config/File.antt =====
-- The reading of internal/config/config.go: the file, YAML and durations. YAML and the parser of durations are
-- parameters, with `N` for a node of the document and `E` for the errors.
use nut_dog.Prelude.{◌≡◌, ◌≢◌, refl, ap, subst, ◌∙◌, ◌⊎◌, inl, inr, arith, Text}
use nut_dog.Clock.{Duration}
use nut_dog.Config.{Config, ConfigError, nil_duration, load, with_defaults}
use nut_dog.Config.Accepted.{IsValid}
use nut_dog.Config.Derived.{load_refused, load_total}

-- The errors of `UnmarshalYAML`: of the node, or of the text that is no duration.
pub data DurationError (E : Type 0) : Type 0 where
  no_string : E → DurationError E
  invalid_duration : Text → E → DurationError E

-- yaml.Unmarshal, which calls back at each node that is to be a duration, and (*yaml.Node).Decode to a
-- string; `parse_duration` is time.ParseDuration, and `read_file` os.ReadFile.
pub record Source (N E : Type 0) : Type 0 where
  pub read_file : Text → E ⊎ Text
  pub decode_string : N → E ⊎ Text
  pub parse_duration : Text → E ⊎ Duration
  pub unmarshal : (N → DurationError E ⊎ Duration) → Text → E ⊎ Config

pub data LoadError (E : Type 0) : Type 0 where
  unreadable : E → LoadError E
  parse_failed : Text → E → LoadError E
  refused : ConfigError → LoadError E

module _ {N E : Type 0} (f : Source N E) where
  abbrev pub parsed : Text → E ⊎ Duration → DurationError E ⊎ Duration
  parsed s (inl e) = inl (invalid_duration s e)
  parsed s (inr d) = inr d

  abbrev pub duration_of : E ⊎ Text → DurationError E ⊎ Duration
  duration_of (inl e) = inl (no_string e)
  duration_of (inr s) = parsed s (f.parse_duration s)

  -- Duration.UnmarshalYAML
  unfoldable pub unmarshal_duration : N → DurationError E ⊎ Duration
  unmarshal_duration node = duration_of (f.decode_string node)

  -- `Load` behind its three steps
  abbrev pub checked : ConfigError ⊎ Config → LoadError E ⊎ Config
  checked (inl e) = inl (refused e)
  checked (inr c) = inr c

  abbrev pub unmarshalled : Text → E ⊎ Config → LoadError E ⊎ Config
  unmarshalled path (inl e) = inl (parse_failed path e)
  unmarshalled path (inr c) = checked (load c)

  abbrev pub contents : Text → E ⊎ Text → LoadError E ⊎ Config
  contents path (inl e) = inl (unreadable e)
  contents path (inr raw) = unmarshalled path (f.unmarshal unmarshal_duration raw)

  -- Load
  unfoldable pub load_file : Text → LoadError E ⊎ Config
  unfolding unmarshal_duration load
  load_file path = contents path (f.read_file path)

  -- Why there is no configuration: the file is not read, or not parsed, or what it holds is not valid with the
  -- defaults filled in. The panic on a duration that is nil is none of it.
  abbrev pub ExplainsLoad : Text → LoadError E → Type 0
  ExplainsLoad path (unreadable e) = f.read_file path ≡ inl e
  ExplainsLoad path (parse_failed at e) =
      (raw : Text) × (f.read_file path ≡ inr raw)
      × (f.unmarshal unmarshal_duration raw ≡ inl e)
      × (at ≡ path)
  ExplainsLoad path (refused e) =
      (raw : Text) × (parsed_as : Config) × (f.read_file path ≡ inr raw)
      × (f.unmarshal unmarshal_duration raw ≡ inr parsed_as)
      × (¬ IsValid (with_defaults parsed_as))
      × (e ≢ nil_duration)

  -- A configuration, or an error with its reason.
  abbrev IsOutcome : Text → LoadError E ⊎ Config → Type 0
  IsOutcome path (inl e) = ExplainsLoad path e
  IsOutcome path (inr c) = Unit

  checked-IsOutcome :
      (path raw : Text) (d : Config) (x : ConfigError ⊎ Config)
      → f.read_file path ≡ inr raw
      → f.unmarshal unmarshal_duration raw ≡ inr d
      → load d ≡ x
      → IsOutcome path (checked x)
  checked-IsOutcome path raw d (inr c) read yaml e = tt
  checked-IsOutcome path raw d (inl x) read yaml e =
      (raw, d, read, yaml, load_refused d x e, λ nil. load_total d (e ∙ ap inl nil))

  yaml-IsOutcome :
      (path raw : Text) (x : E ⊎ Config)
      → f.read_file path ≡ inr raw
      → f.unmarshal unmarshal_duration raw ≡ x
      → IsOutcome path (unmarshalled path x)
  yaml-IsOutcome path raw (inl e) read yaml = (raw, read, yaml, refl)
  yaml-IsOutcome path raw (inr d) read yaml = checked-IsOutcome path raw d (load d) read yaml refl

  contents-IsOutcome :
      (path : Text) (x : E ⊎ Text) → f.read_file path ≡ x → IsOutcome path (contents path x)
  contents-IsOutcome path (inl e) read = read
  contents-IsOutcome path (inr raw) read =
      yaml-IsOutcome path raw (f.unmarshal unmarshal_duration raw) read refl

  pub load_file-ExplainsLoad :
      (path : Text) (e : LoadError E) → load_file path ≡ inl e → ExplainsLoad path e
  unfolding load_file
  load_file-ExplainsLoad path e failed =
      subst (IsOutcome path) failed (contents-IsOutcome path (f.read_file path) refl)

  -- What a file that is accepted holds: a configuration that is parsed and that `load` takes.
  pub load_file_inv :
      (path : Text) (c : Config)
      → load_file path ≡ inr c
      → (raw : Text) × (parsed_as : Config) × (f.read_file path ≡ inr raw)
        × (f.unmarshal unmarshal_duration raw ≡ inr parsed_as)
        × (load parsed_as ≡ inr c)
  unfolding load_file
  load_file_inv path c h = of_file (f.read_file path) refl h
    where
      of_check : (x : ConfigError ⊎ Config) → checked x ≡ inr c → x ≡ inr c
      of_check (inl e) k = absurd (ground arith)
      of_check (inr d) k = ground arith

      of_yaml :
          (raw : Text) (x : E ⊎ Config)
          → f.read_file path ≡ inr raw
          → f.unmarshal unmarshal_duration raw ≡ x
          → unmarshalled path x ≡ inr c
          → (raw : Text) × (parsed_as : Config) × (f.read_file path ≡ inr raw)
            × (f.unmarshal unmarshal_duration raw ≡ inr parsed_as)
            × (load parsed_as ≡ inr c)
      of_yaml raw (inl e) at same k = absurd (ground arith)
      of_yaml raw (inr d) at same k = (raw, d, at, same, of_check (load d) k)

      of_file :
          (x : E ⊎ Text)
          → f.read_file path ≡ x
          → contents path x ≡ inr c
          → (raw : Text) × (parsed_as : Config) × (f.read_file path ≡ inr raw)
            × (f.unmarshal unmarshal_duration raw ≡ inr parsed_as)
            × (load parsed_as ≡ inr c)
      of_file (inl e) same k = absurd (ground arith)
      of_file (inr raw) same k = of_yaml raw (f.unmarshal unmarshal_duration raw) same refl k
