-- ===== src/Metrics/Polls.antt =====
-- RecordPoll of internal/metrics/metrics.go: what a poll of a UPS records. `F` is float64, with the
-- parser of strconv.ParseFloat, the product and the 1 of the table's scales.
use nut_dog.Prelude.{
  ℕ, ◌+◌, ◌≡◌, refl, sym, ap, subst, ◌∙◌, ◌⊎◌, inl, inr, Option-cases, some_inj, All-map_of, Bool,
  true, false, not, ◌&&◌, Option, none, some, List, [], ◌∷◌, arith, All, Text, codes, ◌==◌, eq_iff,
  Dict, lookup, lookup_or, insert, delete, fill, lookup-insert, lookup-delete, ℤ, if◌then◌else◌,
}
use Prim.Native.String.{String}
use nut_dog.GoStrings.{fields, trim_space}
use nut_dog.Metrics.{Vec2, series, set_series, b2f}
use nut_dog.Metrics.OneHot.{series-set_series}

-- statusFlags
abbrev pub status_flags : List Text
status_flags =
    codes "OL"
    ∷ codes "OB"
    ∷ codes "LB"
    ∷ codes "RB"
    ∷ codes "CHRG"
    ∷ codes "DISCHRG"
    ∷ codes "BYPASS"
    ∷ codes "CAL"
    ∷ codes "TEST"
    ∷ codes "OVER"
    ∷ codes "TRIM"
    ∷ codes "BOOST"
    ∷ codes "OFF"
    ∷ codes "ALARM"
    ∷ []

-- tokenSet
unfoldable pub token_set : Text → Dict Bool
unfolding fields
token_set status = fill (λ _. true) (fields status)

-- The loop over the flags.
unfoldable pub record_flags : Text → Dict Bool → List Text → Vec2 ℕ → Vec2 ℕ
record_flags ups present [] g = g
record_flags ups present (flag ∷ flags) g =
    record_flags ups present flags (set_series ups flag (b2f (lookup_or false flag present)) g)

-- An entry of `telemetrySpecs`; `first` is the first of its names.
pub record Spec (F : Type 0) : Type 0 where
  pub first : Text
  pub aliases : List Text
  pub metric : Text
  pub help : Text
  pub scale : F

-- The collectors that a poll writes. The gauge of a spec is found under the first of its names, and is a
-- vector by UPS.
pub record PollMetrics (F : Type 0) : Type 0 where
  pub ups_reachable : Dict ℕ
  pub ups_last_success : Dict ℤ
  pub ups_poll_fails : Dict ℕ
  pub ups_status : Vec2 ℕ
  pub telemetry : Vec2 F

-- No spec has its gauge at this name.
abbrev pub IsFree : {F : Type 0} → Text → List (Spec F) → Type 0
IsFree a specs = All (λ s. (s.first == a) ≡ false) specs

-- No two specs share a gauge.
abbrev pub HasOwnGauges : {F : Type 0} → List (Spec F) → Type 0
HasOwnGauges [] = Unit
HasOwnGauges (s ∷ specs) = IsFree s.first specs × HasOwnGauges specs

module _ {F : Type 0} (parse_float : Text → Option F) (times : F → F → F) where
  -- firstFloat
  unfoldable pub first_float : Dict Text → List Text → Option F
  unfolding trim_space
  first_float vars [] = none
  first_float vars (n ∷ names) =
      let rest = first_float vars names in
      elim (lookup n vars) [
        | none ↦ rest
        | some raw ↦ elim (parse_float (trim_space raw)) [ none ↦ rest | some v ↦ some v ]
      ]

  -- What the gauge of a spec is to show of a UPS with these variables.
  unfoldable pub reading : Dict Text → Spec F → Option F
  unfolding first_float
  reading vars spec = elim (first_float vars (spec.first ∷ spec.aliases)) [
    | none ↦ none
    | some v ↦ some (times v spec.scale)
  ]

  -- g.WithLabelValues(ups).Set(v), or g.DeleteLabelValues(ups)
  unfoldable pub write_gauge : Text → Text → Option F → Vec2 F → Vec2 F
  write_gauge gauge ups none g = insert gauge (delete ups (lookup_or [] gauge g)) g
  write_gauge gauge ups (some v) g = set_series gauge ups v g

  -- The loop over the specs.
  unfoldable pub record_telemetry : Text → Dict Text → List (Spec F) → Vec2 F → Vec2 F
  unfolding write_gauge reading
  record_telemetry ups vars [] g = g
  record_telemetry ups vars (spec ∷ specs) g =
      record_telemetry ups vars specs (write_gauge spec.first ups (reading vars spec) g)

  -- RecordPoll over a table of specs, at the clock's Unix time
  unfoldable pub record_poll :
      List (Spec F) → Text → Bool → Dict Text → ℤ → PollMetrics F → PollMetrics F
  unfolding record_flags record_telemetry token_set b2f
  record_poll specs ups ok vars now m =
      if not ok
      then record m {
        ups_reachable = insert ups (b2f ok) m.ups_reachable;
        ups_poll_fails = insert ups (lookup_or 0 ups m.ups_poll_fails + 1) m.ups_poll_fails;
      }
      else record m {
        ups_reachable = insert ups (b2f ok) m.ups_reachable;
        ups_last_success = insert ups now m.ups_last_success;
        ups_status =
            record_flags ups (token_set (lookup_or [] (codes "ups.status") vars)) status_flags
              m.ups_status;
        telemetry = record_telemetry ups vars specs m.telemetry;
      }

  -- The variable is not there, or it is no number.
  abbrev pub IsNoNumber : Dict Text → Text → Type 0
  IsNoNumber vars n = (raw : Text) → lookup n vars ≡ some raw → parse_float (trim_space raw) ≡ none

  -- The first of the variables that is there and a number.
  abbrev pub IsFirst : Dict Text → List Text → Option F → Type 0
  IsFirst vars names none = All (IsNoNumber vars) names
  IsFirst vars [] (some v) = ⊥
  IsFirst vars (n ∷ names) (some v) =
      ((raw : Text) × (lookup n vars ≡ some raw) × (parse_float (trim_space raw) ≡ some v))
      ⊎ (IsNoNumber vars n × IsFirst vars names (some v))

  -- What a gauge shows is that number, scaled, and nothing where there is none.
  abbrev pub Shows : Dict Text → Spec F → Option F → Type 0
  Shows vars spec shown =
      (x : Option F) × IsFirst vars (spec.first ∷ spec.aliases) x
      × (shown ≡ elim x [ none ↦ none | some v ↦ some (times v spec.scale) ])

  IsFirst-skips :
      (vars : Dict Text) (n : Text) (names : List Text) (x : Option F)
      → IsNoNumber vars n
      → IsFirst vars names x
      → IsFirst vars (n ∷ names) x
  IsFirst-skips vars n names none h k = (h, k)
  IsFirst-skips vars n names (some v) h k = inr (h, k)

  first_float-IsFirst :
      (vars : Dict Text) (names : List Text) → IsFirst vars names (first_float vars names)
  unfolding first_float
  first_float-IsFirst vars [] = tt
  first_float-IsFirst vars (n ∷ names) =
      let rest = first_float-IsFirst vars names in
      elim (Option-cases (lookup n vars)) [
        | inl e ↦
            rw (first_float, e)
              (IsFirst-skips vars n names (first_float vars names)
                (λ raw f. absurd (ground (arith, e, f))) rest)
        | inr (raw, e) ↦ elim (Option-cases (parse_float (trim_space raw))) [
          | inl f ↦
              rw (first_float, e, f)
                (IsFirst-skips vars n names (first_float vars names)
                  (λ raw' g. ap parse_float (ap trim_space (some_inj raw' raw (sym g ∙ e))) ∙ f)
                  rest)
          | inr (v, f) ↦ rw (first_float, e, f) (inl (raw, e, f))
        ]
      ]

  reading-Shows : (vars : Dict Text) (spec : Spec F) → Shows vars spec (reading vars spec)
  unfolding reading
  reading-Shows vars spec = (
    first_float vars (spec.first ∷ spec.aliases),
    first_float-IsFirst vars (spec.first ∷ spec.aliases),
    refl,
  )

  series-write_gauge :
      (gauge ups a b : Text) (o : Option F) (g : Vec2 F)
      → series a b (write_gauge gauge ups o g)
        ≡ (if gauge == a && ups == b then o else series a b g)
  unfolding write_gauge series lookup_or
  series-write_gauge gauge ups a b none g = ground (
    arith,
    eq_iff gauge a,
    lookup-insert gauge a (delete ups (lookup_or [] gauge g)) g,
    lookup-delete ups b (lookup_or [] gauge g),
  )
  series-write_gauge gauge ups a b (some v) g = series-set_series gauge ups a b v g

  telemetry_free :
      (ups : Text) (vars : Dict Text) (specs : List (Spec F)) (g : Vec2 F) (a b : Text)
      → IsFree a specs
      → series a b (record_telemetry ups vars specs g) ≡ series a b g
  unfolding record_telemetry
  telemetry_free ups vars [] g a b h = refl
  telemetry_free ups vars (s ∷ specs) g a b h = ground (
    arith,
    telemetry_free ups vars specs (write_gauge s.first ups (reading vars s) g) a b h.1,
    series-write_gauge s.first ups a b (reading vars s) g,
  )

  telemetry_other :
      (ups : Text) (vars : Dict Text) (specs : List (Spec F)) (g : Vec2 F) (a b : Text)
      → (ups == b) ≡ false
      → series a b (record_telemetry ups vars specs g) ≡ series a b g
  unfolding record_telemetry
  telemetry_other ups vars [] g a b h = refl
  telemetry_other ups vars (s ∷ specs) g a b h = ground (
    arith,
    telemetry_other ups vars specs (write_gauge s.first ups (reading vars s) g) a b h,
    series-write_gauge s.first ups a b (reading vars s) g,
  )

  telemetry_own :
      (ups : Text) (vars : Dict Text) (specs : List (Spec F)) (g : Vec2 F)
      → HasOwnGauges specs
      → All (λ s. series s.first ups (record_telemetry ups vars specs g) ≡ reading vars s) specs
  unfolding record_telemetry
  telemetry_own ups vars [] g h = tt
  telemetry_own ups vars (s ∷ specs) g h =
      let g' = write_gauge s.first ups (reading vars s) g in
      (
        ground (
          arith,
          telemetry_free ups vars specs g' s.first ups h.0,
          series-write_gauge s.first ups s.first ups (reading vars s) g,
          eq_iff s.first s.first,
          eq_iff ups ups,
        ),
        telemetry_own ups vars specs g' h.1,
      )

  -- A failed poll is counted and marks the UPS as not reachable, and leaves its last telemetry, its status
  -- and the time of its last success as they were.
  pub record_poll_failed :
      (specs : List (Spec F)) (ups : Text) (vars : Dict Text) (now : ℤ) (m : PollMetrics F)
      → let after = record_poll specs ups false vars now m in
        (after
          ≡ record m { ups_reachable = after.ups_reachable; ups_poll_fails = after.ups_poll_fails })
        × (lookup ups after.ups_reachable ≡ some 0)
        × (lookup_or 0 ups after.ups_poll_fails ≡ lookup_or 0 ups m.ups_poll_fails + 1)
  unfolding record_poll lookup_or b2f
  record_poll_failed specs ups vars now m = (
    refl,
    ground (arith, lookup-insert ups ups 0 m.ups_reachable, eq_iff ups ups),
    ground (
      arith,
      lookup-insert ups ups (lookup_or 0 ups m.ups_poll_fails + 1) m.ups_poll_fails,
      eq_iff ups ups,
    ),
  )

module _ {F : Type 0} (one : F) where
  -- telemetrySpecs
  unfoldable pub telemetry_specs : List (Spec F)
  telemetry_specs =
      spec "battery.charge" [] "nut_dog_ups_battery_charge_percent" "Battery charge, percent."
      ∷ spec "battery.runtime" [] "nut_dog_ups_battery_runtime_seconds"
          "Estimated battery runtime, seconds."
      ∷ spec "battery.voltage" [] "nut_dog_ups_battery_voltage_volts" "Battery voltage, volts."
      ∷ spec "input.voltage" [] "nut_dog_ups_input_voltage_volts" "Input (mains) voltage, volts."
      ∷ spec "input.frequency" [] "nut_dog_ups_input_frequency_hertz" "Input frequency, hertz."
      ∷ spec "input.current" [] "nut_dog_ups_input_current_amperes" "Input current, amperes."
      ∷ spec "output.voltage" [] "nut_dog_ups_output_voltage_volts" "Output voltage, volts."
      ∷ spec "output.frequency" [] "nut_dog_ups_output_frequency_hertz" "Output frequency, hertz."
      ∷ spec "output.current" [] "nut_dog_ups_output_current_amperes" "Output current, amperes."
      ∷ spec "ups.power" (codes "output.power" ∷ []) "nut_dog_ups_output_power_voltamperes"
          "Output apparent power, volt-amperes."
      ∷ spec "ups.realpower" [] "nut_dog_ups_output_realpower_watts" "Output real power, watts."
      ∷ spec "ups.load" [] "nut_dog_ups_load_percent" "UPS load, percent of capacity."
      ∷ spec "ups.temperature" [] "nut_dog_ups_temperature_celsius" "UPS temperature, celsius."
      ∷ []
    where
      spec : String → List Text → String → String → Spec F
      spec first aliases metric help = record {
        first = codes first;
        aliases = aliases;
        metric = codes metric;
        help = codes help;
        scale = one;
      }

  own_gauges : HasOwnGauges telemetry_specs
  unfolding telemetry_specs ◌==◌
  own_gauges = ground arith

  -- A successful poll leaves each gauge of the table, for the polled UPS, at the scaled value of the first
  -- of its variables that is there and a number, and without a series where there is none; the gauges of
  -- another UPS stay as they were.
  pub record_poll-telemetry :
      (parse_float : Text → Option F) (times : F → F → F) (ups other : Text) (vars : Dict Text)
      (now : ℤ) (m : PollMetrics F)
      → (ups == other) ≡ false
      → let after = record_poll parse_float times telemetry_specs ups true vars now m in
        All
          (λ s. Shows parse_float times vars s (series s.first ups after.telemetry))
          telemetry_specs
        × ((a : Text) → series a other after.telemetry ≡ series a other m.telemetry)
  unfolding record_poll
  record_poll-telemetry parse_float times ups other vars now m ne = (
    All-map_of
        (λ s e.
          subst (Shows parse_float times vars s) (sym e) (reading-Shows parse_float times vars s))
        telemetry_specs
        (telemetry_own parse_float times ups vars telemetry_specs m.telemetry own_gauges),
    λ a. telemetry_other parse_float times ups vars telemetry_specs m.telemetry a other ne,
  )
