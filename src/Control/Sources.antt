-- ===== src/Control/Sources.antt =====
-- What a UPS reading means, and what its UPSes and a request want of a load: `Classify` and
-- `DesiredForLoad` against their descriptions.
use nut_dog.Prelude.{
  ◌≡◌, refl, ◌↔◌, ◌⊎◌, inl, inr, Bool, true, false, List, [], ◌∷◌, arith, All, Any, ℤ, pos, negsuc,
  ◌≤ℤ◌, ◌||◌, ◌&&◌,
}
use nut_dog.Control.{
  Telemetry, UpsConfig, SourceState, source_unknown, source_shed, source_hold, source_healthy,
  desired_off, desired_on, Request, no_request, request_off, request_on, Seen, see_all, verdict,
  classify, desired_from_sources, desired_for_load,
}

-- A floor counts where the value was read at all, that is where it is not negative.
abbrev pub IsAtFloor : ℤ → ℤ → Type 0
IsAtFloor value floor = (pos 0 ≤ℤ value) × (value ≤ℤ floor)

-- What makes a UPS critical: on battery, with its own low-battery flag or at one of the floors,
-- where a charge floor that is not positive is switched off.
abbrev pub IsCritical : UpsConfig → Telemetry → Type 0
IsCritical c t =
    (t.status.on_battery ≡ true)
    × ((t.status.low_battery ≡ true)
        ⊎ (IsAtFloor t.runtime c.shed_runtime
            ⊎ ((pos 1 ≤ℤ c.shed_charge) × IsAtFloor t.charge c.shed_charge)))

-- What makes it fit to power loads on: on line and not on battery, with a charge that is unread or
-- has reached the recovery floor.
abbrev pub IsRecovered : UpsConfig → Telemetry → Type 0
IsRecovered c t =
    (t.status.on_battery ≡ false)
    × (t.status.on_line ≡ true)
    × ((t.charge ≤ℤ negsuc 0) ⊎ (c.recover_charge ≤ℤ t.charge))

-- A reading is classified unknown exactly when the poll failed, as shed exactly when it succeeded
-- and the UPS is critical, and as healthy exactly when it succeeded and the UPS has recovered.
pub classify_exact :
    (c : UpsConfig) (t : Telemetry)
    → ((classify c t ≡ source_unknown) ↔ (t.ok ≡ false))
      × ((classify c t ≡ source_shed) ↔ ((t.ok ≡ true) × IsCritical c t))
      × ((classify c t ≡ source_healthy) ↔ ((t.ok ≡ true) × IsRecovered c t))
unfolding classify
classify_exact c t = (
  (λ h. ground arith, λ h. ground arith),
  (λ h. ground arith, λ h. ground arith),
  (λ h. ground arith, λ h. ground arith),
)

-- A UPS that is classified as shed stays so while it is on battery and its runtime and its charge,
-- both read before and after, do not rise and its low-battery flag does not clear.
pub classify_mono :
    (c : UpsConfig) (t u : Telemetry)
    → classify c t ≡ source_shed
    → u.ok ≡ true
    → u.status.on_battery ≡ true
    → (t.status.low_battery ≡ true → u.status.low_battery ≡ true)
    → (pos 0 ≤ℤ u.runtime) × (u.runtime ≤ℤ t.runtime)
    → (pos 0 ≤ℤ u.charge) × (u.charge ≤ℤ t.charge)
    → classify c u ≡ source_shed
unfolding classify
classify_mono c t u shed ok battery low runtime charge = ground arith

is_shed : SourceState → Bool
is_shed source_shed = true
is_shed s = false

is_unknown : SourceState → Bool
is_unknown source_unknown = true
is_unknown s = false

is_healthy : SourceState → Bool
is_healthy source_healthy = true
is_healthy s = false

any : (SourceState → Bool) → List SourceState → Bool
any p [] = false
any p (s ∷ ss) = p s || any p ss

all : (SourceState → Bool) → List SourceState → Bool
all p [] = true
all p (s ∷ ss) = p s && all p ss

-- The loop computes its three variables independently of one another.
see_all-any :
    (v : Seen) (ss : List SourceState)
    → ((see_all v ss).any_shed ≡ (v.any_shed || any is_shed ss))
      × ((see_all v ss).any_unknown ≡ (v.any_unknown || any is_unknown ss))
      × ((see_all v ss).all_healthy ≡ (v.all_healthy && all is_healthy ss))
unfolding see_all any all is_shed is_unknown is_healthy
see_all-any v [] = ground arith
see_all-any v (source_unknown ∷ ss) =
    ground (arith, see_all-any (record v { all_healthy = false; any_unknown = true }) ss)
see_all-any v (source_shed ∷ ss) =
    ground (arith, see_all-any (record v { all_healthy = false; any_shed = true }) ss)
see_all-any v (source_hold ∷ ss) = ground (arith, see_all-any (record v { all_healthy = false }) ss)
see_all-any v (source_healthy ∷ ss) = ground (arith, see_all-any v ss)

any-shed_iff : (ss : List SourceState) → (any is_shed ss ≡ true) ↔ Any (λ s. s ≡ source_shed) ss
unfolding any is_shed
any-shed_iff [] = (λ h. cc, λ h. absurd h)
any-shed_iff (source_shed ∷ ss) = (λ h. inl refl, λ h. refl)
any-shed_iff (s ∷ ss) = (λ h. inr ((any-shed_iff ss).0 h), λ h. ground (arith, (any-shed_iff ss).1))

all-healthy_iff :
    (ss : List SourceState) → (all is_healthy ss ≡ true) ↔ All (λ s. s ≡ source_healthy) ss
unfolding all is_healthy
all-healthy_iff [] = (λ h. tt, λ h. refl)
all-healthy_iff (source_healthy ∷ ss) =
    (λ h. (refl, (all-healthy_iff ss).0 h), λ h. (all-healthy_iff ss).1 h.1)
all-healthy_iff (s ∷ ss) = (λ h. cc, λ h. ground arith)

-- Where all sources are healthy none is critical or unknown.
all-healthy_excludes :
    (ss : List SourceState)
    → all is_healthy ss ≡ true
    → (any is_shed ss ≡ false) × (any is_unknown ss ≡ false)
unfolding all any is_healthy is_shed is_unknown
all-healthy_excludes [] h = (refl, refl)
all-healthy_excludes (source_healthy ∷ ss) h = all-healthy_excludes ss h
all-healthy_excludes (s ∷ ss) h = cc

abbrev nothing_seen : Seen
nothing_seen = record { any_shed = false; any_unknown = false; all_healthy = true }

-- The request by which the UPSes decide alone, or which asks for power.
abbrev pub LetsRun : Request → Type 0
LetsRun req = (req ≡ no_request) ⊎ (req ≡ request_on)

-- A load is wanted off exactly when a governing UPS is critical or off is requested, and wanted on
-- exactly when every governing UPS is healthy and the request is none or on.
pub desired_for_load_exact :
    (ss : List SourceState) (req : Request)
    → ((desired_for_load ss req ≡ desired_off)
        ↔ (Any (λ s. s ≡ source_shed) ss ⊎ (req ≡ request_off)))
      × ((desired_for_load ss req ≡ desired_on) ↔ (All (λ s. s ≡ source_healthy) ss × LetsRun req))
unfolding desired_for_load desired_from_sources verdict
desired_for_load_exact ss req = (
  (
    λ h. ground (arith, see_all-any nothing_seen ss, (any-shed_iff ss).0),
    λ h. ground (arith, see_all-any nothing_seen ss, (any-shed_iff ss).1),
  ),
  (
    λ h. ground (arith, see_all-any nothing_seen ss, (all-healthy_iff ss).0),
    λ h.
        ground
          (arith, see_all-any nothing_seen ss, (all-healthy_iff ss).1 h.0, all-healthy_excludes ss),
  ),
)
