-- ===== src/Effects.antt =====
-- internal/effects/effects.go: the executor. `W` is the outside world, and an implementation of an
-- effect is a function on it that may fail with an `E`. An interface that is nil is `none`.
pub mod Apply
pub mod Keeping
pub mod Shedder
pub mod Chassis
pub mod Wol
pub mod Ssh
use nut_dog.Prelude.{
  Bool, true, false, Option, none, some, List, [], ◌∷◌, Text, Dict, lookup, if◌then◌else◌,
}
use nut_dog.Control.{
  ActionKind, chassis_shutdown, chassis_power_up, assert_server_shed, release_server_shed,
  wake_server, Action, kind_string,
}
use nut_dog.Metrics.{Metrics, on_metrics, record_action}

-- A call that returns an `error`.
abbrev pub Effect : Type 0 → Type 0 → Type 0
Effect E W = W → Option E × W

-- Chassis
pub record ChassisEffect (E W : Type 0) : Type 0 where
  pub shutdown : Text → Effect E W
  pub power_up : Text → Effect E W

-- Shedder
pub record ShedderEffect (E W : Type 0) : Type 0 where
  pub assert : Text → Effect E W
  pub release : Text → Effect E W

-- Waker
pub record WakerEffect (E W : Type 0) : Type 0 where
  pub wake : Text → Text → Effect E W

pub record Target : Type 0 where
  pub cmc_host : Text
  pub wake_mac : Text
  pub wake_bcast : Text

pub record Executor (E W : Type 0) : Type 0 where
  pub dry_run : Bool
  pub targets : Dict Target
  pub chassis : Option (ChassisEffect E W)
  pub shedder : Option (ShedderEffect E W)
  pub waker : Option (WakerEffect E W)

-- The errors of `do`, each with the load, and those of the effects.
pub data DoError (E : Type 0) : Type 0 where
  no_target : Text → DoError E
  chassis_not_configured : Text → DoError E
  shedder_not_configured : Text → DoError E
  waker_not_configured : Text → DoError E
  failed : E → DoError E

abbrev pub is_error : {E : Type 0} → Option E → Bool
is_error none = false
is_error (some e) = true

module _ {E W : Type 0} where
  abbrev pub wrap : Option E × W → Option (DoError E) × W
  wrap (none, w) = (none, w)
  wrap (some e, w) = (some (failed e), w)

  unfoldable pub do_chassis :
      Option (ChassisEffect E W) → Text → (ChassisEffect E W → Effect E W) → Effect (DoError E) W
  do_chassis none load call w = (some (chassis_not_configured load), w)
  do_chassis (some c) load call w = wrap (call c w)

  unfoldable pub do_shedder :
      Option (ShedderEffect E W) → Text → (ShedderEffect E W → Effect E W) → Effect (DoError E) W
  do_shedder none load call w = (some (shedder_not_configured load), w)
  do_shedder (some s) load call w = wrap (call s w)

  unfoldable pub do_waker :
      Option (WakerEffect E W) → Text → (WakerEffect E W → Effect E W) → Effect (DoError E) W
  do_waker none load call w = (some (waker_not_configured load), w)
  do_waker (some k) load call w = wrap (call k w)

  -- The `switch` of `do`.
  unfoldable pub dispatch : Executor E W → Target → ActionKind → Text → Effect (DoError E) W
  unfolding do_chassis do_shedder do_waker
  dispatch x t chassis_shutdown load = do_chassis x.chassis load (λ c. c.shutdown t.cmc_host)
  dispatch x t chassis_power_up load = do_chassis x.chassis load (λ c. c.power_up t.cmc_host)
  dispatch x t assert_server_shed load = do_shedder x.shedder load (λ s. s.assert load)
  dispatch x t release_server_shed load = do_shedder x.shedder load (λ s. s.release load)
  dispatch x t wake_server load = do_waker x.waker load (λ k. k.wake t.wake_mac t.wake_bcast)

  -- do
  unfoldable pub do_action : Executor E W → Action → Effect (DoError E) W
  unfolding dispatch
  do_action x a w = if x.dry_run then (none, w) else elim (lookup a.load x.targets) [
    | none ↦ (some (no_target a.load), w)
    | some t ↦ dispatch x t a.kind a.load w
  ]

  -- Apply
  unfoldable pub apply : Executor E W → List Action → Option Metrics → W → Option Metrics × W
  apply x [] m w = (m, w)
  apply x (a ∷ actions) m w =
      let (err, w') = do_action x a w in
      apply x actions (on_metrics (record_action a.load (kind_string a.kind) (is_error err)) m) w'
