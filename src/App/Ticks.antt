-- ===== src/App/Ticks.antt =====
-- One tick: what it applies, given what it has read.
use nut_dog.Prelude.{
  ◌≡◌, sym, subst, ◌⊎◌, some, All, All-map_of, Any, In, of_All-In, arith, Text, lookup, lookup_or,
  UniqueKeys,
}
use nut_dog.Control.{LoadConfig, LoadType, source_shed, no_request, request_off, action, decide}
use nut_dog.Control.Actions.{IsPowerOn}
use nut_dog.Control.Decision.{state_of, observed}
use nut_dog.Control.Decision.Safety.{
  IsJustified, decide-IsJustified, decide_sheds, shed_kind, IsShedBy, IsShedBy-map,
}
use nut_dog.App.{Ports, Controller, read_all, plan, on_metrics, record_tick}
use nut_dog.App.Grace.{hold_startup_wakes-sheds, In-hold_power_on}

sheds_off : (lt : LoadType) → ¬ IsPowerOn (shed_kind lt)
sheds_off lt h = ground arith

module _ {W : Type 0} (p : Ports W) (c : Controller) (w : W) where
  -- What a tick applies is justified by what it has read: every action is for a configured load; one
  -- that sheds it is there only if one of its UPSes is critical or off is requested, and one that
  -- releases, wakes or powers it up, only if all its UPSes are healthy and the request is none or on.
  pub plan-IsJustified : All (IsJustified c.ups_configs c.loads (read_all p c w).0) (plan p c w).1
  unfolding plan
  plan-IsJustified =
      let (r, w₁) = read_all p c w in
      let decided = decide c.ups_configs c.loads r in
      All-map_of (λ a m. of_All-In _ decided a (decide-IsJustified c.ups_configs c.loads r) m) _
        (hold_startup_wakes-sheds p c decided (on_metrics p (record_tick c r) w₁)).0

  shed_kept :
      (lt : LoadType) (l : Text)
      → In (action (shed_kind lt) l) (decide c.ups_configs c.loads (read_all p c w).0)
      → In (action (shed_kind lt) l) (plan p c w).1
  unfolding plan
  shed_kept lt l m =
      let (r, w₁) = read_all p c w in
      let decided = decide c.ups_configs c.loads r in
      let a = action (shed_kind lt) l in
      let same = (hold_startup_wakes-sheds p c decided (on_metrics p (record_tick c r) w₁)).1 in
      ((In-hold_power_on a _).0
        (subst (λ xs. In a xs) (sym same) ((In-hold_power_on a decided).1 (m, sheds_off lt)))).0

  -- In every tick, also during the startup grace, of a configured load with a critical UPS or with a request for off: a
  -- chassis is down, its power state could not be read, or the action that shuts it down is applied; the shed signal of
  -- a NUT server is asserted, or the action that asserts it is applied.
  pub plan_sheds :
      (l : Text) (lc : LoadConfig)
      → UniqueKeys c.loads
      → lookup l c.loads ≡ some lc
      → Any (λ u. state_of c.ups_configs (read_all p c w).0.tel u ≡ source_shed) lc.governed_by
        ⊎ (lookup_or no_request l (read_all p c w).0.ext ≡ request_off)
      → IsShedBy lc.type l (observed (read_all p c w).0 l) (plan p c w).1
  plan_sheds l lc unique e why =
      IsShedBy-map lc.type l (observed (read_all p c w).0 l)
        (decide c.ups_configs c.loads (read_all p c w).0) (plan p c w).1 (shed_kept lc.type l)
        (decide_sheds c.ups_configs c.loads (read_all p c w).0 l lc unique e why)
