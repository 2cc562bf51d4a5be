-- ===== src/App/Worlds.antt =====
-- What a whole tick leaves alone: of the calls that it makes, only the one that asks for the requests may change it.
use nut_dog.Prelude.{
  ◌≡◌, refl, ◌∙◌, Bool, true, false, Option-cases, inl, inr, some, List, leb_ℤ, pos, if◌then◌else◌,
}
use nut_dog.Clock.{sub_time, is_zero}
use nut_dog.Control.{Action, decide}
use nut_dog.Metrics.{Metrics, record_startup_grace}
use nut_dog.App.{
  Ports, Controller, read_all, requested, on_metrics, record_tick, start_clock, hold_since,
  hold_power_on, hold_startup_wakes, plan, observe, tick,
}
use nut_dog.App.Keeping.{asked_at}

module _ {W A : Type 0} (p : Ports W) (f : W → A) where
  -- The calls of a tick behind the requests do not change what `f` shows of the world.
  abbrev pub KeepsLater : Type 0
  KeepsLater =
      ((w : W) → f (p.now w).1 ≡ f w)
      × ((w : W) → f (p.unix_now w).1 ≡ f w)
      × ((update : (Metrics → Metrics) → W → W)
          → p.metrics ≡ some update
          → (g : Metrics → Metrics) (w : W) → f (update g w) ≡ f w)
      × ((actions : List Action) (w : W) → f (p.apply actions w) ≡ f w)

  module _ (keeps : KeepsLater) where
    on_metrics_keeps : (g : Metrics → Metrics) (w : W) → f (on_metrics p g w) ≡ f w
    on_metrics_keeps g w = elim (Option-cases p.metrics) [
      | inl e ↦ rw e refl
      | inr (update, e) ↦ rw e (keeps.2 update e g w)
    ]

    if_keeps :
        (b : Bool) (x y : Controller × List Action × W) (w : W)
        → f x.2 ≡ f w
        → f y.2 ≡ f w
        → f (if b then x else y).2 ≡ f w
    if_keeps true x y w h k = h
    if_keeps false x y w h k = k

    hold_since_keeps :
        (c : Controller) (actions : List Action) (w : W) → f (hold_since p c actions w).2 ≡ f w
    unfolding hold_since
    hold_since_keeps c actions w =
        let (t, w') = p.now w in
        if_keeps (leb_ℤ c.startup_grace (sub_time t c.started_at))
          (c, actions, on_metrics p (record_startup_grace false) w')
          (c, hold_power_on actions, on_metrics p (record_startup_grace true) w') w
          (on_metrics_keeps (record_startup_grace false) w' ∙ keeps.0 w)
          (on_metrics_keeps (record_startup_grace true) w' ∙ keeps.0 w)

    hold_startup_wakes_keeps :
        (c : Controller) (actions : List Action) (w : W)
        → f (hold_startup_wakes p c actions w).2 ≡ f w
    unfolding hold_startup_wakes start_clock
    hold_startup_wakes_keeps c actions w =
        let (t, w') = p.now w in
        if_keeps (leb_ℤ c.startup_grace (pos 0)) (c, actions, w) _ w refl
          (if_keeps (is_zero c.started_at) (hold_since p (record c { started_at = t }) actions w')
            (hold_since p c actions w) w
            (hold_since_keeps (record c { started_at = t }) actions w' ∙ keeps.0 w)
            (hold_since_keeps c actions w))

    observe_keeps : (w : W) → f (observe p w) ≡ f w
    unfolding observe
    observe_keeps w = elim (Option-cases p.metrics) [
      | inl e ↦ rw (observe, e) refl
      | inr (update, e) ↦ rw (observe, e) (keeps.2 update e _ (p.unix_now w).1 ∙ keeps.1 w)
    ]

    -- Of it a tick leaves what asking for the requests does.
    pub tick_keeps_asked :
        (c : Controller) (w : W) → f (tick p c w).1 ≡ f (requested p (asked_at p c w)).1
    unfolding tick plan read_all
    tick_keeps_asked c w =
        let (r, w₁) = read_all p c w in
        let decided = decide c.ups_configs c.loads r in
        let (c', actions, w') =
          hold_startup_wakes p c decided (on_metrics p (record_tick c r) w₁) in
        observe_keeps (p.apply actions w')
        ∙ keeps.3 actions w'
        ∙ hold_startup_wakes_keeps c decided (on_metrics p (record_tick c r) w₁)
        ∙ on_metrics_keeps (record_tick c r) w₁
