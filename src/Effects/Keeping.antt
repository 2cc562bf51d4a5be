-- ===== src/Effects/Keeping.antt =====
-- That carrying out actions changes nothing that no effect changes.
use nut_dog.Prelude.{
  ◌≡◌, refl, ◌∙◌, Bool-cases, inl, inr, Option, Option-cases, none, some, List, [], ◌∷◌, Text,
  lookup,
}
use nut_dog.Control.{
  Action, ActionKind, chassis_shutdown, chassis_power_up, assert_server_shed, release_server_shed,
  wake_server,
}
use nut_dog.Metrics.{Metrics}
use nut_dog.Effects.{
  Effect, ChassisEffect, ShedderEffect, WakerEffect, Target, Executor, wrap, dispatch, do_chassis,
  do_shedder, do_waker, do_action, apply,
}

module _ {E W A : Type 0} (f : W → A) where
  abbrev pub EffectKeeps : Effect E W → Type 0
  EffectKeeps call = (w : W) → f (call w).1 ≡ f w

  -- No effect of the executor changes what `f` shows.
  abbrev pub ExecutorKeeps : Executor E W → Type 0
  ExecutorKeeps x =
      ((c : ChassisEffect E W)
        → x.chassis ≡ some c
        → ((host : Text) → EffectKeeps (c.shutdown host))
          × ((host : Text) → EffectKeeps (c.power_up host)))
      × ((s : ShedderEffect E W)
          → x.shedder ≡ some s
          → ((l : Text) → EffectKeeps (s.assert l)) × ((l : Text) → EffectKeeps (s.release l)))
      × ((k : WakerEffect E W)
          → x.waker ≡ some k
          → (mac broadcast : Text) → EffectKeeps (k.wake mac broadcast))

  wrap_keeps : (r : Option E × W) → f (wrap r).1 ≡ f r.1
  wrap_keeps (none, w) = refl
  wrap_keeps (some e, w) = refl

  do_chassis_keeps :
      (c : Option (ChassisEffect E W)) (l : Text) (call : ChassisEffect E W → Effect E W) (w : W)
      → ((x : ChassisEffect E W) → c ≡ some x → EffectKeeps (call x))
      → f (do_chassis c l call w).1 ≡ f w
  unfolding do_chassis
  do_chassis_keeps none l call w h = refl
  do_chassis_keeps (some c) l call w h = wrap_keeps (call c w) ∙ h c refl w

  do_shedder_keeps :
      (s : Option (ShedderEffect E W)) (l : Text) (call : ShedderEffect E W → Effect E W) (w : W)
      → ((x : ShedderEffect E W) → s ≡ some x → EffectKeeps (call x))
      → f (do_shedder s l call w).1 ≡ f w
  unfolding do_shedder
  do_shedder_keeps none l call w h = refl
  do_shedder_keeps (some s) l call w h = wrap_keeps (call s w) ∙ h s refl w

  do_waker_keeps :
      (k : Option (WakerEffect E W)) (l : Text) (call : WakerEffect E W → Effect E W) (w : W)
      → ((x : WakerEffect E W) → k ≡ some x → EffectKeeps (call x))
      → f (do_waker k l call w).1 ≡ f w
  unfolding do_waker
  do_waker_keeps none l call w h = refl
  do_waker_keeps (some k) l call w h = wrap_keeps (call k w) ∙ h k refl w

  module _ (x : Executor E W) (keeps : ExecutorKeeps x) where
    dispatch_keeps :
        (t : Target) (kind : ActionKind) (l : Text) (w : W) → f (dispatch x t kind l w).1 ≡ f w
    unfolding dispatch
    dispatch_keeps t chassis_shutdown l w =
        do_chassis_keeps x.chassis l (λ c. c.shutdown t.cmc_host) w
          (λ c e. (keeps.0 c e).0 t.cmc_host)
    dispatch_keeps t chassis_power_up l w =
        do_chassis_keeps x.chassis l (λ c. c.power_up t.cmc_host) w
          (λ c e. (keeps.0 c e).1 t.cmc_host)
    dispatch_keeps t assert_server_shed l w =
        do_shedder_keeps x.shedder l (λ s. s.assert l) w (λ s e. (keeps.1 s e).0 l)
    dispatch_keeps t release_server_shed l w =
        do_shedder_keeps x.shedder l (λ s. s.release l) w (λ s e. (keeps.1 s e).1 l)
    dispatch_keeps t wake_server l w =
        do_waker_keeps x.waker l (λ k. k.wake t.wake_mac t.wake_bcast) w
          (λ k e. keeps.2 k e t.wake_mac t.wake_bcast)

    do_action_keeps : (a : Action) (w : W) → f (do_action x a w).1 ≡ f w
    unfolding do_action
    do_action_keeps a w = elim (Bool-cases x.dry_run) [
      | inl dry ↦ rw (do_action, dry) refl
      | inr wet ↦ elim (Option-cases (lookup a.load x.targets)) [
        | inl e ↦ rw (do_action, wet, e) refl
        | inr (t, e) ↦ rw (do_action, wet, e) (dispatch_keeps t a.kind a.load w)
      ]
    ]

    pub apply_keeps :
        (actions : List Action) (m : Option Metrics) (w : W) → f (apply x actions m w).1 ≡ f w
    unfolding apply
    apply_keeps [] m w = refl
    apply_keeps (a ∷ actions) m w = apply_keeps actions _ (do_action x a w).1 ∙ do_action_keeps a w
