-- ===== src/Main/Carrying.antt =====
-- That the effects, which work on the network, and the metrics change nothing of the power API.
use nut_dog.Prelude.{
  ◌≡◌, refl, subst, ◌∙◌, inl, inr, Option, Option-cases, none, some, some_inj, arith, Text, codes,
  lookup,
}
use nut_dog.App.Worlds.{KeepsLater}
use nut_dog.Metrics.{Metrics}
use nut_dog.Effects.{ChassisEffect, ShedderEffect, WakerEffect, apply}
use nut_dog.Effects.Shedder.{set, wrap_set, nut_shedder, status_shed, status_ok}
use nut_dog.Effects.Wol.{wake}
use nut_dog.Main.Preflight.{local_opts}
use nut_dog.Effects.Chassis.{Runner, racadm_chassis}
use nut_dog.Effects.Keeping.{EffectKeeps, ExecutorKeeps, apply_keeps}
use nut_dog.Config.{Config}
use nut_dog.Main.{Outside, Machine, Wiring, outside, local_upsd_addr}
use nut_dog.Main.Start.{
  MainError, chassis_error, shed_error, wol_error, local_var_setter, local_shedder, shedder_of,
  chassis_of, waker_of, executor_of, ports_of, with_metrics, with_error,
}
use nut_dog.Main.Requested.{held_by}

with_error_keeps :
    {A B W V : Type 0} (f : W → V) (g : A → B) (x : Option A × W) (w : W)
    → f x.1 ≡ f w
    → f (with_error g x).1 ≡ f w
with_error_keeps f g (none, v) w h = h
with_error_keeps f g (some e, v) w h = h

wrap_set_keeps :
    {A W V : Type 0} (f : W → V) (x : Option A × W) (w : W) → f x.1 ≡ f w → f (wrap_set x).1 ≡ f w
wrap_set_keeps f (none, v) w h = h
wrap_set_keeps f (some e, v) w h = h

module _ {S E F : Type 0} (o : Outside S E F) (c : Config) (runner : Option (Runner E S))
    (wired : Wiring S) where
  chassis_keeps :
      (x : Option (Runner E S)) (call : ChassisEffect (MainError E) (Machine S F))
      → chassis_of o x ≡ some call
      → ((host : Text) → EffectKeeps (held_by o) (call.shutdown host))
        × ((host : Text) → EffectKeeps (held_by o) (call.power_up host))
  unfolding chassis_of
  chassis_keeps none call e = absurd (ground arith)
  chassis_keeps (some run) call e =
      subst
        (λ (k : ChassisEffect (MainError E) (Machine S F)).
          ((host : Text) → EffectKeeps (held_by o) (k.shutdown host))
          × ((host : Text) → EffectKeeps (held_by o) (k.power_up host)))
        (some_inj _ call e)
        (
          λ host m.
              with_error_keeps (held_by o) chassis_error
                (outside o ((racadm_chassis run).shutdown host) m) m refl,
          λ host m.
              with_error_keeps (held_by o) chassis_error
                (outside o ((racadm_chassis run).power_up host) m) m refl,
        )

  set_keeps :
      (l status : Text) (m : Machine S F)
      → held_by o (set (local_shedder o c wired) l status m).1 ≡ held_by o m
  unfolding set local_var_setter
  set_keeps l status m = elim (Option-cases (lookup l wired.shed_ups)) [
    | inl e ↦ rw (set, e) refl
    | inr (ups, e) ↦
        rw (set, e)
          (wrap_set_keeps (held_by o)
            (local_var_setter o (local_upsd_addr c) (local_opts o.getenv c) ups (codes "ups.status")
              status m)
            m refl)
  ]

  shedder_keeps :
      (call : ShedderEffect (MainError E) (Machine S F))
      → some (shedder_of o c wired) ≡ some call
      → ((l : Text) → EffectKeeps (held_by o) (call.assert l))
        × ((l : Text) → EffectKeeps (held_by o) (call.release l))
  unfolding shedder_of nut_shedder
  shedder_keeps call e =
      subst
        (λ (k : ShedderEffect (MainError E) (Machine S F)).
          ((l : Text) → EffectKeeps (held_by o) (k.assert l))
          × ((l : Text) → EffectKeeps (held_by o) (k.release l)))
        (some_inj _ call e)
        (
          λ l m.
              with_error_keeps (held_by o) shed_error
                (set (local_shedder o c wired) l status_shed m) m (set_keeps l status_shed m),
          λ l m.
              with_error_keeps (held_by o) shed_error (set (local_shedder o c wired) l status_ok m)
                m (set_keeps l status_ok m),
        )

  waker_keeps :
      (call : WakerEffect (MainError E) (Machine S F))
      → some (waker_of o) ≡ some call
      → (mac broadcast : Text) → EffectKeeps (held_by o) (call.wake mac broadcast)
  unfolding waker_of
  waker_keeps call e =
      subst
        (λ (k : WakerEffect (MainError E) (Machine S F)).
          (mac broadcast : Text) → EffectKeeps (held_by o) (k.wake mac broadcast))
        (some_inj _ call e)
        (λ mac broadcast m.
          with_error_keeps (held_by o) wol_error (outside o (wake o.udp mac broadcast) m) m refl)

  executor-Keeps : ExecutorKeeps (held_by o) (executor_of o c runner wired)
  unfolding executor_of
  executor-Keeps = (chassis_keeps runner, shedder_keeps, waker_keeps)

  with_metrics_keeps :
      (x : Option Metrics × Machine S F) → held_by o (with_metrics o x) ≡ held_by o x.1
  with_metrics_keeps (none, m) = refl
  with_metrics_keeps (some metrics, m) = refl

  pub ports-KeepsLater : KeepsLater (ports_of o c runner wired) (held_by o)
  unfolding ports_of
  ports-KeepsLater = (
    λ m. refl,
    λ m. refl,
    λ update e g m.
        subst
          (λ (u : (Metrics → Metrics) → Machine S F → Machine S F). held_by o (u g m) ≡ held_by o m)
          (some_inj _ update e) refl,
    λ actions m.
        with_metrics_keeps (apply (executor_of o c runner wired) actions (some m.metrics) m)
        ∙ apply_keeps (held_by o) (executor_of o c runner wired) executor-Keeps actions
            (some m.metrics) m,
  )
