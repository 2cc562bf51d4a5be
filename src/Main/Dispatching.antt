-- ===== src/Main/Dispatching.antt =====
-- That an action whose parts are there is not refused for a missing one.
use nut_dog.Prelude.{
  ◌≡◌, ◌≢◌, refl, inl, inr, Bool, true, false, Bool-cases, Option, none, some, Option-cases, codes,
  Text, lookup,
}
use nut_dog.Control.{
  chassis, nut_server, ActionKind, chassis_shutdown, chassis_power_up, assert_server_shed,
  release_server_shed, wake_server, Action,
}
use nut_dog.Effects.{
  Target, DoError, no_target, chassis_not_configured, shedder_not_configured, waker_not_configured,
  failed, wrap, dispatch, do_chassis, do_shedder, do_waker, do_action,
}
use nut_dog.Effects.Chassis.{Runner, ActError}
use nut_dog.Effects.Shedder.{SetError, no_shed_ups, NutShedder, nut_shedder, wrap_set}
use nut_dog.Effects.Shedder
use nut_dog.Effects.Wol.{WolError}
use nut_dog.Nut.Client.{NetError}
use nut_dog.Config.{Config}
use nut_dog.Main.{Outside, Machine, Wiring}
use nut_dog.Main.Start.{
  MainError, chassis_error, shed_error, wol_error, with_error, local_shedder, shedder_of,
  chassis_of, waker_of, executor_of,
}
use nut_dog.Main.Fitting.{fits}

-- Whether an action has failed for a part that is not there.
abbrev pub is_miswired : {E : Type 0} → Option (DoError (MainError E)) → Bool
is_miswired none = false
is_miswired (some (no_target l)) = true
is_miswired (some (chassis_not_configured l)) = true
is_miswired (some (shedder_not_configured l)) = true
is_miswired (some (waker_not_configured l)) = true
is_miswired (some (failed (shed_error (no_shed_ups l)))) = true
is_miswired (some (failed e)) = false

chassis_wrapped :
    {E W : Type 0} (r : Option (ActError E) × W)
    → is_miswired (wrap (with_error chassis_error r)).0 ≡ false
chassis_wrapped (none, w) = refl
chassis_wrapped (some e, w) = refl

wol_wrapped :
    {E W : Type 0} (r : Option (WolError E) × W)
    → is_miswired (wrap (with_error wol_error r)).0 ≡ false
wol_wrapped (none, w) = refl
wol_wrapped (some e, w) = refl

set_wrapped :
    (E : Type 0) {W : Type 0} (r : Option NetError × W)
    → is_miswired {E = E} (wrap (with_error shed_error (wrap_set r))).0 ≡ false
set_wrapped E (none, w) = refl
set_wrapped E (some e, w) = refl

shed_wrapped :
    (E : Type 0) {W : Type 0} (s : NutShedder NetError W) (l status : Text) (w : W)
    → lookup l s.shed_ups ≢ none
    → is_miswired {E = E} (wrap (with_error shed_error (Shedder.set s l status w))).0 ≡ false
unfolding Shedder.set
shed_wrapped E s l status w h = elim (Option-cases (lookup l s.shed_ups)) [
  | inl e ↦ absurd (h e)
  | inr (ups, e) ↦ rw (Shedder.set, e) (set_wrapped E (s.set_var ups (codes "ups.status") status w))
]

module _ {S E F : Type 0} (o : Outside S E F) (c : Config) (wired : Wiring S) where
  -- With the chassis and the shed signal that it needs, an action for a load with a target finds its parts.
  dispatch_wired :
      (runner : Option (Runner E S)) (t : Target) (k : ActionKind) (l : Text) (m : Machine S F)
      → (fits chassis k ≡ true → runner ≢ none)
      → (fits nut_server k ≡ true → lookup l wired.shed_ups ≢ none)
      → is_miswired (dispatch (executor_of o c runner wired) t k l m).0 ≡ false
  unfolding dispatch executor_of chassis_of shedder_of waker_of do_chassis do_shedder do_waker
      nut_shedder
  dispatch_wired none t chassis_shutdown l m h i = absurd (h refl refl)
  dispatch_wired none t chassis_power_up l m h i = absurd (h refl refl)
  dispatch_wired (some runner) t chassis_shutdown l m h i = chassis_wrapped _
  dispatch_wired (some runner) t chassis_power_up l m h i = chassis_wrapped _
  dispatch_wired runner t assert_server_shed l m h i =
      shed_wrapped E (local_shedder o c wired) l Shedder.status_shed m (i refl)
  dispatch_wired runner t release_server_shed l m h i =
      shed_wrapped E (local_shedder o c wired) l Shedder.status_ok m (i refl)
  dispatch_wired runner t wake_server l m h i = wol_wrapped _

  pub do_action_wired :
      (runner : Option (Runner E S)) (a : Action) (m : Machine S F)
      → lookup a.load wired.targets ≢ none
      → (c.dry_run ≡ false → fits chassis a.kind ≡ true → runner ≢ none)
      → (fits nut_server a.kind ≡ true → lookup a.load wired.shed_ups ≢ none)
      → is_miswired (do_action (executor_of o c runner wired) a m).0 ≡ false
  unfolding do_action executor_of
  do_action_wired runner a m target h i = elim (Bool-cases c.dry_run) [
    | inl dry ↦ rw (do_action, dry) refl
    | inr wet ↦ elim (Option-cases (lookup a.load wired.targets)) [
      | inl e ↦ absurd (target e)
      | inr (t, e) ↦ rw (do_action, wet, e) (dispatch_wired runner t a.kind a.load m (h wet) i)
    ]
  ]
