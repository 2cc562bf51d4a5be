-- ===== src/Effects/Apply.antt =====
-- What `Apply` does to the outside world and to the counters.
use mathlib.Core.Path.{ap₂}
use nut_dog.Prelude.{
  ℕ, suc, ◌+◌, ◌≤◌, ◌≡◌, ◌≢◌, refl, sym, ap, ◌∙◌, inl, inr, Bool-cases, Option-cases, ◌⊎◌, Bool,
  true, false, ◌&&◌, Option, none, some, List, [], ◌∷◌, ◌++◌, append-nil, append_assoc, arith, Text,
  ◌==◌, lookup, if◌then◌else◌,
}
use nut_dog.Control.{
  ActionKind, chassis_shutdown, chassis_power_up, assert_server_shed, release_server_shed,
  wake_server, Action, action, kind_string,
}
use nut_dog.Metrics.{Metrics, counted, on_metrics, record_action}
use nut_dog.Metrics.Counters.{counted-increment}
use nut_dog.Effects.{
  Effect, Target, Executor, ChassisEffect, ShedderEffect, WakerEffect, is_error, wrap, do_chassis,
  do_shedder, do_waker, dispatch, do_action, apply,
}

-- How often an action is in the list, by its load and the name of its kind.
abbrev pub occurrences : Text → Text → List Action → ℕ
occurrences l k [] = 0
occurrences l k (a ∷ actions) =
    let rest = occurrences l k actions in
    if a.load == l && kind_string a.kind == k then suc rest else rest

-- A recorder counts its action, and a failure where there was one.
recorded :
    (load action l k : Text) (failed : Bool) (m : Metrics)
    → let after = record_action load action failed m in
      let hit = load == l && action == k in
      (counted l k after.actions
        ≡ (if hit then counted l k m.actions + 1 else counted l k m.actions))
      × (counted l k after.action_fails
          ≡ (if failed && hit then counted l k m.action_fails + 1 else counted l k m.action_fails))
unfolding record_action
recorded load action l k true m =
    (counted-increment load action l k m.actions, counted-increment load action l k m.action_fails)
recorded load action l k false m = (counted-increment load action l k m.actions, refl)

module _ {E W : Type 0} (x : Executor E W) where
  -- Every action is counted once at its load and kind, also in a dry run, and at most one failure is
  -- counted for each action.
  pub apply-counted :
      (actions : List Action) (m : Metrics) (w : W) (l k : Text)
      → (after : Metrics) × ((apply x actions (some m) w).0 ≡ some after)
        × (counted l k after.actions ≡ counted l k m.actions + occurrences l k actions)
        × (counted l k after.action_fails ≤ counted l k m.action_fails + occurrences l k actions)
  unfolding apply
  apply-counted [] m w l k = (m, refl, omega arith, omega arith)
  apply-counted (a ∷ actions) m w l k =
      let (err, w') = do_action x a w in
      let m' = record_action a.load (kind_string a.kind) (is_error err) m in
      let (after, e, counts, fails) = apply-counted actions m' w' l k in
      let (one, fail) = recorded a.load (kind_string a.kind) l k (is_error err) m in
      (after, e, ground arith, ground arith)

  -- A dry run leaves the world as it is and counts no failure.
  pub apply_dry :
      (actions : List Action) (m : Metrics) (w : W) (l k : Text)
      → x.dry_run ≡ true
      → (after : Metrics) × (apply x actions (some m) w ≡ (some after, w))
        × (counted l k after.action_fails ≡ counted l k m.action_fails)
  unfolding apply do_action
  apply_dry [] m w l k h = (m, refl, refl)
  apply_dry (a ∷ actions) m w l k h =
      let m' = record_action a.load (kind_string a.kind) false m in
      let (after, e, fails) = apply_dry actions m' w l k h in
      let (one, fail) = recorded a.load (kind_string a.kind) l k false m in
      (after, rw h e, ground arith)

  -- The effect that an action of this kind needs is there.
  abbrev pub IsWired : ActionKind → Type 0
  IsWired chassis_shutdown = x.chassis ≢ none
  IsWired chassis_power_up = x.chassis ≢ none
  IsWired assert_server_shed = x.shedder ≢ none
  IsWired release_server_shed = x.shedder ≢ none
  IsWired wake_server = x.waker ≢ none

  -- Where an action of an armed executor has no target, or the effect that it needs is not there, it
  -- fails and the world stays as it is.
  pub do_action_miswired :
      (a : Action) (w : W)
      → x.dry_run ≡ false
      → (lookup a.load x.targets ≡ none) ⊎ ¬ IsWired a.kind
      → (is_error (do_action x a w).0 ≡ true) × ((do_action x a w).1 ≡ w)
  unfolding do_action
  do_action_miswired a w armed why = ground arith

-- What a recording implementation writes down.
pub data Call : Type 0 where
  cmc_shutdown cmc_power_up shed_asserted shed_released : Text → Call
  woken : Text → Text → Call

-- An effect that first writes down what it is called with.
abbrev pub logged : {E W : Type 0} → Call → Effect E W → Effect E (W × List Call)
logged c effect (w, log) = let (e, w') = effect w in (e, (w', log ++ c ∷ []))

-- The same executor, whose effects write down what they are called with, whether they fail or not.
module _ {E W : Type 0} where
  abbrev pub logged_chassis : Option (ChassisEffect E W) → Option (ChassisEffect E (W × List Call))
  logged_chassis none = none
  logged_chassis (some c) = some (record {
    shutdown = λ host. logged (cmc_shutdown host) (c.shutdown host);
    power_up = λ host. logged (cmc_power_up host) (c.power_up host);
  })

  abbrev pub logged_shedder : Option (ShedderEffect E W) → Option (ShedderEffect E (W × List Call))
  logged_shedder none = none
  logged_shedder (some s) = some (record {
    assert = λ load. logged (shed_asserted load) (s.assert load);
    release = λ load. logged (shed_released load) (s.release load);
  })

  abbrev pub logged_waker : Option (WakerEffect E W) → Option (WakerEffect E (W × List Call))
  logged_waker none = none
  logged_waker (some k) =
      some (record { wake = λ mac bcast. logged (woken mac bcast) (k.wake mac bcast) })

  abbrev pub recorder : Executor E W → Executor E (W × List Call)
  recorder x = record {
    dry_run = x.dry_run;
    targets = x.targets;
    chassis = logged_chassis x.chassis;
    shedder = logged_shedder x.shedder;
    waker = logged_waker x.waker;
  }

-- The call that an action stands for, at the target of its own load.
abbrev pub call_of : Target → Action → Call
call_of t a = elim a.kind [
  | chassis_shutdown ↦ cmc_shutdown t.cmc_host
  | chassis_power_up ↦ cmc_power_up t.cmc_host
  | assert_server_shed ↦ shed_asserted a.load
  | release_server_shed ↦ shed_released a.load
  | wake_server ↦ woken t.wake_mac t.wake_bcast
]

-- A call, of an effect that is there.
abbrev pub if_there : {A : Type 0} → Option A → Call → List Call
if_there none c = []
if_there (some a) c = c ∷ []

module _ {E W : Type 0} (x : Executor E W) where
  -- The call of an action at a target, if its effect is there.
  abbrev pub calls_at : Target → Action → List Call
  calls_at t a = elim a.kind [
    | chassis_shutdown ↦ if_there x.chassis (call_of t a)
    | chassis_power_up ↦ if_there x.chassis (call_of t a)
    | assert_server_shed ↦ if_there x.shedder (call_of t a)
    | release_server_shed ↦ if_there x.shedder (call_of t a)
    | wake_server ↦ if_there x.waker (call_of t a)
  ]

  abbrev pub call_if : Option Target → Action → List Call
  call_if none a = []
  call_if (some t) a = calls_at t a

  -- The calls of the actions, outside of a dry run.
  abbrev pub calls_of : List Action → List Call
  calls_of [] = []
  calls_of (a ∷ actions) =
      (if x.dry_run then [] else call_if (lookup a.load x.targets) a) ++ calls_of actions

-- What an action leaves with the calls written down, beside what it leaves without.
abbrev Leaves : {E W : Type 0} → Option E × (W × List Call) → Option E × W → List Call → Type 0
Leaves r s log = (r.0 ≡ s.0) × (r.1.0 ≡ s.1) × (r.1.1 ≡ log)

wrap-Leaves :
    {E W : Type 0} (log : List Call) (r : Option E × W)
    → Leaves (wrap (r.0, (r.1, log))) (wrap r) log
wrap-Leaves log (none, w) = (refl, refl, refl)
wrap-Leaves log (some e, w) = (refl, refl, refl)

module _ {E W : Type 0} (w : W) (log : List Call) where
  chassis-Leaves :
      (o : Option (ChassisEffect E W)) (l host : Text)
      → Leaves
          (do_chassis (logged_chassis o) l (λ c. c.shutdown host) (w, log))
          (do_chassis o l (λ c. c.shutdown host) w)
          (log ++ if_there o (cmc_shutdown host))
        × Leaves
            (do_chassis (logged_chassis o) l (λ c. c.power_up host) (w, log))
            (do_chassis o l (λ c. c.power_up host) w)
            (log ++ if_there o (cmc_power_up host))
  unfolding do_chassis
  chassis-Leaves none l host =
      ((refl, refl, sym (append-nil log)), (refl, refl, sym (append-nil log)))
  chassis-Leaves (some c) l host = (
    wrap-Leaves (log ++ cmc_shutdown host ∷ []) (c.shutdown host w),
    wrap-Leaves (log ++ cmc_power_up host ∷ []) (c.power_up host w),
  )

  shedder-Leaves :
      (o : Option (ShedderEffect E W)) (l : Text)
      → Leaves
          (do_shedder (logged_shedder o) l (λ s. s.assert l) (w, log))
          (do_shedder o l (λ s. s.assert l) w)
          (log ++ if_there o (shed_asserted l))
        × Leaves
            (do_shedder (logged_shedder o) l (λ s. s.release l) (w, log))
            (do_shedder o l (λ s. s.release l) w)
            (log ++ if_there o (shed_released l))
  unfolding do_shedder
  shedder-Leaves none l = ((refl, refl, sym (append-nil log)), (refl, refl, sym (append-nil log)))
  shedder-Leaves (some s) l = (
    wrap-Leaves (log ++ shed_asserted l ∷ []) (s.assert l w),
    wrap-Leaves (log ++ shed_released l ∷ []) (s.release l w),
  )

  waker-Leaves :
      (o : Option (WakerEffect E W)) (l mac bcast : Text)
      → Leaves
          (do_waker (logged_waker o) l (λ k. k.wake mac bcast) (w, log))
          (do_waker o l (λ k. k.wake mac bcast) w)
          (log ++ if_there o (woken mac bcast))
  unfolding do_waker
  waker-Leaves none l mac bcast = (refl, refl, sym (append-nil log))
  waker-Leaves (some k) l mac bcast = wrap-Leaves (log ++ woken mac bcast ∷ []) (k.wake mac bcast w)

  module _ (x : Executor E W) where
    dispatch-Leaves :
        (t : Target) (kind : ActionKind) (l : Text)
        → Leaves
            (dispatch (recorder x) t kind l (w, log))
            (dispatch x t kind l w)
            (log ++ calls_at x t (action kind l))
    unfolding dispatch
    dispatch-Leaves t chassis_shutdown l = (chassis-Leaves x.chassis l t.cmc_host).0
    dispatch-Leaves t chassis_power_up l = (chassis-Leaves x.chassis l t.cmc_host).1
    dispatch-Leaves t assert_server_shed l = (shedder-Leaves x.shedder l).0
    dispatch-Leaves t release_server_shed l = (shedder-Leaves x.shedder l).1
    dispatch-Leaves t wake_server l = waker-Leaves x.waker l t.wake_mac t.wake_bcast

    do_action-Leaves :
        (a : Action)
        → Leaves
            (do_action (recorder x) a (w, log))
            (do_action x a w)
            (log ++ (if x.dry_run then [] else call_if x (lookup a.load x.targets) a))
    unfolding do_action
    do_action-Leaves a = elim (Bool-cases x.dry_run) [
      | inl dry ↦ rw (do_action, dry) (refl, refl, sym (append-nil log))
      | inr wet ↦ elim (Option-cases (lookup a.load x.targets)) [
        | inl e ↦ rw (do_action, wet, e) (refl, refl, sym (append-nil log))
        | inr (t, e) ↦ rw (do_action, wet, e) (dispatch-Leaves t a.kind a.load)
      ]
    ]

-- Outside of a dry run every action, in order, makes the one call that its kind stands for, on the target of its own
-- load, whether or not calls before it have failed; an action whose load has no target, or whose effect is not there,
-- makes none, and in a dry run none makes any. That the calls are written down changes nothing else.
pub apply-calls_of :
    {E W : Type 0} (x : Executor E W) (actions : List Action) (m : Option Metrics) (w : W)
    (log : List Call)
    → let after = apply (recorder x) actions m (w, log) in
      (after.1.1 ≡ log ++ calls_of x actions)
      × (after.1.0 ≡ (apply x actions m w).1)
      × (after.0 ≡ (apply x actions m w).0)
unfolding apply
apply-calls_of x [] m w log = (sym (append-nil log), refl, refl)
apply-calls_of x (a ∷ actions) m w log =
    let one = do_action-Leaves w log x a in
    let r = do_action (recorder x) a (w, log) in
    let s = do_action x a w in
    let own = if x.dry_run then [] else call_if x (lookup a.load x.targets) a in
    let m' = on_metrics (record_action a.load (kind_string a.kind) (is_error s.0)) m in
    let (calls, world, counts) = apply-calls_of x actions m' s.1 (log ++ own) in
    let same : apply (recorder x) (a ∷ actions) m (w, log)
        ≡ apply (recorder x) actions m' (s.1, log ++ own) =
      ap₂
        (λ e v.
          apply (recorder x) actions
            (on_metrics (record_action a.load (kind_string a.kind) (is_error e)) m) v)
        one.0 (ap₂ (λ v c. (v, c)) one.1 one.2) in
    (
      ap (λ z. z.1.1) same ∙ calls ∙ append_assoc log own (calls_of x actions),
      ap (λ z. z.1.0) same ∙ world,
      ap (λ z. z.0) same ∙ counts,
    )
