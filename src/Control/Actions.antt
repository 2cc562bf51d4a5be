-- ===== src/Control/Actions.antt =====
-- `ReconcileLoad`: the actions of one load, and what they do to it when they succeed.
use nut_dog.Prelude.{◌≡◌, ◌≢◌, ◌↔◌, ◌⊎◌, List, [], ◌∷◌, arith, All, Text, length, ◌≤◌}
use nut_dog.Control.{
  Desired, desired_hold, desired_off, desired_on, LoadType, chassis, nut_server, ActualState,
  actual_up, actual_down, ShedState, shed_asserted, shed_released, ActionKind, chassis_shutdown,
  chassis_power_up, assert_server_shed, release_server_shed, wake_server, Action, reconcile_load,
}

-- The observed state of a load.
pub record Observed : Type 0 where
  pub actual : ActualState
  pub shed : ShedState

-- What an action that succeeds does to the load that it names. (A server that is told to shut down
-- does so later, by its own upsmon: asserting the signal leaves the power state as it is.)
unfoldable pub carry_out : Observed → ActionKind → Observed
carry_out o chassis_shutdown = record o { actual = actual_down }
carry_out o chassis_power_up = record o { actual = actual_up }
carry_out o assert_server_shed = record o { shed = shed_asserted }
carry_out o release_server_shed = record o { shed = shed_released }
carry_out o wake_server = record o { actual = actual_up }

unfoldable pub carry_out_all : Observed → List Action → Observed
unfolding carry_out
carry_out_all o [] = o
carry_out_all o (a ∷ more) = carry_out_all (carry_out o a.kind) more

-- The load is where it is wanted, as far as can be observed.
abbrev pub IsAtTarget : LoadType → Desired → Observed → Type 0
IsAtTarget lt desired_hold o = Unit
IsAtTarget chassis desired_off o = o.actual ≢ actual_up
IsAtTarget chassis desired_on o = o.actual ≢ actual_down
IsAtTarget nut_server desired_off o = o.shed ≡ shed_asserted
IsAtTarget nut_server desired_on o = (o.shed ≡ shed_released) × (o.actual ≢ actual_down)

abbrev pub reconcile : Text → LoadType → Desired → Observed → List Action
reconcile name lt d o = reconcile_load name lt d o.actual o.shed

-- A load gets no action exactly when it is where it is wanted.
pub reconcile_silent_iff :
    (name : Text) (lt : LoadType) (d : Desired) (o : Observed)
    → (reconcile name lt d o ≡ []) ↔ IsAtTarget lt d o
unfolding reconcile_load
reconcile_silent_iff name lt d o = (λ h. ground arith, λ h. ground arith)

-- When the actions of one poll have succeeded the load is where it is wanted.
pub reconcile-IsAtTarget :
    (name : Text) (lt : LoadType) (d : Desired) (o : Observed)
    → IsAtTarget lt d (carry_out_all o (reconcile name lt d o))
unfolding reconcile_load carry_out_all
reconcile-IsAtTarget name lt d o = ground arith

-- When the actions of one poll have succeeded, the same wish gives no action at the next poll.
pub reconcile_settles :
    (name : Text) (lt : LoadType) (d : Desired) (o : Observed)
    → reconcile name lt d (carry_out_all o (reconcile name lt d o)) ≡ []
reconcile_settles name lt d o =
    (reconcile_silent_iff name lt d (carry_out_all o (reconcile name lt d o))).1
      (reconcile-IsAtTarget name lt d o)

-- The server has been told that it may run when it is woken.
abbrev pub IsReleasedFor : ActionKind → Observed → Type 0
IsReleasedFor wake_server o = o.shed ≡ shed_released
IsReleasedFor _ o = Unit

abbrev pub WakesReleased : Observed → List Action → Type 0
WakesReleased o [] = Unit
WakesReleased o (a ∷ more) = IsReleasedFor a.kind o × WakesReleased (carry_out o a.kind) more

-- The actions that bring a load up, and those that take it down.
abbrev pub IsPowerOn : ActionKind → Type 0
IsPowerOn k = (k ≡ wake_server) ⊎ (k ≡ chassis_power_up)

-- What is wanted of a load that gets an action of this kind.
abbrev pub wish : ActionKind → Desired
wish chassis_shutdown = desired_off
wish assert_server_shed = desired_off
wish chassis_power_up = desired_on
wish release_server_shed = desired_on
wish wake_server = desired_on

-- Every action names the load that is reconciled and has the direction that is wanted of it; at the
-- moment of a wake, after the actions before it, the shed signal is released; a load gets at most two
-- actions.
pub reconcile_sound :
    (name : Text) (lt : LoadType) (d : Desired) (o : Observed)
    → All (λ a. (a.load ≡ name) × (wish a.kind ≡ d)) (reconcile name lt d o)
      × WakesReleased o (reconcile name lt d o)
      × (length (reconcile name lt d o) ≤ 2)
unfolding reconcile_load carry_out
reconcile_sound name lt d o = ground arith

pub reconcile-load :
    (name : Text) (lt : LoadType) (d : Desired) (p : ActualState) (s : ShedState)
    → All (λ a. a.load ≡ name) (reconcile_load name lt d p s)
unfolding reconcile_load
reconcile-load name lt d p s = ground arith
