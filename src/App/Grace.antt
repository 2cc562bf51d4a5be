-- ===== src/App/Grace.antt =====
-- The startup grace: what it holds back, and that it never holds back a shed.
use nut_dog.Prelude.{
  ◌+◌, ◌<◌, ◌≡◌, refl, ◌↔◌, ◌⊎◌, inl, inr, true, false, not, List, [], ◌∷◌, arith, All, In, In-keep,
  All-In, All-of_In, pos, ◌≤ℤ◌, pos_part, neg_part,
}
use nut_dog.Clock.{Time, sub_time, is_zero, max_duration}
use nut_dog.Control.{Action, ActionKind}
use nut_dog.Control.Actions.{IsPowerOn}
use nut_dog.App.{Ports, Controller, hold_power_on, is_power_on, hold_startup_wakes}

is_power_on_iff : (k : ActionKind) → (is_power_on k ≡ true) ↔ IsPowerOn k
unfolding is_power_on
is_power_on_iff k = (λ h. ground arith, λ h. ground arith)

pub In-hold_power_on :
    (a : Action) (actions : List Action)
    → In a (hold_power_on actions) ↔ (In a actions × ¬ IsPowerOn a.kind)
unfolding hold_power_on
In-hold_power_on a actions =
    let (there, back) = In-keep (λ x. not (is_power_on x.kind)) a actions in
    let (off, on) = is_power_on_iff a.kind in
    (λ h. ((there h).0, λ k. ground (arith, there h, on k)), λ h. back (h.0, ground (arith, off)))

hold_power_on_idem :
    (actions : List Action) → hold_power_on (hold_power_on actions) ≡ hold_power_on actions
unfolding hold_power_on
hold_power_on_idem [] = refl
hold_power_on_idem (a ∷ actions) = ground (arith, hold_power_on_idem actions)

kept-In : (actions : List Action) → All (λ a. In a actions) (hold_power_on actions)
kept-In actions = All-of_In _ _ (λ a h. ((In-hold_power_on a actions).0 h).0)

-- The grace is running at a reading of the clock: less than it has passed since its start.
abbrev pub IsHeld : Controller → Time → Type 0
IsHeld c t =
    (pos 1 ≤ℤ c.startup_grace)
    × (pos_part t + neg_part c.started_at
        < pos_part c.started_at + pos_part c.startup_grace + neg_part t)

module _ {W : Type 0} (p : Ports W) where
  either :
      (c : Controller) (actions : List Action) (w : W)
      → let kept = (hold_startup_wakes p c actions w).1 in
        (kept ≡ actions) ⊎ (kept ≡ hold_power_on actions)
  unfolding hold_startup_wakes
  either c actions w = ground arith

  -- Whatever the grace and the clock, only decided actions are kept, and those that power nothing on
  -- are all kept, in their order: no shed is held back.
  pub hold_startup_wakes-sheds :
      (c : Controller) (actions : List Action) (w : W)
      → let kept = (hold_startup_wakes p c actions w).1 in
        All (λ a. In a actions) kept × (hold_power_on kept ≡ hold_power_on actions)
  hold_startup_wakes-sheds c actions w = elim (either c actions w) [
    | inl e ↦ rw e (All-In actions, refl)
    | inr e ↦ rw e (kept-In actions, hold_power_on_idem actions)
  ]

  -- Once the clock was started, with a grace that an int64 holds, and while less than the grace has
  -- passed: exactly the actions that power a load on are dropped, and the start stays where it is.
  pub hold_startup_wakes_held :
      (c : Controller) (actions : List Action) (w : W)
      → is_zero c.started_at ≡ false
      → c.startup_grace ≤ℤ max_duration
      → IsHeld c (p.now w).0
      → let (c', kept, w') = hold_startup_wakes p c actions w in
        (c' ≡ c) × ((a : Action) → In a kept ↔ (In a actions × ¬ IsPowerOn a.kind))
  unfolding hold_startup_wakes sub_time
  hold_startup_wakes_held c actions w started fits held =
      let e : (hold_startup_wakes p c actions w).1 ≡ hold_power_on actions = ground arith in
      (ground arith, λ a. rw e (In-hold_power_on a actions))

  -- Once the clock was started, with a grace that an int64 holds, and when the grace has passed or is
  -- zero or less: no action is dropped, and the start stays where it is.
  pub hold_startup_wakes_over :
      (c : Controller) (actions : List Action) (w : W)
      → is_zero c.started_at ≡ false
      → c.startup_grace ≤ℤ max_duration
      → ¬ IsHeld c (p.now w).0
      → let (c', kept, w') = hold_startup_wakes p c actions w in (c' ≡ c) × (kept ≡ actions)
  unfolding hold_startup_wakes sub_time
  hold_startup_wakes_over c actions w started fits over = (ground arith, ground arith)
