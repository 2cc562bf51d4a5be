-- ===== src/Tests/Decisions.antt =====
-- The decision core, on two UPSes of which one drains.
use mathlib.Core.List.Permᴰ.{swap}
use nut_dog.Prelude.{
  ◌≡◌, refl, ◌↔◌, ◌⊎◌, inl, ◌≤◌, true, false, [], ◌∷◌, All, Any, length, Dict, lookup, lookup_or,
  sort_strings, keys, text_le, ◌==◌,
}
use nut_dog.Control.{
  source_unknown, source_shed, source_healthy, desired_off, desired_on, request_off, request_on,
  nut_server, actual_down, shed_asserted, action, chassis_power_up, assert_server_shed, classify,
  desired_for_load, desired_from_sources, decide, reconcile_load, UpsConfig, LoadConfig,
}
use nut_dog.Control.Sources.{
  classify_exact, desired_for_load_exact, IsCritical, IsRecovered, LetsRun,
}
use nut_dog.Control.Actions.{
  Observed, reconcile, carry_out_all, WakesReleased, wish, reconcile_settles, reconcile_sound,
}
use nut_dog.Control.Decision.{observed}
use nut_dog.Control.Decision.Order.{decide-perm}
use nut_dog.Control.Decision.Safety.{IsJustified, decide-IsJustified, decide_sheds, IsShedBy}
use nut_dog.Tests.{
  draining, floors, ups_a, ups_b, p1, bc1, two_upses, two_loads, server_load, chassis_load,
  one_drains,
}

decides :
    decide two_upses two_loads one_drains
    ≡ action chassis_power_up bc1 ∷ action assert_server_shed p1 ∷ []
unfolding decide sort_strings keys text_le reconcile_load lookup_or ◌==◌ desired_for_load
    desired_from_sources classify
decides = refl

decide-IsJustified_example :
    All (IsJustified two_upses two_loads one_drains) (decide two_upses two_loads one_drains)
decide-IsJustified_example = decide-IsJustified two_upses two_loads one_drains

decide_sheds_example :
    IsShedBy nut_server p1 (observed one_drains p1) (decide two_upses two_loads one_drains)
unfolding lookup classify lookup_or ◌==◌
decide_sheds_example =
    decide_sheds two_upses two_loads one_drains p1 server_load (refl, (refl, tt)) refl
      (inl (inl refl))

classify_exact_example :
    ((classify floors draining ≡ source_unknown) ↔ (true ≡ false))
    × ((classify floors draining ≡ source_shed) ↔ ((true ≡ true) × IsCritical floors draining))
    × ((classify floors draining ≡ source_healthy) ↔ ((true ≡ true) × IsRecovered floors draining))
classify_exact_example = classify_exact floors draining

desired_for_load_exact_example :
    ((desired_for_load (source_shed ∷ source_healthy ∷ []) request_on ≡ desired_off) ↔ (
      Any (λ s. s ≡ source_shed) (source_shed ∷ source_healthy ∷ []) ⊎ (request_on ≡ request_off)))
    × ((desired_for_load (source_shed ∷ source_healthy ∷ []) request_on ≡ desired_on)
        ↔ (All (λ s. s ≡ source_healthy) (source_shed ∷ source_healthy ∷ []) × LetsRun request_on))
desired_for_load_exact_example =
    desired_for_load_exact (source_shed ∷ source_healthy ∷ []) request_on

abbrev down_and_asserted : Observed
down_and_asserted = record { actual = actual_down; shed = shed_asserted }

reconcile_settles_example :
    reconcile p1 nut_server desired_on
      (carry_out_all down_and_asserted (reconcile p1 nut_server desired_on down_and_asserted))
    ≡ []
reconcile_settles_example = reconcile_settles p1 nut_server desired_on down_and_asserted

reconcile_sound_example :
    All
      (λ a. (a.load ≡ p1) × (wish a.kind ≡ desired_on))
      (reconcile p1 nut_server desired_on down_and_asserted)
    × WakesReleased down_and_asserted (reconcile p1 nut_server desired_on down_and_asserted)
    × (length (reconcile p1 nut_server desired_on down_and_asserted) ≤ 2)
reconcile_sound_example = reconcile_sound p1 nut_server desired_on down_and_asserted

abbrev upses_swapped : Dict UpsConfig
upses_swapped = (ups_b, floors) ∷ (ups_a, floors) ∷ []

abbrev loads_swapped : Dict LoadConfig
loads_swapped = (bc1, chassis_load) ∷ (p1, server_load) ∷ []

decide-perm_example :
    decide two_upses two_loads one_drains ≡ decide upses_swapped loads_swapped one_drains
unfolding lookup ◌==◌
decide-perm_example =
    decide-perm (swap refl refl) (swap refl refl) (refl, (refl, tt)) (refl, (refl, tt)) one_drains
