-- ===== src/App/Recording.antt =====
-- What a tick records is what it decides by.
use nut_dog.Prelude.{
  ◌≡◌, refl, ap, ◌∙◌, ◌⊎◌, inl, inr, All-map_of, true, false, Bool-cases, Option, none, some, List,
  [], ◌∷◌, map, arith, Text, ◌==◌, eq_iff, Dict, lookup, lookup_or, lookup-insert, insert, keys,
  has, has-keys, sort_strings, has-sort_strings, if◌then◌else◌, subst,
}
use nut_dog.Control.{
  UpsConfig, Telemetry, no_telemetry, SourceState, Desired, source_unknown, LoadConfig, no_load,
  Readings, no_request, actual_unknown, shed_unknown, classify, states_of, desired_for_load,
}
use nut_dog.Control.Decision.{state_of, wanted}
use nut_dog.Metrics.{
  Metrics, b2f, series, desired_states, desired_string, record_source, record_load,
}
use nut_dog.Metrics.OneHot.{IsOneHot, record_load-IsOneHot, record_load-other}
use nut_dog.App.{
  Controller, no_config, is_nut_server, new, record_sources, record_loads, record_tick,
}

module _ (c : Controller) (tel : Dict Telemetry) where
  abbrev source : Text → SourceState
  source u = classify (lookup_or no_config u c.ups_configs) (lookup_or no_telemetry u tel)

  lookup-record_sources :
      (us : List Text) (src : Dict SourceState) (m : Metrics) (u : Text)
      → lookup_or source_unknown u (record_sources c tel us src m).0
        ≡ (if has u us then source u else lookup_or source_unknown u src)
  unfolding record_sources has lookup_or
  lookup-record_sources [] src m u = refl
  lookup-record_sources (v ∷ us) src m u = ground (
    arith,
    lookup-record_sources us (insert v (source v) src) (record_source v (source v) m) u,
    lookup-insert v u (source v) src,
    eq_iff v u,
  )

-- For the controller that `New` builds, the classifications that are recorded are those of `Decide`.
recorded_state :
    (cfgs : Dict UpsConfig) (loads : Dict LoadConfig) (tel : Dict Telemetry) (m : Metrics)
    (u : Text)
    → lookup_or source_unknown u
        (record_sources (new cfgs loads) tel (sort_strings (keys cfgs)) [] m).0
      ≡ state_of cfgs tel u
unfolding new lookup_or
recorded_state cfgs loads tel m u =
    lookup-record_sources (new cfgs loads) tel (sort_strings (keys cfgs)) [] m u
    ∙ rw (has-sort_strings u (keys cfgs), has-keys u cfgs) (configured (lookup u cfgs))
  where
    configured :
        (o : Option UpsConfig)
        → (if elim o [ none ↦ false | some c ↦ true ]
            then classify (elim o [ none ↦ no_config | some c ↦ c ]) (lookup_or no_telemetry u tel)
            else source_unknown)
          ≡ elim o [ none ↦ source_unknown | some c ↦ classify c (lookup_or no_telemetry u tel) ]
    configured none = refl
    configured (some c) = refl

recorded_states :
    (cfgs : Dict UpsConfig) (loads : Dict LoadConfig) (tel : Dict Telemetry) (m : Metrics)
    (us : List Text)
    → states_of (record_sources (new cfgs loads) tel (sort_strings (keys cfgs)) [] m).0 us
      ≡ map (state_of cfgs tel) us
unfolding states_of
recorded_states cfgs loads tel m [] = refl
recorded_states cfgs loads tel m (u ∷ us) =
    cc (recorded_state cfgs loads tel m u, recorded_states cfgs loads tel m us)

other : {n l : Text} → n ≡ l → (n == l) ≡ false → ⊥
other {n} {l} e ne = ground (arith, eq_iff n l)

module _ (loads : Dict LoadConfig) (src : Dict SourceState) (r : Readings) where
  abbrev wish_for : Text → Desired
  wish_for l =
      desired_for_load (states_of src (lookup_or no_load l loads).governed_by)
        (lookup_or no_request l r.ext)

  abbrev IsShown : Text → Metrics → Type 0
  IsShown l m = IsOneHot l desired_states (desired_string (wish_for l)) m.load_desired

  -- One series of it.
  abbrev Shows : Text → Metrics → Text → Type 0
  Shows l m b = series l b m.load_desired ≡ some (b2f (b == desired_string (wish_for l)))

  -- The record of one load in the loop.
  abbrev record_one : Text → Metrics → Metrics
  record_one n m =
      record_load n (wish_for n) (lookup_or no_request n r.ext)
        (lookup_or actual_unknown n r.actual) (lookup_or shed_unknown n r.shed)
        (is_nut_server (lookup_or no_load n loads).type) m

  record_one-IsShown :
      (l n : Text) (m : Metrics) → (n ≡ l) ⊎ IsShown l m → IsShown l (record_one n m)
  record_one-IsShown l n m h =
      let lc = lookup_or no_load n loads in
      let req = lookup_or no_request n r.ext in
      let a = lookup_or actual_unknown n r.actual in
      let sh = lookup_or shed_unknown n r.shed in
      let nut = is_nut_server lc.type in
      elim (Bool-cases (n == l)) [
        | inl e ↦
            subst (λ k. IsShown k (record_one n m)) ((eq_iff n l).0 e)
              (record_load-IsOneHot n (wish_for n) req a sh nut m).0
        | inr ne ↦
            let kept : IsShown l m = elim h [ inl e ↦ absurd (other e ne) | inr s ↦ s ] in
            (
              kept.0,
              All-map_of {P = λ b. Shows l m b} {Q = λ b. Shows l (record_one n m) b}
                  (λ b q. record_load-other n (wish_for n) req a sh nut m l b ne ∙ q) desired_states
                  kept.1,
            )
      ]

  record_loads-IsShown :
      (ls : List Text) (m : Metrics) (l : Text)
      → (has l ls ≡ true) ⊎ IsShown l m
      → IsShown l (record_loads loads src r ls m)
  unfolding record_loads has
  record_loads-IsShown [] m l (inl h) = cc
  record_loads-IsShown [] m l (inr h) = h
  record_loads-IsShown (n ∷ ls) m l (inr h) =
      record_loads-IsShown ls (record_one n m) l (inr (record_one-IsShown l n m (inr h)))
  record_loads-IsShown (n ∷ ls) m l (inl h) = elim (Bool-cases (n == l)) [
    | inl e ↦
        record_loads-IsShown ls (record_one n m) l
          (inr (record_one-IsShown l n m (inl ((eq_iff n l).0 e))))
    | inr e ↦ record_loads-IsShown ls (record_one n m) l (inl (ground arith))
  ]

-- For the controller that `New` builds, a tick records of every configured load, one-hot, what
-- `Decide` wants of it by the same readings.
pub record_tick-wanted :
    (cfgs : Dict UpsConfig) (loads : Dict LoadConfig) (r : Readings) (m : Metrics) (l : Text)
    (lc : LoadConfig)
    → lookup l loads ≡ some lc
    → IsOneHot l desired_states
        (desired_string (wanted cfgs r l lc))
        (record_tick (new cfgs loads) r m).load_desired
unfolding record_tick new lookup_or
record_tick-wanted cfgs loads r m l lc e =
    let (src, m') = record_sources (new cfgs loads) r.tel (sort_strings (keys cfgs)) [] m in
    let listed : has l (sort_strings (keys loads)) ≡ true =
      has-sort_strings l (keys loads) ∙ has-keys l loads ∙ (rw e) in
    let shown = record_loads-IsShown loads src r (sort_strings (keys loads)) m' l (inl listed) in
    let mine : lookup_or no_load l loads ≡ lc = rw (e, lookup_or) in
    let same : wish_for loads src r l ≡ wanted cfgs r l lc =
      ap (λ c. desired_for_load (states_of src c.governed_by) (lookup_or no_request l r.ext)) mine
      ∙ ap (λ ss. desired_for_load ss (lookup_or no_request l r.ext))
          (recorded_states cfgs loads r.tel m lc.governed_by) in
    subst
      (λ d.
        IsOneHot l desired_states (desired_string d)
          (record_tick (new cfgs loads) r m).load_desired)
      same shown
