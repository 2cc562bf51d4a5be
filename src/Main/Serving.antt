-- ===== src/Main/Serving.antt =====
-- The power API of the running program: what the ticks and the requests leave of it, from the start on.
use nut_dog.Prelude.{
  ◌≡◌, refl, sym, ap, subst, ◌∙◌, inl, inr, Bool-cases, Option, Option-cases, some, List, [], ◌∷◌,
  arith, Text, codes, ◌==◌, UniqueKeys,
}
use nut_dog.Clock.{Time}
use nut_dog.App.{Controller, requested, tick}
use nut_dog.App.Keeping.{asked_at, asked_at_keeps}
use nut_dog.App.Worlds.{tick_keeps_asked}
use nut_dog.Effects.Chassis.{Runner}
use nut_dog.Powerapi.{Server, desired, handle_power}
use nut_dog.Powerapi.Standing.{desired-UniqueKeys}
use nut_dog.Powerapi.Routes.{Call, handle, match_path, power_pattern, state_pattern, request_of}
use nut_dog.Powerapi.Runs.{power, run-UniqueKeys, SameConfig, step-SameConfig}
use nut_dog.Config.{Config, PowerApiSpec}
use nut_dog.Main.{Outside, Machine, Wiring}
use nut_dog.Main.Start.{Event, ticked, http_asked, ports_of, serve, on_event, loop}
use nut_dog.Main.Carrying.{ports-KeepsLater}
use nut_dog.Main.Requested.{held, held_inv, held_by, ports-Keeps}

-- A server with the configuration of another one and one entry for a load at most.
abbrev pub IsServing : (Text → Option Text) → Server → Server → Type 0
IsServing decode s₀ s = UniqueKeys s.want × SameConfig decode s₀ s

module _ (decode : Text → Option Text) (now : Time) where
  handle-IsServing :
      (c : Call) (s₀ s : Server)
      → IsServing decode s₀ s
      → IsServing decode s₀ (handle decode now c s).0
  unfolding handle nut_dog.Powerapi.Routes.route_power nut_dog.Powerapi.Routes.route_state
      nut_dog.Powerapi.Runs.run nut_dog.Powerapi.Runs.step
  handle-IsServing c s₀ s (unique, same) =
      elim (Option-cases (match_path power_pattern c.path [])) [
        | inl e ↦ elim (Option-cases (match_path state_pattern c.path [])) [
          | inl f ↦ rw (handle, e, f) (unique, same)
          | inr (load, f) ↦ ground (arith, e, f, unique, same)
        ]
        | inr (load, e) ↦ elim (Bool-cases (c.method == codes "PUT")) [
          | inl put ↦
              let event = power now (request_of c load) in
              let kept = step-SameConfig decode s event in
              rw (handle, e, put)
                (
                  run-UniqueKeys decode s (event ∷ []) unique,
                  (kept.0 ∙ same.0, kept.1 ∙ same.1, kept.2 ∙ same.2),
                )
          | inr other ↦ rw (handle, e, other) (unique, same)
        ]
      ]

module _ {S E F : Type 0} (o : Outside S E F) (c : Config) (runner : Option (Runner E S))
    (wired : Wiring S) where
  asked_left :
      (spec : PowerApiSpec) (m : Machine S F) (s : Server)
      → c.power_api ≡ some spec
      → m.api ≡ some s
      → held_by o (requested (ports_of o c runner wired) m).1
        ≡ held (some (desired (o.now_at m.net.peer) s).0)
  unfolding ports_of requested
  asked_left spec m s e f = rw (requested, e, f) refl

  tick_kept :
      (spec : PowerApiSpec) (ctrl : Controller) (m : Machine S F) (s : Server)
      → c.power_api ≡ some spec
      → m.api ≡ some s
      → let w = asked_at (ports_of o c runner wired) ctrl m in
        (t : Server) × (t.want ≡ s.want)
        × (t.token ≡ s.token)
        × (t.loads ≡ s.loads)
        × (t.ttl ≡ s.ttl)
        × (held_by o (tick (ports_of o c runner wired) ctrl m).1
            ≡ held (some (desired (o.now_at w.net.peer) t).0))
  tick_kept spec ctrl m s api there =
      let p = ports_of o c runner wired in
      let w = asked_at p ctrl m in
      let (t, there', same) =
        held_inv w.api (record s { seen = [] })
          (asked_at_keeps p (held_by o) (ports-Keeps o c runner wired spec api) ctrl m
            ∙ ap held there) in
      (
        t,
        ap (λ x. x.want) same,
        ap (λ x. x.token) same,
        ap (λ x. x.loads) same,
        ap (λ x. x.ttl) same,
        tick_keeps_asked p (held_by o) (ports-KeepsLater o c runner wired) ctrl m
            ∙ asked_left spec w t api there',
      )

  -- What a machine of a running program has: a power API that serves.
  abbrev pub HasServer : (Text → Option Text) → Server → Machine S F → Type 0
  HasServer decode s₀ m = (s : Server) × (m.api ≡ some s) × IsServing decode s₀ s

  tick-HasServer :
      (decode : Text → Option Text) (s₀ : Server) (spec : PowerApiSpec) (ctrl : Controller)
      (m : Machine S F)
      → c.power_api ≡ some spec
      → HasServer decode s₀ m
      → HasServer decode s₀ (tick (ports_of o c runner wired) ctrl m).1
  unfolding desired
  tick-HasServer decode s₀ spec ctrl m api (s, there, (unique, same)) =
      let w = asked_at (ports_of o c runner wired) ctrl m in
      let (t, want, token, loads, ttl, after) = tick_kept spec ctrl m s api there in
      let now = o.now_at w.net.peer in
      let (u, there', alike) =
        held_inv (tick (ports_of o c runner wired) ctrl m).1.api
          (record (desired now t).0 { seen = [] }) after in
      (
        u,
        there',
        (
          subst UniqueKeys (sym (ap (λ x. x.want) alike))
              (desired-UniqueKeys now t (subst UniqueKeys (sym want) unique)),
          (
            ap (λ x. x.token) alike ∙ token ∙ same.0,
            ap (λ x. x.loads) alike ∙ loads ∙ same.1,
            ap (λ x. x.ttl) alike ∙ ttl ∙ same.2,
          ),
        ),
      )

  serve-HasServer :
      (decode : Text → Option Text) (s₀ : Server) (t : Time) (call : Call) (m : Machine S F)
      → HasServer decode s₀ m
      → HasServer decode s₀ (serve decode (ports_of o c runner wired) t call m)
  unfolding serve
  serve-HasServer decode s₀ t call m (s, there, serving) = (
    (handle decode t call s).0,
    rw (serve, there) refl,
    handle-IsServing decode t call s₀ s serving,
  )

  -- The loop leaves a power API that serves.
  pub loop-HasServer :
      (decode : Text → Option Text) (s₀ : Server) (spec : PowerApiSpec) (events : List Event)
      (s : Controller × Machine S F)
      → c.power_api ≡ some spec
      → HasServer decode s₀ s.1
      → HasServer decode s₀ (loop decode (ports_of o c runner wired) events s).1
  unfolding loop on_event
  loop-HasServer decode s₀ spec [] s api h = h
  loop-HasServer decode s₀ spec (ticked ∷ events) (ctrl, m) api h =
      loop-HasServer decode s₀ spec events (tick (ports_of o c runner wired) ctrl m) api
        (tick-HasServer decode s₀ spec ctrl m api h)
  loop-HasServer decode s₀ spec (http_asked t call ∷ events) (ctrl, m) api h =
      loop-HasServer decode s₀ spec events (ctrl, serve decode (ports_of o c runner wired) t call m)
        api (serve-HasServer decode s₀ t call m h)
