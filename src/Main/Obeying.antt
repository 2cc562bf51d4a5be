-- ===== src/Main/Obeying.antt =====
-- That a request for off is obeyed by the next tick.
use nut_dog.Prelude.{
  ◌≡◌, ◌≢◌, refl, ap, subst, ◌∙◌, inl, inr, false, Bool-cases, Option, some, [], ◌∷◌, arith, All,
  All-map_of, Text, codes, ◌==◌, eq_refl, Dict, lookup, lookup_or, UniqueKeys,
}
use nut_dog.Clock.{Time}
use nut_dog.Control.{no_request, request_off, LoadConfig, Action, desired_on, Readings, UpsConfig}
use nut_dog.Control.Actions.{wish}
use nut_dog.Control.Sources.{LetsRun}
use nut_dog.Control.Decision.{observed}
use nut_dog.Control.Decision.Safety.{Because, IsJustified, IsShedBy}
use nut_dog.App.{Controller, read_all, plan}
use nut_dog.App.Keeping.{asked_at}
use nut_dog.App.Ticks.{plan-IsJustified, plan_sheds}
use nut_dog.Effects.Chassis.{Runner}
use nut_dog.Powerapi.{Entry, Server, handle_power, no_content, expired}
use nut_dog.Powerapi.Handlers.{Asks, handle_power_accepted}
use nut_dog.Powerapi.Runs.{power, run-UniqueKeys}
use nut_dog.Powerapi.Routes.{Call, handled, handle, request_of}
use nut_dog.Powerapi.Routing.{power_path, handle_exact}
use nut_dog.Config.{Config, PowerApiSpec}
use nut_dog.Main.{Outside, Machine, Wiring}
use nut_dog.Main.Start.{ports_of, serve}
use nut_dog.Main.Requested.{request_stands}

-- With a request for off, what is wanted of a load is not on.
not_on :
    (cfgs : Dict UpsConfig) (loads : Dict LoadConfig) (r : Readings) (a : Action)
    → lookup_or no_request a.load r.ext ≡ request_off
    → IsJustified cfgs loads r a
    → wish a.kind ≢ desired_on
not_on cfgs loads r a off (lc, found, why) on = allowed (subst (Because cfgs r a.load lc) on why).1
  where
    allowed : LetsRun (lookup_or no_request a.load r.ext) → ⊥
    allowed (inl e) = ground (arith, off, e)
    allowed (inr e) = ground (arith, off, e)

module _ (decode : Text → Option Text) (t : Time) (call : Call) (s : Server) (l : Text) where
  abbrev entry : Entry
  entry = record { req = request_off; at = t }

  -- The server behind an accepted request for off.
  accepted_off :
      UniqueKeys s.want
      → call.path ≡ power_path l
      → (handle decode t call s).1 ≡ handled no_content
      → Asks decode call.body request_off
      → let after = (handle decode t call s).0 in
        UniqueKeys after.want × (lookup l after.want ≡ some entry) × (after.ttl ≡ s.ttl)
  unfolding nut_dog.Powerapi.Runs.run nut_dog.Powerapi.Runs.step
  accepted_off unique path answer asks = elim (Bool-cases (call.method == codes "PUT")) [
    | inl put ↦
        let r = request_of call l in
        let same = (handle_exact decode t call s).0 l path in
        let answered : (handle_power decode t r s).1 ≡ no_content = ground (arith, same, put) in
        let (rest, entries) = handle_power_accepted decode t r s request_off answered asks in
        let now_is : (handle decode t call s).0 ≡ (handle_power decode t r s).0 =
          ground (arith, same, put) in
        rw now_is (
          run-UniqueKeys decode s (power t r ∷ []) unique,
          entries l ∙ rw (eq_refl l) refl,
          ap (λ x. x.ttl) rest,
        )
    | inr other ↦ absurd (ground (arith, (handle_exact decode t call s).0 l path, other))
  ]

  module _ {S E F : Type 0} (o : Outside S E F) (c : Config) (runner : Option (Runner E S))
      (wired : Wiring S) where
    -- If the running power API accepts a request for off of a load, and the next tick comes before the request
    -- expires, that tick takes the load for requested off: a chassis is down, its power state could not be read, or the
    -- action that shuts it down is applied; the shed signal of a NUT server is asserted, or the action that asserts it
    -- is applied; and no action that is applied releases, wakes or powers up the load, whatever the UPSes
    -- report.
    pub off_obeyed :
        (spec : PowerApiSpec) (ctrl : Controller) (m : Machine S F) (lc : LoadConfig)
        → c.power_api ≡ some spec
        → m.api ≡ some s
        → UniqueKeys s.want
        → call.path ≡ power_path l
        → (handle decode t call s).1 ≡ handled no_content
        → Asks decode call.body request_off
        → (let p = ports_of o c runner wired in
            expired s.ttl (o.now_at (asked_at p ctrl (serve decode p t call m)).net.peer l) entry
            ≡ false)
        → UniqueKeys ctrl.loads
        → lookup l ctrl.loads ≡ some lc
        → let p = ports_of o c runner wired in
          let m' = serve decode p t call m in
          IsShedBy lc.type l (observed (read_all p ctrl m').0 l) (plan p ctrl m').1
          × All (λ a. a.load ≡ l → wish a.kind ≢ desired_on) (plan p ctrl m').1
    unfolding serve lookup_or
    off_obeyed spec ctrl m lc api there unique path answer asks fresh loads_unique found =
        let p = ports_of o c runner wired in
        let m' = serve decode p t call m in
        let (unique', entry', same_ttl) = accepted_off unique path answer asks in
        let there' : m'.api ≡ some (handle decode t call s).0 = rw (serve, there) refl in
        let stands =
          request_stands o c runner wired spec ctrl m' (handle decode t call s).0 l entry api there'
            unique' entry' (rw same_ttl fresh) in
        let off : lookup_or no_request l (read_all p ctrl m').0.ext ≡ request_off =
          rw (lookup_or, stands) refl in
        (
          plan_sheds p ctrl m' l lc loads_unique found (inr off),
          All-map_of
              (λ a j same.
                not_on ctrl.ups_configs ctrl.loads (read_all p ctrl m').0 a (rw same off) j)
              _ (plan-IsJustified p ctrl m'),
        )
