-- ===== src/Main/Standing.antt =====
-- That the running program obeys a request for off, from the start on.
use nut_dog.Prelude.{
  ◌≡◌, ◌≢◌, refl, sym, ap, subst, ◌∙◌, ◌⊎◌, inl, inr, true, false, Option, some, List, [], ◌∷◌,
  arith, All, Text, codes, eq_refl, lookup, lookup_or, has, lookup-fill, UniqueKeys, pos, ltb_ℤ,
  leb_ℤ,
}
use nut_dog.Clock.{Time, Duration, sub_time}
use nut_dog.App.Keeping.{asked_at}
use nut_dog.Control.{request_off, LoadConfig, desired_on}
use nut_dog.Control.Actions.{wish}
use nut_dog.Control.Decision.{observed}
use nut_dog.Control.Decision.Safety.{IsShedBy}
use nut_dog.App.{Ports, Controller, read_all, plan}
use nut_dog.Effects.Ssh.{Ssh}
use nut_dog.Powerapi.{Entry, Server, handle_power, no_content, expired, authorised}
use nut_dog.Powerapi
use nut_dog.Powerapi.Handlers.{Asks, handle_power_status}
use nut_dog.Powerapi.Runs.{SameConfig}
use nut_dog.Powerapi.Routes.{Call, handled, handle, request_of}
use nut_dog.Powerapi.Routing.{power_path, handle_exact}
use nut_dog.Config.{Config, PowerApiSpec, control_loads}
use nut_dog.Main.{Outside, Machine}
use nut_dog.Main.Start.{Exit, Running, Event, api_with, api_of, ports_of, serve, start, loop}
use nut_dog.Main.Running.{start_inv, loop_keeps}
use nut_dog.Main.Critical.{control_loads-UniqueKeys}
use nut_dog.Main.Obeying.{off_obeyed}
use nut_dog.Main.Serving.{HasServer, loop-HasServer}

inr_inj : {B : Type 0} (a b : B) → ◌≡◌ {A = Exit ⊎ B} (inr a) (inr b) → a ≡ b
inr_inj a b e = ap (λ x. elim x [ inl y ↦ a | inr y ↦ y ]) e

-- The power API that a start makes.
api_with_inv :
    {S E F : Type 0} (o : Outside S E F) (token : Text) (loads : List Text) (ttl : Duration)
    (x : Option Server)
    → api_with o token loads (some ttl) ≡ inr x
    → x ≡ some (Powerapi.new token loads ttl)
api_with_inv o [] loads ttl x e = absurd (ground arith)
api_with_inv o (b ∷ token) loads ttl x e =
    sym (inr_inj (some (Powerapi.new (b ∷ token) loads ttl)) x e)

api_of_inv :
    {S E F : Type 0} (o : Outside S E F) (y : Option PowerApiSpec) (spec : PowerApiSpec)
    (ttl : Duration) (x : Option Server)
    → y ≡ some spec
    → spec.request_ttl ≡ some ttl
    → api_of o y ≡ inr x
    → x ≡ some (Powerapi.new (o.getenv spec.token_env) spec.loads ttl)
unfolding api_of
api_of_inv o y spec ttl x e f made = api_with_inv o (o.getenv spec.token_env) spec.loads ttl x (
    subst (λ z. api_with o (o.getenv spec.token_env) spec.loads z ≡ inr x) f
      (subst (λ z. api_of o z ≡ inr x) e made))

module _ (decode : Text → Option Text) where
  -- A request of a caller that a server with this configuration lets in is accepted.
  off_accepted :
      (now : Time) (call : Call) (s₀ s : Server) (l : Text)
      → SameConfig decode s₀ s
      → call.method ≡ codes "PUT"
      → call.path ≡ power_path l
      → authorised s₀ (request_of call l) ≡ true
      → lookup_or false l s₀.loads ≡ true
      → Asks decode call.body request_off
      → (handle decode now call s).1 ≡ handled no_content
  unfolding authorised
  off_accepted now call s₀ s l same put path auth listed asks =
      let let_in : authorised s (request_of call l) ≡ true = rw same.0 auth in
      let known : lookup_or false l s.loads ≡ true = rw same.1 listed in
      let answer =
        ((handle_power_status decode now (request_of call l) s).2).1
          (let_in, known, (request_off, asks)) in
      ap (λ x. x.1) ((handle_exact decode now call s).0 l path)
      ∙ rw (put, eq_refl (codes "PUT"), answer) refl

-- At this time a request of an earlier one has not expired: the time to live has not passed since, or is not positive.
abbrev IsFresh : Duration → Time → Time → Type 0
IsFresh ttl now t = (ltb_ℤ (pos 0) ttl ≡ false) ⊎ (leb_ℤ ttl (sub_time now t) ≡ false)

not_expired :
    (ttl : Duration) (now t : Time)
    → IsFresh ttl now t
    → expired ttl now (record { req = request_off; at = t }) ≡ false
unfolding expired
not_expired ttl now t h = ground arith

-- What an obeyed request for off means for the next tick.
abbrev IsObeyed : {W : Type 0} → Ports W → Controller → W → Text → LoadConfig → Type 0
IsObeyed p ctrl m l lc =
    IsShedBy lc.type l (observed (read_all p ctrl m).0 l) (plan p ctrl m).1
    × All (λ a. a.load ≡ l → wish a.kind ≢ desired_on) (plan p ctrl m).1

-- From a start with a power API on, and after any ticks and requests to it: a PUT of off for a load that the API may
-- control, by a caller that it lets in, stands in the next tick, if at its time, by the clock that it reads, the time to
-- live has not passed since or is not positive. Then, whatever the UPSes report, a chassis is down, its power state
-- could not be read, or the action that shuts it down is applied; the shed signal of a NUT server is asserted, or the
-- action that asserts it is applied; and no action that is applied releases, wakes or powers up the load.
pub off_request_obeyed :
    {S E F K P : Type 0} (o : Outside S E F) (ssh : Ssh E K P S) (decode : Text → Option Text)
    (c : Config) (before : Machine S F) (events : List Event) (r : Running o) (spec : PowerApiSpec)
    (ttl : Duration) (t : Time) (call : Call) (l : Text) (lc : LoadConfig)
    → UniqueKeys c.loads
    → start o ssh c before ≡ inr r
    → c.power_api ≡ some spec
    → spec.request_ttl ≡ some ttl
    → lookup l (control_loads c.loads) ≡ some lc
    → has l spec.loads ≡ true
    → call.method ≡ codes "PUT"
    → call.path ≡ power_path l
    → authorised (Powerapi.new (o.getenv spec.token_env) spec.loads ttl) (request_of call l) ≡ true
    → Asks decode call.body request_off
    → (let (ctrl, m) = loop decode r.0 events (r.1, r.2) in
        let w = asked_at r.0 ctrl (serve decode r.0 t call m) in
        (ltb_ℤ (pos 0) ttl ≡ false) ⊎ (leb_ℤ ttl (sub_time (o.now_at w.net.peer l) t) ≡ false))
    → let (ctrl, m) = loop decode r.0 events (r.1, r.2) in
      let m' = serve decode r.0 t call m in
      IsShedBy lc.type l (observed (read_all r.0 ctrl m').0 l) (plan r.0 ctrl m').1
      × All (λ a. a.load ≡ l → wish a.kind ≢ desired_on) (plan r.0 ctrl m').1
unfolding Powerapi.new lookup_or
off_request_obeyed {S} {E} {F} o ssh decode c before events r spec ttl t call l lc unique started
      api lasts governed listed put path auth asks fresh =
    let (runner, wired, ports, wires, ready, configured, made) =
      start_inv o c ssh before r started in
    let (ctrl, m) = loop decode r.0 events (r.1, r.2) in
    let keeps = loop_keeps decode r.0 events (r.1, r.2) in
    let s₀ = Powerapi.new (o.getenv spec.token_env) spec.loads ttl in
    let first : HasServer o c runner wired decode s₀ r.2 =
      (s₀, api_of_inv o c.power_api spec ttl r.2.api api lasts made, (tt, (refl, refl, refl))) in
    let serving : HasServer o c runner wired decode s₀ m =
      subst
        (λ (p : Ports (Machine S F)).
          HasServer o c runner wired decode s₀ (loop decode p events (r.1, r.2)).1)
        (sym ports) (loop-HasServer o c runner wired decode s₀ spec events (r.1, r.2) api first) in
    let (s, there, serves) = serving in
    let known : lookup_or false l s₀.loads ≡ true =
      rw (lookup_or, lookup-fill (λ _. true) spec.loads l, listed) refl in
    let answer = off_accepted decode t call s₀ s l serves.1 put path auth known asks in
    subst (λ (p : Ports (Machine S F)). IsObeyed p ctrl (serve decode p t call m) l lc) (sym ports)
      (off_obeyed decode t call s l o c runner wired spec ctrl m lc api there serves.0 path answer
        asks
        (rw serves.1.2 (
          not_expired ttl
            (o.now_at
              (asked_at (ports_of o c runner wired) ctrl
                (serve decode (ports_of o c runner wired) t call m)).net.peer
              l)
            t
            (subst
              (λ (p : Ports (Machine S F)).
                IsFresh ttl (o.now_at (asked_at p ctrl (serve decode p t call m)).net.peer l) t)
              ports fresh)))
        (subst UniqueKeys (sym (keeps.1 ∙ configured.1)) (control_loads-UniqueKeys c.loads unique))
        (ap (lookup l) (keeps.1 ∙ configured.1) ∙ governed))
