-- ===== src/Main/Requested.antt =====
-- From a request to the power API to the actions of the next tick.
use nut_dog.Prelude.{
  [], some_inj, ◌≡◌, refl, sym, ap, subst, ◌∙◌, inl, inr, false, Option, Option-cases, none, some,
  arith, Text, Dict, lookup, UniqueKeys,
}
use nut_dog.Clock.{Time}
use nut_dog.Control.{ActualState, ShedState}
use nut_dog.App.{Controller, read_all, requested}
use nut_dog.App.Keeping.{asked_at, ext-asked_at, Keeps, asked_at_keeps}
use nut_dog.Nut.Client.{Options, Result, ok, err, Session, fetch}
use nut_dog.Effects.Chassis.{Runner}
use nut_dog.Powerapi.{Entry, Server, desired, publish_actual, expired}
use nut_dog.Powerapi.Standing.{live, req_of, desired_exact}
use nut_dog.Config.{Config, PowerApiSpec}
use nut_dog.Main.{
  Outside, Machine, Wiring, UpsPoll, poll, polled, probe, read_shed, shed_read, new_poller,
  local_upsd_addr,
}
use nut_dog.Main.Preflight.{local_opts}
use nut_dog.Main.Start.{ports_of, sink_of}

-- The power API without the probe results that it shows.
abbrev pub held : Option Server → Option Server
held none = none
held (some s) = some (record s { seen = [] })

pub held_inv :
    (x : Option Server) (s : Server)
    → held x ≡ some s
    → (t : Server) × (x ≡ some t) × (record t { seen = [] } ≡ s)
held_inv none s h = absurd (ground arith)
held_inv (some t) s h = (t, refl, some_inj _ s h)

module _ {S E F : Type 0} (o : Outside S E F) where
  abbrev pub held_by : Machine S F → Option Server
  held_by m = held m.api

  polled_keeps :
      (u : Text) (x : Result (Dict Text) × Session S) (m : Machine S F)
      → held_by (polled o u x m).1 ≡ held_by m
  unfolding polled
  polled_keeps u (ok vars, net) m = refl
  polled_keeps u (err e, net) m = refl

  poll_keeps :
      (specs : Dict UpsPoll) (u : Text) (m : Machine S F) → held_by (poll o specs u m).1 ≡ held_by m
  unfolding poll
  poll_keeps specs u m = elim (Option-cases (lookup u specs)) [
    | inl e ↦ rw (poll, e) refl
    | inr (spec, e) ↦
        rw (poll, e) (polled_keeps u (fetch o.peer spec.addr spec.ups spec.opts m.net) m)
  ]

  probe_keeps :
      (probes : Dict (S → ActualState × S)) (l : Text) (m : Machine S F)
      → held_by (probe o probes l m).1 ≡ held_by m
  unfolding probe
  probe_keeps probes l m = elim (Option-cases (lookup l probes)) [
    | inl e ↦ rw (probe, e) refl
    | inr (fn, e) ↦ rw (probe, e) refl
  ]

  shed_read_keeps :
      (x : Result (Dict Text) × Session S) (m : Machine S F)
      → held_by (shed_read o x m).1 ≡ held_by m
  unfolding shed_read
  shed_read_keeps (ok vars, net) m = refl
  shed_read_keeps (err e, net) m = refl

  read_shed_keeps :
      (addr : Text) (opts : Options) (shed_ups : Dict Text) (l : Text) (m : Machine S F)
      → held_by (read_shed o addr opts shed_ups l m).1 ≡ held_by m
  unfolding read_shed
  read_shed_keeps addr opts shed_ups l m = elim (Option-cases (lookup l shed_ups)) [
    | inl e ↦ rw (read_shed, e) refl
    | inr (ups, e) ↦ rw (read_shed, e) (shed_read_keeps (fetch o.peer addr ups opts m.net) m)
  ]

  sink_keeps :
      (actual : Dict ActualState) (t : Time) (m : Machine S F)
      → held_by (sink_of o actual t m) ≡ held_by m
  unfolding publish_actual
  sink_keeps actual t m = with_api m.api refl
    where
      with_api : (x : Option Server) → m.api ≡ x → held_by (sink_of o actual t m) ≡ held_by m
      with_api none e = rw e refl
      with_api (some s) e = rw e refl

  module _ (c : Config) (runner : Option (Runner E S)) (wired : Wiring S) where
    pub ports-Keeps :
        (spec : PowerApiSpec) → c.power_api ≡ some spec → Keeps (ports_of o c runner wired) held_by
    unfolding ports_of
    ports-Keeps spec e = (
      λ u m. poll_keeps (new_poller o.getenv c.upses) u m,
      λ l m. probe_keeps wired.probes l m,
      λ read same.
          subst
            (λ (f : Text → Machine S F → ShedState × Machine S F).
              (l : Text) (m : Machine S F) → held_by (f l m).1 ≡ held_by m)
            (some_inj _ read same)
            (read_shed_keeps (local_upsd_addr c) (local_opts o.getenv c) wired.shed_ups),
      λ sink same.
          let first : (ports_of o c runner wired).publish_actual ≡ some (sink_of o) = rw e refl in
          subst
            (λ (f : Dict ActualState → Time → Machine S F → Machine S F).
              (actual : Dict ActualState) (t : Time) (m : Machine S F)
              → held_by (f actual t m) ≡ held_by m)
            (some_inj (sink_of o) sink (sym first ∙ same)) sink_keeps,
      λ m. refl,
    )

    pub asked_api :
        (spec : PowerApiSpec) (m : Machine S F) (s : Server)
        → c.power_api ≡ some spec
        → m.api ≡ some s
        → (requested (ports_of o c runner wired) m).0 ≡ (desired (o.now_at m.net.peer) s).1
    unfolding ports_of requested
    asked_api spec m s e f = rw (requested, e, f) refl

    stands :
        (now : Time) (s : Server) (x : Option Entry) (e : Entry)
        → x ≡ some e
        → expired s.ttl now e ≡ false
        → req_of (live s.ttl now x) ≡ some e.req
    unfolding live
    stands now s x e same fresh = rw (same, live, fresh) refl

    -- A request that has not expired is what the tick has of its load.
    pub request_stands :
        (spec : PowerApiSpec) (ctrl : Controller) (m : Machine S F) (s : Server) (l : Text)
        (e : Entry)
        → c.power_api ≡ some spec
        → m.api ≡ some s
        → UniqueKeys s.want
        → lookup l s.want ≡ some e
        → expired s.ttl (o.now_at (asked_at (ports_of o c runner wired) ctrl m).net.peer l) e
          ≡ false
        → lookup l (read_all (ports_of o c runner wired) ctrl m).0.ext ≡ some e.req
    request_stands spec ctrl m s l e api there unique entry fresh =
        let p = ports_of o c runner wired in
        let w = asked_at p ctrl m in
        let kept : held_by w ≡ held_by m = asked_at_keeps p held_by (ports-Keeps spec api) ctrl m in
        let (s', there', same) = held_inv w.api (record s { seen = [] }) (kept ∙ ap held there) in
        let same_want : s'.want ≡ s.want = ap (λ x. x.want) same in
        let same_ttl : s'.ttl ≡ s.ttl = ap (λ x. x.ttl) same in
        ap (lookup l) (ext-asked_at p ctrl m ∙ asked_api spec w s' api there')
        ∙ (desired_exact (o.now_at w.net.peer) s' l (rw same_want unique)).0
        ∙ stands (o.now_at w.net.peer l) s' (lookup l s'.want) e (rw same_want entry)
            (rw same_ttl fresh)
