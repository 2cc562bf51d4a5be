-- ===== src/Powerapi/Runs.antt =====
-- The server over any sequence of calls, in any order: its requests load by load.
use nut_dog.Prelude.{
  ◌≡◌, refl, sym, ap, ◌∙◌, inl, inr, true, false, ◌&&◌, Option, Option-cases, none, some, List, [],
  ◌∷◌, arith, Text, ◌==◌, eq_iff, Dict, lookup, lookup_or, lookup-insert, lookup-fill, has,
  UniqueKeys, insert-UniqueKeys, if◌then◌else◌,
}
use nut_dog.Clock.{Time, Duration}
use nut_dog.Control.{Request, ActualState}
use nut_dog.Powerapi.{
  Entry, Server, HttpRequest, new, authorised, asked, handle_power, desired, publish_actual,
}
use nut_dog.Powerapi.Standing.{live, req_of, desired_exact, desired-UniqueKeys}

-- A call of the server: a request that a handler gets, a tick's `Desired`, a tick's probe results.
pub data Event : Type 0 where
  power : Time → HttpRequest → Event
  tick : (Text → Time) → Event
  publish : Dict ActualState → Time → Event

module _ (decode : Text → Option Text) where
  unfoldable pub step : Server → Event → Server
  unfolding handle_power desired publish_actual
  step s (power now r) = (handle_power decode now r s).0
  step s (tick now) = (desired now s).0
  step s (publish actual now) = publish_actual actual now s

  unfoldable pub run : Server → List Event → Server
  unfolding step
  run s [] = s
  run s (e ∷ es) = run (step s e) es

  -- The request that a handler accepts at the server's token and loads.
  unfoldable pub accepted : Server → HttpRequest → Option Request
  accepted s r =
      if authorised s r && lookup_or false r.load s.loads then asked decode r.body else none

  -- What an event does to the entry of one load, by the server's configuration alone.
  unfoldable pub after : Server → Text → Option Entry → Event → Option Entry
  unfolding accepted live
  after s l o (power now r) = elim (accepted s r) [
    | none ↦ o
    | some req ↦ if r.load == l then some (record { req = req; at = now }) else o
  ]
  after s l o (tick now) = live s.ttl (now l) o
  after s l o (publish actual now) = o

  unfoldable pub history : Server → Text → Option Entry → List Event → Option Entry
  history s l o [] = o
  history s l o (e ∷ es) = history s l (after s l o e) es

  step-history :
      (s : Server) (l : Text) (e : Event)
      → UniqueKeys s.want
      → (lookup l (step s e).want ≡ after s l (lookup l s.want) e) × UniqueKeys (step s e).want
  unfolding step after
  step-history s l (power now r) h = elim (Option-cases (asked decode r.body)) [
    | inl e ↦ ground (arith, e, h)
    | inr (req, e) ↦
        let entry : Entry = record { req = req; at = now } in
        ground (
          arith,
          e,
          h,
          lookup-insert r.load l entry s.want,
          insert-UniqueKeys r.load entry s.want h,
        )
  ]
  step-history s l (tick now) h = ((desired_exact now s l h).1, desired-UniqueKeys now s h)
  step-history s l (publish actual now) h = (refl, h)

  -- The configuration stays as it is.
  abbrev pub SameConfig : Server → Server → Type 0
  SameConfig s t = (t.token ≡ s.token) × (t.loads ≡ s.loads) × (t.ttl ≡ s.ttl)

  pub step-SameConfig : (s : Server) (e : Event) → SameConfig s (step s e)
  unfolding step
  step-SameConfig s (power now r) = ground arith
  step-SameConfig s _ = (refl, refl, refl)

  after_same :
      (s t : Server) (l : Text) (o : Option Entry) (e : Event)
      → SameConfig s t
      → after s l o e ≡ after t l o e
  unfolding after authorised
  after_same s t l o (power now r) c = ground (arith, c)
  after_same s t l o (tick now) c = cc
  after_same s t l o (publish actual now) c = refl

  history_same :
      (s t : Server) (l : Text) (o : Option Entry) (es : List Event)
      → SameConfig s t
      → history s l o es ≡ history t l o es
  unfolding history
  history_same s t l o [] c = refl
  history_same s t l o (e ∷ es) c =
      ap (λ x. history s l x es) (after_same s t l o e c) ∙ history_same s t l (after t l o e) es c

  -- Over any sequence of calls, the entry of a load is what its own history makes of it: the accepted
  -- requests for it, and the ticks at which its entry has expired.
  pub run-history :
      (s : Server) (l : Text) (es : List Event)
      → UniqueKeys s.want
      → lookup l (run s es).want ≡ history s l (lookup l s.want) es
  unfolding run history
  run-history s l [] h = refl
  run-history s l (e ∷ es) h =
      let (now_there, unique) = step-history s l e h in
      run-history (step s e) l es unique
      ∙ ap (λ x. history (step s e) l x es) now_there
      ∙ sym (history_same s (step s e) l (after s l (lookup l s.want) e) es (step-SameConfig s e))

  pub run-UniqueKeys :
      (s : Server) (es : List Event) → UniqueKeys s.want → UniqueKeys (run s es).want
  unfolding run
  run-UniqueKeys s [] h = h
  run-UniqueKeys s (e ∷ es) h = run-UniqueKeys (step s e) es (step-history s [] e h).1

  after_refused :
      (s : Server) (l : Text) (e : Event)
      → lookup_or false l s.loads ≡ false
      → after s l none e ≡ none
  unfolding after
  after_refused s l (power now r) h = ground (arith, eq_iff r.load l)
  after_refused s l (tick now) h = refl
  after_refused s l (publish actual now) h = refl

  history_refused :
      (s : Server) (l : Text) (es : List Event)
      → lookup_or false l s.loads ≡ false
      → history s l none es ≡ none
  unfolding history
  history_refused s l [] h = refl
  history_refused s l (e ∷ es) h = rw (after_refused s l e h) (history_refused s l es h)

  listed_new :
      (token : Text) (loads : List Text) (ttl : Duration) (l : Text)
      → lookup_or false l (new token loads ttl).loads ≡ has l loads
  unfolding new lookup_or
  listed_new token loads ttl l = ground (arith, lookup-fill (λ _. true) loads l)

  nothing_live :
      (ttl : Duration) (now : Time) {o : Option Entry} → o ≡ none → req_of (live ttl now o) ≡ none
  unfolding live
  nothing_live ttl now e = rw e

  -- Whatever the calls, a new server has no request for a load that is not on its allowlist.
  pub unlisted_never_requested :
      (token : Text) (loads : List Text) (ttl : Duration) (es : List Event) (now : Text → Time)
      (l : Text)
      → has l loads ≡ false
      → lookup l (desired now (run (new token loads ttl) es)).1 ≡ none
  unfolding new lookup
  unlisted_never_requested token loads ttl es now l h =
      let s = new token loads ttl in
      let gone : lookup l (run s es).want ≡ none =
        run-history s l es tt ∙ history_refused s l es (listed_new token loads ttl l ∙ h) in
      (desired_exact now (run s es) l (run-UniqueKeys s es tt)).0
      ∙ nothing_live (run s es).ttl (now l) gone
