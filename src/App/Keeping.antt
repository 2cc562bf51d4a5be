-- ===== src/App/Keeping.antt =====
-- What the polls, the probes and the publishing of a tick leave alone, and so what the requests are read from.
use nut_dog.Prelude.{
  ◌≡◌, refl, ◌∙◌, Option-cases, inl, inr, some, List, [], ◌∷◌, Text, Dict, lookup_or,
}
use nut_dog.Clock.{Time}
use nut_dog.Control.{
  Telemetry, ActualState, ShedState, LoadType, chassis, nut_server, LoadConfig, no_load,
}
use nut_dog.App.{Ports, Controller, poll_all, shed_of, probe_all, publish, requested, read_all}

-- The world at which a tick asks for the requests.
abbrev pub asked_at : {W : Type 0} → Ports W → Controller → W → W
asked_at p c w =
    let (tel, w₁) = poll_all p c.ups_names [] w in
    let (actual, shed, w₂) = probe_all p c.loads c.load_names [] [] w₁ in publish p actual w₂

pub ext-asked_at :
    {W : Type 0} (p : Ports W) (c : Controller) (w : W)
    → (read_all p c w).0.ext ≡ (requested p (asked_at p c w)).0
unfolding read_all
ext-asked_at p c w = refl

module _ {W A : Type 0} (p : Ports W) (f : W → A) where
  -- The calls of a tick in front of the requests do not change what `f` shows of the world.
  abbrev pub Keeps : Type 0
  Keeps =
      ((u : Text) (w : W) → f (p.poll u w).1 ≡ f w)
      × ((l : Text) (w : W) → f (p.probe l w).1 ≡ f w)
      × ((read : Text → W → ShedState × W)
          → p.read_shed ≡ some read
          → (l : Text) (w : W) → f (read l w).1 ≡ f w)
      × ((sink : Dict ActualState → Time → W → W)
          → p.publish_actual ≡ some sink
          → (actual : Dict ActualState) (t : Time) (w : W) → f (sink actual t w) ≡ f w)
      × ((w : W) → f (p.now w).1 ≡ f w)

  module _ (keeps : Keeps) where
    poll_all_keeps :
        (us : List Text) (tel : Dict Telemetry) (w : W) → f (poll_all p us tel w).1 ≡ f w
    unfolding poll_all
    poll_all_keeps [] tel w = refl
    poll_all_keeps (u ∷ us) tel w = poll_all_keeps us _ (p.poll u w).1 ∙ keeps.0 u w

    shed_of_keeps :
        (lt : LoadType) (l : Text) (shed : Dict ShedState) (w : W)
        → f (shed_of p lt l shed w).1 ≡ f w
    unfolding shed_of
    shed_of_keeps chassis l shed w = elim (Option-cases p.read_shed) [
      | inl e ↦ rw (shed_of, e) refl
      | inr (read, e) ↦ rw (shed_of, e) refl
    ]
    shed_of_keeps nut_server l shed w = elim (Option-cases p.read_shed) [
      | inl e ↦ rw (shed_of, e) refl
      | inr (read, e) ↦ rw (shed_of, e) (keeps.2 read e l w)
    ]

    probe_all_keeps :
        (loads : Dict LoadConfig) (ls : List Text) (actual : Dict ActualState)
        (shed : Dict ShedState) (w : W)
        → f (probe_all p loads ls actual shed w).2 ≡ f w
    unfolding probe_all
    probe_all_keeps loads [] actual shed w = refl
    probe_all_keeps loads (l ∷ ls) actual shed w =
        let (a, w₁) = p.probe l w in
        let (shed', w₂) = shed_of p (lookup_or no_load l loads).type l shed w₁ in
        probe_all_keeps loads ls _ shed' w₂
        ∙ shed_of_keeps (lookup_or no_load l loads).type l shed w₁
        ∙ keeps.1 l w

    publish_keeps : (actual : Dict ActualState) (w : W) → f (publish p actual w) ≡ f w
    unfolding publish
    publish_keeps actual w = elim (Option-cases p.publish_actual) [
      | inl e ↦ rw (publish, e) refl
      | inr (sink, e) ↦ rw (publish, e) (keeps.3 sink e actual (p.now w).0 (p.now w).1 ∙ keeps.4 w)
    ]

    -- Nothing of it has changed when the requests are asked for.
    pub asked_at_keeps : (c : Controller) (w : W) → f (asked_at p c w) ≡ f w
    asked_at_keeps c w =
        let (tel, w₁) = poll_all p c.ups_names [] w in
        let (actual, shed, w₂) = probe_all p c.loads c.load_names [] [] w₁ in
        publish_keeps actual w₂
        ∙ probe_all_keeps c.loads c.load_names [] [] w₁
        ∙ poll_all_keeps c.ups_names [] w
