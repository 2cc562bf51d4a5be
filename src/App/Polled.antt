-- ===== src/App/Polled.antt =====
-- The telemetry of a tick is that of its polls.
use nut_dog.Prelude.{
  some_inj, ◌≡◌, ◌≢◌, subst, ◌⊎◌, inl, inr, true, Bool-cases, none, some, List, [], ◌∷◌, arith,
  Text, ◌==◌, eq_iff, Dict, lookup, insert, lookup-insert, has,
}
use nut_dog.Control.{Telemetry}
use nut_dog.App.{Ports, Controller, poll_all, read_all}

module _ {W : Type 0} (p : Ports W) where
  module _ (P : Text → Telemetry → Type 0) (polls : (u : Text) (w : W) → P u (p.poll u w).0) where
    -- Whatever all polls say of their UPS holds of the telemetry that is kept for it.
    abbrev Holds : Dict Telemetry → Type 0
    Holds tel = (u : Text) (t : Telemetry) → lookup u tel ≡ some t → P u t

    insert-Holds :
        (u : Text) (t : Telemetry) (tel : Dict Telemetry)
        → P u t
        → Holds tel
        → Holds (insert u t tel)
    insert-Holds u t tel now before v s found = elim (Bool-cases (u == v)) [
      | inl e ↦
          let at : u ≡ v = (eq_iff u v).0 e in
          let same : t ≡ s = some_inj t s (ground (arith, e, lookup-insert u v t tel)) in
          subst (λ x. P x s) at (subst (P u) same now)
      | inr e ↦ before v s (ground (arith, e, lookup-insert u v t tel))
    ]

    poll_all-Holds :
        (us : List Text) (tel : Dict Telemetry) (w : W) → Holds tel → Holds (poll_all p us tel w).0
    unfolding poll_all
    poll_all-Holds [] tel w h = h
    poll_all-Holds (u ∷ us) tel w h =
        poll_all-Holds us _ (p.poll u w).1 (insert-Holds u (p.poll u w).0 tel (polls u w) h)

    pub tel-Holds :
        (c : Controller) (w : W) (u : Text) (t : Telemetry)
        → lookup u (read_all p c w).0.tel ≡ some t
        → P u t
    unfolding read_all lookup
    tel-Holds c w = poll_all-Holds c.ups_names [] w (λ u t e. absurd (ground arith))

  poll_all-there :
      (u : Text) (us : List Text) (tel : Dict Telemetry) (w : W)
      → (has u us ≡ true) ⊎ (lookup u tel ≢ none)
      → lookup u (poll_all p us tel w).0 ≢ none
  unfolding poll_all has
  poll_all-there u [] tel w (inl e) = absurd (ground arith)
  poll_all-there u [] tel w (inr h) = h
  poll_all-there u (v ∷ us) tel w h =
      poll_all-there u us (insert v (p.poll v w).0 tel) (p.poll v w).1 (elim (Bool-cases (v == u)) [
        | inl e ↦ inr (λ k. ground (arith, e, lookup-insert v u (p.poll v w).0 tel))
        | inr e ↦ elim h [
          | inl m ↦ inl (ground (arith, e))
          | inr m ↦ inr (λ k. ground (arith, e, m, lookup-insert v u (p.poll v w).0 tel))
        ]
      ])

  -- Every UPS of the controller has been polled.
  pub tel-there :
      (c : Controller) (w : W) (u : Text)
      → has u c.ups_names ≡ true
      → lookup u (read_all p c w).0.tel ≢ none
  unfolding read_all
  tel-there c w u h = poll_all-there u c.ups_names [] w (inl h)
