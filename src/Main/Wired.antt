-- ===== src/Main/Wired.antt =====
-- What `wireLoads` makes of an accepted configuration: each load has its target, and each NUT server its shed
-- signal.
use nut_dog.Prelude.{
  ◌≡◌, ◌≢◌, refl, inl, inr, true, false, Option, none, some, Option-cases, [], ◌∷◌, arith, All,
  Text, ◌==◌, eq_iff, Dict, lookup, UniqueKeys, lookup-All,
}
use nut_dog.Effects.Chassis.{Runner}
use nut_dog.Config.{
  Config, LoadSpec, UpsSpec, CmcSpec, WakeSpec, ProbeSpec, type_chassis, type_nut_server, load,
}
use nut_dog.Config.Accepted.{There, IsValidLoad, validate_exact}
use nut_dog.Config.Derived.{load_inv}
use nut_dog.Main.{Outside, Wiring, wire_chassis, wire_server, wire_load, wire_all, wire_loads}
use nut_dog.Main.Rounds.{IsKnown, HasWiring, not_chassis, wire_all-HasWiring}

pub IsKnown-of : (upses : Dict UpsSpec) (l : LoadSpec) → IsValidLoad upses l → IsKnown l
IsKnown-of upses l (inl h, more, us) = inl h.0
IsKnown-of upses l (inr h, more, us) = inr h.0

-- A load of an accepted configuration is of one of the two types.
pub IsKnown-accepted :
    (c c' : Config) (name : Text) (l : LoadSpec)
    → load c ≡ inr c'
    → lookup name c'.loads ≡ some l
    → IsKnown l
IsKnown-accepted c c' name l e found =
    let valid = (validate_exact c').0 (load_inv c c' e).1 in
    IsKnown-of c'.upses l (lookup-All _ c'.loads name l valid.5 found)

module _ {S E F : Type 0} (o : Outside S E F) (runner : Option (Runner E S)) where
  chassis_wires :
      (P : CmcSpec → Type 0) (name : Text) (cmc : Option CmcSpec) (w : Wiring S)
      → There P cmc
      → wire_chassis o runner name cmc w ≢ none
  unfolding wire_chassis
  chassis_wires P name none w h k = h
  chassis_wires P name (some cmc) w h k = ground arith

  server_wires :
      (P : WakeSpec → Type 0) (Q : ProbeSpec → Type 0) (name : Text) (wake : Option WakeSpec)
      (probe : Option ProbeSpec) (w : Wiring S)
      → There P wake
      → There Q probe
      → wire_server o name probe wake w ≢ none
  unfolding wire_server
  server_wires P Q name none probe w h i k = h
  server_wires P Q name (some wake) none w h i k = i
  server_wires P Q name (some wake) (some probe) w h i k = ground arith

  wire_load_there :
      (upses : Dict UpsSpec) (name : Text) (l : LoadSpec) (w : Wiring S)
      → IsValidLoad upses l
      → wire_load o runner name l w ≢ none
  unfolding wire_load
  wire_load_there upses name l w (inl (t, cmc), more, us) k =
      let test : (l.type == type_chassis) ≡ true = (eq_iff l.type type_chassis).1 t in
      chassis_wires _ name l.cmc w cmc (ground arith)
  wire_load_there upses name l w (inr (t, server), more, us) k =
      let test : (l.type == type_nut_server) ≡ true = (eq_iff l.type type_nut_server).1 t in
      let other : (l.type == type_chassis) ≡ false = not_chassis l.type t in
      server_wires _ _ name l.wake l.probe w server.0 server.1 (ground arith)

  wire_load_total :
      (upses : Dict UpsSpec) (name : Text) (l : LoadSpec) (w : Wiring S)
      → IsValidLoad upses l
      → (w' : Wiring S) × (wire_load o runner name l w ≡ some w')
  wire_load_total upses name l w h = elim (Option-cases (wire_load o runner name l w)) [
    | inl e ↦ absurd (wire_load_there upses name l w h e)
    | inr found ↦ found
  ]

  wire_all_total :
      (upses : Dict UpsSpec) (loads : Dict LoadSpec) (w : Wiring S)
      → All (λ e. IsValidLoad upses e.1) loads
      → (w' : Wiring S) × (wire_all o runner loads w ≡ some w')
  unfolding wire_all
  wire_all_total upses [] w h = (w, refl)
  wire_all_total upses ((name, l) ∷ loads) w h =
      let (w₁, e₁) = wire_load_total upses name l w h.0 in
      let (w₂, e₂) = wire_all_total upses loads w₁ h.1 in (w₂, rw e₁ e₂)

  -- `wireLoads` does not panic on an accepted configuration. It makes for each chassis a probe of the power behind its
  -- CMC and a target of the host of its CMC, and for each NUT server a probe that dials the host of its probe, a target
  -- of its MAC and broadcast addresses, and the dummy UPS shed-<its name>.
  pub wire_loads_accepted :
      (c c' : Config)
      → load c ≡ inr c'
      → UniqueKeys c'.loads
      → (w : Wiring S) × (wire_loads o runner c'.loads ≡ some w)
        × ((name : Text) (l : LoadSpec)
            → lookup name c'.loads ≡ some l
            → HasWiring o runner name l w)
  unfolding wire_loads
  wire_loads_accepted c c' e unique =
      let valid = (validate_exact c').0 (load_inv c c' e).1 in
      let none_wired : Wiring S = record { probes = []; targets = []; shed_ups = [] } in
      let (w, wires) = wire_all_total c'.upses c'.loads none_wired valid.5 in
      (
        w,
        wires,
        λ name l found.
            wire_all-HasWiring o runner name l c'.loads none_wired w unique found
              (IsKnown-accepted c c' name l e found) wires,
      )
