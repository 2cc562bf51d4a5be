-- ===== src/Main/Rounds.antt =====
-- What the rounds of the loop of `wireLoads` write: the entries of one load each.
use nut_dog.Prelude.{
  some_inj, ◌≡◌, ◌≢◌, refl, sym, subst, ◌∙◌, ◌⊎◌, inl, inr, true, false, Bool-cases, Option, none,
  some, [], ◌∷◌, arith, Text, codes, ◌++◌, ◌==◌, eq_iff, eq_refl, Dict, lookup, insert,
  lookup-insert, UniqueKeys, if◌then◌else◌,
}
use nut_dog.Control.{ActualState}
use nut_dog.Effects.{Target}
use nut_dog.Effects.Chassis.{Runner}
use nut_dog.Config.{
  LoadSpec, CmcSpec, WakeSpec, ProbeSpec, type_chassis, type_nut_server, shed_ups_name,
}
use nut_dog.Main.{
  Outside, Wiring, tcp_probe, chassis_probe, wire_chassis, wire_server, wire_load, then_wire,
  wire_all,
}
use nut_dog.Main.Preflight.{host_of_cmc, mac_of, broadcast_of}

-- The type of the load is one of the two.
abbrev pub IsKnown : LoadSpec → Type 0
IsKnown l = (l.type ≡ type_chassis) ⊎ (l.type ≡ type_nut_server)

-- The target of a load: the host of its CMC, or what wakes it.
abbrev pub target_of : LoadSpec → Target
target_of l =
    if l.type == type_chassis
    then record { cmc_host = host_of_cmc l.cmc; wake_mac = []; wake_bcast = [] }
    else record { cmc_host = []; wake_mac = mac_of l.wake; wake_bcast = broadcast_of l.wake }

-- At a name, two wirings agree.
abbrev pub Agrees : {S : Type 0} → Text → Wiring S → Wiring S → Type 0
Agrees k w w' =
    (lookup k w'.probes ≡ lookup k w.probes)
    × (lookup k w'.targets ≡ lookup k w.targets)
    × (lookup k w'.shed_ups ≡ lookup k w.shed_ups)

pub insert_own {ℓ} : {V : Type ℓ} (k : Text) (v : V) (m : Dict V) → lookup k (insert k v m) ≡ some v
insert_own k v m = ground (arith, lookup-insert k k v m, eq_refl k)

pub insert_other {ℓ} :
    {V : Type ℓ} (k j : Text) (v : V) (m : Dict V)
    → (k == j) ≡ false
    → lookup j (insert k v m) ≡ lookup j m
insert_other k j v m h = ground (arith, lookup-insert k j v m)

pub types_differ : type_chassis ≢ type_nut_server
types_differ e = ground arith

pub not_chassis : (t : Text) → t ≡ type_nut_server → (t == type_chassis) ≡ false
unfolding ◌==◌
not_chassis t e = rw e refl

-- the host that a probe dials
abbrev pub host_of_probe : Option ProbeSpec → Text
host_of_probe none = []
host_of_probe (some p) = p.host

module _ {S E F : Type 0} (o : Outside S E F) (runner : Option (Runner E S)) where
  -- The probe of a load: the power of the chassis behind its CMC, or a dial of the host of its probe.
  abbrev pub probe_of : LoadSpec → S → ActualState × S
  probe_of l =
      if l.type == type_chassis
      then chassis_probe o runner (host_of_cmc l.cmc)
      else tcp_probe o (host_of_probe l.probe)

  -- A load has its probe and its target, and a NUT server the dummy UPS of its shed signal.
  abbrev pub HasWiring : Text → LoadSpec → Wiring S → Type 0
  HasWiring name l w =
      (lookup name w.probes ≡ some (probe_of l))
      × (lookup name w.targets ≡ some (target_of l))
      × (l.type ≡ type_nut_server → lookup name w.shed_ups ≡ some (codes "shed-" ++ name))

  pub wire_chassis-Agrees :
      (name k : Text) (cmc : Option CmcSpec) (w w' : Wiring S)
      → (name == k) ≡ false
      → wire_chassis o runner name cmc w ≡ some w'
      → Agrees k w w'
  unfolding wire_chassis
  wire_chassis-Agrees name k none w w' h e = absurd (ground arith)
  wire_chassis-Agrees name k (some cmc) w w' h e =
      subst (Agrees k w) (some_inj _ w' e)
        (insert_other name k _ w.probes h, insert_other name k _ w.targets h, refl)

  pub wire_server-Agrees :
      (name k : Text) (probe : Option ProbeSpec) (wake : Option WakeSpec) (w w' : Wiring S)
      → (name == k) ≡ false
      → wire_server o name probe wake w ≡ some w'
      → Agrees k w w'
  unfolding wire_server
  wire_server-Agrees name k none wake w w' h e = absurd (ground arith)
  wire_server-Agrees name k (some probe) none w w' h e = absurd (ground arith)
  wire_server-Agrees name k (some probe) (some wake) w w' h e =
      subst (Agrees k w) (some_inj _ w' e) (
        insert_other name k _ w.probes h,
        insert_other name k _ w.targets h,
        insert_other name k _ w.shed_ups h,
      )

  pub wire_load-Agrees :
      (name k : Text) (l : LoadSpec) (w w' : Wiring S)
      → (name == k) ≡ false
      → wire_load o runner name l w ≡ some w'
      → Agrees k w w'
  unfolding wire_load
  wire_load-Agrees name k l w w' h e = elim (Bool-cases (l.type == type_chassis)) [
    | inl t ↦ wire_chassis-Agrees name k l.cmc w w' h (ground arith)
    | inr f ↦ elim (Bool-cases (l.type == type_nut_server)) [
      | inl t ↦ wire_server-Agrees name k l.probe l.wake w w' h (ground arith)
      | inr g ↦ subst (Agrees k w) (some_inj w w' (ground arith)) (refl, refl, refl)
    ]
  ]

  -- What a chassis and what a server has in the wiring.
  abbrev pub HasChassis : Text → Option CmcSpec → Wiring S → Type 0
  HasChassis name cmc w =
      (lookup name w.probes ≡ some (chassis_probe o runner (host_of_cmc cmc)))
      × (lookup name w.targets
          ≡ some (record { cmc_host = host_of_cmc cmc; wake_mac = []; wake_bcast = [] }))

  abbrev pub HasServer : Text → Option ProbeSpec → Option WakeSpec → Wiring S → Type 0
  HasServer name probe wake w =
      (lookup name w.probes ≡ some (tcp_probe o (host_of_probe probe)))
      × (lookup name w.targets
          ≡ some (record { cmc_host = []; wake_mac = mac_of wake; wake_bcast = broadcast_of wake }))
      × (lookup name w.shed_ups ≡ some (shed_ups_name name))

  pub wire_chassis_own :
      (name : Text) (cmc : Option CmcSpec) (w w' : Wiring S)
      → wire_chassis o runner name cmc w ≡ some w'
      → HasChassis name cmc w'
  unfolding wire_chassis
  wire_chassis_own name none w w' e = absurd (ground arith)
  wire_chassis_own name (some cmc) w w' e =
      subst (HasChassis name (some cmc)) (some_inj _ w' e)
        (insert_own name _ w.probes, insert_own name _ w.targets)

  pub wire_server_own :
      (name : Text) (probe : Option ProbeSpec) (wake : Option WakeSpec) (w w' : Wiring S)
      → wire_server o name probe wake w ≡ some w'
      → HasServer name probe wake w'
  unfolding wire_server
  wire_server_own name none wake w w' e = absurd (ground arith)
  wire_server_own name (some probe) none w w' e = absurd (ground arith)
  wire_server_own name (some probe) (some wake) w w' e =
      subst (HasServer name (some probe) (some wake)) (some_inj _ w' e)
        (insert_own name _ w.probes, insert_own name _ w.targets, insert_own name _ w.shed_ups)

  pub wire_load-HasWiring :
      (name : Text) (l : LoadSpec) (w w' : Wiring S)
      → IsKnown l
      → wire_load o runner name l w ≡ some w'
      → HasWiring name l w'
  unfolding wire_load shed_ups_name
  wire_load-HasWiring name l w w' (inl t) e =
      let test : (l.type == type_chassis) ≡ true = (eq_iff l.type type_chassis).1 t in
      let own = wire_chassis_own name l.cmc w w' (ground arith) in
      (rw test own.0, rw test own.1, λ n. absurd (types_differ (sym t ∙ n)))
  wire_load-HasWiring name l w w' (inr t) e =
      let test : (l.type == type_nut_server) ≡ true = (eq_iff l.type type_nut_server).1 t in
      let other : (l.type == type_chassis) ≡ false = not_chassis l.type t in
      let own = wire_server_own name l.probe l.wake w w' (ground arith) in
      (rw other own.0, rw other own.1, λ n. own.2)

  pub then_wire_inv :
      (x : Option (Wiring S)) (next : Wiring S → Option (Wiring S)) (w' : Wiring S)
      → then_wire o x next ≡ some w'
      → (w : Wiring S) × (x ≡ some w) × (next w ≡ some w')
  then_wire_inv none next w' e = absurd (ground arith)
  then_wire_inv (some w) next w' e = (w, refl, e)

  pub wire_all-Agrees :
      (k : Text) (loads : Dict LoadSpec) (w w' : Wiring S)
      → lookup k loads ≡ none
      → wire_all o runner loads w ≡ some w'
      → Agrees k w w'
  unfolding wire_all lookup
  wire_all-Agrees k [] w w' h e = ground arith
  wire_all-Agrees k ((name, l) ∷ loads) w w' h e =
      let (w₁, e₁, e₂) =
        then_wire_inv (wire_load o runner name l w) (wire_all o runner loads) w' e in
      let first = wire_load-Agrees name k l w w₁ (ground arith) e₁ in
      let more = wire_all-Agrees k loads w₁ w' (ground arith) e₂ in
      (more.0 ∙ first.0, more.1 ∙ first.1, more.2 ∙ first.2)

  pub wire_all-HasWiring :
      (k : Text) (spec : LoadSpec) (loads : Dict LoadSpec) (w w' : Wiring S)
      → UniqueKeys loads
      → lookup k loads ≡ some spec
      → IsKnown spec
      → wire_all o runner loads w ≡ some w'
      → HasWiring k spec w'
  unfolding wire_all lookup
  wire_all-HasWiring k spec [] w w' unique found known e = absurd (ground arith)
  wire_all-HasWiring k spec ((name, l) ∷ loads) w w' unique found known e =
      let (w₁, e₁, e₂) =
        then_wire_inv (wire_load o runner name l w) (wire_all o runner loads) w' e in
      elim (Bool-cases (name == k)) [
        | inl t ↦
            let same : l ≡ spec = some_inj l spec (ground arith) in
            let at : name ≡ k = (eq_iff name k).0 t in
            let own = wire_load-HasWiring name l w w₁ (subst IsKnown (sym same) known) e₁ in
            let more = wire_all-Agrees name loads w₁ w' unique.0 e₂ in
            subst (λ x. HasWiring x spec w') at
              (subst (λ x. HasWiring name x w') same
                (more.0 ∙ own.0, more.1 ∙ own.1, λ n. more.2 ∙ own.2 n))
        | inr f ↦ wire_all-HasWiring k spec loads w₁ w' unique.1 (ground arith) known e₂
      ]
