-- ===== src/Control/Decision/Order.antt =====
-- `Decide` is deterministic: it does not depend on the order of the maps' entries, and acts on the
-- loads in name order.
use mathlib.Core.List.{map-append}
use mathlib.Core.Path.{fun_ext, ap₂}
use mathlib.Core.List.{Permᴰ}
use nut_dog.Prelude.{
  subst, ◌≡◌, refl, sym, ap, ◌∙◌, subst, true, none, some, List, [], ◌∷◌, ◌++◌, map, arith, All,
  All-append, All-map_of, All-map, Text, Dict, lookup_or, keys, UniqueKeys, sort_strings,
  sort_strings-perm, lookup-perm, IsSorted, sort_strings-IsSorted, text_le, text_le_total,
  text_le_trans,
}
use nut_dog.Control.{
  UpsConfig, Telemetry, no_telemetry, source_unknown, no_request, LoadConfig, no_load, Action,
  Readings, classify, classify_all, decide_load, decide_all, decide, desired_for_load,
}
use nut_dog.Control.Decision.{state_of, observed, decide_load-actions_for, decide_load-names}
use nut_dog.Control.Actions.{reconcile}

state_of-perm :
    {cfgs cfgs' : Dict UpsConfig} (tel : Dict Telemetry) (u : Text)
    → Permᴰ cfgs cfgs'
    → UniqueKeys cfgs
    → state_of cfgs tel u ≡ state_of cfgs' tel u
state_of-perm tel u p h =
    ap (λ o. elim o [ none ↦ source_unknown | some c ↦ classify c (lookup_or no_telemetry u tel) ])
      ((lookup-perm p h).1 u)

lookup_or-perm :
    {loads loads' : Dict LoadConfig} (n : Text)
    → Permᴰ loads loads'
    → UniqueKeys loads
    → lookup_or no_load n loads ≡ lookup_or no_load n loads'
unfolding lookup_or
lookup_or-perm n q k = ap (λ o. elim o [ none ↦ no_load | some lc ↦ lc ]) ((lookup-perm q k).1 n)

module _ {cfgs cfgs' : Dict UpsConfig} {loads loads' : Dict LoadConfig} (p : Permᴰ cfgs cfgs')
    (q : Permᴰ loads loads') (h : UniqueKeys cfgs) (k : UniqueKeys loads) (r : Readings) where
  load_same :
      (n : Text)
      → decide_load (classify_all cfgs r.tel) loads r n
        ≡ decide_load (classify_all cfgs' r.tel) loads' r n
  load_same n =
      decide_load-actions_for cfgs loads r n
      ∙ ap₂
          (λ st lc.
            reconcile n lc.type
              (desired_for_load (map st lc.governed_by) (lookup_or no_request n r.ext))
              (observed r n))
          (fun_ext (λ u. state_of-perm r.tel u p h)) (lookup_or-perm n q k)
      ∙ sym (decide_load-actions_for cfgs' loads' r n)

  decide_all_same :
      (ns : List Text)
      → decide_all (classify_all cfgs r.tel) loads r ns
        ≡ decide_all (classify_all cfgs' r.tel) loads' r ns
  unfolding decide_all
  decide_all_same [] = refl
  decide_all_same (n ∷ ns) = cc (load_same n, decide_all_same ns)

  -- `Decide` does not depend on the order in which Go's `range` visits the configured UPSes and
  -- loads.
  pub decide-perm : decide cfgs loads r ≡ decide cfgs' loads' r
  unfolding decide
  decide-perm =
      ap (decide_all (classify_all cfgs r.tel) loads r) (sort_strings-perm q)
      ∙ decide_all_same (sort_strings (keys loads'))

IsSorted-head : (n : Text) (ns : List Text) → IsSorted (n ∷ ns) → All (λ k. text_le n k ≡ true) ns
IsSorted-head n [] h = tt
IsSorted-head n (k ∷ ns) h =
    (h.0, All-map_of (λ j below. text_le_trans n k j h.0 below) ns (IsSorted-head k ns h.1))

IsSorted-tail : (n : Text) (ns : List Text) → IsSorted (n ∷ ns) → IsSorted ns
IsSorted-tail n [] h = tt
IsSorted-tail n (k ∷ ns) h = h.1

IsSorted-cons :
    (n : Text) (ks : List Text) → All (λ k. text_le n k ≡ true) ks → IsSorted ks → IsSorted (n ∷ ks)
IsSorted-cons n [] h s = tt
IsSorted-cons n (k ∷ ks) h s = (h.0, s)

text_le_refl : (n : Text) → text_le n n ≡ true
text_le_refl n = ground (arith, text_le_total n n)

-- A run of one name in front of names that are not before it.
IsSorted-run :
    (n : Text) (xs : List Action) (ks : List Text)
    → All (λ a. a.load ≡ n) xs
    → All (λ k. text_le n k ≡ true) ks
    → IsSorted ks
    → IsSorted (map (λ a. a.load) xs ++ ks)
      × All (λ k. text_le n k ≡ true) (map (λ a. a.load) xs ++ ks)
IsSorted-run n [] ks e h s = (s, h)
IsSorted-run n (a ∷ xs) ks e h s =
    let (rest, above) = IsSorted-run n xs ks e.1 h s in
    (
      subst (λ k. IsSorted (k ∷ map (λ b. b.load) xs ++ ks)) (sym e.0)
          (IsSorted-cons n _ above rest),
      (rw e.0 (text_le_refl n), above),
    )

module _ (cfgs : Dict UpsConfig) (loads : Dict LoadConfig) (r : Readings) where
  abbrev loads_of : List Text → List Text
  loads_of ns = map (λ a. a.load) (decide_all (classify_all cfgs r.tel) loads r ns)

  loads_of-All :
      (n : Text) (ns : List Text)
      → All (λ k. text_le n k ≡ true) ns
      → All (λ k. text_le n k ≡ true) (loads_of ns)
  unfolding decide_all
  loads_of-All n [] h = tt
  loads_of-All n (k ∷ ns) h = rw map-append (
      All-append _ _ _
        (All-map _ _ _ (All-map_of (λ a e. rw e h.0) _ (decide_load-names cfgs loads r k)))
        (loads_of-All n ns h.1))

  decide_all-IsSorted : (ns : List Text) → IsSorted ns → IsSorted (loads_of ns)
  unfolding decide_all
  decide_all-IsSorted [] h = tt
  decide_all-IsSorted (n ∷ ns) h =
      rw map-append
        (IsSorted-run n _ _ (decide_load-names cfgs loads r n)
          (loads_of-All n ns (IsSorted-head n ns h))
          (decide_all-IsSorted ns (IsSorted-tail n ns h))).0

  -- The actions of `Decide` come in the order of the names of their loads.
  pub decide-IsSorted : IsSorted (map (λ a. a.load) (decide cfgs loads r))
  unfolding decide
  decide-IsSorted =
      decide_all-IsSorted (sort_strings (keys loads)) (sort_strings-IsSorted (keys loads))
