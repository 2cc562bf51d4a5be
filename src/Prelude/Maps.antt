-- ===== src/Prelude/Maps.antt =====
-- Go's `map[string]V` as an association list: the order of the entries stands for the unspecified
-- order of `range`, and `UniqueKeys` says that it is the list of a map.
use Prim.Native.Nat.{ℕ, suc}
use mathlib.Core.Path.{◌≡◌, refl, ap, subst}
use mathlib.Core.Bool.{Bool, true, false, ◌||◌}
use mathlib.Core.Option.{Option, none, some}
use mathlib.Core.List.{List, [], ◌∷◌}
use mathlib.Core.Logic.{◌≢◌}
use native.Mathlib.Omega.{arith}
use nut_dog.Prelude.Lists.{All}
use nut_dog.Prelude.Tests.{if◌then◌else◌}
use nut_dog.Prelude.Strings.{Text, ◌==◌, eq_iff, eq_refl}

abbrev pub Dict {ℓ} : Type ℓ → Type ℓ
Dict V = List (Text × V)

-- How often `k` is listed.
unfoldable pub count : Text → List Text → ℕ
count k [] = 0
count k (j ∷ js) = let rest = count k js in if j == k then suc rest else rest

-- Whether `k` is listed.
unfoldable pub has : Text → List Text → Bool
has k [] = false
has k (j ∷ js) = j == k || has k js

-- No text is listed twice.
abbrev pub IsDistinct : List Text → Type 0
IsDistinct [] = Unit
IsDistinct (n ∷ ns) = (has n ns ≡ false) × IsDistinct ns

module _ {ℓ} {V : Type ℓ} where
  -- v, ok := m[k]
  unfoldable pub lookup : Text → Dict V → Option V
  lookup k [] = none
  lookup k ((j, v) ∷ m) = if j == k then some v else lookup k m

  -- m[k], with the zero value of the element type for a missing key
  unfoldable pub lookup_or : V → Text → Dict V → V
  unfolding lookup
  lookup_or zero_value k m = elim (lookup k m) [ none ↦ zero_value | some v ↦ v ]

  -- m[k] = v
  unfoldable pub insert : Text → V → Dict V → Dict V
  insert key value [] = (key, value) ∷ []
  insert key value (entry ∷ m) =
      if entry.0 == key then (key, value) ∷ m else entry ∷ insert key value m

  -- delete(m, k)
  unfoldable pub delete : Text → Dict V → Dict V
  delete k [] = []
  delete k ((j, w) ∷ m) = let rest = delete k m in if j == k then rest else (j, w) ∷ rest

  -- the keys that `range m` visits
  unfoldable pub keys : Dict V → List Text
  keys [] = []
  keys ((k, v) ∷ m) = k ∷ keys m

  -- for _, k := range ks { m[k] = f(k) }, on a new map
  unfoldable pub fill : (Text → V) → List Text → Dict V
  unfolding insert
  fill f [] = []
  fill f (k ∷ ks) = insert k (f k) (fill f ks)

  pub lookup-insert :
      (key other : Text) (value : V) (m : Dict V)
      → lookup other (insert key value m) ≡ (if key == other then some value else lookup other m)
  unfolding insert lookup
  lookup-insert key other value [] = refl
  lookup-insert key other value ((at, old) ∷ m) =
      ground
        (arith, lookup-insert key other value m, eq_iff at key, eq_iff at other, eq_iff key other)

  pub lookup-delete :
      (k j : Text) (m : Dict V) → lookup j (delete k m) ≡ (if k == j then none else lookup j m)
  unfolding lookup delete
  lookup-delete k j [] = ground arith
  lookup-delete k j ((i, w) ∷ m) =
      ground (arith, eq_iff k j, eq_iff i k, eq_iff i j, lookup-delete k j m)

  abbrev pub UniqueKeys : Dict V → Type ℓ
  UniqueKeys [] = Unit
  UniqueKeys ((k, v) ∷ m) = (lookup k m ≡ none) × UniqueKeys m

module _ {ℓ} {V : Type ℓ} where
  pub lookup-fill :
      (f : Text → V) (ks : List Text) (j : Text)
      → lookup j (fill f ks) ≡ (if has j ks then some (f j) else none)
  unfolding fill has
  lookup-fill f [] j = unfold lookup in refl
  lookup-fill f (k ∷ ks) j =
      ground (arith, lookup-insert k j (f k) (fill f ks), lookup-fill f ks j, eq_iff k j)

  pub insert-UniqueKeys : (k : Text) (v : V) (m : Dict V) → UniqueKeys m → UniqueKeys (insert k v m)
  unfolding lookup insert
  insert-UniqueKeys k v [] h = (refl, tt)
  insert-UniqueKeys k v ((j, w) ∷ m) h =
      ground (arith, eq_iff j k, eq_iff k j, lookup-insert k j v m, insert-UniqueKeys k v m)

  pub delete-UniqueKeys : (k : Text) (m : Dict V) → UniqueKeys m → UniqueKeys (delete k m)
  unfolding lookup delete
  delete-UniqueKeys k [] h = tt
  delete-UniqueKeys k ((j, w) ∷ m) h = ground (arith, lookup-delete k j m, delete-UniqueKeys k m)

  pub fill-UniqueKeys : (f : Text → V) (ks : List Text) → UniqueKeys (fill f ks)
  unfolding fill
  fill-UniqueKeys f [] = tt
  fill-UniqueKeys f (k ∷ ks) = insert-UniqueKeys k (f k) (fill f ks) (fill-UniqueKeys f ks)

  lookup_later :
      (j : Text) (v : V) (m : Dict V) (ks : List Text)
      → All (λ k. lookup k m ≢ none) ks
      → All (λ k. lookup k ((j, v) ∷ m) ≢ none) ks
  unfolding lookup
  lookup_later j v m [] h = tt
  lookup_later j v m (k ∷ ks) h = (ground (arith, h.0), lookup_later j v m ks h.1)

  -- What `range` visits is there.
  pub lookup-keys : (m : Dict V) → All (λ k. lookup k m ≢ none) (keys m)
  unfolding lookup keys
  lookup-keys [] = tt
  lookup-keys ((j, v) ∷ m) =
      (ground (arith, eq_refl j), lookup_later j v m (keys m) (lookup-keys m))

  -- What a lookup finds has what every entry has.
  pub lookup-All :
      (P : V → Type 0) (m : Dict V) (k : Text) (v : V)
      → All (λ e. P e.1) m
      → lookup k m ≡ some v
      → P v
  unfolding lookup
  lookup-All P [] k v h e = absurd (ground arith)
  lookup-All P ((j, w) ∷ m) k v h e = found (j == k) (lookup-All P m k v h.1) e
    where
      found :
          (b : Bool)
          → (lookup k m ≡ some v → P v)
          → (if b then some w else lookup k m) ≡ some v
          → P v
      found true later same = subst P (ap (λ o. elim o [ none ↦ w | some x ↦ x ]) same) h.0
      found false later same = later same

  -- The keys are those at which a lookup finds something.
  pub has-keys :
      (k : Text) (m : Dict V) → has k (keys m) ≡ elim (lookup k m) [ none ↦ false | some v ↦ true ]
  unfolding has keys lookup
  has-keys k [] = refl
  has-keys k ((j, v) ∷ m) = ground (arith, has-keys k m)

  -- A key of a map is visited once, and no other text is.
  pub count-keys :
      (k : Text) (m : Dict V)
      → UniqueKeys m
      → count k (keys m) ≡ elim (lookup k m) [ none ↦ 0 | some v ↦ 1 ]
  unfolding count keys lookup
  count-keys k [] h = refl
  count-keys k ((j, v) ∷ m) h = ground (arith, eq_iff j k, count-keys k m)
