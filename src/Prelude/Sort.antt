-- ===== src/Prelude/Sort.antt =====
-- `sort.Strings`, and that a sorted list of keys does not depend on the order of the map's entries.
use mathlib.Core.Path.{◌≡◌, refl, sym, subst, subst₂, ap₂, ◌∙◌}
use mathlib.Core.Bool.{true}
use mathlib.Core.List.{List, [], ◌∷◌, Permᴰ}
use native.Mathlib.Omega.{arith}
use nut_dog.Prelude.Lists.{All}
use nut_dog.Prelude.Tests.{ltb, if◌then◌else◌}
use nut_dog.Prelude.Strings.{
  Text, eq_iff, eq_refl, text_le, text_le_total, text_le_antisymm, text_le_trans,
}
use nut_dog.Prelude.Maps.{Dict, has, count, keys, lookup, UniqueKeys}

-- Put a text in front of the first one that is not before it.
insort : Text → List Text → List Text
insort a [] = a ∷ []
insort a (b ∷ bs) = if text_le a b then a ∷ b ∷ bs else b ∷ insort a bs

-- sort.Strings
unfoldable pub sort_strings : List Text → List Text
unfolding insort
sort_strings [] = []
sort_strings (a ∷ xs) = insort a (sort_strings xs)

-- Each text is followed by none that is before it.
abbrev pub IsSorted : List Text → Type 0
IsSorted [] = Unit
IsSorted (a ∷ []) = Unit
IsSorted (a ∷ b ∷ bs) = (text_le a b ≡ true) × IsSorted (b ∷ bs)

insort-IsSorted : (a : Text) (bs : List Text) → IsSorted bs → IsSorted (insort a bs)
unfolding insort
insort-IsSorted a [] h = tt
insort-IsSorted a (b ∷ []) h = ground (arith, text_le_total a b)
insort-IsSorted a (b ∷ c ∷ bs) h =
    ground (arith, text_le_total a b, text_le_total a c, insort-IsSorted a (c ∷ bs) h.1)

pub sort_strings-IsSorted : (xs : List Text) → IsSorted (sort_strings xs)
unfolding sort_strings
sort_strings-IsSorted [] = tt
sort_strings-IsSorted (a ∷ xs) = insort-IsSorted a (sort_strings xs) (sort_strings-IsSorted xs)

count-insort : (k a : Text) (bs : List Text) → count k (insort a bs) ≡ count k (a ∷ bs)
unfolding insort count
count-insort k a [] = refl
count-insort k a (b ∷ bs) = ground (arith, count-insort k a bs)

-- Sorting keeps every text xs often xs it was there.
pub count-sort_strings : (k : Text) (xs : List Text) → count k (sort_strings xs) ≡ count k xs
unfolding sort_strings count
count-sort_strings k [] = refl
count-sort_strings k (a ∷ xs) =
    ground (arith, count-insort k a (sort_strings xs), count-sort_strings k xs)

All-insort {ℓ} :
    (P : Text → Type ℓ) (a : Text) (bs : List Text) → P a → All P bs → All P (insort a bs)
unfolding insort
All-insort P a [] h k = (h, tt)
All-insort P a (b ∷ bs) h k = ground (arith, All-insort P a bs h)

pub All-sort_strings {ℓ} : (P : Text → Type ℓ) (xs : List Text) → All P xs → All P (sort_strings xs)
unfolding sort_strings
All-sort_strings P [] h = tt
All-sort_strings P (a ∷ xs) h = All-insort P a (sort_strings xs) h.0 (All-sort_strings P xs h.1)

insort_comm : (a b : Text) (cs : List Text) → insort a (insort b cs) ≡ insort b (insort a cs)
unfolding insort
insort_comm a b [] = ground (arith, text_le_total a b, text_le_antisymm a b)
insort_comm a b (c ∷ cs) = ground (
  arith,
  text_le_total a b,
  text_le_antisymm a b,
  text_le_total a c,
  text_le_total b c,
  text_le_trans a b c,
  text_le_trans b a c,
  text_le_trans a c b,
  text_le_trans b c a,
  insort_comm a b cs,
)

-- The entries of one map in two orders: the sorted keys are the same.
pub sort_strings-perm {ℓ} :
    {V : Type ℓ} {m n : Dict V} → Permᴰ m n → sort_strings (keys m) ≡ sort_strings (keys n)
unfolding sort_strings keys
sort_strings-perm Permᴰ.nil = refl
sort_strings-perm (Permᴰ.cons {a = x} {b = y} e p) =
    ap₂ (λ z ks. insort z.0 ks) e (sort_strings-perm p)
sort_strings-perm (Permᴰ.swap {a = x} {b = y} {a' = x'} {b' = y'} {l = l} d e) =
    insort_comm x.0 y.0 (sort_strings (keys l))
    ∙ ap₂ (λ z w. insort z.0 (insort w.0 (sort_strings (keys l)))) e d
sort_strings-perm (Permᴰ.trans p q) = sort_strings-perm p ∙ sort_strings-perm q

lookup_swap {ℓ} :
    {V : Type ℓ} (x y : Text × V) (l : Dict V)
    → UniqueKeys (x ∷ y ∷ l)
    → UniqueKeys (y ∷ x ∷ l) × ((k : Text) → lookup k (x ∷ y ∷ l) ≡ lookup k (y ∷ x ∷ l))
unfolding lookup
lookup_swap x y l h = (
  ground (arith, eq_iff x.0 y.0, eq_iff y.0 x.0),
  λ k. ground (arith, eq_iff x.0 k, eq_iff y.0 k, eq_iff y.0 x.0, eq_refl x.0),
)

-- The entries of one map in two orders: both have unique keys, and every lookup agrees.
pub lookup-perm {ℓ} :
    {V : Type ℓ} {m n : Dict V}
    → Permᴰ m n
    → UniqueKeys m
    → UniqueKeys n × ((k : Text) → lookup k m ≡ lookup k n)
unfolding lookup
lookup-perm Permᴰ.nil h = (tt, λ k. refl)
lookup-perm (Permᴰ.cons {a = x} {b = y} {l₁ = m} {l₂ = n} e p) h =
    let (h', same) = lookup-perm p h.1 in
    subst (λ z. UniqueKeys (z ∷ n) × ((k : Text) → lookup k (x ∷ m) ≡ lookup k (z ∷ n))) e
      ((rw (← same x.0) h.0, h'), λ k. ground (arith, same k))
lookup-perm (Permᴰ.swap {a = x} {b = y} {l = l} d e) h =
    subst₂
      (λ z w. UniqueKeys (z ∷ w ∷ l) × ((k : Text) → lookup k (x ∷ y ∷ l) ≡ lookup k (z ∷ w ∷ l))) e
      d (lookup_swap x y l h)
lookup-perm (Permᴰ.trans p q) h =
    let (h', same) = lookup-perm p h in
    let (h'', same') = lookup-perm q h' in (h'', λ k. same k ∙ same' k)

has-count : (k : Text) (ks : List Text) → has k ks ≡ ltb 0 (count k ks)
unfolding has count
has-count k [] = refl
has-count k (j ∷ js) = ground (arith, has-count k js)

pub has-sort_strings : (k : Text) (ks : List Text) → has k (sort_strings ks) ≡ has k ks
has-sort_strings k ks =
    has-count k (sort_strings ks) ∙ (rw (count-sort_strings k ks) (sym (has-count k ks)))
