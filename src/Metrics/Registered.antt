-- ===== src/Metrics/Registered.antt =====
-- What New of internal/metrics/metrics.go registers, and that MustRegister accepts it.
use nut_dog.Prelude.{
  ◌≡◌, ◌≢◌, refl, Bool, true, false, not, ◌&&◌, ◌||◌, Option-cases, none, some, inl, inr, List, [],
  ◌∷◌, ◌++◌, arith, All, All-map_of, Text, codes, ◌==◌, eq_iff, lookup, insert, lookup-insert,
  eq_refl, has, IsDistinct, leb, nat_eq, ℕ,
}
use nut_dog.GoStrings.{has_prefix}
use nut_dog.Metrics.Polls.{Spec, telemetry_specs}
use nut_dog.Metrics.Collectors.{
  Collector, vector, go_collector, process_collector, Prometheus, own_collectors, gauge_of,
  var_names, add_specs, share_gauge, Made, new, never_recorded, never_polled,
}

-- No text of the first list is in the second.
abbrev AreApart : List Text → List Text → Type 0
AreApart xs ys = All (λ x. has x ys ≡ false) xs

has-append : (x : Text) (ys zs : List Text) → has x (ys ++ zs) ≡ (has x ys || has x zs)
unfolding has
has-append x [] zs = refl
has-append x (y ∷ ys) zs = ground (arith, has-append x ys zs)

append-AreApart : (xs ys zs : List Text) → AreApart xs ys → AreApart xs zs → AreApart xs (ys ++ zs)
append-AreApart [] ys zs h k = tt
append-AreApart (x ∷ xs) ys zs h k =
    (ground (arith, has-append x ys zs), append-AreApart xs ys zs h.1 k.1)

append-IsDistinct :
    (xs ys : List Text) → IsDistinct xs → IsDistinct ys → AreApart xs ys → IsDistinct (xs ++ ys)
append-IsDistinct [] ys h k apart = k
append-IsDistinct (x ∷ xs) ys h k apart =
    (ground (arith, has-append x xs ys), append-IsDistinct xs ys h.1 k apart.1)

-- A test tells two lists apart.
module _ (q : Text → Bool) where
  absent :
      (b : Bool) (x : Text) (ys : List Text)
      → q x ≡ b
      → All (λ y. q y ≡ not b) ys
      → has x ys ≡ false
  unfolding has
  absent b x [] h k = refl
  absent b x (y ∷ ys) h k = ground (arith, eq_iff y x, absent b x ys h k.1)

  told-AreApart :
      (b : Bool) (xs ys : List Text)
      → All (λ x. q x ≡ b) xs
      → All (λ y. q y ≡ not b) ys
      → AreApart xs ys
  told-AreApart b [] ys h k = tt
  told-AreApart b (x ∷ xs) ys h k = (absent b x ys h.0 k, told-AreApart b xs ys h.1 k)

-- The characters of a metric's name behind the first, as Prometheus has them, without the colon.
abbrev is_word : ℕ → Bool
is_word c =
    leb b'a' c && leb c b'z'
    || leb b'A' c && leb c b'Z'
    || leb b'0' c && leb c b'9'
    || nat_eq c b'_'

abbrev IsName : Text → Type 0
IsName [] = ⊥
IsName (c ∷ s) = ((leb b'0' c && leb c b'9') ≡ false) × All (λ d. is_word d ≡ true) (c ∷ s)

-- The name is one, and so are those of the labels, which are distinct.
abbrev pub IsWellFormed : Collector → Type 0
IsWellFormed (vector o) = IsName o.name × All IsName o.labels × IsDistinct o.labels
IsWellFormed go_collector = Unit
IsWellFormed process_collector = Unit

module _ {R : Type 0} (p : Prometheus R) where
  abbrev pub described : Collector → List Text
  described (vector o) = o.name ∷ []
  described go_collector = p.go_names
  described process_collector = p.process_names

  abbrev pub all_described : List Collector → List Text
  all_described [] = []
  all_described (c ∷ cs) = described c ++ all_described cs

  -- The documented behaviour of MustRegister: it does not panic on well-formed collectors none of whose
  -- names is described twice.
  abbrev pub RegistersDistinct : Type 0
  RegistersDistinct =
      (cs : List Collector)
      → All IsWellFormed cs
      → IsDistinct (all_described cs)
      → p.must_register cs ≢ none

  -- The documented names of the library's collectors.
  abbrev pub NamesOwn : Type 0
  NamesOwn =
      IsDistinct p.go_names
      × IsDistinct p.process_names
      × All (λ n. has_prefix n (codes "go_") ≡ true) p.go_names
      × All (λ n. has_prefix n (codes "process_") ≡ true) p.process_names

-- The names of the program's own collectors.
abbrev gauge_names : List Text
unfolding own_collectors
gauge_names = own_names own_collectors
  where
    own_names : List Collector → List Text
    own_names [] = []
    own_names (vector o ∷ cs) = o.name ∷ own_names cs
    own_names (c ∷ cs) = own_names cs

module _ {F : Type 0} where
  abbrev metrics_of : List (Spec F) → List Text
  metrics_of [] = []
  metrics_of (s ∷ specs) = s.metric ∷ metrics_of specs

module _ {R F : Type 0} (p : Prometheus R) (one : F) where
  well_formed : All IsWellFormed (add_specs (telemetry_specs one) [] own_collectors).1
  unfolding own_collectors telemetry_specs add_specs gauge_of ◌==◌ has
  well_formed = ground arith

  own_IsDistinct :
      IsDistinct gauge_names
      × IsDistinct (metrics_of (telemetry_specs one))
      × AreApart gauge_names (metrics_of (telemetry_specs one))
  unfolding own_collectors telemetry_specs ◌==◌ has
  own_IsDistinct = ground arith

  own_told :
      All (λ x. has_prefix x (codes "go_") ≡ false) gauge_names
      × All (λ x. has_prefix x (codes "process_") ≡ false) gauge_names
      × All (λ x. has_prefix x (codes "go_") ≡ false) (metrics_of (telemetry_specs one))
      × All (λ x. has_prefix x (codes "process_") ≡ false) (metrics_of (telemetry_specs one))
  unfolding own_collectors telemetry_specs has_prefix
  own_told = ground arith

  not_process :
      (n : Text) → has_prefix n (codes "go_") ≡ true → has_prefix n (codes "process_") ≡ false
  unfolding has_prefix
  not_process [] h = refl
  not_process (c ∷ n) h = ground arith

  described_IsDistinct :
      NamesOwn p
      → IsDistinct
          (gauge_names ++ (p.go_names ++ (p.process_names ++ metrics_of (telemetry_specs one))))
  described_IsDistinct (go_once, process_once, go, process) =
      let (own, tele, apart) = own_IsDistinct in
      let (own_go, own_process, tele_go, tele_process) = own_told in
      let tele' = metrics_of (telemetry_specs one) in
      let is_go : Text → Bool = λ n. has_prefix n (codes "go_") in
      let is_process : Text → Bool = λ n. has_prefix n (codes "process_") in
      append-IsDistinct gauge_names _ own
        (append-IsDistinct p.go_names _ go_once
          (append-IsDistinct p.process_names tele' process_once tele
            (told-AreApart is_process true p.process_names tele' process tele_process))
          (append-AreApart p.go_names p.process_names tele'
            (told-AreApart is_process false p.go_names p.process_names
              (All-map_of not_process p.go_names go) process)
            (told-AreApart is_go true p.go_names tele' go tele_go)))
        (append-AreApart gauge_names p.go_names (p.process_names ++ tele')
          (told-AreApart is_go false gauge_names p.go_names own_go go)
          (append-AreApart gauge_names p.process_names tele'
            (told-AreApart is_process false gauge_names p.process_names own_process process) apart))

  accepted :
      RegistersDistinct p
      → NamesOwn p
      → p.must_register (add_specs (telemetry_specs one) [] own_collectors).1 ≢ none
  unfolding own_collectors telemetry_specs add_specs gauge_of
  accepted registers names =
      registers (add_specs (telemetry_specs one) [] own_collectors).1 well_formed
        (described_IsDistinct names)

  telemetry_shared :
      All
        (λ s.
          All
            (λ v.
              lookup v (add_specs (telemetry_specs one) [] own_collectors).0 ≡ some (gauge_of s))
            (var_names s))
        (telemetry_specs one)
  unfolding own_collectors telemetry_specs add_specs share_gauge insert lookup gauge_of ◌==◌
  telemetry_shared = ground arith

  -- New does not panic: with the registry of the documentation, which takes well-formed collectors of distinct
  -- names, and names of the library's own collectors that are distinct and start as documented, it makes metrics
  -- in which every variable of the table, the aliases too, has the gauge of its own entry, and build_info is 1 at
  -- the version.
  pub new_registers :
      (version : Text)
      → RegistersDistinct p
      → NamesOwn p
      → (m : Made R F) × (new p one version ≡ some m)
        × All
            (λ s. All (λ v. lookup v m.telemetry ≡ some (gauge_of s)) (var_names s))
            (telemetry_specs one)
        × (lookup version m.metrics.build_info ≡ some 1)
  unfolding new
  new_registers version registers names =
      elim (Option-cases (p.must_register (add_specs (telemetry_specs one) [] own_collectors).1)) [
        | inl e ↦ absurd (accepted registers names e)
        | inr (r, e) ↦ (
          record {
            registry = r;
            telemetry = (add_specs (telemetry_specs one) [] own_collectors).0;
            metrics = record never_recorded { build_info = insert version 1 [] };
            polls = never_polled;
          },
          rw (new, e) refl,
          telemetry_shared,
          ground (arith, lookup-insert {V = ℕ} version version 1 [], eq_refl version),
        )
      ]
