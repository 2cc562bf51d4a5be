-- ===== src/Metrics/OneHot.antt =====
-- The one-hot gauges: one state of each series reads 1 and the others read 0.
use nut_dog.Prelude.{
  ℕ, ◌≡◌, refl, Bool, true, false, ◌&&◌, some, List, [], ◌∷◌, arith, Text, ◌==◌, eq_iff, lookup_or,
  insert, lookup-insert, has, All, All-of_In, In, inl, inr, if◌then◌else◌,
}
use nut_dog.Control.{
  SourceState, Desired, Request, ActualState, ShedState, request_string, actual_string,
}
use nut_dog.Metrics.{
  Vec2, series, set_series, b2f, set_one_hot, source_states, desired_states, request_states,
  actual_states, shed_states, source_string, desired_string, shed_string, Metrics, record_source,
  record_load,
}

pub series-set_series {ℓ} :
    {V : Type ℓ} (a b c d : Text) (v : V) (g : Vec2 V)
    → series c d (set_series a b v g) ≡ (if a == c && b == d then some v else series c d g)
unfolding series set_series lookup_or
series-set_series a b c d v g = ground (
  arith,
  eq_iff a c,
  lookup-insert a c (insert b v (lookup_or [] a g)) g,
  lookup-insert b d v (lookup_or [] a g),
)

-- Every state of the list is written, 1 at the active one, and every other series is left alone.
pub series-set_one_hot :
    (id : Text) (states : List Text) (active : Text) (g : Vec2 ℕ) (a b : Text)
    → series a b (set_one_hot id states active g)
      ≡ (if id == a && has b states then some (b2f (b == active)) else series a b g)
unfolding set_one_hot has
series-set_one_hot id [] active g a b = ground arith
series-set_one_hot id (s ∷ states) active g a b = ground (
  arith,
  series-set_one_hot id states active (set_series id s (b2f (s == active)) g) a b,
  series-set_series id s a b (b2f (s == active)) g,
  eq_iff s b,
)

-- Of the listed states exactly the active one reads 1 in the series of `id`, and the others read 0.
abbrev pub IsOneHot : Text → List Text → Text → Vec2 ℕ → Type 0
IsOneHot id states active g =
    (has active states ≡ true) × All (λ b. series id b g ≡ some (b2f (b == active))) states

has-In : (b : Text) (states : List Text) → In b states → has b states ≡ true
unfolding has
has-In b [] h = absurd h
has-In b (s ∷ states) (inl e) = ground (arith, eq_iff s b)
has-In b (s ∷ states) (inr h) = ground (arith, has-In b states h)

set_one_hot-IsOneHot :
    (id : Text) (states : List Text) (active : Text) (g : Vec2 ℕ)
    → has active states ≡ true
    → IsOneHot id states active (set_one_hot id states active g)
set_one_hot-IsOneHot id states active g h = (
  h,
  All-of_In _ states (λ b m.
      ground (arith, series-set_one_hot id states active g id b, eq_iff id id, has-In b states m)),
)

source_listed : (s : SourceState) → has (source_string s) source_states ≡ true
unfolding has source_string ◌==◌
source_listed s = ground arith

desired_listed : (d : Desired) → has (desired_string d) desired_states ≡ true
unfolding has desired_string ◌==◌
desired_listed d = ground arith

request_listed : (r : Request) → has (request_string r) request_states ≡ true
unfolding has request_string ◌==◌
request_listed r = ground arith

actual_listed : (a : ActualState) → has (actual_string a) actual_states ≡ true
unfolding has actual_string ◌==◌
actual_listed a = ground arith

shed_listed : (s : ShedState) → has (shed_string s) shed_states ≡ true
unfolding has shed_string ◌==◌
shed_listed s = ground arith

-- The classification of a UPS is served one-hot.
pub record_source-IsOneHot :
    (ups : Text) (s : SourceState) (m : Metrics)
    → IsOneHot ups source_states (source_string s) (record_source ups s m).ups_source
unfolding record_source
record_source-IsOneHot ups s m =
    set_one_hot-IsOneHot ups source_states (source_string s) m.ups_source (source_listed s)

-- The shed signal of a NUT server is served one-hot; that of a chassis is left as it was.
abbrev pub ShedRecorded : Bool → Text → Text → Vec2 ℕ → Vec2 ℕ → Type 0
ShedRecorded true id active before after = IsOneHot id shed_states active after
ShedRecorded false id active before after = after ≡ before

shed_recorded :
    (l : Text) (sh : ShedState) (m : Metrics) (nut : Bool)
    → ShedRecorded nut l
        (shed_string sh)
        m.load_shed
        (if nut then set_one_hot l shed_states (shed_string sh) m.load_shed else m.load_shed)
shed_recorded l sh m true =
    set_one_hot-IsOneHot l shed_states (shed_string sh) m.load_shed (shed_listed sh)
shed_recorded l sh m false = refl

-- A load is recorded one-hot: what is wanted, what is requested and what was observed each read 1 at
-- their own state and 0 at the others, and so does the shed signal of a NUT server, while that of a
-- chassis is left as it was.
pub record_load-IsOneHot :
    (l : Text) (d : Desired) (r : Request) (a : ActualState) (sh : ShedState) (nut : Bool)
    (m : Metrics)
    → let after = record_load l d r a sh nut m in
      IsOneHot l desired_states (desired_string d) after.load_desired
      × IsOneHot l request_states (request_string r) after.load_requested
      × IsOneHot l actual_states (actual_string a) after.load_actual
      × ShedRecorded nut l (shed_string sh) m.load_shed after.load_shed
unfolding record_load
record_load-IsOneHot l d r a sh nut m = (
  set_one_hot-IsOneHot l desired_states (desired_string d) m.load_desired (desired_listed d),
  set_one_hot-IsOneHot l request_states (request_string r) m.load_requested (request_listed r),
  set_one_hot-IsOneHot l actual_states (actual_string a) m.load_actual (actual_listed a),
  shed_recorded l sh m nut,
)

-- Recording one load leaves what is wanted of every other load as it was recorded.
pub record_load-other :
    (l : Text) (d : Desired) (r : Request) (a : ActualState) (sh : ShedState) (nut : Bool)
    (m : Metrics) (k b : Text)
    → (l == k) ≡ false
    → series k b (record_load l d r a sh nut m).load_desired ≡ series k b m.load_desired
unfolding record_load
record_load-other l d r a sh nut m k b ne =
    ground (arith, series-set_one_hot l desired_states (desired_string d) m.load_desired k b)
