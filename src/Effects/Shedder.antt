-- ===== src/Effects/Shedder.antt =====
-- internal/effects/shedder.go: the shed signal on a dummy UPS. The `VarSetter` is a parameter, which
-- Main/Start fills with what `LocalVarSetter` makes: the NUT client.
use nut_dog.Prelude.{
  ◌≡◌, refl, ap, Bool, true, false, ◌||◌, Option, none, some, List, [], ◌∷◌, arith, Text, codes,
  ◌==◌, eq_iff, has, Dict, lookup, if◌then◌else◌,
}
use mathlib.Core.Option
use nut_dog.GoStrings.{fields}
use nut_dog.Control.{ShedState, shed_asserted, shed_released, shed_unknown}
use nut_dog.Effects.{Effect, ShedderEffect}

-- statusShed and statusOK
abbrev pub status_shed : Text
status_shed = codes "OB LB FSD"

abbrev pub status_ok : Text
status_ok = codes "OL"

-- the errors of `set`: a load that is not configured, and what the `VarSetter` returns
pub data SetError (E : Type 0) : Type 0 where
  no_shed_ups : Text → SetError E
  set_failed : E → SetError E

-- NUTShedder; `set` is given the name of the UPS, of the variable and the value
pub record NutShedder (E W : Type 0) : Type 0 where
  pub shed_ups : Dict Text
  pub set_var : Text → Text → Text → Effect E W

module _ {E W : Type 0} where
  abbrev pub wrap_set : Option E × W → Option (SetError E) × W
  wrap_set (none, w) = (none, w)
  wrap_set (some e, w) = (some (set_failed e), w)

  -- NUTShedder.set
  unfoldable pub set : NutShedder E W → Text → Text → Effect (SetError E) W
  unfolding lookup
  set s load status w = elim (lookup load s.shed_ups) [
    | none ↦ (some (no_shed_ups load), w)
    | some ups ↦ wrap_set (s.set_var ups (codes "ups.status") status w)
  ]

  -- NUTShedder as a Shedder: Assert and Release
  unfoldable pub nut_shedder : NutShedder E W → ShedderEffect (SetError E) W
  unfolding set
  nut_shedder s = record {
    assert = λ load. set s load status_shed;
    release = λ load. set s load status_ok;
  }

-- The loop of `ParseShedStatus` over the fields, with its variable `ol`.
unfoldable pub scan_shed : Bool → List Text → ShedState
scan_shed ol [] = if ol then shed_released else shed_unknown
scan_shed ol (f ∷ fs) =
    if f == codes "FSD" then shed_asserted else scan_shed (if f == codes "OL" then true else ol) fs

-- ParseShedStatus
unfoldable pub parse_shed_status : Text → ShedState
unfolding scan_shed fields
parse_shed_status status = scan_shed false (fields status)

scan_shed-exact :
    (ol : Bool) (fs : List Text)
    → scan_shed ol fs ≡ (
        if has (codes "FSD") fs
        then shed_asserted
        else if ol || has (codes "OL") fs
        then shed_released
        else shed_unknown)
unfolding scan_shed has
scan_shed-exact ol [] = ground arith
scan_shed-exact ol (f ∷ fs) = ground (
  arith,
  eq_iff f (codes "FSD"),
  eq_iff f (codes "OL"),
  scan_shed-exact (if f == codes "OL" then true else ol) fs,
)

-- A status reads as asserted exactly if FSD is one of its fields, wherever it stands, and as
-- released exactly if OL is one of them and FSD is not.
pub parse_shed_status_exact :
    (status : Text)
    → parse_shed_status status ≡ (
        if has (codes "FSD") (fields status)
        then shed_asserted
        else if has (codes "OL") (fields status)
        then shed_released
        else shed_unknown)
unfolding parse_shed_status
parse_shed_status_exact status = scan_shed-exact false (fields status)

-- `Assert` for true and `Release` for false.
abbrev pub drive : {E W : Type 0} → ShedderEffect E W → Bool → Text → Effect E W
drive s true = s.assert
drive s false = s.release

pub wrap_set-inv :
    {E W : Type 0} (r : Option E × W)
    → ((wrap_set r).1 ≡ r.1) × ((wrap_set r).0 ≡ none → r.0 ≡ none)
wrap_set-inv (none, w) = (refl, λ h. refl)
wrap_set-inv (some e, w) = (refl, λ h. cc)

set-stores :
    {E W : Type 0} (s : NutShedder E W) (read : Text → Text → W → Option Text)
    → ((ups name value : Text) (w : W)
        → (s.set_var ups name value w).0 ≡ none
        → read ups name (s.set_var ups name value w).1 ≡ some value)
    → (load ups : Text) → lookup load s.shed_ups ≡ some ups
    → (status : Text) (w : W) → (set s load status w).0 ≡ none
    → read ups (codes "ups.status") (set s load status w).1 ≡ some status
unfolding set
set-stores s read honest load ups e status w =
    let r = s.set_var ups (codes "ups.status") status w in
    rw (e, set)
      (λ ok.
        rw (wrap_set-inv r).0 (honest ups (codes "ups.status") status w ((wrap_set-inv r).1 ok)))

-- Where a variable that is set without an error reads as the value it was set to, a shed signal that
-- is asserted without an error reads as asserted, and one that is released so reads as released.
pub shed_signal_read_back :
    {E W : Type 0} (s : NutShedder E W) (read : Text → Text → W → Option Text)
    → ((ups name value : Text) (w : W)
        → (s.set_var ups name value w).0 ≡ none
        → read ups name (s.set_var ups name value w).1 ≡ some value)
    → (load ups : Text) → lookup load s.shed_ups ≡ some ups
    → (asserting : Bool) (w : W) → (drive (nut_shedder s) asserting load w).0 ≡ none
    → Option.map parse_shed_status
        (read ups (codes "ups.status") (drive (nut_shedder s) asserting load w).1)
      ≡ some (if asserting then shed_asserted else shed_released)
unfolding nut_shedder parse_shed_status ◌==◌
shed_signal_read_back s read honest load ups e true w ok =
    ap (Option.map parse_shed_status) (set-stores s read honest load ups e status_shed w ok)
shed_signal_read_back s read honest load ups e false w ok =
    ap (Option.map parse_shed_status) (set-stores s read honest load ups e status_ok w ok)
