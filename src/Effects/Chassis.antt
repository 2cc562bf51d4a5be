-- ===== src/Effects/Chassis.antt =====
-- internal/effects/chassis.go: the blade chassis through racadm. The `Runner` is a parameter: it is
-- given the host and the command, and returns the output and the error.
use nut_dog.Prelude.{
  ◌≡◌, ◌≢◌, refl, ◌↔◌, ◌⊎◌, inl, inr, Bool, true, false, ◌||◌, ◌&&◌, Option, none, some, List, [],
  ◌∷◌, ◌++◌, map, arith, Text, codes, ◌==◌, eq_iff, Any, if◌then◌else◌,
}
use nut_dog.GoStrings.{split, fields, has_prefix, equal_fold, contains, to_upper, trim_space}
use nut_dog.Control.{ActualState, actual_unknown, actual_up, actual_down}
use nut_dog.Effects.{Effect, ChassisEffect}

-- the errors of `act`: with the subcommand, what the runner returned and the output
pub data ActError (E : Type 0) : Type 0 where
  run_failed : Text → E → Text → ActError E
  reported_failure : Text → Text → ActError E

abbrev pub Runner : Type 0 → Type 0 → Type 0
Runner E W = Text → Text → W → (Text × Option E) × W

-- racadmFailed; no rune but an ASCII one has E, R or O for its upper case
unfoldable pub racadm_failed : Text → Bool
unfolding contains to_upper
racadm_failed out = contains (map to_upper out) (codes "ERROR")

module _ {E W : Type 0} (runner : Runner E W) where
  unfoldable pub act_result : Text → (Text × Option E) × W → Option (ActError E) × W
  unfolding racadm_failed trim_space
  act_result sub ((out, some e), w) = (some (run_failed sub e (trim_space out)), w)
  act_result sub ((out, none), w) =
      if racadm_failed out then (some (reported_failure sub (trim_space out)), w) else (none, w)

  -- act
  unfoldable pub act : Text → Text → Effect (ActError E) W
  unfolding act_result
  act host sub w = act_result sub (runner host (codes "racadm " ++ sub) w)

  -- RacadmChassis as a Chassis: Shutdown and PowerUp
  unfoldable pub racadm_chassis : ChassisEffect (ActError E) W
  unfolding act
  racadm_chassis = record {
    shutdown = λ host. act host (codes "chassisaction -m chassis powerdown");
    power_up = λ host. act host (codes "chassisaction -m chassis powerup");
  }

-- The row of a server, by its fields: `none` for another row, and else whether the server is
-- present and on.
unfoldable pub server_on : List Text → Option Bool
unfolding has_prefix equal_fold
server_on (name ∷ presence ∷ power ∷ more) =
    if has_prefix name (codes "Server-")
    then some (presence == codes "Present" && equal_fold power (codes "ON"))
    else none
server_on _ = none

-- The variables `sawServer` and `anyOn` of `parseChassisPower`, and a round of its loop.
unfoldable pub see_row : Option Bool → Bool × Bool → Bool × Bool
see_row none v = v
see_row (some on) v = (true, v.1 || on)

unfoldable pub see_rows : List Text → Bool × Bool → Bool × Bool
unfolding see_row server_on fields
see_rows [] v = v
see_rows (line ∷ lines) v = see_rows lines (see_row (server_on (fields line)) v)

-- the switch behind it
unfoldable pub power_of : Bool × Bool → ActualState
power_of (false, any) = actual_unknown
power_of (true, true) = actual_up
power_of (true, false) = actual_down

-- parseChassisPower
unfoldable pub parse_chassis_power : Text → ActualState
unfolding see_rows split power_of
parse_chassis_power out = power_of (see_rows (split 10 out) (false, false))

-- PowerState
unfoldable pub power_state : {E W : Type 0} → Runner E W → Text → W → (ActualState × Option E) × W
unfolding parse_chassis_power
power_state runner host w =
    let r = runner host (codes "racadm getmodinfo") w in
    (
      elim r.0.1 [ none ↦ (parse_chassis_power r.0.0, none) | some e ↦ (actual_unknown, some e) ],
      r.1,
    )

-- The fields of the row of a server are its name, its presence and its power, and maybe more.
abbrev pub IsRow : List Text → Type 0
IsRow (name ∷ presence ∷ power ∷ more) = has_prefix name (codes "Server-") ≡ true
IsRow _ = ⊥

abbrev pub IsOn : List Text → Type 0
IsOn (name ∷ presence ∷ power ∷ more) =
    (has_prefix name (codes "Server-") ≡ true)
    × (presence ≡ codes "Present")
    × (equal_fold power (codes "ON") ≡ true)
IsOn _ = ⊥

-- A line that is the row of a server, and one whose server is present and on.
abbrev pub IsServerRow : Text → Type 0
IsServerRow line = IsRow (fields line)

abbrev pub IsOnRow : Text → Type 0
IsOnRow line = IsOn (fields line)

server_on_exact :
    (fs : List Text) → ((server_on fs ≢ none) ↔ IsRow fs) × ((server_on fs ≡ some true) ↔ IsOn fs)
unfolding server_on
server_on_exact [] = ground arith
server_on_exact (name ∷ []) = ground arith
server_on_exact (name ∷ presence ∷ []) = ground arith
server_on_exact (name ∷ presence ∷ power ∷ more) =
    let is = eq_iff presence (codes "Present") in
    ((λ h. ground arith, λ h. ground arith), (λ h. ground (arith, is), λ h. ground (arith, is)))

see_row-saw :
    (o : Option Bool) (v : Bool × Bool) → ((see_row o v).0 ≡ true) ↔ ((v.0 ≡ true) ⊎ (o ≢ none))
unfolding see_row
see_row-saw none v = ground arith
see_row-saw (some on) v = (λ h. inr (λ e. cc), λ h. refl)

see_row-any :
    (o : Option Bool) (v : Bool × Bool)
    → ((see_row o v).1 ≡ true) ↔ ((v.1 ≡ true) ⊎ (o ≡ some true))
unfolding see_row
see_row-any none v = ground arith
see_row-any (some on) v = ground arith

see_rows-saw :
    (lines : List Text) (v : Bool × Bool)
    → ((see_rows lines v).0 ≡ true) ↔ ((v.0 ≡ true) ⊎ Any IsServerRow lines)
unfolding see_rows
see_rows-saw [] v = ground arith
see_rows-saw (line ∷ lines) v =
    let o = server_on (fields line) in
    ground
      (arith, see_rows-saw lines (see_row o v), see_row-saw o v, (server_on_exact (fields line)).0)

see_rows-Any :
    (lines : List Text) (v : Bool × Bool)
    → ((see_rows lines v).1 ≡ true) ↔ ((v.1 ≡ true) ⊎ Any IsOnRow lines)
unfolding see_rows
see_rows-Any [] v = ground arith
see_rows-Any (line ∷ lines) v =
    let o = server_on (fields line) in
    ground
      (arith, see_rows-Any lines (see_row o v), see_row-any o v, (server_on_exact (fields line)).1)

power_of_exact :
    (v : Bool × Bool)
    → ((power_of v ≡ actual_unknown) ↔ (v.0 ≡ false))
      × ((power_of v ≡ actual_up) ↔ ((v.0 ≡ true) × (v.1 ≡ true)))
unfolding power_of
power_of_exact (false, any) = ground arith
power_of_exact (true, true) = ground arith
power_of_exact (true, false) = ground arith

IsRow-IsOn : (fs : List Text) → IsOn fs → IsRow fs
IsRow-IsOn [] h = h
IsRow-IsOn (name ∷ []) h = h
IsRow-IsOn (name ∷ presence ∷ []) h = h
IsRow-IsOn (name ∷ presence ∷ power ∷ more) h = h.0

Any-IsServerRow : (lines : List Text) → Any IsOnRow lines → Any IsServerRow lines
Any-IsServerRow [] h = h
Any-IsServerRow (line ∷ lines) (inl h) = inl (IsRow-IsOn (fields line) h)
Any-IsServerRow (line ∷ lines) (inr h) = inr (Any-IsServerRow lines h)

-- The output of getmodinfo reads as unknown exactly if no line of it has three fields or more of which the first starts
-- with Server-, and as up exactly if in some such line the second is Present and the third ON in any case.
pub parse_chassis_power_exact :
    (out : Text)
    → ((parse_chassis_power out ≡ actual_unknown) ↔ ¬ (Any IsServerRow (split 10 out)))
      × ((parse_chassis_power out ≡ actual_up) ↔ Any IsOnRow (split 10 out))
unfolding parse_chassis_power
parse_chassis_power_exact out =
    let lines = split 10 out in
    let v = see_rows lines (false, false) in
    (
      ground (arith, power_of_exact v, see_rows-saw lines (false, false)),
      (
        λ h. ground (arith, power_of_exact v, see_rows-Any lines (false, false)),
        λ h. ground (
          arith,
          power_of_exact v,
          see_rows-saw lines (false, false),
          see_rows-Any lines (false, false),
          Any-IsServerRow lines h,
        ),
      ),
    )
