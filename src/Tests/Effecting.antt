-- ===== src/Tests/Effecting.antt =====
-- The executor and its effects: recorded calls, a store of variables, the output of racadm.
use nut_dog.Prelude.{
  ℕ, ◌+◌, ◌++◌, ◌≡◌, refl, ◌↔◌, true, false, Option, none, some, List, [], ◌∷◌, Any, arith, Dict,
  lookup, ◌==◌, insert, lookup-insert, eq_iff, Text, codes, if◌then◌else◌,
}
use nut_dog.GoStrings.{split}
use nut_dog.Control.{
  Action, action, assert_server_shed, wake_server, chassis_shutdown, actual_unknown, actual_up,
  actual_down,
}
use nut_dog.Effects.{Effect, Target, Executor, apply}
use nut_dog.Effects.Apply.{recorder, calls_of, apply-calls_of}
use nut_dog.Effects.Shedder.{NutShedder}
use nut_dog.Effects.Chassis.{
  IsServerRow, IsOnRow, parse_chassis_power, parse_chassis_power_exact, racadm_failed,
}
use nut_dog.Tests.{p1, bc1}
use nut_dog.Tests.Ticks.{no_metrics}

abbrev targets : Dict Target
targets =
    (p1, record { cmc_host = []; wake_mac = codes "m"; wake_bcast = codes "b" })
    ∷ (bc1, record { cmc_host = codes "cmc"; wake_mac = []; wake_bcast = [] })
    ∷ []

abbrev three : List Action
three =
    action chassis_shutdown bc1
    ∷ action assert_server_shed p1
    ∷ action wake_server (codes "p2")
    ∷ []

-- A CMC and a server that refuse, and no waker.
abbrev refusing : Executor Text ℕ
refusing = record {
  dry_run = false;
  targets = targets;
  chassis = some (record {
    shutdown = λ host w. (some (codes "ERROR"), w + 1);
    power_up = λ host w. (none, w);
  });
  shedder = some (record {
    assert = λ load w. (some (codes "ERR READONLY"), w + 1);
    release = λ load w. (none, w);
  });
  waker = none;
}

apply-calls_of_example :
    let after = apply (recorder refusing) three (some no_metrics) (0, []) in
    (after.1.1 ≡ [] ++ calls_of refusing three)
    × (after.1.0 ≡ (apply refusing three (some no_metrics) 0).1)
    × (after.0 ≡ (apply refusing three (some no_metrics) 0).0)
apply-calls_of_example = apply-calls_of refusing three (some no_metrics) 0 []

-- A `VarSetter` on a store of the values of `ups.status` by UPS, which refuses other variables.
abbrev store_status : Text → Text → Text → Effect Text (Dict Text)
store_status ups name value store =
    if name == codes "ups.status"
    then (none, insert ups value store)
    else (some (codes "ERR VAR-NOT-SUPPORTED"), store)

abbrev read_status : Text → Text → Dict Text → Option Text
read_status ups name store = lookup ups store

stored :
    (ups name value : Text) (store : Dict Text)
    → (store_status ups name value store).0 ≡ none
    → read_status ups name (store_status ups name value store).1 ≡ some value
stored ups name value store h = ground (arith, lookup-insert ups ups value store, eq_iff ups ups)

abbrev shedder : NutShedder Text (Dict Text)
shedder = record { shed_ups = (p1, codes "shed-p1") ∷ []; set_var = store_status }

abbrev modules : Text
modules =
    codes "Chassis   Present  ON  OK\nServer-1  Present  ON  OK  abc\nServer-2  Not Present  N/A"

reads_modules :
    (parse_chassis_power modules ≡ actual_up)
    × (parse_chassis_power (codes "Server-1 Present OFF OK\nServer-2 Not Present") ≡ actual_down)
    × (parse_chassis_power (codes "ERROR: timeout") ≡ actual_unknown)
    × (racadm_failed (codes "Error: timeout") ≡ true)
unfolding parse_chassis_power ◌==◌ racadm_failed
reads_modules = (refl, refl, refl, refl)

parse_chassis_power_exact_example :
    ((parse_chassis_power modules ≡ actual_unknown) ↔ ¬ (Any IsServerRow (split 10 modules)))
    × ((parse_chassis_power modules ≡ actual_up) ↔ Any IsOnRow (split 10 modules))
parse_chassis_power_exact_example = parse_chassis_power_exact modules
