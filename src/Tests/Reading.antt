-- ===== src/Tests/Reading.antt =====
-- What is read of a UPS, and what is recorded of a load.
use nut_dog.Prelude.{◌≡◌, refl, true, false, [], ◌∷◌, Dict, ◌==◌, Text, codes, pos, negsuc}
use nut_dog.Nut.{parse_upsc}

reads_upsc :
    (parse_upsc (codes "battery.charge: 100\nbattery.runtime: 1440\nups.status: OL CHRG\n")
      ≡ record {
        ok = true;
        status = record { on_line = true; on_battery = false; low_battery = false };
        runtime = pos 1440;
        charge = pos 100;
      })
    × (parse_upsc (codes "Error: Data stale") ≡ record {
      ok = false;
      status = record { on_line = false; on_battery = false; low_battery = false };
      runtime = negsuc 0;
      charge = negsuc 0;
    })
unfolding parse_upsc ◌==◌
reads_upsc = (refl, refl)

abbrev charge_only : Dict Text
charge_only = (codes "battery.charge", codes "55") ∷ []
