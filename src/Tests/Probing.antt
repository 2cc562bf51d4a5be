-- ===== src/Tests/Probing.antt =====
-- nut-probe against a server with three variables, and the collectors of the metrics.
use mathlib.Core.List.{Permᴰ}
use nut_dog.Prelude.{
  ℕ, ◌≡◌, refl, Option, none, some, List, [], ◌∷◌, ◌++◌, arith, All, Text, codes, ◌==◌, Dict,
  lookup, length, insert, true, false,
}
use nut_dog.GoStrings.{split}
use nut_dog.GoStrings.Format.{pad_right, print_int}
use nut_dog.Nut.Client.{Session}
use nut_dog.Nut.Client.RoundTrip.{block}
use nut_dog.Probe.{Flags, default_flags, ups_required, report, main}
use nut_dog.Probe.Reports.{report_lines, main-report, report-perm}
use nut_dog.Tests.{ups_a}
use nut_dog.Tests.Talking.{scripted, unconnected}

abbrev no_env : Text → Text
no_env name = []

abbrev vars : Dict Text
vars =
    (codes "ups.status", codes "OL")
    ∷ (codes "battery.charge", codes "90")
    ∷ (codes "battery.runtime", codes "1200")
    ∷ []

abbrev flags : Flags
flags = record default_flags { addr = codes "h:1"; ups = ups_a }

abbrev at_script : Session (List Text)
at_script = unconnected (block ups_a vars [] ∷ [])

-- The padding counts runes, and a number keeps its sign.
formats :
    (pad_right 4 (codes "ab") ≡ codes "ab  ")
    × (pad_right 4 (195 ∷ 164 ∷ codes "b") ≡ 195 ∷ 164 ∷ codes "b  ")
    × (pad_right 2 (codes "abc") ≡ codes "abc")
    × (print_int (nut_dog.Prelude.negsuc 0) ≡ codes "-1")
    × (print_int (nut_dog.Prelude.pos 1200) ≡ codes "1200")
unfolding pad_right print_int
formats = (refl, refl, refl, refl, refl)

reports :
    split 10 (report flags vars)
    ≡ codes "--- 3 vars from ups-a@h:1 ---"
      ∷ codes "battery.charge               90"
      ∷ codes "battery.runtime              1200"
      ∷ codes "ups.status                   OL"
      ∷ []
      ∷ codes
          "derived telemetry: {OK:true Status:{OnLine:true OnBattery:false LowBattery:false} Runtime:1200 Charge:90}"
      ∷ []
      ∷ []
unfolding report split lookup ◌==◌ nut_dog.Nut.telemetry_from_vars nut_dog.Prelude.sort_strings
    nut_dog.Prelude.keys nut_dog.Prelude.text_le
reports = refl

stops :
    ((main no_env scripted default_flags at_script).complaint ≡ some ups_required)
    × ((main no_env scripted default_flags at_script).status ≡ 2)
    × ((main no_env scripted flags (unconnected [])).status ≡ 1)
unfolding main ◌==◌
stops = (refl, refl, refl)

main-report_example :
    let end = main no_env scripted flags at_script in
    (end.status ≡ 0)
    × (end.complaint ≡ none)
    × (split 10 end.printed ≡ report_lines flags vars ++ [] ∷ [])
unfolding lookup ◌==◌
main-report_example =
    main-report no_env scripted flags vars [] at_script (block ups_a vars [] ∷ []) [] refl
      (refl, refl, refl) (ground arith) (ground arith) (ground arith) (refl, (refl, (refl, tt)))
      refl refl

abbrev other : Dict Text
other =
    (codes "battery.charge", codes "90")
    ∷ (codes "ups.status", codes "OL")
    ∷ (codes "battery.runtime", codes "1200")
    ∷ []

report-perm_example : report flags vars ≡ report flags other
unfolding lookup ◌==◌
report-perm_example = report-perm flags (Permᴰ.swap refl refl) (refl, (refl, (refl, tt)))
