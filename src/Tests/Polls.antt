-- ===== src/Tests/Polls.antt =====
-- The collectors, with a registry that refuses a name described twice, and polls with numbers for floats:
-- a variable that vanishes, an alias, and a failed poll.
use nut_dog.Prelude.{
  ℕ, ◌*◌, ◌+◌, ◌≡◌, refl, true, false, Option, none, some, List, [], ◌∷◌, arith, All, Text, codes,
  ◌==◌, Dict, has, IsDistinct, Bool, not, ◌&&◌, ap, subst, if◌then◌else◌, lookup, lookup_or, insert,
  pos, ℤ, negsuc,
}
use nut_dog.GoStrings.Numbers.{atoi}
use nut_dog.Metrics.{series}
use nut_dog.Metrics.Polls.{
  Shows, Spec, PollMetrics, record_poll, telemetry_specs, record_poll-telemetry,
}
use nut_dog.Metrics.Collectors.{
  Collector, vector, go_collector, process_collector, Prometheus, Made, new, never_polled, gauge_of,
  var_names,
}
use nut_dog.Metrics.Registered.{all_described, RegistersDistinct, new_registers}
use nut_dog.Tests.{ups_a, ups_b}

abbrev pub is_distinct : List Text → Bool
is_distinct [] = true
is_distinct (n ∷ ns) = not (has n ns) && is_distinct ns

abbrev pub library : Prometheus (List Text)
library = record {
  go_names = codes "go_goroutines" ∷ codes "go_threads" ∷ [];
  process_names = codes "process_open_fds" ∷ [];
  must_register = λ cs. none;
}

abbrev pub register_names : List Text → Option (List Text)
register_names names = if is_distinct names then some names else none

abbrev pub careful : Prometheus (List Text)
careful = record library { must_register = λ cs. register_names (all_described library cs) }

accepts : (ns : List Text) → IsDistinct ns → is_distinct ns ≡ true
accepts [] h = refl
accepts (n ∷ ns) h = ground (arith, accepts ns h.1)

described_same : (cs : List Collector) → all_described careful cs ≡ all_described library cs
described_same [] = refl
described_same (vector o ∷ cs) = ap (λ ns. o.name ∷ ns) (described_same cs)
described_same (go_collector ∷ cs) =
    ap (λ ns. codes "go_goroutines" ∷ codes "go_threads" ∷ ns) (described_same cs)
described_same (process_collector ∷ cs) =
    ap (λ ns. codes "process_open_fds" ∷ ns) (described_same cs)

pub registers : RegistersDistinct careful
registers cs well once none_made = absurd (
    ground (
      arith,
      none_made,
      accepts (all_described library cs) (subst IsDistinct (described_same cs) once),
    ))

new_registers_example :
    (m : Made (List Text) ℕ) × (new careful 1 (codes "v1") ≡ some m)
    × All
        (λ (s : Spec ℕ). All (λ v. lookup v m.telemetry ≡ some (gauge_of s)) (var_names s))
        (telemetry_specs 1)
    × (lookup (codes "v1") m.metrics.build_info ≡ some 1)
unfolding has ◌==◌ nut_dog.GoStrings.has_prefix
new_registers_example =
    new_registers careful 1 (codes "v1") registers
      ((refl, (refl, tt)), (refl, tt), (refl, (refl, tt)), (refl, tt))

-- A stand-in for strconv.ParseFloat that reads whole numbers that are not negative.
abbrev natural : Option ℤ → Option ℕ
natural none = none
natural (some (pos n)) = some n
natural (some (negsuc n)) = none

parse_whole : Text → Option ℕ
unfolding atoi
parse_whole s = natural (atoi s)

abbrev times : ℕ → ℕ → ℕ
times a b = a * b

abbrev vars : Dict Text
vars =
    (codes "ups.status", codes "OL CHRG")
    ∷ (codes "battery.charge", codes " 90 ")
    ∷ (codes "ups.power", codes "n/a")
    ∷ (codes "output.power", codes "138")
    ∷ []

abbrev polled : PollMetrics ℕ
polled = record_poll parse_whole times (telemetry_specs 1) ups_b true vars (pos 7) never_polled

polls :
    (series (codes "battery.charge") ups_b polled.telemetry ≡ some 90)
    × (series (codes "ups.power") ups_b polled.telemetry ≡ some 138)
    × (series ups_b (codes "CHRG") polled.ups_status ≡ some 1)
    × (series ups_b (codes "LB") polled.ups_status ≡ some 0)
    × (series
          (codes "battery.charge")
          ups_b
          (record_poll parse_whole times (telemetry_specs 1) ups_b true [] (pos 8) polled).telemetry
        ≡ none)
unfolding record_poll parse_whole series lookup lookup_or telemetry_specs ◌==◌ insert
    nut_dog.Metrics.set_series nut_dog.Prelude.fill nut_dog.Prelude.delete
polls = (refl, refl, refl, refl, refl)

record_poll-telemetry_example :
    let after =
      record_poll parse_whole times (telemetry_specs 1) ups_b true vars (pos 7) never_polled in
    All
      (λ s. Shows parse_whole times vars s (series s.first ups_b after.telemetry))
      (telemetry_specs 1)
    × ((a : Text) → series a ups_a after.telemetry ≡ series a ups_a never_polled.telemetry)
unfolding ◌==◌
record_poll-telemetry_example =
    record_poll-telemetry 1 parse_whole times ups_b ups_a vars (pos 7) never_polled refl
