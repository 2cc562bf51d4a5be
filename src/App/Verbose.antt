-- ===== src/App/Verbose.antt =====
-- The verbose log of internal/app/app.go: what a tick says of its readings.
use mathlib.Core.Path.{ap₂}
use mathlib.Core.List.{map-append}
use nut_dog.Prelude.{
  ◌≡◌, refl, ap, ◌∙◌, Bool, true, List, [], ◌∷◌, ◌++◌, map, Text, codes, Dict, lookup_or, ℤ,
  if◌then◌else◌,
}
use nut_dog.Control.{
  Telemetry, no_telemetry, LoadType, chassis, nut_server, LoadConfig, no_load, ActualState,
  actual_unknown, actual_string, ShedState, shed_unknown, shed_asserted, shed_released, Readings,
}
use nut_dog.App.{Controller, status_string}

-- A line of the log, with its attributes.
pub data Line : Type 0 where
  ups_line : (name : Text) (ok : Bool) (status : Text) (runtime charge : ℤ) → Line
  server_line : (name actual shed : Text) → Line
  chassis_line : (name actual : Text) → Line

-- shedString
unfoldable pub shed_string : ShedState → Text
shed_string shed_released = codes "released"
shed_string shed_asserted = codes "asserted"
shed_string shed_unknown = codes "unknown"

abbrev pub line_of : Text → Telemetry → Line
line_of u t = ups_line u t.ok (status_string t.status) t.runtime t.charge

-- The first loop.
unfoldable pub ups_lines : Dict Telemetry → List Text → List Line
unfolding status_string
ups_lines tel [] = []
ups_lines tel (u ∷ us) = line_of u (lookup_or no_telemetry u tel) ∷ ups_lines tel us

abbrev pub load_line : LoadType → Text → ActualState → ShedState → Line
load_line nut_server l a s = server_line l (actual_string a) (shed_string s)
load_line chassis l a s = chassis_line l (actual_string a)

-- The second loop.
unfoldable pub load_lines : Dict LoadConfig → Readings → List Text → List Line
unfolding shed_string
load_lines loads r [] = []
load_lines loads r (l ∷ ls) =
    load_line (lookup_or no_load l loads).type l (lookup_or actual_unknown l r.actual)
      (lookup_or shed_unknown l r.shed)
    ∷ load_lines loads r ls

-- The lines of a tick, if it is verbose.
unfoldable pub verbose_lines : Bool → Controller → Readings → List Line
unfolding ups_lines load_lines
verbose_lines verbose c r =
    if verbose then ups_lines r.tel c.ups_names ++ load_lines c.loads r c.load_names else []

abbrev name_of : Line → Text
name_of (ups_line name ok status runtime charge) = name
name_of (server_line name actual shed) = name
name_of (chassis_line name actual) = name

ups_lines-names : (tel : Dict Telemetry) (us : List Text) → map name_of (ups_lines tel us) ≡ us
unfolding ups_lines
ups_lines-names tel [] = refl
ups_lines-names tel (u ∷ us) = ap (λ ns. u ∷ ns) (ups_lines-names tel us)

load_line_name :
    (lt : LoadType) (l : Text) (a : ActualState) (s : ShedState) → name_of (load_line lt l a s) ≡ l
load_line_name chassis l a s = refl
load_line_name nut_server l a s = refl

load_lines-names :
    (loads : Dict LoadConfig) (r : Readings) (ls : List Text)
    → map name_of (load_lines loads r ls) ≡ ls
unfolding load_lines
load_lines-names loads r [] = refl
load_lines-names loads r (l ∷ ls) =
    ap₂ (λ n ns. n ∷ ns)
      (load_line_name (lookup_or no_load l loads).type l (lookup_or actual_unknown l r.actual)
        (lookup_or shed_unknown l r.shed))
      (load_lines-names loads r ls)

-- A verbose tick has one line of each UPS and of each load, in the order in which it reads them.
pub verbose_lines-names :
    (c : Controller) (r : Readings)
    → map name_of (verbose_lines true c r) ≡ c.ups_names ++ c.load_names
unfolding verbose_lines
verbose_lines-names c r =
    map-append name_of (ups_lines r.tel c.ups_names) (load_lines c.loads r c.load_names)
    ∙ ap₂ (λ us ls. us ++ ls) (ups_lines-names r.tel c.ups_names)
        (load_lines-names c.loads r c.load_names)
