-- ===== src/Probe/Reports.antt =====
-- What the command prints.
use mathlib.Core.List.{Permᴰ}
use mathlib.Core.Path.{ap₂}
use nut_dog.Prelude.{
  ℕ, zero, suc, ◌+◌, ◌%◌, ◌/◌, ◌≡◌, refl, ap, ◌∙◌, true, false, Bool, Option, none, some, List, [],
  ◌∷◌, ◌++◌, map, length, replicate, arith, All, All-append, All-map_of, All-sort_strings, Text,
  codes, ◌==◌, Dict, lookup, lookup_or, keys, lookup-All, UniqueKeys, sort_strings,
  sort_strings-perm, lookup-perm, pos, negsuc, ℤ, ltb, if◌then◌else◌,
}
use nut_dog.GoStrings.{split}
use nut_dog.GoStrings.Lines.{IsLine, Splits, Splits-line, Splits-append, Splits-nil, Splits-all}
use nut_dog.GoStrings.Format.{digits, print_nat, print_int, print_bool, pad_right}
use nut_dog.Control.{Status, Telemetry}
use nut_dog.Nut.{telemetry_from_vars}
use nut_dog.Nut.Client.{Peer, Session, Result, ok, err}
use nut_dog.Nut.Client.RoundTrip.{block, IsWord, IsValue, IsPrintable}
use nut_dog.Nut.Client.Fetching.{fetch-block}
use nut_dog.Probe.{
  Flags, heading, row, derived, print_status, print_telemetry, print_rows, report, options_of,
  finish, main,
}

if-IsLine : (b : Bool) (s t : Text) → IsLine s → IsLine t → IsLine (if b then s else t)
if-IsLine true s t h k = h
if-IsLine false s t h k = k

digits-IsLine : (fuel n : ℕ) → IsLine (digits fuel n)
unfolding digits
digits-IsLine zero n = tt
digits-IsLine (suc fuel) n =
    let last : Text = (b'0' + n % 10) ∷ [] in
    if-IsLine (ltb n 10) ((b'0' + n) ∷ []) (digits fuel (n / 10) ++ last) (λ e. omega arith, tt)
      (All-append _ (digits fuel (n / 10)) last (digits-IsLine fuel (n / 10))
        (λ e. omega arith, tt))

print_int-IsLine : (n : ℤ) → IsLine (print_int n)
unfolding print_int print_nat
print_int-IsLine (pos n) = digits-IsLine (suc n) n
print_int-IsLine (negsuc n) = (λ e. omega arith, digits-IsLine (suc (suc n)) (suc n))

print_bool-IsLine : (b : Bool) → IsLine (print_bool b)
unfolding print_bool
print_bool-IsLine b = ground arith

-- A text behind a literal.
behind : (lit s : Text) → IsLine lit → IsLine s → IsLine (lit ++ s)
behind lit s h k = All-append _ lit s h k

print_status-IsLine : (s : Status) → IsLine (print_status s)
unfolding print_status
print_status-IsLine s = behind (codes "{OnLine:") _ (ground arith) (
    All-append _ (print_bool s.on_line) _ (print_bool-IsLine s.on_line) (
      behind (codes " OnBattery:") _ (ground arith) (
        All-append _ (print_bool s.on_battery) _ (print_bool-IsLine s.on_battery) (
          behind (codes " LowBattery:") _ (ground arith) (
            All-append _ (print_bool s.low_battery) _ (print_bool-IsLine s.low_battery)
              (ground arith))))))

brace-IsLine : IsLine (codes "}")
brace-IsLine = ground arith

print_telemetry-IsLine : (t : Telemetry) → IsLine (print_telemetry t)
unfolding print_telemetry
print_telemetry-IsLine t =
    let charge = print_int t.charge ++ codes "}" in
    let runtime = print_int t.runtime ++ (codes " Charge:" ++ charge) in
    let status = print_status t.status ++ (codes " Runtime:" ++ runtime) in
    behind (codes "{OK:") (print_bool t.ok ++ (codes " Status:" ++ status)) (ground arith) (
      All-append _ (print_bool t.ok) (codes " Status:" ++ status) (print_bool-IsLine t.ok) (
        behind (codes " Status:") status (ground arith) (
          All-append _ (print_status t.status) (codes " Runtime:" ++ runtime)
            (print_status-IsLine t.status)
            (behind (codes " Runtime:") runtime (ground arith) (
              All-append _ (print_int t.runtime) (codes " Charge:" ++ charge)
                (print_int-IsLine t.runtime)
                (behind (codes " Charge:") charge (ground arith) (
                  All-append _ (print_int t.charge) (codes "}") (print_int-IsLine t.charge)
                    brace-IsLine)))))))

derived-IsLine : (t : Telemetry) → IsLine (derived t)
unfolding derived
derived-IsLine t =
    behind (codes "derived telemetry: ") (print_telemetry t) (ground arith)
      (print_telemetry-IsLine t)

heading-IsLine :
    (flags : Flags) (n : ℕ) → IsLine flags.ups → IsLine flags.addr → IsLine (heading flags n)
unfolding heading print_nat
heading-IsLine flags n h k = behind (codes "--- ") _ (ground arith) (
    All-append _ (print_nat n) _ (digits-IsLine (suc n) n) (
      behind (codes " vars from ") _ (ground arith) (
        All-append _ flags.ups _ h
          (λ e. omega arith, All-append _ flags.addr (codes " ---") k (ground arith)))))

spaces-IsLine : (n : ℕ) → IsLine (replicate n b' ')
spaces-IsLine zero = tt
spaces-IsLine (suc n) = (λ e. omega arith, spaces-IsLine n)

row-IsLine : (name value : Text) → IsLine name → IsLine value → IsLine (row name value)
unfolding row pad_right
row-IsLine name value h k =
    All-append _ (pad_right 28 name) (b' ' ∷ value) (All-append _ name _ h (spaces-IsLine _))
      (λ e. omega arith, k)

-- The rows, as lines.
abbrev pub rows : Dict Text → List Text → List Text
rows vars names = map (λ k. row k (lookup_or [] k vars)) names

rows-Splits :
    (vars : Dict Text) (names : List Text)
    → All (λ k. IsLine (row k (lookup_or [] k vars))) names
    → Splits (print_rows vars names) (rows vars names)
unfolding print_rows
rows-Splits vars [] h = Splits-nil
rows-Splits vars (k ∷ names) h =
    Splits-line (row k (lookup_or [] k vars)) (print_rows vars names) (rows vars names) h.0
      (rows-Splits vars names h.1)

module _ (flags : Flags) where
  -- All the lines of the report.
  abbrev pub report_lines : Dict Text → List Text
  report_lines vars =
      heading flags (length vars)
      ∷ (rows vars (sort_strings (keys vars)) ++ [] ∷ derived (telemetry_from_vars vars) ∷ [])

  -- What the rows are made of.
  value-IsLine :
      (o : Option Text)
      → ((v : Text) → o ≡ some v → IsValue v)
      → IsLine (elim o [ none ↦ [] | some v ↦ v ])
  value-IsLine none h = tt
  value-IsLine (some v) h = All-map_of (λ c k. k.0) v (h v refl).0

  key-IsLine : (vars : Dict Text) → IsPrintable vars → All IsLine (keys vars)
  unfolding keys
  key-IsLine [] h = tt
  key-IsLine ((k, v) ∷ vars) h = (All-map_of (λ c x. x.1) k h.0.0, key-IsLine vars h.1)

  report-Splits :
      (vars : Dict Text)
      → IsLine flags.ups
      → IsLine flags.addr
      → IsPrintable vars
      → Splits (report flags vars) (report_lines vars)
  unfolding report lookup_or
  report-Splits vars hu ha h =
      let names = sort_strings (keys vars) in
      let tail : Text = derived (telemetry_from_vars vars) ++ 10 ∷ [] in
      Splits-line (heading flags (length vars)) (print_rows vars names ++ 10 ∷ tail) _
        (heading-IsLine flags (length vars) hu ha)
        (Splits-append (print_rows vars names) (10 ∷ tail) (rows vars names)
          ([] ∷ derived (telemetry_from_vars vars) ∷ [])
          (rows-Splits vars names (
            All-map_of
              (λ k line. row-IsLine k (lookup_or [] k vars) line (
                value-IsLine (lookup k vars)
                  (λ v e. lookup-All IsValue vars k v (All-map_of (λ x p. p.1) vars h) e)))
              names (All-sort_strings IsLine (keys vars) (key-IsLine vars h))))
          (Splits-line [] tail (derived (telemetry_from_vars vars) ∷ []) tt (
            Splits-line (derived (telemetry_from_vars vars)) [] []
              (derived-IsLine (telemetry_from_vars vars)) Splits-nil)))

ok_inj : {A : Type 0} (a b : A) → ok a ≡ ok b → a ≡ b
ok_inj a b e = ap (λ r. elim r [ ok x ↦ x | err e ↦ a ]) e

-- No account in the environment, and neither TLS nor LOGIN asked for.
abbrev pub IsPlainProbe : (Text → Text) → Flags → Type 0
IsPlainProbe getenv flags =
    (flags.use_tls ≡ false) × (getenv (codes "NUT_USERNAME") ≡ []) × (flags.login ≡ false)

module _ {S : Type 0} (getenv : Text → Text) (p : Peer S) where
  -- A server that answers LIST VAR with its variables, printed as `Fetch` reads them back: the probe ends with
  -- status 0 and no complaint, and prints a heading with their number, one line of each variable in the order of
  -- the names, an empty line and the derived telemetry, where neither TLS nor an account is asked for.
  pub main-report :
      (flags : Flags) (vars : Dict Text) (rest : Text) (net : Session S) (dialled answered : S)
      → (flags.ups == []) ≡ false
      → IsPlainProbe getenv flags
      → IsWord flags.ups
      → IsLine flags.addr
      → IsPrintable vars
      → UniqueKeys vars
      → p.dial flags.addr net.peer ≡ some ([], dialled)
      → p.answer (codes "LIST VAR " ++ flags.ups ++ 10 ∷ []) dialled
        ≡ some (block flags.ups vars rest, answered)
      → let end = main getenv p flags net in
        (end.status ≡ 0)
        × (end.complaint ≡ none)
        × (split 10 end.printed ≡ report_lines flags vars ++ [] ∷ [])
  unfolding main options_of
  main-report flags vars rest net dialled answered named plain word line printable unique dials
        answers =
      let fetched =
        fetch-block p flags.addr flags.ups rest vars (options_of getenv flags) net dialled answered
          plain word printable unique dials answers in
      let finished = finished_with flags vars _ fetched in
      rw named (
        finished.0,
        finished.1,
        rw finished.2 (
            Splits-all (report flags vars) (report_lines flags vars)
              (report-Splits flags vars (All-map_of (λ c k. k.1) flags.ups word) line printable)),
      )
    where
      finished_with :
          (flags : Flags) (vars : Dict Text) (r : Result (Dict Text) × Session S)
          → r.0 ≡ ok vars
          → let end = finish getenv p flags r in
            (end.status ≡ 0) × (end.complaint ≡ none) × (end.printed ≡ report flags vars)
      finished_with flags vars (ok got, net) e = (refl, refl, ap (report flags) (ok_inj got vars e))
      finished_with flags vars (err x, net) e = absurd (ground arith)

lines_same :
    (vars other : Dict Text)
    → ((k : Text) → lookup k vars ≡ lookup k other)
    → (names : List Text) → print_rows vars names ≡ print_rows other names
unfolding print_rows lookup_or
lines_same vars other h [] = refl
lines_same vars other h (k ∷ names) =
    ap₂ (λ o rest. row k (elim o [ none ↦ [] | some v ↦ v ]) ++ 10 ∷ rest) (h k)
      (lines_same vars other h names)

telemetry_same :
    (vars other : Dict Text)
    → ((k : Text) → lookup k vars ≡ lookup k other)
    → telemetry_from_vars vars ≡ telemetry_from_vars other
unfolding telemetry_from_vars
telemetry_same vars other h =
    rw (h (codes "ups.status"), h (codes "battery.runtime"), h (codes "battery.charge")) refl

length-Perm : {A : Type 0} {xs ys : List A} → Permᴰ xs ys → length xs ≡ length ys
length-Perm Permᴰ.nil = refl
length-Perm (Permᴰ.cons e p) = ap suc (length-Perm p)
length-Perm (Permᴰ.swap d e) = refl
length-Perm (Permᴰ.trans p q) = length-Perm p ∙ length-Perm q

-- The report does not depend on the order in which `range` visits the variables.
pub report-perm :
    (flags : Flags) {vars other : Dict Text}
    → Permᴰ vars other
    → UniqueKeys vars
    → report flags vars ≡ report flags other
unfolding report
report-perm flags {vars} {other} p h =
    let same = (lookup-perm p h).1 in
    rw
      (
        length-Perm p,
        sort_strings-perm p,
        lines_same vars other same (sort_strings (keys other)),
        telemetry_same vars other same,
      )
      refl
