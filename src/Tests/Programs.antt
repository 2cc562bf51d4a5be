-- ===== src/Tests/Programs.antt =====
-- The program as a whole: a file system that keeps what is written, a start without a token, the end of the
-- loop, and a request for off.
use nut_dog.Prelude.{
  ℕ, ◌≡◌, refl, ap, subst, ◌⊎◌, inl, inr, false, Option, none, some, [], ◌∷◌, ◌++◌, map, All, Text,
  codes, ◌==◌, Dict, lookup, insert, lookup-insert, has, pos, if◌then◌else◌, UniqueKeys,
}
use nut_dog.GoStrings.Paths.{join_path}
use nut_dog.Nutconf.Writing.{
  AsksMode, FileSystem, write_files, paths_in, mode_after, KeepsFiles, write_files_lem,
}
use nut_dog.App.{Controller, read_all, plan}
use nut_dog.App
use nut_dog.Powerapi.Routes.{Call}
use nut_dog.Powerapi.Routing.{power_path}
use nut_dog.Config.{Config, control_ups, control_loads}
use nut_dog.Config.File.{Source}
use nut_dog.Main.{Wiring}
use nut_dog.Main.Start.{token_empty, ticked, http_asked, ports_of, loop}
use nut_dog.Main.Program.{Flags, start_failed, begin, next, told_to_stop, select}
use nut_dog.Main.Beginning.{GivesMaps, ExplainsEnd, begin-ExplainsEnd, select-loop}
use nut_dog.Tests.{p1}
use nut_dog.Tests.Polls.{careful, registers}
use nut_dog.Tests.Rendering.{open_ssh}
use nut_dog.Tests.Settings.{settings}
use nut_dog.Tests.Wiring.{idle, tokenless, silent, accepted}

-- A disk, and a umask that takes nothing away.
abbrev Disk : Type 0
Disk = Dict (Text × ℕ)

abbrev kept : Option (Text × ℕ) → ℕ → ℕ
kept none mode = mode
kept (some (content, old)) mode = old

abbrev disk : FileSystem (Unit {0}) Disk
disk = record {
  mkdir_all = λ dir mode s. (none, s);
  write_file = λ path content mode s. (none, insert path (content, kept (lookup path s) mode) s);
}

joins :
    (join_path (codes "/etc/nut") (codes "ups.conf") ≡ codes "/etc/nut/ups.conf")
    × (join_path (codes "./a//b/") (codes "../c") ≡ codes "a/c")
    × (join_path (codes "/") (codes "..") ≡ codes "/")
    × (join_path [] [] ≡ [])
unfolding join_path ◌==◌
joins = (refl, refl, refl, refl)

keeps_files : KeepsFiles disk (λ s q. lookup q s) (λ mode. mode)
keeps_files = (
  λ dir mode s q. refl,
  λ path content mode s q h.
      elim (lookup path s)
        as (λ x. lookup q (insert path (content, kept x mode) s) ≡ (
          if path == q
          then some (content, mode_after disk (λ s q. lookup q s) (λ mode. mode) x mode)
          else lookup q s)) [
            | none ↦ lookup-insert path q (content, mode) s
            | some (old, m) ↦ lookup-insert path q (content, m) s
          ],
)

abbrev two_files : Dict Text
two_files = (codes "ups.conf", codes "secret") ∷ (codes "nut.conf", codes "MODE=netserver") ∷ []

abbrev left_over : Disk
left_over = (codes "/etc/nut/nut.conf", (codes "MODE=none", 384)) ∷ []

write_files_lem_example :
    let out = (write_files disk (codes "/etc/nut") two_files left_over).1 in
    All
      (λ f.
        (mode : ℕ) × AsksMode f.0 mode
        × (lookup (join_path (codes "/etc/nut") f.0) out
            ≡ some (
              f.1,
              mode_after disk
                  (λ s q. lookup q s)
                  (λ mode. mode)
                  (lookup (join_path (codes "/etc/nut") f.0) left_over)
                  mode,
            )))
      two_files
    × ((q : Text)
        → has q (paths_in (codes "/etc/nut") two_files) ≡ false
        → lookup q out ≡ lookup q left_over)
unfolding join_path ◌==◌ has write_files
write_files_lem_example =
    write_files_lem disk (λ s q. lookup q s) (λ mode. mode) keeps_files (codes "/etc/nut") two_files
      left_over refl (refl, (refl, tt))

-- A document that is the configuration of the tests.
abbrev yaml : Source (Unit {0}) (Unit {0})
yaml = record {
  read_file = λ path. inr path;
  decode_string = λ node. inr (codes "5s");
  parse_duration = λ s. inr (pos 5000000000);
  unmarshal = λ callback raw. inr settings;
}

abbrev no_disk : FileSystem (Unit {0}) (Unit {0})
no_disk = record {
  mkdir_all = λ dir mode s. (some tt, s);
  write_file = λ path content mode s. (some tt, s);
}

gives_maps : GivesMaps tokenless open_ssh yaml no_disk careful (codes "v1")
unfolding lookup
gives_maps raw c e = subst (λ (d : Config). UniqueKeys d.loads) (parsed_inj settings c e) (refl, tt)
  where
    parsed_inj : (a b : Config) → ◌≡◌ {A = Unit {0} ⊎ Config} (inr a) (inr b) → a ≡ b
    parsed_inj a b e = ap (λ x. elim x [ inl y ↦ a | inr y ↦ y ]) e

abbrev flags : Flags
flags = record { config = codes "config.yaml"; render_nut = [] }

begin-ExplainsEnd_example :
    ExplainsEnd tokenless open_ssh yaml no_disk careful
      (codes "v1")
      flags
      tt
      (start_failed token_empty)
unfolding begin lookup ◌==◌ nut_dog.Metrics.Collectors.new has
begin-ExplainsEnd_example =
    begin-ExplainsEnd tokenless open_ssh yaml no_disk careful (codes "v1") registers
      ((refl, (refl, tt)), (refl, tt), (refl, (refl, tt)), (refl, tt)) gives_maps flags tt
      (start_failed token_empty) refl

abbrev one_server : Wiring (Unit {0})
one_server = record { probes = []; targets = []; shed_ups = (p1, codes "shed-p1") ∷ [] }

abbrev controller : Controller
controller = App.new (control_ups accepted.upses) (control_loads accepted.loads)

abbrev decode : Text → Option Text
decode body = some body

abbrev pub put_off : Call
put_off = record {
  method = codes "PUT";
  path = power_path p1;
  authorization = codes "bearer secret";
  body = codes "off";
}

select-loop_example :
    let p = ports_of silent accepted none one_server in
    select decode p accepted
      (map next (ticked ∷ http_asked (pos 1) put_off ∷ []) ++ told_to_stop ∷ next ticked ∷ [])
      (controller, idle)
    ≡ (
      loop decode p (ticked ∷ http_asked (pos 1) put_off ∷ []) (controller, idle),
      codes ":9334" ∷ codes ":8080" ∷ [],
    )
unfolding nut_dog.Config.with_defaults
select-loop_example =
    select-loop decode (ports_of silent accepted none one_server) accepted
      (ticked ∷ http_asked (pos 1) put_off ∷ []) (next ticked ∷ []) (controller, idle)
