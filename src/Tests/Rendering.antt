-- ===== src/Tests/Rendering.antt =====
-- The files of the NUT server for one driver and one NUT server, packets and SSH runners.
use nut_dog.Prelude.{
  ℕ, ◌≡◌, ◌≢◌, refl, ◌↔◌, ◌⊎◌, inl, inr, Bool, true, false, Option, none, some, List, [], ◌∷◌, ◌++◌,
  length, replicate, arith, All, In, Text, codes, ◌==◌, Dict, lookup, if◌then◌else◌,
}
use nut_dog.GoStrings.{split}
use nut_dog.GoStrings.Lines.{IsLine}
use nut_dog.GoNet.{split_host_port}
use nut_dog.Config.Accepted.{IfThere}
use nut_dog.Nutconf.{
  render_ups_conf, render_upsd_conf, render_upsd_users, render, sorted_keys, nut_servers,
  secondary_of, driver_of,
}
use nut_dog.Nutconf.Secrets.{succeeds, HasSecrets, HasAdminPassword, HasPassword, render_exact}
use nut_dog.Nutconf.Users.{admin_lines, all_secondary_lines, upsd_users_lines}
use nut_dog.Nutconf.Sections.{signal_lines, render_files}
use nut_dog.Nutconf.Servers.{AreServers}
use nut_dog.Config.{LoadSpec}
use nut_dog.Config.Accepted.{There}
use nut_dog.Effects.Wol.{magic_packet}
use nut_dog.Effects.Wol.Packet.{print_mac, IsBytes, repeated, magic_packet-print_mac}
use nut_dog.Effects.Ssh.{Ssh, SshRunner}
use nut_dog.Tests.Settings.{settings}

-- The same password for everybody, and one that would add an account.
abbrev pub getenv : Text → Text
getenv env = codes "pw"

abbrev injecting : Text → Text
injecting env = codes "pw\n[root]"

abbrev users : Text
users =
    codes
      "[admin]\n    password = pw\n    actions = SET\n    instcmds = all\n\n[p1]\n    password = pw\n    upsmon secondary\n\n"

renders :
    (render_upsd_users getenv settings ≡ inr users)
    × (render_ups_conf getenv settings
        ≡ inr (codes "[shed-p1]\n    driver = dummy-ups\n    port = shed-p1.dev\n\n"))
    × (render_upsd_conf settings ≡ inr (codes "LISTEN  3493\n"))
    × (succeeds (render getenv settings) ≡ true)
    × (succeeds (render injecting settings) ≡ false)
unfolding render_upsd_users render_ups_conf render_upsd_conf render lookup ◌==◌
    nut_dog.Prelude.sort_strings nut_dog.Prelude.keys
renders = (refl, refl, refl, refl, refl)

render_exact_example : (succeeds (render getenv settings) ≡ true) ↔ (
    All
      (λ name. HasSecrets getenv (driver_of (lookup name settings.upses)))
      (sorted_keys settings.upses)
    × (split_host_port settings.local_upsd.listen ≢ none)
    × (HasAdminPassword getenv settings
        × All
            (λ name. HasPassword getenv (secondary_of (lookup name settings.loads)))
            (nut_servers settings.loads)))
render_exact_example = render_exact getenv settings

secondary-IsLine :
    (name : Text) → IfThere (λ s. IsLine s.user) (secondary_of (lookup name settings.loads))
unfolding lookup
secondary-IsLine name = ground arith

upsd_users_lines_example :
    (names : List Text) × AreServers settings.loads names
    × (split 10 users
        ≡ (admin_lines getenv settings ++ all_secondary_lines getenv settings.loads names)
          ++ [] ∷ [])
unfolding render_upsd_users lookup ◌==◌ nut_dog.Prelude.sort_strings
upsd_users_lines_example =
    upsd_users_lines getenv settings users (refl, tt) (ground arith) secondary-IsLine refl

abbrev files_of : {E : Type 0} → E ⊎ Dict Text → Dict Text
files_of (inl e) = []
files_of (inr files) = files

abbrev files : Dict Text
files = files_of (render getenv settings)

render_files_example :
    (t : Text) × (u : Text) × (v : Text) × (render_ups_conf getenv settings ≡ inr t)
    × (render_upsd_conf settings ≡ inr u)
    × (render_upsd_users getenv settings ≡ inr v)
    × (lookup (codes "ups.conf") files ≡ some t)
    × (lookup (codes "upsd.conf") files ≡ some u)
    × (lookup (codes "upsd.users") files ≡ some v)
    × ((name : Text) (l : LoadSpec)
        → lookup name settings.loads ≡ some l
        → l.type ≡ codes "nut-server"
        → There
            (λ content. split 10 content ≡ signal_lines)
            (lookup ((codes "shed-" ++ name) ++ codes ".dev") files))
unfolding render lookup ◌==◌ nut_dog.Prelude.sort_strings nut_dog.Prelude.keys
render_files_example = render_files getenv settings files (refl, tt) refl

abbrev mac : List ℕ
mac = 0 ∷ 17 ∷ 34 ∷ 171 ∷ 205 ∷ 255 ∷ []

magic_packet-print_mac_example :
    let pkt = replicate 6 255 ++ repeated 16 mac in
    (magic_packet {E = Unit {0}} (print_mac mac) ≡ inr pkt) × (length pkt ≡ 102) × IsBytes pkt
magic_packet-print_mac_example = magic_packet-print_mac mac refl (ground arith)

-- Keys that are their texts, and hosts that run every command.
abbrev pub open_ssh : {S : Type 0} → Ssh (Unit {0}) Text Text S
open_ssh = record {
  parse_private_key = λ key. inr key;
  parse_authorized_key = λ key. inr key;
  dial = λ addr user signer key s. (none, s);
  new_session = λ s. (none, s);
  output = λ cmd s. ((cmd, none), s);
  close_session = λ s. s;
  close_client = λ s. s;
}

abbrev runner : SshRunner Text Text
runner = record { user = codes "service"; signer = codes "k"; host_key = some (codes "hk") }
