-- ===== src/Main/Preflight.antt =====
-- preflight of cmd/nut-dog/main.go: every endpoint is tried once, and the failures are counted.
use nut_dog.Prelude.{
  ℕ, ◌+◌, Bool, true, false, not, Option, none, some, List, [], ◌∷◌, Text, ◌==◌, Dict, lookup,
  if◌then◌else◌,
}
use nut_dog.Control.{ActualState, actual_unknown, actual_up, actual_down}
use nut_dog.Nut.Client.{Options, Result, ok, err, check_auth}
use nut_dog.Nutconf.{sorted_keys}
use nut_dog.Effects.{is_error}
use nut_dog.Effects.Chassis.{Runner, power_state}
use nut_dog.Effects.Wol.{wake}
use nut_dog.Config.{Config, LoadSpec, CmcSpec, WakeSpec, type_chassis, type_nut_server, empty}
use nut_dog.Main.{Outside, Machine, Wiring, UpsPoll, poll, probe, outside, local_upsd_addr}

-- the options of the local upsd
unfoldable pub local_opts : (Text → Text) → Config → Options
local_opts getenv c = record {
  tls = false;
  insecure_skip_verify = false;
  username = c.local_upsd.admin_user;
  password = getenv c.local_upsd.admin_password_env;
  login = false;
}

-- The parts of a load: they are there, since `wireLoads` has read them before.
abbrev pub host_of_cmc : Option CmcSpec → Text
host_of_cmc none = []
host_of_cmc (some cmc) = cmc.host

abbrev pub mac_of : Option WakeSpec → Text
mac_of none = []
mac_of (some w) = w.mac

abbrev pub broadcast_of : Option WakeSpec → Text
broadcast_of none = []
broadcast_of (some w) = w.broadcast

abbrev pub fails : {A : Type 0} → Result A → Bool
fails (ok a) = false
fails (err e) = true

-- `report`: a failure is counted.
abbrev pub report : Bool → ℕ → ℕ
report failed n = if failed then n + 1 else n

module _ {S E F : Type 0} (o : Outside S E F) where
  -- The loop over the UPSes.
  unfoldable pub try_upses : Dict UpsPoll → List Text → ℕ → Machine S F → ℕ × Machine S F
  unfolding poll
  try_upses specs [] n m = (n, m)
  try_upses specs (name ∷ names) n m =
      let (t, m') = poll o specs name m in try_upses specs names (report (not t.ok) n) m'

  -- The check of the administrator's account, where there is one.
  unfoldable pub try_auth : Config → ℕ → Machine S F → ℕ × Machine S F
  unfolding check_auth local_upsd_addr local_opts
  try_auth c n m =
      if empty c.local_upsd.admin_user
      then (n, m)
      else (let (r, net) = check_auth o.peer (local_upsd_addr c) (local_opts o.getenv c) m.net in
          (report (fails r) n, record m { net = net }))

  unfoldable pub try_chassis : Option (Runner E S) → LoadSpec → ℕ → Machine S F → ℕ × Machine S F
  unfolding power_state
  try_chassis none l n m = (n + 1, m)
  try_chassis (some runner) l n m =
      let (r, m') = outside o (power_state runner (host_of_cmc l.cmc)) m in
      (report (is_error r.1) n, m')

  -- The packet goes to a host that is up only.
  unfoldable pub try_wake : ActualState → LoadSpec → ℕ → Machine S F → ℕ × Machine S F
  unfolding wake
  try_wake actual_up l n m =
      let (e, m') = outside o (wake o.udp (mac_of l.wake) (broadcast_of l.wake)) m in
      (report (is_error e) n, m')
  try_wake actual_down l n m = (n, m)
  try_wake actual_unknown l n m = (n, m)

  abbrev pub is_unknown : ActualState → Bool
  is_unknown actual_unknown = true
  is_unknown actual_up = false
  is_unknown actual_down = false

  unfoldable pub try_server : Wiring S → Text → LoadSpec → ℕ → Machine S F → ℕ × Machine S F
  unfolding probe try_wake
  try_server wired name l n m =
      let (a, m') = probe o wired.probes name m in try_wake a l (report (is_unknown a) n) m'

  unfoldable pub try_load :
      Option (Runner E S) → Wiring S → Text → Option LoadSpec → ℕ → Machine S F → ℕ × Machine S F
  unfolding try_chassis try_server
  try_load runner wired name none n m = (n, m)
  try_load runner wired name (some l) n m =
      if l.type == type_chassis
      then try_chassis runner l n m
      else if l.type == type_nut_server
      then try_server wired name l n m
      else (n, m)

  -- The loop over the loads.
  unfoldable pub try_loads :
      Option (Runner E S) → Wiring S → Dict LoadSpec → List Text → ℕ → Machine S F → ℕ × Machine S F
  unfolding try_load
  try_loads runner wired loads [] n m = (n, m)
  try_loads runner wired loads (name ∷ names) n m =
      let (n', m') = try_load runner wired name (lookup name loads) n m in
      try_loads runner wired loads names n' m'

  -- preflight, with the number of failures that it logs
  unfoldable pub preflight :
      Config → Dict UpsPoll → Option (Runner E S) → Wiring S → Machine S F → ℕ × Machine S F
  unfolding try_upses try_auth try_loads sorted_keys
  preflight c specs runner wired m =
      let (n₁, m₁) = try_upses specs (sorted_keys c.upses) 0 m in
      let (n₂, m₂) = try_auth c n₁ m₁ in try_loads runner wired c.loads (sorted_keys c.loads) n₂ m₂
