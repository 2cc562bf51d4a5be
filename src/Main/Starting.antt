-- ===== src/Main/Starting.antt =====
-- Why a start with an accepted configuration fails.
use nut_dog.Prelude.{
  ◌≡◌, ◌≢◌, refl, subst, ◌⊎◌, inl, inr, Bool, true, false, Bool-cases, Option, none, some, List, [],
  ◌∷◌, arith, Text, codes, UniqueKeys, pos, ◌≤ℤ◌,
}
use nut_dog.Clock.{Duration}
use nut_dog.App.{Controller, start_clock}
use nut_dog.App
use nut_dog.Effects.Chassis.{Runner}
use nut_dog.Effects.Ssh.{Ssh, SshRunner, new_ssh_runner}
use nut_dog.Effects.Ssh
use nut_dog.Powerapi.{Server}
use nut_dog.Config.{Config, PowerApiSpec, load, control_ups, control_loads}
use nut_dog.Config.Accepted.{There, IfThere, IsValidPowerApi, validate_exact}
use nut_dog.Config.Derived.{load_inv}
use nut_dog.Main.{
  Outside, Machine, Wiring, wire_loads, has_chassis, cmc_user, cmc_host_key, unescape_newlines,
  new_poller,
}
use nut_dog.Main.Preflight.{preflight}
use nut_dog.Main.Start.{
  Exit, ssh_failed, token_empty, nil_part, Setup, setup_failed, chassis_off, chassis_on,
  made_runner, controller_of, api_of, api_with, with_grace, begun, start_loop, wired_start,
  setup_chassis, set_up, start,
}
use nut_dog.Main.Wired.{wire_loads_accepted}

module _ {S E F K P : Type 0} (o : Outside S E F) (ssh : Ssh E K P S) (c : Config) where
  -- What has gone wrong at an exit.
  abbrev pub Explains : Exit → Type 0
  Explains ssh_failed =
      (has_chassis c.loads ≡ true)
      × (c.dry_run ≡ false)
      × ((e : E) × (new_ssh_runner ssh (cmc_user c)
              (unescape_newlines (o.getenv (codes "CMC_SSH_KEY"))) (cmc_host_key c)
            ≡ inl e))
  Explains token_empty = There (λ p. o.getenv p.token_env ≡ []) c.power_api
  Explains nil_part = ⊥

  -- Each exit is explained.
  abbrev IsExplained : {A : Type 0} → Exit ⊎ A → Type 0
  IsExplained (inl e) = Explains e
  IsExplained (inr a) = Unit

  api_with-IsExplained :
      (token : Text) (loads : List Text) (ttl : Option Duration)
      → There (λ d. pos 0 ≤ℤ d) ttl
      → (token ≡ [] → Explains token_empty)
      → IsExplained (api_with o token loads ttl)
  api_with-IsExplained [] loads ttl h e = e refl
  api_with-IsExplained (b ∷ token) loads none h e = h
  api_with-IsExplained (b ∷ token) loads (some ttl) h e = tt

  api-IsExplained :
      (x : Option PowerApiSpec)
      → c.power_api ≡ x
      → IfThere (IsValidPowerApi c.loads) x
      → IsExplained (api_of o x)
  unfolding api_of
  api-IsExplained none same h = tt
  api-IsExplained (some p) same h =
      api_with-IsExplained (o.getenv p.token_env) p.loads p.request_ttl h.2 (λ e. rw same e)

  begun-IsExplained :
      (runner : Option (Runner E S)) (wired : Wiring S) (ctrl : Controller) (m : Machine S F)
      (x : Exit ⊎ Option Server)
      → IsExplained x
      → IsExplained (begun o c runner wired ctrl m x)
  unfolding start_clock
  begun-IsExplained runner wired ctrl m (inl e) h = h
  begun-IsExplained runner wired ctrl m (inr api) h = tt

  wired_start-IsExplained :
      (runner : Option (Runner E S)) (x : Option (Wiring S)) (y : Option Controller)
      (m : Machine S F)
      → x ≢ none
      → y ≢ none
      → IsExplained (api_of o c.power_api)
      → IsExplained (wired_start o c runner x y m)
  unfolding start_loop
  wired_start-IsExplained runner none y m h i k = absurd (h refl)
  wired_start-IsExplained runner (some wired) none m h i k = absurd (i refl)
  wired_start-IsExplained runner (some wired) (some ctrl) m h i k =
      begun-IsExplained runner wired ctrl
        (preflight o c (new_poller o.getenv c.upses) runner wired m).1 (api_of o c.power_api) k

  controller-There : There (λ d. pos 0 ≤ℤ d) c.startup_grace → controller_of o c ≢ none
  unfolding controller_of
  controller-There h = grace_there c.startup_grace h
    where
      grace_there :
          (x : Option Duration)
          → There (λ d. pos 0 ≤ℤ d) x
          → with_grace o (App.new (control_ups c.upses) (control_loads c.loads)) x ≢ none
      grace_there none h k = h
      grace_there (some d) h k = ground arith

  made_runner_failed :
      (dry : Bool) (x : E ⊎ SshRunner K P)
      → made_runner dry x ≡ setup_failed
      → (dry ≡ false) × ((e : E) × (x ≡ inl e))
  made_runner_failed dry (inl e) h = (ground arith, (e, refl))
  made_runner_failed dry (inr r) h = absurd (ground arith)

  setup_equation :
      has_chassis c.loads ≡ true
      → setup_chassis o ssh c ≡ setup_failed
      → made_runner c.dry_run (
          new_ssh_runner ssh
            (cmc_user c)
            (unescape_newlines (o.getenv (codes "CMC_SSH_KEY")))
            (cmc_host_key c))
        ≡ setup_failed
  unfolding setup_chassis
  setup_equation t h = ground arith

  setup-Explains : setup_chassis o ssh c ≡ setup_failed → Explains ssh_failed
  unfolding setup_chassis
  setup-Explains h = elim (Bool-cases (has_chassis c.loads)) [
    | inl t ↦
        let failed = made_runner_failed c.dry_run _ (setup_equation t h) in (t, failed.0, failed.1)
    | inr f ↦ absurd (ground arith)
  ]

  wired_up :
      (c₀ : Config) (runner : Option (Runner E S)) (m : Machine S F)
      → load c₀ ≡ inr c
      → UniqueKeys c.loads
      → IsExplained (wired_start o c runner (wire_loads o runner c.loads) (controller_of o c) m)
  wired_up c₀ runner m accepted unique =
      let valid = (validate_exact c).0 (load_inv c₀ c accepted).1 in
      let (wired, wires, has) = wire_loads_accepted o runner c₀ c accepted unique in
      wired_start-IsExplained runner _ _ m (λ k. ground (arith, wires)) (controller-There valid.2)
        (api-IsExplained c.power_api refl valid.3)

  set_up-IsExplained :
      (c₀ : Config) (x : Setup K P) (m : Machine S F)
      → load c₀ ≡ inr c
      → UniqueKeys c.loads
      → (x ≡ setup_failed → Explains ssh_failed)
      → IsExplained (set_up o ssh c x m)
  set_up-IsExplained c₀ setup_failed m accepted unique h = h refl
  set_up-IsExplained c₀ chassis_off m accepted unique h = wired_up c₀ none m accepted unique
  set_up-IsExplained c₀ (chassis_on r) m accepted unique h =
      wired_up c₀ (some (Ssh.run ssh r)) m accepted unique

  -- With an accepted configuration the start ends before the loop only if a chassis is configured outside of a dry
  -- run and no runner can be made of the keys, or if the power API is configured and its token is not in the
  -- environment; a part that is nil is never read.
  pub start-Explains :
      (c₀ : Config) (m : Machine S F) (e : Exit)
      → load c₀ ≡ inr c
      → UniqueKeys c.loads
      → start o ssh c m ≡ inl e
      → Explains e
  unfolding start
  start-Explains c₀ m e accepted unique eq =
      subst IsExplained eq
        (set_up-IsExplained c₀ (setup_chassis o ssh c) _ accepted unique setup-Explains)
