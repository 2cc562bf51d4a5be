-- ===== src/Nutconf/Secrets.antt =====
-- When rendering succeeds: the secrets that the files take from the environment.
use nut_dog.Prelude.{
  ◌≡◌, ◌≢◌, refl, ◌↔◌, ◌⊎◌, inl, inr, Bool, true, false, Option, none, some, List, [], ◌∷◌, arith,
  All, Text, Dict, lookup, lookup_or,
}
use nut_dog.GoNet.{holds, split_host_port}
use nut_dog.Config.{Config, LoadSpec, UpsSpec, SecondarySpec, DriverSpec}
use nut_dog.Config.Accepted.{There, IfThere}
use nut_dog.Nutconf.{
  joined, with_secret, rendered, resolve_secret, render_secrets, render_driver, render_drivers,
  render_ups_conf, render_upsd_conf, render_admin, render_secondary, render_secondaries,
  render_upsd_users, render, sorted_keys, nut_servers, secondary_of, driver_of, SecretError,
  RenderError, setting, driver_block, admin_account, admin_secret,
}

abbrev pub succeeds {ℓ κ} : {E : Type ℓ} {A : Type κ} → E ⊎ A → Bool
succeeds (inl e) = false
succeeds (inr a) = true

-- A value that can stand in a file: there, and on one line.
abbrev pub IsSafe : Text → Type 0
IsSafe v = (v ≢ []) × All (λ c. (c ≢ 13) × (c ≢ 10)) v

holds_none :
    (v : Text) → ((holds 13 v ≡ false) × (holds 10 v ≡ false)) ↔ All (λ c. (c ≢ 13) × (c ≢ 10)) v
unfolding holds
holds_none [] = (λ h. tt, λ h. (refl, refl))
holds_none (c ∷ v) = (λ h. ground (arith, holds_none v), λ h. ground (arith, holds_none v))

joined_iff :
    {E P Q : Type 0} (a b : E ⊎ Text)
    → (succeeds a ≡ true) ↔ P
    → (succeeds b ≡ true) ↔ Q
    → (succeeds (joined a b) ≡ true) ↔ (P × Q)
joined_iff (inl e) b h k = (λ e. absurd (ground arith), λ p. h.1 p.0)
joined_iff (inr t) (inl e) h k = (λ e. absurd (ground arith), λ p. k.1 p.1)
joined_iff (inr t) (inr u) h k = (λ e. (h.0 refl, k.0 refl), λ p. refl)

secret_iff :
    {E P : Type 0} (r : SecretError ⊎ Text) (wrap : SecretError → E) (write : Text → Text)
    → (succeeds r ≡ true) ↔ P
    → (succeeds (with_secret r wrap write) ≡ true) ↔ P
secret_iff (inl e) wrap write h = h
secret_iff (inr v) wrap write h = h

written_first :
    {E P : Type 0} (t : Text) (b : E ⊎ Text)
    → (succeeds b ≡ true) ↔ P
    → (succeeds (joined (inr t) b) ≡ true) ↔ P
written_first t (inl e) h = h
written_first t (inr u) h = h

written_last :
    {E P : Type 0} (a : E ⊎ Text) (t : Text)
    → (succeeds a ≡ true) ↔ P
    → (succeeds (joined a (inr t)) ≡ true) ↔ P
written_last (inl e) t h = h
written_last (inr u) t h = h

rendered_iff :
    {P Q R : Type 0} (a b c : RenderError ⊎ Text) (write : Text → Text → Text → Dict Text)
    → (succeeds a ≡ true) ↔ P
    → (succeeds b ≡ true) ↔ Q
    → (succeeds c ≡ true) ↔ R
    → (succeeds (rendered a b c write) ≡ true) ↔ (P × Q × R)
rendered_iff (inl e) b c write h k l = (λ e. absurd (ground arith), λ p. h.1 p.0)
rendered_iff (inr t) (inl e) c write h k l = (λ e. absurd (ground arith), λ p. k.1 p.1)
rendered_iff (inr t) (inr u) (inl e) write h k l = (λ e. absurd (ground arith), λ p. l.1 p.2)
rendered_iff (inr t) (inr u) (inr v) write h k l = (λ e. (h.0 refl, k.0 refl, l.0 refl), λ p. refl)

module _ (getenv : Text → Text) where
  resolve_iff : (env : Text) → (succeeds (resolve_secret getenv env) ≡ true) ↔ IsSafe (getenv env)
  unfolding resolve_secret
  resolve_iff env =
      (λ h. ground (arith, holds_none (getenv env)), λ h. ground (arith, holds_none (getenv env)))

  -- A secret is the value of its variable in the environment, if it is safe, and no other text.
  pub resolve_secret_exact :
      (env v : Text) → (resolve_secret getenv env ≡ inr v) ↔ ((v ≡ getenv env) × IsSafe v)
  unfolding resolve_secret
  resolve_secret_exact env v =
      (λ h. ground (arith, holds_none (getenv env)), λ h. ground (arith, holds_none (getenv env)))

  abbrev pub HasSecrets : Option (Text × DriverSpec) → Type 0
  HasSecrets = IfThere (λ d.
      All (λ k. IsSafe (getenv (lookup_or [] k d.1.secret_options)))
        (sorted_keys d.1.secret_options))

  abbrev pub HasPassword : Option SecondarySpec → Type 0
  HasPassword = There (λ s. IsSafe (getenv s.password_env))

  secrets_iff :
      (name : Text) (options : Dict Text) (ks : List Text)
      → (succeeds (render_secrets getenv name options ks) ≡ true)
        ↔ All (λ k. IsSafe (getenv (lookup_or [] k options))) ks
  unfolding render_secrets
  secrets_iff name options [] = (λ h. tt, λ h. refl)
  secrets_iff name options (k ∷ ks) =
      joined_iff _ _ (secret_iff _ _ (setting k) (resolve_iff (lookup_or [] k options)))
        (secrets_iff name options ks)

  driver_iff :
      (name : Text) (o : Option (Text × DriverSpec))
      → (succeeds (render_driver getenv name o) ≡ true) ↔ HasSecrets o
  unfolding render_driver
  driver_iff name none = (λ h. tt, λ h. refl)
  driver_iff name (some (ups_name, d)) =
      written_first (driver_block ups_name d) _ (
        written_last _ (10 ∷ []) (secrets_iff name d.secret_options (sorted_keys d.secret_options)))

  drivers_iff :
      (upses : Dict UpsSpec) (names : List Text)
      → (succeeds (render_drivers getenv upses names) ≡ true)
        ↔ All (λ name. HasSecrets (driver_of (lookup name upses))) names
  unfolding render_drivers
  drivers_iff upses [] = (λ h. tt, λ h. refl)
  drivers_iff upses (name ∷ names) =
      joined_iff _ _ (driver_iff name (driver_of (lookup name upses))) (drivers_iff upses names)

  secondary_iff :
      (name : Text) (o : Option SecondarySpec)
      → (succeeds (render_secondary getenv name o) ≡ true) ↔ HasPassword o
  unfolding render_secondary
  secondary_iff name none = (λ h. absurd (ground arith), λ h. absurd h)
  secondary_iff name (some s) = secret_iff _ _ _ (resolve_iff s.password_env)

  secondaries_iff :
      (loads : Dict LoadSpec) (names : List Text)
      → (succeeds (render_secondaries getenv loads names) ≡ true)
        ↔ All (λ name. HasPassword (secondary_of (lookup name loads))) names
  unfolding render_secondaries
  secondaries_iff loads [] = (λ h. tt, λ h. refl)
  secondaries_iff loads (name ∷ names) =
      joined_iff _ _ (secondary_iff name (secondary_of (lookup name loads)))
        (secondaries_iff loads names)

  abbrev pub HasAdminPassword : Config → Type 0
  HasAdminPassword c =
      (c.local_upsd.admin_user ≡ []) ⊎ IsSafe (getenv c.local_upsd.admin_password_env)

  admin_iff : (c : Config) → (succeeds (render_admin getenv c) ≡ true) ↔ HasAdminPassword c
  unfolding render_admin
  admin_iff c =
      let pw = c.local_upsd.admin_password_env in
      let write = admin_account c.local_upsd.admin_user in
      let with_it =
        secret_iff {E = RenderError} (resolve_secret getenv pw) admin_secret write
          (resolve_iff pw) in
      (λ h. ground (arith, with_it.0), λ h. ground (arith, with_it.1))

  listen_iff :
      (c : Config)
      → (succeeds (render_upsd_conf c) ≡ true) ↔ (split_host_port c.local_upsd.listen ≢ none)
  unfolding render_upsd_conf
  listen_iff c = ground arith

  -- `Render` succeeds exactly if the address to listen at splits into host and port, and every secret that
  -- a file takes is there and on one line: the secret options of each driver, the password of the
  -- administrator where there is one, and that of the secondary that each NUT server has.
  pub render_exact :
      (c : Config)
      → (succeeds (render getenv c) ≡ true) ↔ (
          All (λ name. HasSecrets (driver_of (lookup name c.upses))) (sorted_keys c.upses)
          × (split_host_port c.local_upsd.listen ≢ none)
          × (HasAdminPassword c
              × All
                  (λ name. HasPassword (secondary_of (lookup name c.loads)))
                  (nut_servers c.loads)))
  unfolding render render_ups_conf render_upsd_conf render_upsd_users
  render_exact c =
      rendered_iff (render_ups_conf getenv c) (render_upsd_conf c) (render_upsd_users getenv c) _
        (written_last (render_drivers getenv c.upses (sorted_keys c.upses)) _
          (drivers_iff c.upses (sorted_keys c.upses)))
        (listen_iff c)
        (joined_iff (render_admin getenv c) _ (admin_iff c)
          (secondaries_iff c.loads (nut_servers c.loads)))
