-- ===== src/Nutconf/Panics.antt =====
-- That rendering an accepted configuration reads no secondary that is nil.
use nut_dog.Prelude.{
  ◌≡◌, ◌≢◌, refl, subst, ◌∙◌, ◌⊎◌, inl, inr, Bool, true, false, Option, none, some, List, [], ◌∷◌,
  arith, All, In, Text, ◌==◌, Dict, lookup, UniqueKeys, lookup-All, if◌then◌else◌,
}
use nut_dog.GoNet.{split_host_port}
use nut_dog.Config.{Config, LoadSpec, UpsSpec, SecondarySpec, DriverSpec, empty}
use nut_dog.Config.Accepted.{IsValidLoad, There}
use nut_dog.Nutconf.{
  SecretError, RenderError, ups_option, listen_invalid, admin_secret, secondary_secret,
  nil_secondary, joined, with_secret, rendered, render, render_ups_conf, render_upsd_conf,
  render_upsd_users, render_admin, render_drivers, render_driver, render_secrets, render_secondary,
  render_secondaries, secondary_of, driver_of, nut_servers, sorted_keys, render_sheds, driver_block,
}
use nut_dog.Nutconf.Servers.{once_if_server, nut_servers-AreServers, count-In}

-- The error is no panic.
abbrev pub IsReported : RenderError → Type 0
IsReported (ups_option name k e) = Unit
IsReported (listen_invalid l) = Unit
IsReported (admin_secret e) = Unit
IsReported (secondary_secret name e) = Unit
IsReported (nil_secondary name) = ⊥

-- A result, or an error that is no panic.
abbrev Returns : {A : Type 0} → RenderError ⊎ A → Type 0
Returns (inl e) = IsReported e
Returns (inr a) = Unit

joined-Returns : (a b : RenderError ⊎ Text) → Returns a → Returns b → Returns (joined a b)
joined-Returns (inl e) b h k = h
joined-Returns (inr t) (inl e) h k = k
joined-Returns (inr t) (inr u) h k = tt

secret-Returns :
    (r : SecretError ⊎ Text) (wrap : SecretError → RenderError) (write : Text → Text)
    → ((e : SecretError) → IsReported (wrap e))
    → Returns (with_secret r wrap write)
secret-Returns (inl e) wrap write h = h e
secret-Returns (inr v) wrap write h = tt

if-Returns : (b : Bool) (r : RenderError ⊎ Text) → Returns r → Returns (if b then inr [] else r)
if-Returns true r h = tt
if-Returns false r h = h

listen-Returns :
    (c : Config) (o : Option (Text × Text))
    → split_host_port c.local_upsd.listen ≡ o
    → Returns (render_upsd_conf c)
unfolding render_upsd_conf
listen-Returns c none e = rw (render_upsd_conf, e) tt
listen-Returns c (some (host, port)) e = rw (render_upsd_conf, e) tt

module _ (getenv : Text → Text) where
  secrets-Returns :
      (name : Text) (options : Dict Text) (ks : List Text)
      → Returns (render_secrets getenv name options ks)
  unfolding render_secrets
  secrets-Returns name options [] = tt
  secrets-Returns name options (k ∷ ks) =
      joined-Returns _ _ (secret-Returns _ (ups_option name k) _ (λ e. tt))
        (secrets-Returns name options ks)

  driver-Returns :
      (name : Text) (d : Option (Text × DriverSpec)) → Returns (render_driver getenv name d)
  unfolding render_driver
  driver-Returns name none = tt
  driver-Returns name (some (ups_name, d)) =
      joined-Returns (inr (driver_block ups_name d))
        (joined (render_secrets getenv name d.secret_options (sorted_keys d.secret_options))
          (inr (10 ∷ [])))
        tt
        (joined-Returns (render_secrets getenv name d.secret_options (sorted_keys d.secret_options))
          (inr (10 ∷ [])) (secrets-Returns name d.secret_options (sorted_keys d.secret_options)) tt)

  drivers-Returns :
      (upses : Dict UpsSpec) (names : List Text) → Returns (render_drivers getenv upses names)
  unfolding render_drivers
  drivers-Returns upses [] = tt
  drivers-Returns upses (name ∷ names) =
      joined-Returns _ _ (driver-Returns name (driver_of (lookup name upses)))
        (drivers-Returns upses names)

  secondary-Returns :
      (name : Text) (s : Option SecondarySpec) → s ≢ none → Returns (render_secondary getenv name s)
  unfolding render_secondary
  secondary-Returns name none h = absurd (h refl)
  secondary-Returns name (some s) h = secret-Returns _ (secondary_secret name) _ (λ e. tt)

  secondaries-Returns :
      (loads : Dict LoadSpec) (names : List Text)
      → ((name : Text) → In name names → secondary_of (lookup name loads) ≢ none)
      → Returns (render_secondaries getenv loads names)
  unfolding render_secondaries
  secondaries-Returns loads [] h = tt
  secondaries-Returns loads (name ∷ names) h =
      joined-Returns _ _ (secondary-Returns name _ (h name (inl refl)))
        (secondaries-Returns loads names (λ n m. h n (inr m)))

  rendered-Returns :
      (a b c : RenderError ⊎ Text) (write : Text → Text → Text → Dict Text)
      → Returns a
      → Returns b
      → Returns c
      → Returns (rendered a b c write)
  rendered-Returns (inl e) b c write h i j = h
  rendered-Returns (inr t) (inl e) c write h i j = i
  rendered-Returns (inr t) (inr u) (inl e) write h i j = j
  rendered-Returns (inr t) (inr u) (inr v) write h i j = tt

  not_none : (P : SecondarySpec → Type 0) (s : Option SecondarySpec) → There P s → s ≢ none
  not_none P none h = absurd h
  not_none P (some s) h = λ e. ground arith

  server_there :
      (upses : Dict UpsSpec) (o : Option LoadSpec)
      → ((l : LoadSpec) → o ≡ some l → IsValidLoad upses l)
      → once_if_server o ≢ 0
      → secondary_of o ≢ none
  unfolding ◌==◌
  server_there upses none h k = absurd (k refl)
  server_there upses (some l) h k = of_valid (h l refl)
    where
      of_valid : IsValidLoad upses l → l.secondary ≢ none
      of_valid (inl (t, cmc), more, us) = absurd (k (rw t refl))
      of_valid (inr (t, (wake, probe, secondary)), more, us) = not_none _ l.secondary secondary

  -- No accepted configuration makes `Render` panic.
  pub render-IsReported :
      (c : Config) (e : RenderError)
      → UniqueKeys c.loads
      → All (λ x. IsValidLoad c.upses x.1) c.loads
      → render getenv c ≡ inl e
      → IsReported e
  unfolding render render_ups_conf render_upsd_users render_admin
  render-IsReported c e unique valid failed = subst Returns failed (
      rendered-Returns _ _ _ _
        (joined-Returns (render_drivers getenv c.upses (sorted_keys c.upses))
          (inr (render_sheds (nut_servers c.loads))) (drivers-Returns c.upses (sorted_keys c.upses))
          tt)
        (listen-Returns c _ refl)
        (joined-Returns _ _
          (if-Returns (empty c.local_upsd.admin_user) _ (secret-Returns _ admin_secret _ (λ x. tt)))
          (secondaries-Returns c.loads (nut_servers c.loads) (λ name m.
            server_there c.upses (lookup name c.loads)
              (λ l found. lookup-All _ c.loads name l valid found)
              (λ never.
                count-In name (nut_servers c.loads) m
                  ((nut_servers-AreServers c.loads unique).1 name ∙ never))))))
