-- ===== src/Nutconf/Users.antt =====
-- What stands in the rendered files, line by line: a secret adds no line.
use nut_dog.Prelude.{
  ◌≡◌, refl, subst, ◌⊎◌, inl, inr, Bool, true, false, Option, none, some, List, [], ◌∷◌, ◌++◌, map,
  arith, All-append, All-map_of, Text, codes, if◌then◌else◌, Dict, lookup, UniqueKeys,
}
use nut_dog.GoStrings.{split}
use nut_dog.GoStrings.Lines.{
  IsLine, Splits, Splits-line, Splits-around, Splits-append, Splits-nil, Splits-all,
}
use nut_dog.Config.{Config, LoadSpec, SecondarySpec, empty}
use nut_dog.Config.Accepted.{IfThere}
use nut_dog.Nutconf.{
  joined, with_secret, resolve_secret, render_admin, render_secondary, render_secondaries,
  render_upsd_users, nut_servers, secondary_of, SecretError, admin_secret, secondary_secret,
  admin_account, secondary_account,
}
use nut_dog.Nutconf.Servers.{AreServers, nut_servers-AreServers}
use nut_dog.Nutconf.Secrets.{resolve_secret_exact}

-- The indented lines of what an account may do, and an empty one.
abbrev pub grant_lines : List Text → List Text
grant_lines grants = map (λ g. codes "    " ++ g) grants ++ ([] ∷ [])

-- The lines of an account: its section, the password, and what it may do.
abbrev pub account_lines : Text → Text → List Text → List Text
account_lines user password grants =
    (codes "[" ++ (user ++ codes "]")) ∷ (codes "    password = " ++ password) ∷ grant_lines grants

abbrev pub admin_grants : List Text
admin_grants = codes "actions = SET" ∷ codes "instcmds = all" ∷ []

abbrev pub secondary_grants : List Text
secondary_grants = codes "upsmon secondary" ∷ []

account_Splits :
    (user password text : Text) (lines : List Text)
    → IsLine user
    → IsLine password
    → Splits text lines
    → Splits
        (codes "["
          ++ (user ++ (codes "]" ++ 10 ∷ (codes "    password = " ++ (password ++ 10 ∷ text)))))
        ((codes "[" ++ (user ++ codes "]")) ∷ (codes "    password = " ++ password) ∷ lines)
account_Splits user password text lines hu hp k =
    Splits-around (codes "[") user (codes "]") _ ((codes "    password = " ++ password) ∷ lines)
      (ground arith) hu (ground arith)
      (Splits-line (codes "    password = " ++ password) text lines
        (All-append _ (codes "    password = ") password (ground arith) hp) k)

admin_Splits :
    (user password : Text)
    → IsLine user
    → IsLine password
    → Splits (admin_account user password) (account_lines user password admin_grants)
unfolding split
admin_Splits user password hu hp =
    account_Splits user password (codes "    actions = SET\n    instcmds = all\n\n")
      (grant_lines admin_grants) hu hp (λ rest. refl)

secondary_Splits :
    (user password : Text)
    → IsLine user
    → IsLine password
    → Splits (secondary_account user password) (account_lines user password secondary_grants)
unfolding split
secondary_Splits user password hu hp =
    account_Splits user password (codes "    upsmon secondary\n\n") (grant_lines secondary_grants)
      hu hp (λ rest. refl)

-- Where what is written without an error has these lines.
abbrev Writes : {E : Type 0} → E ⊎ Text → List Text → Type 0
Writes (inl e) lines = Unit
Writes (inr t) lines = Splits t lines

joined-Writes :
    {E : Type 0} (a b : E ⊎ Text) (ls ms : List Text)
    → Writes a ls
    → Writes b ms
    → Writes (joined a b) (ls ++ ms)
joined-Writes (inl e) b ls ms h k = tt
joined-Writes (inr t) (inl e) ls ms h k = tt
joined-Writes (inr t) (inr u) ls ms h k = Splits-append t u ls ms h k

if-Writes :
    {E : Type 0} (b : Bool) (r : E ⊎ Text) (lines : List Text)
    → Writes r lines
    → Writes (if b then inr [] else r) (if b then [] else lines)
if-Writes true r lines h = Splits-nil
if-Writes false r lines h = h

module _ (getenv : Text → Text) where
  secret-Writes :
      {E : Type 0} (env : Text) (wrap : SecretError → E) (write : Text → Text)
      (lines : Text → List Text)
      → ((v : Text) → IsLine v → Splits (write v) (lines v))
      → (r : SecretError ⊎ Text) → resolve_secret getenv env ≡ r
      → Writes (with_secret r wrap write) (lines (getenv env))
  secret-Writes env wrap write lines h (inl e) same = tt
  secret-Writes env wrap write lines h (inr v) same =
      let (value, safe) = (resolve_secret_exact getenv env v).0 same in
      subst (λ x. Splits (write v) (lines x)) value (h v (All-map_of (λ c k. k.1) v safe.1))

  -- The lines of the accounts that the configuration has, with the passwords in the environment.
  abbrev pub admin_lines : Config → List Text
  admin_lines c =
      if empty c.local_upsd.admin_user
      then []
      else account_lines c.local_upsd.admin_user (getenv c.local_upsd.admin_password_env)
          admin_grants

  abbrev pub secondary_lines : Option SecondarySpec → List Text
  secondary_lines none = []
  secondary_lines (some s) = account_lines s.user (getenv s.password_env) secondary_grants

  abbrev pub all_secondary_lines : Dict LoadSpec → List Text → List Text
  all_secondary_lines loads [] = []
  all_secondary_lines loads (name ∷ names) =
      secondary_lines (secondary_of (lookup name loads)) ++ all_secondary_lines loads names

  admin-Writes :
      (c : Config) → IsLine c.local_upsd.admin_user → Writes (render_admin getenv c) (admin_lines c)
  unfolding render_admin
  admin-Writes c h =
      let user = c.local_upsd.admin_user in
      if-Writes (empty user) _ _ (
        secret-Writes c.local_upsd.admin_password_env admin_secret (admin_account user)
          (λ v. account_lines user v admin_grants) (λ v k. admin_Splits user v h k) _ refl)

  secondary-Writes :
      (name : Text) (o : Option SecondarySpec)
      → IfThere (λ s. IsLine s.user) o
      → Writes (render_secondary getenv name o) (secondary_lines o)
  unfolding render_secondary
  secondary-Writes name none h = tt
  secondary-Writes name (some s) h =
      secret-Writes s.password_env (secondary_secret name) (secondary_account s.user)
        (λ v. account_lines s.user v secondary_grants) (λ v k. secondary_Splits s.user v h k) _ refl

  secondaries-Writes :
      (loads : Dict LoadSpec) (names : List Text)
      → ((name : Text) → IfThere (λ s. IsLine s.user) (secondary_of (lookup name loads)))
      → Writes (render_secondaries getenv loads names) (all_secondary_lines loads names)
  unfolding render_secondaries
  secondaries-Writes loads [] h = Splits-nil
  secondaries-Writes loads (name ∷ names) h =
      joined-Writes _ _ _ _ (secondary-Writes name (secondary_of (lookup name loads)) (h name))
        (secondaries-Writes loads names h)

  Writes-all :
      {E : Type 0} (r : E ⊎ Text) (text : Text) (lines : List Text)
      → r ≡ inr text
      → Writes r lines
      → split 10 text ≡ lines ++ [] ∷ []
  Writes-all r text lines e h = Splits-all text lines (subst (λ x. Writes x lines) e h)

  -- Where no name of an account has an end of a line, the lines of a rendered upsd.users are those of the
  -- administrator, if there is one, and of the secondary of each NUT server, once each and in order of the servers'
  -- names, with the password in the environment, and no others: no password adds a line.
  pub upsd_users_lines :
      (c : Config) (text : Text)
      → UniqueKeys c.loads
      → IsLine c.local_upsd.admin_user
      → ((name : Text) → IfThere (λ s. IsLine s.user) (secondary_of (lookup name c.loads)))
      → render_upsd_users getenv c ≡ inr text
      → (names : List Text) × AreServers c.loads names
        × (split 10 text ≡ (admin_lines c ++ all_secondary_lines c.loads names) ++ [] ∷ [])
  unfolding render_upsd_users
  upsd_users_lines c text unique hu hs e = (
    nut_servers c.loads,
    nut_servers-AreServers c.loads unique,
    Writes-all _ text _ e (
        joined-Writes (render_admin getenv c) _ _ _ (admin-Writes c hu)
          (secondaries-Writes c.loads (nut_servers c.loads) hs)),
  )
