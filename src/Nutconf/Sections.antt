-- ===== src/Nutconf/Sections.antt =====
-- That every NUT server gets the dummy UPS of its shed signal.
use nut_dog.Prelude.{
  ◌≡◌, refl, ap, ◌∙◌, ◌⊎◌, inl, inr, Bool, true, false, Option, none, some, some_inj, UniqueKeys,
  List, [], ◌∷◌, ◌++◌, arith, In, Text, codes, ◌==◌, eq_iff, Dict, lookup, insert, lookup-insert,
  if◌then◌else◌,
}
use nut_dog.GoStrings.{split}
use nut_dog.Config.{Config, LoadSpec, shed_ups_name}
use nut_dog.Config.Accepted.{There}
use nut_dog.Nutconf.Servers.{In-nut_servers}
use nut_dog.Nutconf.{
  rendered, render, render_ups_conf, render_upsd_conf, render_upsd_users, nut_servers, RenderError,
  shed_dev, shed_files,
}

-- the file of the shed signal of a load
abbrev pub shed_file : Text → Text
shed_file name = shed_ups_name name ++ codes ".dev"

if_some :
    {A : Type 0} (b : Bool) (x : A) (o : Option A)
    → (b ≡ true) ⊎ (o ≡ some x)
    → (if b then some x else o) ≡ some x
if_some true x o h = refl
if_some false x o (inl h) = absurd (ground arith)
if_some false x o (inr h) = h

lookup-shed_files :
    (names : List Text) (files : Dict Text) (name : Text)
    → In name names ⊎ (lookup (shed_file name) files ≡ some shed_dev)
    → lookup (shed_file name) (shed_files names files) ≡ some shed_dev
unfolding shed_files
lookup-shed_files [] files name (inl h) = absurd h
lookup-shed_files [] files name (inr h) = h
lookup-shed_files (n ∷ names) files name h =
    lookup-shed_files names (insert (shed_file n) shed_dev files) name (again h)
  where
    again :
        In name (n ∷ names) ⊎ (lookup (shed_file name) files ≡ some shed_dev)
        → In name names
          ⊎ (lookup (shed_file name) (insert (shed_file n) shed_dev files) ≡ some shed_dev)
    again (inl (inr m)) = inl m
    again (inl (inl e)) = inr (
        lookup-insert (shed_file n) (shed_file name) shed_dev files
        ∙ if_some (shed_file n == shed_file name) shed_dev (lookup (shed_file name) files)
            (inl ((eq_iff (shed_file n) (shed_file name)).1 (ap shed_file e))))
    again (inr k) = inr (
        lookup-insert (shed_file n) (shed_file name) shed_dev files
        ∙ if_some (shed_file n == shed_file name) shed_dev (lookup (shed_file name) files) (inr k))

-- The names of the other files are none of a shed signal.
lookup_other :
    (names : List Text) (files : Dict Text) (at : Text)
    → ((name : Text) → (shed_file name == at) ≡ false)
    → lookup at (shed_files names files) ≡ lookup at files
unfolding shed_files
lookup_other [] files at h = refl
lookup_other (n ∷ names) files at h =
    lookup_other names (insert (shed_file n) shed_dev files) at h
    ∙ lookup-insert (shed_file n) at shed_dev files
    ∙ rw (h n) refl

rendered_inv :
    (a b c : RenderError ⊎ Text) (write : Text → Text → Text → Dict Text) (files : Dict Text)
    → rendered a b c write ≡ inr files
    → (t : Text) × (u : Text) × (v : Text) × (a ≡ inr t)
      × (b ≡ inr u)
      × (c ≡ inr v)
      × (files ≡ write t u v)
rendered_inv (inl e) b c write files h = absurd (ground arith)
rendered_inv (inr t) (inl e) c write files h = absurd (ground arith)
rendered_inv (inr t) (inr u) (inl e) write files h = absurd (ground arith)
rendered_inv (inr t) (inr u) (inr v) write files h = (t, u, v, refl, refl, refl, ground arith)

abbrev base_files : Text → Text → Text → Dict Text
base_files t u v =
    insert (codes "upsd.users") v (insert (codes "upsd.conf") u (insert (codes "ups.conf") t []))

-- A file other than the shed signals' and nut.conf.
lookup_base :
    (names : List Text) (t u v at : Text)
    → (codes "nut.conf" == at) ≡ false
    → ((name : Text) → (shed_file name == at) ≡ false)
    → lookup at
        (insert (codes "nut.conf") (codes "MODE=netserver\n") (shed_files names (base_files t u v)))
      ≡ lookup at (base_files t u v)
lookup_base names t u v at h k =
    let e = lookup_other names (base_files t u v) at k in
    lookup-insert (codes "nut.conf") at (codes "MODE=netserver\n")
      (shed_files names (base_files t u v))
    ∙ rw h e

-- The lines of the file of a shed signal that is not asserted.
abbrev pub signal_lines : List Text
signal_lines =
    codes "ups.status: OL"
    ∷ codes "ups.mfr: nut-dog"
    ∷ codes "ups.model: shed-signal"
    ∷ codes "battery.charge: 100"
    ∷ codes "battery.runtime: 9999"
    ∷ []
    ∷ []

has_signal :
    (o : Option Text) → o ≡ some shed_dev → There (λ content. split 10 content ≡ signal_lines) o
unfolding split
has_signal none e = absurd (ground arith)
has_signal (some content) e = ap (split 10) (some_inj content shed_dev e)

-- A successful `Render` has what its three functions render in ups.conf, upsd.conf and upsd.users, and for each load of
-- type nut-server the file shed-<name>.dev with the lines of a UPS that is on line and fully charged.
pub render_files :
    (getenv : Text → Text) (c : Config) (files : Dict Text)
    → UniqueKeys c.loads
    → render getenv c ≡ inr files
    → (t : Text) × (u : Text) × (v : Text) × (render_ups_conf getenv c ≡ inr t)
      × (render_upsd_conf c ≡ inr u)
      × (render_upsd_users getenv c ≡ inr v)
      × (lookup (codes "ups.conf") files ≡ some t)
      × (lookup (codes "upsd.conf") files ≡ some u)
      × (lookup (codes "upsd.users") files ≡ some v)
      × ((name : Text) (l : LoadSpec)
          → lookup name c.loads ≡ some l
          → l.type ≡ codes "nut-server"
          → There
              (λ content. split 10 content ≡ signal_lines)
              (lookup ((codes "shed-" ++ name) ++ codes ".dev") files))
unfolding render shed_ups_name ◌==◌ lookup insert
render_files getenv c files unique e =
    let (t, u, v, et, eu, ev, same) =
      rendered_inv (render_ups_conf getenv c) (render_upsd_conf c) (render_upsd_users getenv c) _
        files e in
    let names = nut_servers c.loads in
    (
      t,
      u,
      v,
      et,
      eu,
      ev,
      rw same (lookup_base names t u v (codes "ups.conf") refl (λ name. refl)),
      rw same (lookup_base names t u v (codes "upsd.conf") refl (λ name. refl)),
      rw same (lookup_base names t u v (codes "upsd.users") refl (λ name. refl)),
      λ name l found server. has_signal (lookup (shed_file name) files) (
          rw same (
            lookup-insert (codes "nut.conf") (shed_file name) (codes "MODE=netserver\n")
              (shed_files names (base_files t u v))
            ∙ lookup-shed_files names (base_files t u v) name
                (inl (In-nut_servers c.loads name l unique found server)))),
    )
