-- ===== src/Nutconf/Servers.antt =====
-- nutServers of internal/nutconf/nutconf.go: the names of the NUT servers, each of them once and in order.
use nut_dog.Prelude.{
  ℕ, ◌≡◌, ◌≢◌, refl, ◌∙◌, inl, inr, Bool-cases, Option, none, some, List, [], ◌∷◌, arith, In, Text,
  codes, ◌==◌, eq_iff, Dict, lookup, UniqueKeys, count, count-sort_strings, IsSorted,
  sort_strings-IsSorted, if◌then◌else◌,
}
use nut_dog.Config.{LoadSpec}
use nut_dog.Nutconf.{server_names, nut_servers}

-- How often the name of this load is to be there.
abbrev pub once_if_server : Option LoadSpec → ℕ
once_if_server none = 0
once_if_server (some l) = if l.type == codes "nut-server" then 1 else 0

-- The names are in order, and each NUT server's is there once and no other.
abbrev pub AreServers : Dict LoadSpec → List Text → Type 0
AreServers loads names =
    IsSorted names × ((name : Text) → count name names ≡ once_if_server (lookup name loads))

count-server_names :
    (name : Text) (loads : Dict LoadSpec)
    → UniqueKeys loads
    → count name (server_names loads) ≡ once_if_server (lookup name loads)
unfolding server_names count lookup
count-server_names name [] h = refl
count-server_names name ((j, l) ∷ loads) h =
    ground (arith, eq_iff j name, count-server_names name loads h.1)

pub nut_servers-AreServers :
    (loads : Dict LoadSpec) → UniqueKeys loads → AreServers loads (nut_servers loads)
unfolding nut_servers
nut_servers-AreServers loads h = (
  sort_strings-IsSorted (server_names loads),
  λ name. count-sort_strings name (server_names loads) ∙ count-server_names name loads h,
)

In-count : (name : Text) (names : List Text) → count name names ≢ 0 → In name names
unfolding count
In-count name [] h = absurd (h refl)
In-count name (j ∷ names) h = elim (Bool-cases (j == name)) [
  | inl t ↦ inl (ground (arith, eq_iff j name))
  | inr f ↦ inr (In-count name names (λ e. h (ground arith)))
]

pub In-nut_servers :
    (loads : Dict LoadSpec) (name : Text) (l : LoadSpec)
    → UniqueKeys loads
    → lookup name loads ≡ some l
    → l.type ≡ codes "nut-server"
    → In name (nut_servers loads)
In-nut_servers loads name l h found server = In-count name (nut_servers loads) (λ e.
    ground (arith, (nut_servers-AreServers loads h).1 name, eq_iff l.type (codes "nut-server")))

pub count-In : (name : Text) (names : List Text) → In name names → count name names ≢ 0
unfolding count
count-In name [] m = absurd m
count-In name (j ∷ names) (inl e) = λ k. ground (arith, eq_iff j name)
count-In name (j ∷ names) (inr m) = λ k. ground (arith, count-In name names m)
