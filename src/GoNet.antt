-- ===== src/GoNet.antt =====
-- Go's package net, as far as the program uses it: the ports of addresses, and hardware addresses.
pub mod Mac
use nut_dog.Prelude.{
  ℕ, zero, suc, ◌-◌, ◌+◌, Bool, true, false, ◌||◌, ◌&&◌, not, Option, none, some, List, [], ◌∷◌,
  ◌++◌, Text, nat_eq, leb, if◌then◌else◌,
}
use nut_dog.GoStrings.{cut}

-- strings.IndexByte(s, c) >= 0
unfoldable pub holds : ℕ → Text → Bool
holds c [] = false
holds c (d ∷ s) = nat_eq d c || holds c s

-- s[:i] and s[i+1:] for the last i at which `sep` stands
unfoldable pub last_cut : ℕ → Text → Option (Text × Text)
last_cut sep [] = none
last_cut sep (c ∷ s) = elim (last_cut sep s) [
  | some (before, after) ↦ some (c ∷ before, after)
  | none ↦ if nat_eq c sep then some ([], s) else none
]

-- The bytes behind the `]` of a host in brackets: a colon and the port.
bracketed : Text → Text → Option (Text × Text)
unfolding holds
bracketed host [] = none
bracketed host (c ∷ port) =
    if nat_eq c b':'
      && not (holds b':' port || (holds b'[' host || (holds b'[' port || holds b']' port)))
    then some (host, port)
    else none

plain : Text → Text → Option (Text × Text)
unfolding holds
plain host port =
    if holds b':' host
      || (holds b'[' host || (holds b']' host || (holds b'[' port || holds b']' port)))
    then none
    else some (host, port)

-- net.SplitHostPort; `none` is its error
unfoldable pub split_host_port : Text → Option (Text × Text)
unfolding last_cut cut bracketed plain
split_host_port [] = none
split_host_port (c ∷ s) =
    if nat_eq c b'['
    then elim (cut b']' s) [ none ↦ none | some (host, rest) ↦ bracketed host rest ]
    else elim (last_cut b':' (c ∷ s)) [ none ↦ none | some (host, port) ↦ plain host port ]

-- net.JoinHostPort
unfoldable pub join_host_port : Text → Text → Text
unfolding holds
join_host_port host port =
    if holds b':' host then b'[' ∷ host ++ b']' ∷ b':' ∷ port else host ++ b':' ∷ port
