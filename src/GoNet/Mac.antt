-- ===== src/GoNet/Mac.antt =====
-- `net.ParseMAC`: hexadecimal bytes between colons or between hyphens, or pairs of them between dots.
use nut_dog.Prelude.{
  ℕ, ◌-◌, ◌+◌, ◌*◌, ◌||◌, ◌&&◌, Option, none, some, List, [], ◌∷◌, length, Text, nat_eq, leb,
  if◌then◌else◌,
}

-- The value of a hexadecimal digit.
unfoldable pub hex_value : ℕ → Option ℕ
hex_value c =
    if leb b'0' c && leb c b'9'
    then some (c - b'0')
    else if leb b'a' c && leb c b'f'
    then some (c - b'a' + 10)
    else if leb b'A' c && leb c b'F'
    then some (c - b'A' + 10)
    else none

unfoldable pub hex_byte : ℕ → ℕ → Option ℕ
unfolding hex_value
hex_byte a b = elim (hex_value a) [
  | none ↦ none
  | some m ↦ elim (hex_value b) [ none ↦ none | some n ↦ some (m * 16 + n) ]
]

abbrev pub cons_byte : Option ℕ → Option (List ℕ) → Option (List ℕ)
cons_byte none rest = none
cons_byte (some b) none = none
cons_byte (some b) (some bytes) = some (b ∷ bytes)

-- Bytes of two digits between separators.
unfoldable pub bytes_between : ℕ → Text → Option (List ℕ)
unfolding hex_byte
bytes_between sep (a ∷ b ∷ []) = cons_byte (hex_byte a b) (some [])
bytes_between sep (a ∷ b ∷ c ∷ s) =
    let rest = bytes_between sep s in if nat_eq c sep then cons_byte (hex_byte a b) rest else none
bytes_between sep _ = none

-- Pairs of bytes between dots.
unfoldable pub pairs_between : Text → Option (List ℕ)
unfolding hex_byte
pairs_between (a ∷ b ∷ c ∷ d ∷ []) = cons_byte (hex_byte a b) (cons_byte (hex_byte c d) (some []))
pairs_between (a ∷ b ∷ c ∷ d ∷ e ∷ s) =
    let rest = pairs_between s in
    if nat_eq e b'.' then cons_byte (hex_byte a b) (cons_byte (hex_byte c d) rest) else none
pairs_between _ = none

-- The lengths of an address.
unfoldable pub of_length : Option (List ℕ) → Option (List ℕ)
of_length none = none
of_length (some hw) =
    if nat_eq (length hw) 6 || (nat_eq (length hw) 8 || nat_eq (length hw) 20)
    then some hw
    else none

-- net.ParseMAC; `none` is its error
unfoldable pub parse_mac : Text → Option (List ℕ)
unfolding bytes_between pairs_between of_length
parse_mac (a ∷ b ∷ c ∷ d ∷ e ∷ s) =
    if nat_eq c b':' || nat_eq c b'-'
    then of_length (bytes_between c (a ∷ b ∷ c ∷ d ∷ e ∷ s))
    else if nat_eq e b'.'
    then of_length (pairs_between (a ∷ b ∷ c ∷ d ∷ e ∷ s))
    else none
parse_mac _ = none
