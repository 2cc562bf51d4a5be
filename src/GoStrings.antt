-- ===== src/GoStrings.antt =====
-- Go's package strings, as far as the program uses it, over byte lists.
pub mod Cut
pub mod Format
pub mod Lines
pub mod Numbers
pub mod Parts
pub mod Paths
pub mod Words
use mathlib.Core.Option
use nut_dog.Prelude.{
  ℕ, zero, suc, true, false, ◌||◌, ◌++◌, ◌+◌, ◌-◌, Bool, ◌&&◌, Option, none, some, List, [], ◌∷◌,
  map, Text, ◌==◌, codes, leb, nat_eq, if◌then◌else◌,
}

-- strings.Cut(s, sep) for a separator of one byte; `none` where it is not found
unfoldable pub cut : ℕ → Text → Option (Text × Text)
cut sep [] = none
cut sep (c ∷ s) =
    let rest = Option.map (λ (p : Text × Text). (c ∷ p.0, p.1)) (cut sep s) in
    if nat_eq c sep then some ([], s) else rest

-- the ASCII lower and upper case of a byte
unfoldable pub to_lower : ℕ → ℕ
to_lower c = if leb b'A' c && leb c b'Z' then c + 32 else c

unfoldable pub to_upper : ℕ → ℕ
to_upper c = if leb b'a' c && leb c b'z' then c - 32 else c

-- strings.EqualFold(s, t), for a `t` of ASCII letters other than k and s: no other rune folds to one
-- of those, so that the bytes decide
unfoldable pub equal_fold : Text → Text → Bool
unfolding to_lower
equal_fold s t = map to_lower s == map to_lower t

-- The width of a second and further byte of a space outside ASCII: U+0085, U+00A0, U+1680, U+2000 to
-- U+200A, U+2028, U+2029, U+202F, U+205F and U+3000.
wide_space : ℕ → Text → ℕ
wide_space c (d ∷ e ∷ s) =
    if nat_eq c 0xC2 && (nat_eq d 0x85 || nat_eq d 0xA0)
    then 2
    else if nat_eq c 0xE1 && (nat_eq d 0x9A && nat_eq e 0x80)
    then 3
    else if nat_eq c 0xE2
        && (nat_eq d 0x80
            && (leb 0x80 e && leb e 0x8A || (nat_eq e 0xA8 || (nat_eq e 0xA9 || nat_eq e 0xAF))))
    then 3
    else if nat_eq c 0xE2 && (nat_eq d 0x81 && nat_eq e 0x9F)
    then 3
    else if nat_eq c 0xE3 && (nat_eq d 0x80 && nat_eq e 0x80)
    then 3
    else 0
wide_space c (d ∷ []) = if nat_eq c 0xC2 && (nat_eq d 0x85 || nat_eq d 0xA0) then 2 else 0
wide_space c [] = 0

-- unicode.IsSpace at the front of a text: the number of bytes of the space, 0 where there is none. A
-- byte that begins one of these spaces is never inside of another rune.
unfoldable pub space_at : Text → ℕ
unfolding wide_space
space_at [] = 0
space_at (c ∷ s) =
    if nat_eq c b' ' || leb 9 c && leb c 13 then 1 else (if leb c 127 then 0 else wide_space c s)

-- the field so far in front of the later ones, if it has begun
abbrev pub emit : Text → List Text → List Text
emit [] later = later
emit (c ∷ cur) later = (c ∷ cur) ∷ later

-- strings.Fields and strings.FieldsSeq: `cur` is the field so far, and `skip` counts the bytes of a
-- space that are still to come.
unfoldable pub fields_from : Text → ℕ → Text → List Text
fields_from cur skip [] = emit cur []
fields_from cur (suc skip) (c ∷ s) = fields_from cur skip s
fields_from cur zero (c ∷ s) = elim (space_at (c ∷ s)) [
  | zero ↦ fields_from (cur ++ c ∷ []) zero s
  | suc width ↦ emit cur (fields_from [] width s)
]

unfoldable pub fields : Text → List Text
unfolding fields_from space_at
fields s = fields_from [] zero s

-- Whether nothing but spaces is left.
all_space : ℕ → Text → Bool
all_space skip [] = true
all_space (suc skip) (c ∷ s) = all_space skip s
all_space zero (c ∷ s) = elim (space_at (c ∷ s)) [ zero ↦ false | suc width ↦ all_space width s ]

trim_left : ℕ → Text → Text
trim_left skip [] = []
trim_left (suc skip) (c ∷ s) = trim_left skip s
trim_left zero (c ∷ s) = elim (space_at (c ∷ s)) [ zero ↦ c ∷ s | suc width ↦ trim_left width s ]

trim_right : Text → Text
trim_right [] = []
trim_right (c ∷ s) = let rest = trim_right s in if all_space zero (c ∷ s) then [] else c ∷ rest

-- strings.TrimSpace
unfoldable pub trim_space : Text → Text
unfolding all_space trim_left trim_right space_at
trim_space s = trim_right (trim_left zero s)

-- a byte in front of the first part
abbrev pub onto : ℕ → List Text → List Text
onto c [] = (c ∷ []) ∷ []
onto c (p ∷ parts) = (c ∷ p) ∷ parts

-- strings.Split(s, sep) and strings.SplitSeq for a separator of one byte
unfoldable pub split : ℕ → Text → List Text
split sep [] = [] ∷ []
split sep (c ∷ s) = if nat_eq c sep then [] ∷ split sep s else onto c (split sep s)

-- strings.HasPrefix
unfoldable pub has_prefix : Text → Text → Bool
has_prefix s [] = true
has_prefix [] (d ∷ prefix) = false
has_prefix (c ∷ s) (d ∷ prefix) = nat_eq c d && has_prefix s prefix

-- strings.Contains
unfoldable pub contains : Text → Text → Bool
unfolding has_prefix
contains [] sub = has_prefix [] sub
contains (c ∷ s) sub = has_prefix (c ∷ s) sub || contains s sub
