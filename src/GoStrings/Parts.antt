-- ===== src/GoStrings/Parts.antt =====
-- More of Go's package strings: SplitN, Trim and TrimRight, and the quoting of `%q`.
use nut_dog.Prelude.{
  ℕ, zero, suc, ◌-◌, ◌+◌, ◌/◌, ◌%◌, Bool, ◌||◌, ◌&&◌, none, some, List, [], ◌∷◌, ◌++◌, Text, codes,
  nat_eq, leb, if◌then◌else◌,
}
use nut_dog.GoStrings.{cut}

-- strings.SplitN(s, sep, n) for a separator of one byte and a positive n
unfoldable pub split_n : ℕ → ℕ → Text → List Text
unfolding cut
split_n sep zero s = []
split_n sep (suc zero) s = s ∷ []
split_n sep (suc (suc n)) s = elim (cut sep s) [
  | none ↦ s ∷ []
  | some (first, rest) ↦ first ∷ split_n sep (suc n) rest
]

-- strings.TrimLeft and strings.TrimRight for a set of ASCII bytes
unfoldable pub trim_left_of : (ℕ → Bool) → Text → Text
trim_left_of p [] = []
trim_left_of p (c ∷ s) = if p c then trim_left_of p s else c ∷ s

-- a byte in front of what is left, dropped where it is in the set and nothing is left
abbrev pub onto_kept : (ℕ → Bool) → ℕ → Text → Text
onto_kept p c [] = if p c then [] else c ∷ []
onto_kept p c (d ∷ s) = c ∷ d ∷ s

unfoldable pub trim_right_of : (ℕ → Bool) → Text → Text
trim_right_of p [] = []
trim_right_of p (c ∷ s) = onto_kept p c (trim_right_of p s)

-- strings.Trim(s, `"`)
unfoldable pub trim_quotes : Text → Text
unfolding trim_left_of trim_right_of
trim_quotes s = trim_right_of (λ c. nat_eq c b'"') (trim_left_of (λ c. nat_eq c b'"') s)

-- a hexadecimal digit in lower case
abbrev pub hex_digit : ℕ → ℕ
hex_digit n = if leb n 9 then b'0' + n else b'a' + (n - 10)

-- what `%q` writes for a byte of ASCII: the quote and the backslash escaped, the control characters
-- with a name by it, the others by their number. A byte above stands for itself, which is right for
-- the printing characters outside ASCII.
unfoldable pub quote_byte : ℕ → Text
quote_byte c =
    if nat_eq c b'"' || nat_eq c b'\\'
    then b'\\' ∷ c ∷ []
    else if leb 32 c && leb c 126 || leb 128 c
    then c ∷ []
    else if nat_eq c 7
    then codes "\\a"
    else if nat_eq c 8
    then codes "\\b"
    else if nat_eq c 9
    then codes "\\t"
    else if nat_eq c 10
    then codes "\\n"
    else if nat_eq c 11
    then codes "\\v"
    else if nat_eq c 12
    then codes "\\f"
    else if nat_eq c 13
    then codes "\\r"
    else b'\\' ∷ b'x' ∷ hex_digit (c / 16) ∷ hex_digit (c % 16) ∷ []

quote_bytes : Text → Text
unfolding quote_byte
quote_bytes [] = []
quote_bytes (c ∷ s) = quote_byte c ++ quote_bytes s

-- fmt.Sprintf("%q", s)
unfoldable pub quote : Text → Text
unfolding quote_bytes
quote s = b'"' ∷ quote_bytes s ++ b'"' ∷ []
