-- ===== src/GoStrings/Format.antt =====
-- The verbs of Go's package fmt that the program uses: %d, %-28s, and %t.
use nut_dog.Prelude.{
  ℕ, zero, suc, ◌+◌, ◌-◌, ◌/◌, ◌%◌, Bool, true, false, ◌&&◌, ◌||◌, [], ◌∷◌, ◌++◌, Text, codes, ltb,
  leb, nat_eq, replicate, ℤ, pos, negsuc, if◌then◌else◌,
}

-- The decimal digits of a number, for at most so many digits.
unfoldable pub digits : ℕ → ℕ → Text
digits zero n = []
digits (suc fuel) n =
    let before = digits fuel (n / 10) in
    if ltb n 10 then (b'0' + n) ∷ [] else before ++ (b'0' + n % 10) ∷ []

-- %d: a number has fewer digits than one more than itself
unfoldable pub print_nat : ℕ → Text
unfolding digits
print_nat n = digits (suc n) n

unfoldable pub print_int : ℤ → Text
unfolding print_nat
print_int (pos n) = print_nat n
print_int (negsuc n) = b'-' ∷ print_nat (suc n)

-- %t
unfoldable pub print_bool : Bool → Text
print_bool true = codes "true"
print_bool false = codes "false"

abbrev within : ℕ → ℕ → ℕ → Bool
within low high c = leb low c && leb c high

abbrev is_tail : ℕ → Bool
is_tail c = within 128 191 c

abbrev byte_or_none : Text → ℕ
byte_or_none [] = 0
byte_or_none (c ∷ s) = c

abbrev behind : Text → Text
behind [] = []
behind (c ∷ s) = s

-- The size of the rune that starts with these four bytes, where a byte that is not there is 0, which no
-- rune goes on with. A byte that starts no rune of UTF-8 counts as one.
unfoldable pub size_of : ℕ → ℕ → ℕ → ℕ → ℕ
size_of c d e f =
    if within 194 223 c && is_tail d
    then 2
    else if (nat_eq c 224 && within 160 191 d
          || (within 225 236 c || within 238 239 c) && is_tail d
          || nat_eq c 237 && within 128 159 d)
        && is_tail e
    then 3
    else if (nat_eq c 240 && within 144 191 d
          || within 241 243 c && is_tail d
          || nat_eq c 244 && within 128 143 d)
        && is_tail e
        && is_tail f
    then 4
    else 1

-- utf8.RuneCountInString, behind so many bytes of a rune that is counted already
unfoldable pub runes_from : ℕ → Text → ℕ
unfolding size_of
runes_from skip [] = 0
runes_from zero (c ∷ s) =
    let size =
      size_of c (byte_or_none s) (byte_or_none (behind s)) (byte_or_none (behind (behind s))) in
    suc (runes_from (size - 1) s)
runes_from (suc skip) (c ∷ s) = runes_from skip s

-- %-28s, for a width of 28: spaces up to so many runes
unfoldable pub pad_right : ℕ → Text → Text
unfolding runes_from
pad_right width s = s ++ replicate (width - runes_from 0 s) b' '
