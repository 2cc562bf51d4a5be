-- ===== src/GoStrings/Numbers.antt =====
-- `strconv.Atoi` on a 64-bit machine.
use nut_dog.Prelude.{
  ℕ, zero, suc, ◌+◌, ◌-◌, ◌*◌, ◌≡◌, refl, ◌&&◌, Bool, true, false, Option, none, some, [], ◌∷◌,
  Text, codes, ℤ, pos, negsuc, leb, nat_eq, if◌then◌else◌,
}

-- The number that decimal digits stand for, behind the number so far.
digits : ℕ → Text → Option ℕ
digits n [] = some n
digits n (c ∷ s) = if leb b'0' c && leb c b'9' then digits (n * 10 + (c - b'0')) s else none

unsigned : Text → Option ℕ
unfolding digits
unsigned [] = none
unsigned (c ∷ s) = digits 0 (c ∷ s)

-- A magnitude in the range of int64, with its sign.
in_range : Bool → Option ℕ → Option ℤ
in_range negative none = none
in_range false (some n) = if leb n 9223372036854775807 then some (pos n) else none
in_range true (some zero) = some (pos 0)
in_range true (some (suc n)) = if leb n 9223372036854775807 then some (negsuc n) else none

-- strconv.Atoi; `none` is its error, for a text that is no decimal integer or is out of range
unfoldable pub atoi : Text → Option ℤ
unfolding unsigned in_range
atoi [] = none
atoi (c ∷ s) =
    if nat_eq c b'-'
    then in_range true (unsigned s)
    else if nat_eq c b'+'
    then in_range false (unsigned s)
    else in_range false (unsigned (c ∷ s))

atoi_examples :
    (atoi (codes "120") ≡ some (pos 120))
    × (atoi (codes "-1") ≡ some (negsuc 0))
    × (atoi (codes "9223372036854775808") ≡ none)
    × (atoi (codes "-9223372036854775808") ≡ some (negsuc 9223372036854775807))
    × (atoi (codes "12.5") ≡ none)
    × (atoi [] ≡ none)
unfolding atoi
atoi_examples = (refl, refl, refl, refl, refl, refl)
