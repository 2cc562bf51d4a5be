-- ===== src/GoStrings/Words.antt =====
-- `strings.Fields` on words between single spaces.
use nut_dog.Prelude.{
  ℕ, zero, ◌≤◌, ◌≡◌, refl, [], ◌∷◌, ◌++◌, append_assoc, append-nil, arith, All, Text, codes,
}
use nut_dog.GoStrings.{space_at, emit, fields_from, fields}

-- A printing ASCII character that is no space.
abbrev pub IsGraphic : ℕ → Type 0
IsGraphic c = (33 ≤ c) × (c ≤ 126)

graphic-no_space : (c : ℕ) (s : Text) → IsGraphic c → space_at (c ∷ s) ≡ 0
unfolding space_at
graphic-no_space c s h = ground arith

-- A word is taken into the field so far.
pub fields_from-word :
    (cur w rest : Text)
    → All IsGraphic w
    → fields_from cur zero (w ++ rest) ≡ fields_from (cur ++ w) zero rest
unfolding fields_from
fields_from-word cur [] rest h = rw append-nil
fields_from-word cur (c ∷ w) rest h =
    rw (graphic-no_space c (w ++ rest) h.0, fields_from)
      (rw (fields_from-word (cur ++ c ∷ []) w rest h.1, append_assoc))

-- A space ends the field so far.
pub fields_from-space :
    (cur rest : Text) → fields_from cur zero (b' ' ∷ rest) ≡ emit cur (fields_from [] zero rest)
unfolding fields_from space_at
fields_from-space cur rest = refl

fields_examples :
    (fields (codes "OB DISCHRG LB") ≡ codes "OB" ∷ codes "DISCHRG" ∷ codes "LB" ∷ [])
    × (fields (codes "  OL ") ≡ codes "OL" ∷ [])
    × (fields (b'a' ∷ 0xC2 ∷ 0xA0 ∷ b'b' ∷ 0xE2 ∷ 0x80 ∷ 0x83 ∷ []) ≡ codes "a" ∷ codes "b" ∷ [])
unfolding fields
fields_examples = (refl, refl, refl)
