-- ===== src/GoStrings/Cut.antt =====
-- `strings.Cut` at a byte.
use mathlib.Core.Option
use nut_dog.Prelude.{ℕ, ◌≡◌, ap, false, some, [], ◌∷◌, ◌++◌, arith, All, Text, nat_eq}
use nut_dog.GoStrings.{cut}

-- A text that is cut is put together from its parts.
pub cut_sound :
    (sep : ℕ) (s before after : Text) → cut sep s ≡ some (before, after) → s ≡ before ++ sep ∷ after
unfolding cut
cut_sound sep [] before after e = cc
cut_sound sep (c ∷ s) [] after e = ground arith
cut_sound sep (c ∷ s) (b ∷ before) after e = ground (arith, cut_sound sep s before after)

-- A text is cut at its first separator.
pub cut_complete :
    (sep : ℕ) (before after : Text)
    → All (λ c. nat_eq c sep ≡ false) before
    → cut sep (before ++ sep ∷ after) ≡ some (before, after)
unfolding cut
cut_complete sep [] after h = ground arith
cut_complete sep (c ∷ before) after h =
    rw h.0
      (ap (Option.map (λ (p : Text × Text). (c ∷ p.0, p.1))) (cut_complete sep before after h.1))
