-- ===== src/GoStrings/Lines.antt =====
-- `strings.Split` at the ends of lines.
use nut_dog.Prelude.{
  ◌≡◌, ◌≢◌, refl, sym, ap, subst, ◌∙◌, List, [], ◌∷◌, ◌++◌, append_assoc, append-nil, arith, All,
  All-append, Text,
}
use nut_dog.GoStrings.{split}

-- A text without an end of a line.
abbrev pub IsLine : Text → Type 0
IsLine = All (λ c. c ≢ 10)

-- In front of any text, the text gives these lines, the last of them ended.
abbrev pub Splits : Text → List Text → Type 0
Splits text lines = (rest : Text) → split 10 (text ++ rest) ≡ lines ++ split 10 rest

split_line : (line rest : Text) → IsLine line → split 10 (line ++ 10 ∷ rest) ≡ line ∷ split 10 rest
unfolding split
split_line [] rest h = refl
split_line (c ∷ line) rest h = ground (arith, split_line line rest h.1)

-- A line in front of others.
pub Splits-line :
    (line text : Text) (lines : List Text)
    → IsLine line
    → Splits text lines
    → Splits (line ++ 10 ∷ text) (line ∷ lines)
Splits-line line text lines h k rest =
    rw append_assoc (split_line line (text ++ rest) h ∙ ap (λ ls. line ∷ ls) (k rest))

-- A line that is written in three parts.
pub Splits-around :
    (before mid after text : Text) (lines : List Text)
    → IsLine before
    → IsLine mid
    → IsLine after
    → Splits text lines
    → Splits (before ++ (mid ++ (after ++ 10 ∷ text))) ((before ++ (mid ++ after)) ∷ lines)
Splits-around before mid after text lines hb hm ha k =
    let e : (before ++ (mid ++ after)) ++ 10 ∷ text ≡ before ++ (mid ++ (after ++ 10 ∷ text)) =
      append_assoc before (mid ++ after) (10 ∷ text)
      ∙ ap (λ x. before ++ x) (append_assoc mid after (10 ∷ text)) in
    subst (λ x. Splits x ((before ++ (mid ++ after)) ∷ lines)) e
      (Splits-line (before ++ (mid ++ after)) text lines
        (All-append _ before (mid ++ after) hb (All-append _ mid after hm ha)) k)

pub Splits-append :
    (s t : Text) (ls ms : List Text) → Splits s ls → Splits t ms → Splits (s ++ t) (ls ++ ms)
Splits-append s t ls ms h k rest =
    ap (split 10) (append_assoc s t rest)
    ∙ h (t ++ rest)
    ∙ ap (λ xs. ls ++ xs) (k rest)
    ∙ sym (append_assoc ls ms (split 10 rest))

pub Splits-nil : Splits [] []
Splits-nil rest = refl

-- The whole text.
pub Splits-all :
    (text : Text) (lines : List Text) → Splits text lines → split 10 text ≡ lines ++ [] ∷ []
unfolding split
Splits-all text lines h = rw (← append-nil text) (h [])
