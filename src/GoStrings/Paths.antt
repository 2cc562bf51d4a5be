-- ===== src/GoStrings/Paths.antt =====
-- `filepath.Join` of two elements, on Unix.
use nut_dog.Prelude.{Bool, false, List, [], ◌∷◌, ◌++◌, Text, codes, ◌==◌, nat_eq, if◌then◌else◌}
use nut_dog.GoStrings.{split}

abbrev is_rooted : Text → Bool
is_rooted [] = false
is_rooted (c ∷ s) = nat_eq c b'/'

-- What `..` makes of the segments so far, the last of them first.
abbrev parent : Bool → List Text → List Text
parent rooted [] = if rooted then [] else codes ".." ∷ []
parent rooted (s ∷ before) = if s == codes ".." then codes ".." ∷ s ∷ before else before

-- The segments of a clean path, the last of them first.
unfoldable pub clean_segments : Bool → List Text → List Text → List Text
clean_segments rooted before [] = before
clean_segments rooted before (s ∷ path) =
    clean_segments rooted
      (if s == []
        then before
        else if s == codes "."
        then before
        else if s == codes ".."
        then parent rooted before
        else s ∷ before)
      path

-- The segments with `/` between them, and behind them a path.
abbrev onto_path : List Text → Text → Text
onto_path [] path = path
onto_path (s ∷ []) path = s ++ path
onto_path (s ∷ t ∷ before) path = onto_path (t ∷ before) (b'/' ∷ s ++ path)

abbrev dot_if_empty : Text → Text
dot_if_empty [] = codes "."
dot_if_empty (c ∷ s) = c ∷ s

-- filepath.Clean
unfoldable pub clean : Text → Text
unfolding clean_segments split
clean path =
    let rooted = is_rooted path in
    dot_if_empty (
      (if rooted then b'/' ∷ [] else [])
      ++ onto_path (clean_segments rooted [] (split b'/' path)) [])

-- filepath.Join(dir, name): an empty element is left out
unfoldable pub join_path : Text → Text → Text
unfolding clean
join_path [] [] = []
join_path [] (c ∷ name) = clean (c ∷ name)
join_path (c ∷ dir) [] = clean (c ∷ dir)
join_path (c ∷ dir) (d ∷ name) = clean ((c ∷ dir) ++ b'/' ∷ d ∷ name)
