-- ===== src/Nut/Client/RoundTrip.antt =====
-- What a server prints for `LIST VAR`, and that the client reads it back.
use nut_dog.Prelude.{
  ℕ, zero, suc, ◌<◌, ◌≡◌, ◌≢◌, refl, sym, ap, subst, ◌∙◌, inl, inr, Bool, false, Option, none, some,
  [], ◌∷◌, ◌++◌, append_assoc, append-nil, arith, length, length-append, All, All-append,
  All-map_of, Text, codes, eq_iff, eq_refl, Dict, lookup, insert, UniqueKeys, nat_eq,
}
use nut_dog.GoStrings.{has_prefix}
use nut_dog.GoStrings.Cut.{cut_complete}
use nut_dog.GoStrings.Parts.{split_n, trim_left_of, trim_right_of, trim_quotes}
use nut_dog.Nut.Client.{
  is_crlf, go_on, Session, ok, on_line, collect_for, collect_vars, parse_var_line, var_of_fields,
  put,
}
use nut_dog.Nut.Client.Reading.{collect_for-suc}

-- VAR <ups> <name> "<value>"
abbrev pub var_line : Text → Text × Text → Text
var_line ups v = codes "VAR " ++ (ups ++ (b' ' ∷ (v.0 ++ (b' ' ∷ b'"' ∷ (v.1 ++ (b'"' ∷ []))))))

abbrev pub var_lines : Text → Dict Text → Text → Text
var_lines ups [] rest = rest
var_lines ups (v ∷ vars) rest = var_line ups v ++ (10 ∷ var_lines ups vars rest)

-- The block, with what comes behind it.
abbrev pub block : Text → Dict Text → Text → Text
block ups vars rest =
    (codes "BEGIN LIST VAR " ++ ups)
    ++ (10 ∷ var_lines ups vars ((codes "END LIST VAR " ++ ups) ++ (10 ∷ rest)))

-- A name on a line: no space and no end of the line.
abbrev pub IsWord : Text → Type 0
IsWord = All (λ c. (c ≢ 32) × (c ≢ 10) × (c ≢ 13))

-- The text does not begin with a quote, or end with one.
abbrev pub BeginsPlain : Text → Type 0
BeginsPlain [] = Unit
BeginsPlain (c ∷ s) = c ≢ b'"'

abbrev pub EndsPlain : Text → Type 0
EndsPlain [] = Unit
EndsPlain (c ∷ []) = c ≢ b'"'
EndsPlain (c ∷ d ∷ s) = EndsPlain (d ∷ s)

-- A value: no end of the line, and no quote at either end.
abbrev pub IsValue : Text → Type 0
IsValue v = All (λ c. (c ≢ 10) × (c ≢ 13)) v × BeginsPlain v × EndsPlain v

abbrev NoByte : ℕ → Text → Type 0
NoByte sep = All (λ c. nat_eq c sep ≡ false)

trim_right_of_none : (p : ℕ → Bool) (s : Text) → All (λ c. p c ≡ false) s → trim_right_of p s ≡ s
unfolding trim_right_of
trim_right_of_none p [] h = refl
trim_right_of_none p (c ∷ []) h = ground arith
trim_right_of_none p (c ∷ d ∷ s) h = rw (trim_right_of_none p (d ∷ s) h.1)

-- A line without the ends of one is read as it is.
read_plain :
    {S : Type 0} (fuel : ℕ) (ups : Text) (vars : Dict Text) (s : Session S) (line rest : Text)
    → All (λ c. (c ≢ 10) × (c ≢ 13)) line
    → s.incoming ≡ line ++ (10 ∷ rest)
    → collect_for (suc fuel) ups vars s
      ≡ go_on (collect_for fuel ups) (on_line ups line vars) (record s { incoming = rest })
read_plain fuel ups vars s line rest plain e =
    collect_for-suc fuel ups vars s line rest
      (rw e (cut_complete 10 line rest (All-map_of (λ c h. ground arith) line plain)))
    ∙ rw (trim_right_of_none is_crlf line (All-map_of (λ c h. ground arith) line plain))

word_plain : (w : Text) → IsWord w → All (λ c. (c ≢ 10) × (c ≢ 13)) w
word_plain w h = All-map_of (λ c k. (k.1, k.2)) w h

word-NoByte : (w : Text) → IsWord w → NoByte 32 w
word-NoByte w h = All-map_of (λ c k. ground arith) w h

begin_line :
    (ups : Text) (vars : Dict Text) → on_line ups (codes "BEGIN LIST VAR " ++ ups) vars ≡ inr vars
unfolding on_line has_prefix
begin_line ups vars = refl

end_line :
    (ups : Text) (vars : Dict Text)
    → on_line ups (codes "END LIST VAR " ++ ups) vars ≡ inl (ok vars)
unfolding on_line has_prefix
end_line ups vars = refl

split_var :
    (ups name last : Text)
    → IsWord ups
    → IsWord name
    → split_n b' ' 4 (codes "VAR " ++ (ups ++ (b' ' ∷ (name ++ (b' ' ∷ last)))))
      ≡ codes "VAR" ∷ ups ∷ name ∷ last ∷ []
unfolding split_n
split_var ups name last hu hn = rw (
  cut_complete 32 ups (name ++ (b' ' ∷ last)) (word-NoByte ups hu),
  cut_complete 32 name last (word-NoByte name hn),
  split_n,
)

trim_end : (v : Text) → EndsPlain v → trim_right_of (λ c. nat_eq c b'"') (v ++ (b'"' ∷ [])) ≡ v
unfolding trim_right_of
trim_end [] h = refl
trim_end (c ∷ []) h = ground arith
trim_end (c ∷ d ∷ s) h = rw (trim_end (d ∷ s) h)

trim_quoted : (v : Text) → IsValue v → trim_quotes (b'"' ∷ (v ++ (b'"' ∷ []))) ≡ v
unfolding trim_quotes
trim_quoted [] h = refl
trim_quoted (c ∷ s) h =
    let plain : nat_eq c b'"' ≡ false = ground arith in
    rw (plain, trim_left_of) (trim_end (c ∷ s) h.2)

fields_read :
    (ups : Text) (v : Text × Text)
    → IsValue v.1
    → var_of_fields ups (codes "VAR" ∷ ups ∷ v.0 ∷ (b'"' ∷ (v.1 ++ (b'"' ∷ []))) ∷ []) ≡ some v
unfolding var_of_fields
fields_read ups v hv = ground (arith, eq_refl ups, trim_quoted v.1 hv, eq_refl (codes "VAR"))

-- parseVarLine reads the name and the value of a line for its UPS.
pub parse_var_line-var_line :
    (ups : Text) (v : Text × Text)
    → IsWord ups
    → IsWord v.0
    → IsValue v.1
    → parse_var_line (var_line ups v) ups ≡ some v
unfolding parse_var_line
parse_var_line-var_line ups v hu hn hv =
    ap (var_of_fields ups) (split_var ups v.0 (b'"' ∷ (v.1 ++ (b'"' ∷ []))) hu hn)
    ∙ fields_read ups v hv

on_var_line :
    (ups : Text) (v : Text × Text) (vars : Dict Text)
    → IsWord ups
    → IsWord v.0
    → IsValue v.1
    → on_line ups (var_line ups v) vars ≡ inr (insert v.0 v.1 vars)
unfolding on_line has_prefix
on_var_line ups v vars hu hn hv =
    ap (λ (o : Option (Text × Text)). inr (put o vars)) (parse_var_line-var_line ups v hu hn hv)

-- Each name is a word and each value a value.
abbrev pub IsPrintable : Dict Text → Type 0
IsPrintable = All (λ v. IsWord v.0 × IsValue v.1)

insert_all : Dict Text → Dict Text → Dict Text
insert_all acc [] = acc
insert_all acc (v ∷ vars) = insert_all (insert v.0 v.1 acc) vars

line_plain :
    (ups : Text) (v : Text × Text)
    → IsWord ups
    → IsWord v.0
    → IsValue v.1
    → All (λ c. (c ≢ 10) × (c ≢ 13)) (var_line ups v)
line_plain ups v hu hn hv = All-append _ (codes "VAR ") _ (ground arith) (
    All-append _ ups _ (word_plain ups hu) (
      ground arith,
      All-append _ v.0 _ (word_plain v.0 hn)
          (ground arith, (ground arith, All-append _ v.1 _ hv.0 (ground arith))),
    ))

module _ {S : Type 0} (ups rest : Text) (hu : IsWord ups) where
  collect_lines :
      (fuel : ℕ) (vars acc : Dict Text) (s : Session S)
      → length s.incoming < fuel
      → s.incoming ≡ var_lines ups vars ((codes "END LIST VAR " ++ ups) ++ (10 ∷ rest))
      → IsPrintable vars
      → collect_for fuel ups acc s ≡ (ok (insert_all acc vars), record s { incoming = rest })
  unfolding insert_all
  collect_lines zero vars acc s lt e h = absurd (omega arith)
  collect_lines (suc fuel) [] acc s lt e h =
      read_plain fuel ups acc s (codes "END LIST VAR " ++ ups) rest
        (All-append _ (codes "END LIST VAR ") ups (ground arith) (word_plain ups hu)) e
      ∙ rw (end_line ups acc)
  collect_lines (suc fuel) (v ∷ vars) acc s lt e h =
      let more = var_lines ups vars ((codes "END LIST VAR " ++ ups) ++ (10 ∷ rest)) in
      read_plain fuel ups acc s (var_line ups v) more (line_plain ups v hu h.0.0 h.0.1) e
      ∙ rw (on_var_line ups v acc hu h.0.0 h.0.1) (
          collect_lines fuel vars (insert v.0 v.1 acc) (record s { incoming = more })
            (omega (arith, ap length e, length-append (var_line ups v) (10 ∷ more))) refl h.1)

lookup-append_other : (k : Text) (m n : Dict Text) → lookup k (m ++ n) ≡ none → lookup k m ≡ none
unfolding lookup
lookup-append_other k [] n h = refl
lookup-append_other k ((j, w) ∷ m) n h = ground (arith, lookup-append_other k m n)

lookup-append_here : (k v : Text) (m n : Dict Text) → lookup k (m ++ ((k, v) ∷ n)) ≢ none
unfolding lookup
lookup-append_here k v [] n h = ground (arith, eq_refl k)
lookup-append_here k v ((j, w) ∷ m) n h = ground (arith, lookup-append_here k v m n)

fresh : (k v : Text) (m n : Dict Text) → UniqueKeys (m ++ ((k, v) ∷ n)) → lookup k m ≡ none
unfolding lookup
fresh k v [] n h = refl
fresh k v ((j, w) ∷ m) n h =
    ground (arith, eq_iff j k, fresh k v m n h.1, lookup-append_here k v m n)

insert_fresh : (k v : Text) (m : Dict Text) → lookup k m ≡ none → insert k v m ≡ m ++ ((k, v) ∷ [])
unfolding insert lookup
insert_fresh k v [] h = refl
insert_fresh k v ((j, w) ∷ m) h = ground (arith, insert_fresh k v m)

insert_all-append :
    (acc vars : Dict Text) → UniqueKeys (acc ++ vars) → insert_all acc vars ≡ acc ++ vars
unfolding insert_all
insert_all-append acc [] h = sym (append-nil acc)
insert_all-append acc ((k, v) ∷ vars) h = rw (insert_fresh k v acc (fresh k v acc vars h)) (
    insert_all-append (acc ++ ((k, v) ∷ [])) vars
      (subst UniqueKeys (sym (append_assoc acc ((k, v) ∷ []) vars)) h)
    ∙ append_assoc acc ((k, v) ∷ []) vars)

-- What a server prints for a UPS is read back whole, in its order and up to its last line, where no
-- variable is printed twice, the names are words, and no value has a quote at an end or breaks a line.
pub collect_vars-block :
    {S : Type 0} (ups rest : Text) (vars : Dict Text) (s : Session S)
    → IsWord ups
    → IsPrintable vars
    → UniqueKeys vars
    → s.incoming ≡ block ups vars rest
    → collect_vars ups s ≡ (ok vars, record s { incoming = rest })
unfolding collect_vars
collect_vars-block ups rest vars s hu h u e =
    let more = var_lines ups vars ((codes "END LIST VAR " ++ ups) ++ (10 ∷ rest)) in
    let first = codes "BEGIN LIST VAR " ++ ups in
    read_plain (length s.incoming) ups [] s first more
      (All-append _ (codes "BEGIN LIST VAR ") ups (ground arith) (word_plain ups hu)) e
    ∙ rw (begin_line ups []) (
        collect_lines ups rest hu (length s.incoming) vars [] (record s { incoming = more })
          (omega (arith, ap length e, length-append first (10 ∷ more))) refl h
        ∙ ap (λ (v : Dict Text). (ok v, record s { incoming = rest }))
            (insert_all-append [] vars u))
