-- ===== src/Powerapi/Standing.antt =====
-- Which request stands: what `Desired` returns and drops, and the requests over any sequence of calls.
use nut_dog.Prelude.{
  ◌<◌, ◌+◌, ◌≡◌, refl, ◌∙◌, ◌↔◌, ◌⊎◌, Bool, true, false, Option, none, some, [], ◌∷◌, arith, Text,
  eq_iff, Dict, lookup, lookup-insert, lookup-delete, insert, delete, UniqueKeys, delete-UniqueKeys,
  if◌then◌else◌, pos, ◌≤ℤ◌, pos_part, neg_part,
}
use nut_dog.Clock.{Time, Duration, max_duration}
use nut_dog.Control.{Request}
use nut_dog.Powerapi.{Entry, Server, desired, sweep, expired}

-- An entry that has not expired at the clock's reading.
unfoldable pub live : Duration → Time → Option Entry → Option Entry
live ttl now none = none
live ttl now (some e) = if expired ttl now e then none else some e

abbrev pub req_of : Option Entry → Option Request
req_of none = none
req_of (some e) = some e.req

abbrev or_else {ℓ} : {A : Type ℓ} → Option A → Option A → Option A
or_else none b = b
or_else (some a) b = some a

-- What the loop of `Desired` has collected, and what it has left in `want`.
lookup-sweep :
    (now : Text → Time) (ttl : Duration) (es want : Dict Entry) (out : Dict Request) (j : Text)
    → UniqueKeys es
    → (lookup j (sweep now ttl es want out).1
        ≡ or_else (req_of (live ttl (now j) (lookup j es))) (lookup j out))
      × (lookup j (sweep now ttl es want out).0 ≡ elim (lookup j es) [
        | none ↦ lookup j want
        | some e ↦ if expired ttl (now j) e then none else lookup j want
      ])
unfolding live lookup sweep
lookup-sweep now ttl [] want out j h = (refl, refl)
lookup-sweep now ttl ((l, e) ∷ es) want out j h =
    let gone = expired ttl (now l) e in
    let want' = if gone then delete l want else want in
    let out' = if gone then out else insert l e.req out in
    ground (
      arith,
      lookup-sweep now ttl es want' out' j h.1,
      lookup-delete l j want,
      lookup-insert l j e.req out,
      eq_iff l j,
    )

if-UniqueKeys :
    (b : Bool) (m n : Dict Entry) → UniqueKeys m → UniqueKeys n → UniqueKeys (if b then m else n)
if-UniqueKeys true m n h k = h
if-UniqueKeys false m n h k = k

sweep-UniqueKeys :
    (now : Text → Time) (ttl : Duration) (es want : Dict Entry) (out : Dict Request)
    → UniqueKeys want
    → UniqueKeys (sweep now ttl es want out).0
unfolding sweep
sweep-UniqueKeys now ttl [] want out h = h
sweep-UniqueKeys now ttl ((l, e) ∷ es) want out h =
    let gone = expired ttl (now l) e in
    sweep-UniqueKeys now ttl es (if gone then delete l want else want)
      (if gone then out else insert l e.req out)
      (if-UniqueKeys gone (delete l want) want (delete-UniqueKeys l want h) h)

-- `Desired` returns the request of each entry that has not expired at the clock's reading for it and
-- nothing for the other loads, and exactly these entries are left in the server.
pub desired_exact :
    (now : Text → Time) (s : Server) (j : Text)
    → UniqueKeys s.want
    → let stands = live s.ttl (now j) (lookup j s.want) in
      (lookup j (desired now s).1 ≡ req_of stands) × (lookup j (desired now s).0.want ≡ stands)
unfolding desired live
desired_exact now s j h =
    let (got, left) = lookup-sweep now s.ttl s.want s.want [] j h in
    (got ∙ last (live s.ttl (now j) (lookup j s.want)), left ∙ same (lookup j s.want) refl)
  where
    last : (o : Option Entry) → or_else (req_of o) (lookup j []) ≡ req_of o
    last none = unfold lookup in refl
    last (some e) = refl

    same :
        (o : Option Entry)
        → lookup j s.want ≡ o
        → (elim o [
          | none ↦ lookup j s.want
          | some e ↦ if expired s.ttl (now j) e then none else lookup j s.want
        ])
          ≡ live s.ttl (now j) o
    same none e = e
    same (some x) e = ground arith

-- With a positive TTL that an int64 holds an entry stands exactly while less than the TTL has passed
-- since it was made; with a TTL of zero or less it stands for ever.
pub live_exact :
    (ttl : Duration) (now : Time) (e : Entry)
    → ttl ≤ℤ max_duration
    → (live ttl now (some e) ≡ some e) ↔ (
        (ttl ≤ℤ pos 0)
        ⊎ (pos_part now + neg_part e.at < pos_part e.at + pos_part ttl + neg_part now))
unfolding live expired
live_exact ttl now e fits = (λ h. ground arith, λ h. ground arith)

pub desired-UniqueKeys :
    (now : Text → Time) (s : Server) → UniqueKeys s.want → UniqueKeys (desired now s).0.want
unfolding desired
desired-UniqueKeys now s h = sweep-UniqueKeys now s.ttl s.want s.want [] h
