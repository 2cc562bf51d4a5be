-- ===== src/Nut/Client/Covering.antt =====
-- What the client writes once TLS is on.
use nut_dog.Prelude.{
  ℕ, zero, suc, ◌≡◌, refl, ◌∙◌, ◌⊎◌, inl, inr, Bool, true, false, Option, none, some, List, [], ◌∷◌,
  ◌++◌, arith, All, All-append, Text, codes, Dict, if◌then◌else◌,
}
use nut_dog.GoStrings.{has_prefix}
use nut_dog.Nut.Client.{
  Peer, Written, Session, Result, ok, err, Net, bind, read_line, go_on, on_line, collect_for,
  arrive, send, cmd_ok,
}

-- All that was written was written under TLS, but for the request for it.
abbrev pub IsCovered : List Written → Type 0
IsCovered = All (λ w. (w.secure ≡ true) ⊎ (w.text ≡ codes "STARTTLS\n"))

module _ {S : Type 0} where
  abbrev pub IsSecure : Session S → Type 0
  IsSecure s = (s.secure ≡ true) × IsCovered s.written

  -- The operation leaves TLS on, and writes nothing else than under it.
  abbrev pub KeepsSecure : {A : Type 0} → Net S A → Type 0
  KeepsSecure m = (s : Session S) → IsSecure s → IsSecure (m s).1

  pub bind-IsSecure :
      {A B : Type 0} (f : A → Net S B) (r : Result A × Session S)
      → ((a : A) → KeepsSecure (f a))
      → IsSecure r.1
      → IsSecure (bind f r).1
  bind-IsSecure f (ok a, s) k h = k a s h
  bind-IsSecure f (err e, s) k h = h

  pub read_line-KeepsSecure : KeepsSecure (read_line {S = S})
  unfolding read_line
  read_line-KeepsSecure s h = ground arith

  pub go_on-KeepsSecure :
      (next : Dict Text → Net S (Dict Text)) (o : Result (Dict Text) ⊎ Dict Text)
      → ((v : Dict Text) → KeepsSecure (next v))
      → KeepsSecure (go_on next o)
  go_on-KeepsSecure next (inl r) k s h = h
  go_on-KeepsSecure next (inr v) k s h = k v s h

  pub collect_for-KeepsSecure :
      (fuel : ℕ) (ups : Text) (vars : Dict Text) → KeepsSecure (collect_for {S = S} fuel ups vars)
  unfolding collect_for
  collect_for-KeepsSecure zero ups vars s h = h
  collect_for-KeepsSecure (suc fuel) ups vars s h =
      bind-IsSecure _ (read_line s)
        (λ line.
          go_on-KeepsSecure (collect_for fuel ups) (on_line ups line vars)
            (collect_for-KeepsSecure fuel ups))
        (read_line-KeepsSecure s h)

module _ {S : Type 0} (p : Peer S) where
  pub arrive_keeps :
      (o : Option (Text × S)) (text : Text) (s : Session S)
      → ((arrive p o text s).1.secure ≡ s.secure)
        × ((arrive p o text s).1.written ≡ s.written)
        × ((arrive p o text s).1.is_open ≡ s.is_open)
  arrive_keeps none text s = (refl, refl, refl)
  arrive_keeps (some (more, peer)) text s = (refl, refl, refl)

  pub send-IsCovered :
      (text : Text) (s : Session S)
      → IsCovered s.written
      → (s.secure ≡ true) ⊎ (text ≡ codes "STARTTLS\n")
      → IsCovered (send p text s).1.written
  unfolding send
  send-IsCovered text s h why =
      let w : Written = record { secure = s.secure; text = text } in
      let s' = record s { written = s.written ++ w ∷ [] } in
      rw (arrive_keeps (p.answer text s.peer) text s').1
        (All-append _ s.written (w ∷ []) h (why, tt))

  pub send-KeepsSecure : (text : Text) → KeepsSecure (send p text)
  unfolding send
  send-KeepsSecure text s h = (
    (arrive_keeps (p.answer text s.peer) text
          (record s { written = s.written ++ record { secure = s.secure; text = text } ∷ [] })).0
        ∙ h.0,
    send-IsCovered text s h.1 (inl h.0),
  )

  pub if-KeepsSecure :
      {A : Type 0} (b : Bool) (m n : Net S A)
      → KeepsSecure m
      → KeepsSecure n
      → KeepsSecure (if b then m else n)
  if-KeepsSecure true m n h k = h
  if-KeepsSecure false m n h k = k

  pub cmd_ok-KeepsSecure : (cmd : Text) → KeepsSecure (cmd_ok p cmd)
  unfolding cmd_ok
  cmd_ok-KeepsSecure cmd s h =
      bind-IsSecure _ (send p (cmd ++ 10 ∷ []) s)
        (λ u s' h'.
          bind-IsSecure _ (read_line s')
            (λ line. if-KeepsSecure (has_prefix line (codes "OK")) _ _ (λ t k. k) (λ t k. k))
            (read_line-KeepsSecure s' h'))
        (send-KeepsSecure (cmd ++ 10 ∷ []) s h)
