-- ===== src/Nut/Client/Reading.antt =====
-- The reading of `LIST VAR`: it ends, and it reads back what a server prints.
use nut_dog.Prelude.{
  ℕ, zero, suc, ◌<◌, ◌≡◌, ◌≢◌, ap, ◌⊎◌, inl, inr, Option-cases, none, some, [], ◌∷◌, arith, length,
  length-append, Text, Dict,
}
use nut_dog.GoStrings.{cut}
use nut_dog.GoStrings.Parts.{trim_right_of}
use nut_dog.GoStrings.Cut.{cut_sound}
use nut_dog.Nut.Client.{
  Net, is_crlf, go_on, Session, Result, err, out_of_fuel, read_failed, read_line, on_line,
  collect_for, collect_vars,
}

-- A line leaves less to read.
cut_shorter :
    (sep : ℕ) (s before after : Text) → cut sep s ≡ some (before, after) → length after < length s
unfolding cut
cut_shorter sep s before after e =
    omega (arith, ap length (cut_sound sep s before after e), length-append before (sep ∷ after))

-- What `on_line` returns is never the lack of fuel.
on_line_no_fuel :
    (ups line : Text) (vars : Dict Text) → on_line ups line vars ≢ inl (err out_of_fuel)
unfolding on_line
on_line_no_fuel ups line vars e = ground arith

module _ {S : Type 0} where
  -- A round of the loop, on the line that it reads.
  pub collect_for-suc :
      (fuel : ℕ) (ups : Text) (vars : Dict Text) (s : Session S) (before after : Text)
      → cut 10 s.incoming ≡ some (before, after)
      → collect_for (suc fuel) ups vars s
        ≡ go_on
            (collect_for fuel ups)
            (on_line ups (trim_right_of is_crlf before) vars)
            (record s { incoming = after })
  unfolding collect_for on_line
  collect_for-suc fuel ups vars s before after found = rw (collect_for, read_line, found)

  collect_for-unread :
      (fuel : ℕ) (ups : Text) (vars : Dict Text) (s : Session S)
      → cut 10 s.incoming ≡ none
      → collect_for (suc fuel) ups vars s ≡ (err read_failed, record s { incoming = [] })
  unfolding collect_for
  collect_for-unread fuel ups vars s unread = rw (collect_for, read_line, unread)

  go_on_enough :
      (next : Dict Text → Net S (Dict Text)) (o : Result (Dict Text) ⊎ Dict Text) (s : Session S)
      → o ≢ inl (err out_of_fuel)
      → ((vars : Dict Text) → (next vars s).0 ≢ err out_of_fuel)
      → (go_on next o s).0 ≢ err out_of_fuel
  go_on_enough next (inl r) s h k = λ e. h (ap inl e)
  go_on_enough next (inr vars) s h k = k vars

  collect_for_enough :
      (fuel : ℕ) (ups : Text) (vars : Dict Text) (s : Session S)
      → length s.incoming < fuel
      → (collect_for fuel ups vars s).0 ≢ err out_of_fuel
  collect_for_enough zero ups vars s lt = absurd (omega arith)
  collect_for_enough (suc fuel) ups vars s lt = elim (Option-cases (cut 10 s.incoming)) [
    | inl unread ↦ rw (collect_for-unread fuel ups vars s unread) (λ e. cc)
    | inr ((before, after), found) ↦
        let shorter = cut_shorter 10 s.incoming before after found in
        rw (collect_for-suc fuel ups vars s before after found) (
          go_on_enough (collect_for fuel ups) (on_line ups (trim_right_of is_crlf before) vars)
            (record s { incoming = after })
            (on_line_no_fuel ups (trim_right_of is_crlf before) vars)
            (λ v. collect_for_enough fuel ups v (record s { incoming = after }) (omega arith)))
  ]

  -- The loop over the lines ends: with the fuel that `collectVars` is given, one more than there are bytes
  -- to read, it never runs out.
  pub collect_vars_total : (ups : Text) (s : Session S) → (collect_vars ups s).0 ≢ err out_of_fuel
  unfolding collect_vars
  collect_vars_total ups s = collect_for_enough (suc (length s.incoming)) ups [] s (omega arith)
