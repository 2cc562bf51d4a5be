-- ===== src/Nut/Client.antt =====
-- internal/nut/client.go: the client of a NUT server. The server and the network are a `Peer`, which is
-- a parameter. Deadlines are left out: a wait that runs into one is an error of the peer or the end of
-- what it sends.
mod Types
unfoldable pub use Types.*
pub mod Reading
pub mod RoundTrip
pub mod Covering
pub mod Secrecy
pub mod Closing
pub mod Fetching
use nut_dog.Prelude.{
  ℕ, zero, suc, ◌+◌, Bool, true, false, ◌||◌, ◌&&◌, not, Option, none, some, ◌⊎◌, inl, inr, List,
  [], ◌∷◌, ◌++◌, length, Text, codes, ◌==◌, Dict, insert, nat_eq, if◌then◌else◌,
}
use nut_dog.GoStrings.{cut, has_prefix}
use nut_dog.GoStrings.Parts.{split_n, trim_right_of, trim_quotes, quote}
use nut_dog.GoNet.{split_host_port}

abbrev pub is_crlf : ℕ → Bool
is_crlf c = nat_eq c 13 || nat_eq c 10

module _ {S : Type 0} where
  -- readLine: r.ReadString('\n') and the trimming. What is left at an error is gone.
  unfoldable pub read_line : Net S Text
  unfolding cut trim_right_of
  read_line s = elim (cut 10 s.incoming) [
    | none ↦ (err read_failed, record s { incoming = [] })
    | some (line, rest) ↦ (ok (trim_right_of is_crlf line), record s { incoming = rest })
  ]

-- The loop of `readLineRaw`, byte by byte, with the bytes in its builder; `none` is a read error.
unfoldable pub raw_from : Text → Text → Option Text × Text
unfolding trim_right_of
raw_from b [] = (none, [])
raw_from b (c ∷ s) =
    if nat_eq c 10 then (some (trim_right_of (λ d. nat_eq d 13) b), s) else raw_from (b ++ c ∷ []) s

abbrev pub raw_result : {S : Type 0} → Session S → Option Text × Text → Result Text × Session S
raw_result s (none, rest) = (err starttls_failed, record s { incoming = rest })
raw_result s (some line, rest) = (ok line, record s { incoming = rest })

-- parseVarLine
unfoldable pub var_of_fields : Text → List Text → Option (Text × Text)
unfolding trim_quotes
var_of_fields ups (verb ∷ name ∷ var ∷ value ∷ []) =
    if verb == codes "VAR" && name == ups then some (var, trim_quotes value) else none
var_of_fields ups _ = none

unfoldable pub parse_var_line : Text → Text → Option (Text × Text)
unfolding split_n var_of_fields
parse_var_line line ups = var_of_fields ups (split_n b' ' 4 line)

abbrev pub put : Option (Text × Text) → Dict Text → Dict Text
put none vars = vars
put (some (name, value)) vars = insert name value vars

-- strings.TrimPrefix(line, "ERR "), where the prefix is there
unfoldable pub without_err : Text → Text
without_err (e ∷ r ∷ q ∷ b ∷ text) = text
without_err _ = []

-- The `switch` of `collectVars` on a line: what is returned, or the map to go on with.
unfoldable pub on_line : Text → Text → Dict Text → Result (Dict Text) ⊎ Dict Text
on_line ups line vars =
    if has_prefix line (codes "ERR ")
    then inl (err (nut_error (without_err line)))
    else if has_prefix line (codes "BEGIN LIST VAR")
    then inr vars
    else if has_prefix line (codes "END LIST VAR")
    then inl (ok vars)
    else if has_prefix line (codes "VAR ")
    then inr (put (parse_var_line line ups) vars)
    else inr vars

module _ {S : Type 0} where
  -- `return`, or the next round
  abbrev pub go_on :
      (Dict Text → Net S (Dict Text)) → Result (Dict Text) ⊎ Dict Text → Net S (Dict Text)
  go_on next (inl r) s = (r, s)
  go_on next (inr vars) s = next vars s

  -- The loop of `collectVars`, for at most so many lines.
  unfoldable pub collect_for : ℕ → Text → Dict Text → Net S (Dict Text)
  unfolding read_line
  collect_for zero ups vars = raise out_of_fuel
  collect_for (suc fuel) ups vars = do
    line ← read_line
    go_on (collect_for fuel ups) (on_line ups line vars)

  -- collectVars: each line takes a byte at least.
  unfoldable pub collect_vars : Text → Net S (Dict Text)
  unfolding collect_for
  collect_vars ups s = collect_for (suc (length s.incoming)) ups [] s

module _ {S : Type 0} (p : Peer S) where
  abbrev pub arrive : Option (Text × S) → Text → Session S → Result (Unit {0}) × Session S
  arrive none text s = (err write_failed, s)
  arrive (some (more, peer)) text s =
      (ok tt, record s { peer = peer; incoming = s.incoming ++ more })

  -- fmt.Fprintf(conn, …)
  unfoldable pub send : Text → Net S (Unit {0})
  send text s =
      arrive (p.answer text s.peer) text
        (record s { written = s.written ++ record { secure = s.secure; text = text } ∷ [] })

  abbrev pub close : Session S → Bool × Session S
  close s =
      let (failed, peer) = p.hang_up s.peer in (failed, record s { peer = peer; is_open = false })

  -- `strings.Cut(cmd, " ")`, for its first part
  abbrev pub verb_of : Text → Text
  verb_of cmd = elim (cut b' ' cmd) [ none ↦ cmd | some (verb, rest) ↦ verb ]

  -- cmdOK
  unfoldable pub cmd_ok : Text → Net S (Unit {0})
  unfolding send read_line has_prefix cut
  cmd_ok cmd = do
    send (cmd ++ 10 ∷ [])
    line ← read_line
    if has_prefix line (codes "OK") then pure tt else raise (cmd_failed (verb_of cmd) line)

  abbrev pub host_of : Text → Text
  host_of addr = elim (split_host_port addr) [ none ↦ addr | some (host, port) ↦ host ]

  abbrev pub upgraded : Option (Text × S) → Net S (Unit {0})
  upgraded none s = (err handshake_failed, s)
  upgraded (some (more, peer)) s = (ok tt, record s { peer = peer; incoming = more; secure = true })

  -- startTLS
  unfoldable pub start_tls : Text → Bool → Net S (Unit {0})
  unfolding send raw_from has_prefix split_host_port
  start_tls addr insecure = do
    send (codes "STARTTLS\n")
    line ← λ s. raw_result s (raw_from [] s.incoming)
    if has_prefix line (codes "OK")
        then (λ s. upgraded (p.upgrade (host_of addr) insecure s.incoming s.peer) s)
        else raise (starttls_refused line)

  -- the part of `connect` behind the dial: every error of it closes the connection
  unfoldable pub authenticate : Text → Options → Net S (Unit {0})
  unfolding start_tls cmd_ok
  authenticate addr opts = do
    if opts.tls then start_tls addr opts.insecure_skip_verify else pure tt
    if opts.username == [] then pure tt else (do
      cmd_ok (codes "USERNAME " ++ opts.username)
      cmd_ok (codes "PASSWORD " ++ opts.password))

  abbrev pub close_on_error : Result (Unit {0}) × Session S → Result (Unit {0}) × Session S
  close_on_error (ok u, s) = (ok u, s)
  close_on_error (err e, s) = (err e, (close s).1)

  -- connect, from the dial's result on
  unfoldable pub connected : Text → Options → Option (Text × S) → Net S (Unit {0})
  unfolding authenticate
  connected addr opts none s = (err dial_failed, s)
  connected addr opts (some (more, peer)) s = close_on_error (
      authenticate addr opts
        (record s { peer = peer; incoming = more; secure = false; is_open = true }))

  unfoldable pub connect : Text → Options → Net S (Unit {0})
  unfolding connected
  connect addr opts s = connected addr opts (p.dial addr s.peer) s

  -- defer conn.Close()
  abbrev pub then_close : {A : Type 0} → Net S A → Net S A
  then_close m s = let (r, s') = m s in (r, (close s').1)

  -- defer fmt.Fprintf(conn, "LOGOUT\n")
  unfoldable pub then_logout : {A : Type 0} → Net S A → Net S A
  unfolding send
  then_logout m s = let (r, s') = m s in (r, (send (codes "LOGOUT\n") s').1)

  unfoldable pub list_vars : Text → Net S (Dict Text)
  unfolding send collect_vars
  list_vars ups = do send (codes "LIST VAR " ++ ups ++ 10 ∷ []); collect_vars ups

  unfoldable pub fetch_open : Text → Options → Net S (Dict Text)
  unfolding cmd_ok then_logout list_vars
  fetch_open ups opts =
      if opts.login
      then (do cmd_ok (codes "LOGIN " ++ ups); then_logout (list_vars ups))
      else list_vars ups

  -- Fetch
  unfoldable pub fetch : Text → Text → Options → Net S (Dict Text)
  unfolding connect fetch_open
  fetch addr ups opts = do connect addr opts; then_close (fetch_open ups opts)

  abbrev pub closed_result : Bool × Session S → Result (Unit {0}) × Session S
  closed_result (failed, s) = (if failed then err close_failed else ok tt, s)

  -- CheckAuth
  unfoldable pub check_auth : Text → Options → Net S (Unit {0})
  unfolding connect
  check_auth addr opts = do connect addr opts; (λ s. closed_result (close s))

  -- SetVar
  unfoldable pub set_var : Text → Text → Text → Text → Options → Net S (Unit {0})
  unfolding connect cmd_ok quote
  set_var addr ups name value opts = do
    connect addr opts
    then_close (cmd_ok (codes "SET VAR " ++ ups ++ b' ' ∷ name ++ b' ' ∷ quote value))
