-- ===== src/Effects/Ssh.antt =====
-- internal/effects/sshexec.go: one-shot commands over SSH. The calls of golang.org/x/crypto/ssh are an `Ssh`,
-- which is a parameter: `K` is a signer and `P` a public key.
use nut_dog.Prelude.{◌≡◌, ◌≢◌, refl, ◌⊎◌, inl, inr, Option, none, some, [], ◌∷◌, arith, Text, codes}
use nut_dog.GoNet.{split_host_port, join_host_port}

-- `dial` is given the address, the user, the signer, and the key that the host must show; without one any key
-- is accepted. `output` runs a command in the session and returns the output and the error.
pub record Ssh (E K P S : Type 0) : Type 0 where
  pub parse_private_key : Text → E ⊎ K
  pub parse_authorized_key : Text → E ⊎ P
  pub dial : Text → Text → K → Option P → S → Option E × S
  pub new_session : S → Option E × S
  pub output : Text → S → (Text × Option E) × S
  pub close_session : S → S
  pub close_client : S → S

-- SSHRunner
pub record SshRunner (K P : Type 0) : Type 0 where
  pub user : Text
  pub signer : K
  pub host_key : Option P

-- the host with a port
unfoldable pub ssh_address : Text → Text
unfolding split_host_port join_host_port
ssh_address host = elim (split_host_port host) [
  | none ↦ join_host_port host (codes "22")
  | some p ↦ host
]

module _ {E K P S : Type 0} (ssh : Ssh E K P S) where
  abbrev pub as_pinned : E ⊎ P → E ⊎ Option P
  as_pinned (inl e) = inl e
  as_pinned (inr p) = inr (some p)

  -- the host key, where one is given
  unfoldable pub pinned_key : Text → E ⊎ Option P
  pinned_key [] = inr none
  pinned_key (c ∷ key) = as_pinned (ssh.parse_authorized_key (c ∷ key))

  abbrev pub with_keys : Text → E ⊎ K → E ⊎ Option P → E ⊎ SshRunner K P
  with_keys user (inl e) key = inl e
  with_keys user (inr signer) (inl e) = inl e
  with_keys user (inr signer) (inr key) =
      inr (record { user = user; signer = signer; host_key = key })

  -- NewSSHRunner
  unfoldable pub new_ssh_runner : Text → Text → Text → E ⊎ SshRunner K P
  unfolding pinned_key
  new_ssh_runner user private_key host_key =
      with_keys user (ssh.parse_private_key private_key) (pinned_key host_key)

  -- behind `NewSession`: the session is closed, and then the client
  abbrev pub in_session : Text → Option E × S → (Text × Option E) × S
  in_session cmd (some e, s) = (([], some e), ssh.close_client s)
  in_session cmd (none, s) =
      let (r, s') = ssh.output cmd s in (r, ssh.close_client (ssh.close_session s'))

  abbrev pub in_client : Text → Option E × S → (Text × Option E) × S
  in_client cmd (some e, s) = (([], some e), s)
  in_client cmd (none, s) = in_session cmd (ssh.new_session s)

  -- SSHRunner.Run
  unfoldable pub run : SshRunner K P → Text → Text → S → (Text × Option E) × S
  unfolding ssh_address
  run r host cmd s = in_client cmd (ssh.dial (ssh_address host) r.user r.signer r.host_key s)

  as_pinned_inv :
      (x : E ⊎ P) (o : Option P) → as_pinned x ≡ inr o → (p : P) × (x ≡ inr p) × (o ≡ some p)
  as_pinned_inv (inl e) o h = absurd (ground arith)
  as_pinned_inv (inr p) o h = (p, refl, ground arith)

  with_keys-host_key :
      (user : Text) (k : E ⊎ K) (key : E ⊎ Option P) (r : SshRunner K P)
      → with_keys user k key ≡ inr r
      → (key ≡ inr r.host_key) × (r.user ≡ user) × (k ≡ inr r.signer)
  with_keys-host_key user (inl e) key r h = absurd (ground arith)
  with_keys-host_key user (inr signer) (inl e) r h = absurd (ground arith)
  with_keys-host_key user (inr signer) (inr key) r h = ground arith

  -- A runner that is made with a host key has every dial verified against the key that was parsed of it, whatever
  -- happens: it accepts any host only where no key is given.
  pub host_key_verified :
      (user private_key host_key : Text) (r : SshRunner K P)
      → new_ssh_runner user private_key host_key ≡ inr r
      → host_key ≢ []
      → (p : P) × (ssh.parse_authorized_key host_key ≡ inr p)
        × ((host cmd : Text) (s : S)
            → run r host cmd s
              ≡ in_client cmd (ssh.dial (ssh_address host) user r.signer (some p) s))
  unfolding new_ssh_runner run pinned_key
  host_key_verified user private_key [] r e ne = absurd (ne refl)
  host_key_verified user private_key (c ∷ key) r e ne =
      let (pinned, same, k) = with_keys-host_key user (ssh.parse_private_key private_key) _ r e in
      let (p, parsed, o) = as_pinned_inv (ssh.parse_authorized_key (c ∷ key)) r.host_key (pinned) in
      (p, parsed, λ host cmd s. rw (same, o) refl)
