-- ===== src/Session/Hint.antt =====
-- lightway-expresslane/src/session.rs: the answer of has_valid_keys, which takes no lock.
use lightway_cffi.Base.{◌≡◌, refl, Bool, true, false, ◌&&◌, List, [], ◌∷◌, inl, inr}
use lightway_cffi.Cipher.{Aead, AeadLaws}
use lightway_cffi.Session.{has_valid_keys, State, reserve_counter}
use lightway_cffi.Session.Decrypt.{decrypt-Decrypts}
use lightway_cffi.Session.Keys.{promote_cases, update_next_cases, update_peer_cases, encrypt_cases}
use lightway_cffi.Session.Life.{receive_cases}
use lightway_cffi.Session.Steps.{Op, reserve, promote, stage, install, send, receive, step, run}

module _ (a : Aead) (laws : AeadLaws a) where
  -- A flag that is set stays set.
  record Keeps (s s' : State a) : Type 0 where
    peer : s.peer_key_installed ≡ true → s'.peer_key_installed ≡ true
    self : s.self_key_installed ≡ true → s'.self_key_installed ≡ true

  same-Keeps : (s : State a) → Keeps s s
  same-Keeps s = record { peer = λ h. h; self = λ h. h }

  step-Keeps : (s : State a) (op : Op) → Keeps s (step a s op)
  unfolding step reserve_counter
  step-Keeps s reserve = record { peer = λ h. h; self = λ h. h }
  step-Keeps s promote = elim (promote_cases a s) [
    | inl (_, e) ↦ rw (step, e) (same-Keeps s)
    | inr (k, _, e) ↦ rw (step, e) (record { peer = λ h. h; self = λ h. refl })
  ]
  step-Keeps s (stage key) = elim (update_next_cases a s key) [
    | inl (_, _, e) ↦ rw (step, e) (same-Keeps s)
    | inr (k, _, e) ↦ rw (step, e) (record { peer = λ h. h; self = λ h. h })
  ]
  step-Keeps s (install key) = elim (update_peer_cases a s key) [
    | inl (_, _, e) ↦ rw (step, e) (same-Keeps s)
    | inr (k, _, e) ↦ rw (step, e) (record { peer = λ h. refl; self = λ h. h })
  ]
  step-Keeps s (send c sid plain iv enc out) = elim (encrypt_cases a s c sid plain iv enc out) [
    | inl (_, e, _) ↦ rw (step, e) (same-Keeps s)
    | inr (_, e, _) ↦ rw (step, e) (record { peer = λ h. h; self = λ h. h })
  ]
  step-Keeps s (receive sid wire out) =
      elim (receive_cases a laws s sid wire out (decrypt-Decrypts a laws s sid wire out)) [
        | inl (e, _) ↦ rw (step, e) (same-Keeps s)
        | inr (e, _, _) ↦ rw (step, e) (record { peer = λ h. h; self = λ h. h })
      ]

  run-Keeps : (s : State a) (ops : List Op) → Keeps s (run a s ops)
  unfolding run
  run-Keeps s [] = same-Keeps s
  run-Keeps s (op ∷ ops) =
      let one = step-Keeps s op in
      let rest = run-Keeps (step a s op) ops in
      record { peer = λ h. rest.peer (one.peer h); self = λ h. rest.self (one.self h) }

  and_parts : (b c : Bool) → b && c ≡ true → (b ≡ true) × (c ≡ true)
  and_parts true c h = (refl, h)
  and_parts false c h = cc

  -- A true answer of `has_valid_keys` never goes back to false, although its flags are loaded
  -- without a lock: if it is true for the sessions that the two loads find, it is true again for
  -- what they find after any further operations, of which each load may see others.
  pub has_valid_keys-stays :
      (at_peer at_self : State a) (ops ops' : List Op)
      → has_valid_keys at_peer at_self ≡ true
      → has_valid_keys (run a at_peer ops) (run a at_self ops') ≡ true
  unfolding has_valid_keys
  has_valid_keys-stays at_peer at_self ops ops' h =
      let (p, q) = and_parts at_peer.peer_key_installed at_self.self_key_installed h in
      rw ((run-Keeps at_peer ops).peer p, (run-Keeps at_self ops').self q) refl
