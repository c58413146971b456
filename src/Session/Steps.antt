-- ===== src/Session/Steps.antt =====
-- A session as a state machine: any sequence of the operations of `ExpresslaneSession`. Each of
-- them takes its locks for its whole body, or touches one atomic, so an interleaving of callers is
-- such a sequence. `has_valid_keys`, which changes nothing, takes no lock and is not among them.
use lightway_cffi.Base.{ℕ, ◌+◌, Bool, true, false, List, [], ◌∷◌, if◌then◌else◌, Result, ok, err}
use lightway_cffi.Cipher.{Aead}
use lightway_cffi.Session.{
  State, reserve_counter, promote_self_key, update_next_self_key, update_peer_key, encrypt, decrypt,
}
use lightway_cffi.Session.Decrypt.{wire_counter}

pub data Op : Type 0 where
  reserve promote : Op
  stage install : (key : List ℕ) → Op
  -- The counter, the session id, the plaintext, the iv, the encoded flag and the output buffer.
  send : ℕ → List ℕ → List ℕ → List ℕ → Bool → List ℕ → Op
  -- The session id, the datagram and the output buffer.
  receive : List ℕ → List ℕ → List ℕ → Op

abbrev pub is_ok : {A E : Type 0} → Result A E → Bool
is_ok (ok x) = true
is_ok (err e) = false

module _ (a : Aead) where
  unfoldable pub step : State a → Op → State a
  step s reserve = (reserve_counter s).0
  step s promote = promote_self_key s
  step s (stage key) = (update_next_self_key a s key).0
  step s (install key) = (update_peer_key a s key).0
  step s (send c sid plain iv enc out) = (encrypt a s c sid plain iv enc out).0
  step s (receive sid wire out) = (decrypt a s sid wire out).0

  unfoldable pub run : State a → List Op → State a
  run s [] = s
  run s (op ∷ ops) = run (step s op) ops

  -- Did the packet of a `receive` get through, and that of a `send`?
  unfoldable pub got : State a → Op → Bool
  got s (receive sid wire out) = is_ok (decrypt a s sid wire out).2
  got s _ = false

  unfoldable pub wrote : State a → Op → Bool
  wrote s (send c sid plain iv enc out) = is_ok (encrypt a s c sid plain iv enc out).2
  wrote s _ = false

  abbrev pub counter_of : Op → ℕ
  counter_of (receive sid wire out) = wire_counter wire
  counter_of _ = 0

  -- The counters of the accepted packets, newest first.
  unfoldable pub seen : State a → List ℕ → List Op → List ℕ
  seen s history [] = history
  seen s history (op ∷ ops) =
      seen (step s op) (if got s op then counter_of op ∷ history else history) ops

  unfoldable pub count_got : State a → List Op → ℕ
  count_got s [] = 0
  count_got s (op ∷ ops) = (if got s op then 1 else 0) + count_got (step s op) ops

  unfoldable pub count_wrote : State a → List Op → ℕ
  count_wrote s [] = 0
  count_wrote s (op ∷ ops) = (if wrote s op then 1 else 0) + count_wrote (step s op) ops

abbrev pub is_reserve : Op → Bool
is_reserve reserve = true
is_reserve _ = false

abbrev pub count_reserve : List Op → ℕ
count_reserve [] = 0
count_reserve (op ∷ ops) = (if is_reserve op then 1 else 0) + count_reserve ops
