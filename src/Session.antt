-- ===== src/Session.antt =====
-- lightway-expresslane/src/session.rs: the packet session, its key rotation, `encrypt` and
-- `decrypt`. Each method is a function from the session to the session after the call and the
-- result; the locks make the methods atomic, so a method is one step.
use lightway_cffi.Base.{
  ℕ, ◌+◌, ◌-◌, bit_and, Bool, true, false, not, ◌&&◌, Option, none, some, List, ltb, ◌==◌,
  if◌then◌else◌, length, take, replicate, slice, write_at, to_be_bytes, from_be_bytes, add64,
  Result, ok, err,
}
use lightway_cffi.Data.{
  ExpresslaneError, insufficient_data, buffer_too_small, invalid_data, replayed, key_not_set,
  invalid_key, ExpresslaneVersion, version2, version_ge, is_invalid,
}
use lightway_cffi.Cipher.{Aead}
use lightway_cffi.Cipher
use lightway_cffi.Replay.{ReplayWindow, would_reject, commit}
use lightway_cffi.Replay
pub mod Aad
pub mod Packet
pub mod Wire
pub mod Attempt
pub mod Decrypt
pub mod Verdict
pub mod RoundTrip
pub mod Keys
pub mod Steps
pub mod Life
pub mod Lifetime
pub mod Hint
pub mod Counters
pub mod Toy
pub mod Peers
mod Examples

abbrev pub wire_overhead : ℕ
wire_overhead = 40

abbrev pub flag_encoded : ℕ
flag_encoded = 0x8000

-- The flags field of a packet that is sent.
abbrev pub flags_of : Bool → ℕ
flags_of is_encoded = if is_encoded then flag_encoded else 0

-- `out[..len].fill(0)`.
abbrev pub scrub : List ℕ → ℕ → List ℕ
scrub out len = write_at out 0 (replicate len 0)

-- `ExpresslaneSession::rx`.
pub record RxState (K : Type 0) : Type 0 where
  pub current_peer : Option K
  pub prev_peer : Option K
  pub replay_window : ReplayWindow

pub record ExpresslaneSession (K : Type 0) : Type 0 where
  pub version : ExpresslaneVersion
  pub current_self : Option K
  pub next_self : Option K
  pub next_counter : ℕ
  pub packets_sent : ℕ
  pub rx : RxState K
  pub self_key_installed : Bool
  pub peer_key_installed : Bool

-- The associated data: an 18-byte buffer and the number of significant bytes.
unfoldable pub build_aad : ExpresslaneVersion → List ℕ → ℕ → ℕ → List ℕ × ℕ
unfolding version_ge
build_aad version session_id counter flags =
    let buf = write_at (write_at (replicate 18 0) 0 session_id) 8 (to_be_bytes 8 counter) in
    if version_ge version version2 then (write_at buf 16 (to_be_bytes 2 flags), 18) else (buf, 16)

-- `&aad_buf[..aad_len]`.
unfoldable pub aad_bytes : ExpresslaneVersion → List ℕ → ℕ → ℕ → List ℕ
unfolding build_aad
aad_bytes version session_id counter flags =
    let (buf, len) = build_aad version session_id counter flags in take len buf

module _ {K : Type 0} where
  unfoldable pub new : ExpresslaneVersion → ExpresslaneSession K
  new version = record {
    version = version;
    current_self = none;
    next_self = none;
    next_counter = 0;
    packets_sent = 0;
    rx = record { current_peer = none; prev_peer = none; replay_window = Replay.default };
    self_key_installed = false;
    peer_key_installed = false;
  }

  -- `fetch_add(1)` returns the old value, and wraps.
  unfoldable pub reserve_counter : ExpresslaneSession K → ExpresslaneSession K × ℕ
  reserve_counter s = (record s { next_counter = add64 s.next_counter 1 }, add64 s.next_counter 1)

  unfoldable pub promote_self_key : ExpresslaneSession K → ExpresslaneSession K
  promote_self_key s = elim s.next_self [
    | none ↦ s
    | some cipher ↦ record s {
      current_self = some cipher;
      next_self = none;
      self_key_installed = true;
    }
  ]

  -- Two loads without a lock: the session as each of them finds it.
  unfoldable pub has_valid_keys : ExpresslaneSession K → ExpresslaneSession K → Bool
  has_valid_keys at_peer at_self = at_peer.peer_key_installed && at_self.self_key_installed

  unfoldable pub packets_sent : ExpresslaneSession K → ℕ
  packets_sent s = s.packets_sent

  unfoldable pub packets_received : ExpresslaneSession K → ℕ
  packets_received s = s.rx.replay_window.packets_received

module _ (a : Aead) where
  open a use {Key}

  abbrev pub State : Type 0
  State = ExpresslaneSession Key

  -- Both key setters refuse the all-zero sentinel before they load the key.
  unfoldable pub load_key : List ℕ → Result Key ExpresslaneError
  load_key key = if is_invalid key then err invalid_key else Cipher.new a key

  unfoldable pub update_next_self_key : State → List ℕ → State × Result (Unit {0}) ExpresslaneError
  update_next_self_key s key = elim (load_key key) [
    | err e ↦ (s, err e)
    | ok cipher ↦ (record s { next_self = some cipher }, ok tt)
  ]

  unfoldable pub update_peer_key : State → List ℕ → State × Result (Unit {0}) ExpresslaneError
  update_peer_key s key = elim (load_key key) [
    | err e ↦ (s, err e)
    | ok cipher ↦ (
      record s {
        rx = record (s.rx) { current_peer = some cipher; prev_peer = s.rx.current_peer };
        peer_key_installed = true;
      },
      ok tt,
    )
  ]

  -- `out[40..needed]` is scrubbed when sealing fails, and the header is written when it succeeds.
  pub emit :
      ℕ → ℕ → Bool → List ℕ → Result (List ℕ) ExpresslaneError → List ℕ × Result ℕ ExpresslaneError
  emit counter len is_encoded out (err e) = (write_at out 40 (replicate len 0), err e)
  emit counter len is_encoded out (ok tag) = (
    write_at
        (write_at (write_at (write_at out 0 (to_be_bytes 8 counter)) 20 tag) 36 (to_be_bytes 2 len))
        38 (to_be_bytes 2 (flags_of is_encoded)),
    ok (wire_overhead + len),
  )

  -- What `encrypt` does to the output once the session has a cipher.
  pub seal_packet :
      Key
      → ExpresslaneVersion
      → ℕ
      → List ℕ
      → List ℕ
      → List ℕ
      → Bool
      → List ℕ
      → List ℕ × Result ℕ ExpresslaneError
  unfolding emit
  seal_packet cipher version counter session_id plain_text iv is_encoded out =
      let aad = aad_bytes version session_id counter (flags_of is_encoded) in
      let filled = write_at (write_at out 8 iv) 40 plain_text in
      let plain = slice filled 40 (wire_overhead + length plain_text) in
      let (buf, sealed) = Cipher.encrypt a cipher iv aad plain in
      emit counter (length plain_text) is_encoded (write_at filled 40 buf) sealed

  abbrev count_sent : State → Result ℕ ExpresslaneError → State
  count_sent s (ok n) = record s { packets_sent = add64 s.packets_sent 1 }
  count_sent s (err e) = s

  -- The session, `out`, and the number of bytes written.
  unfoldable pub encrypt :
      State
      → ℕ
      → List ℕ
      → List ℕ
      → List ℕ
      → Bool
      → List ℕ
      → State × List ℕ × Result ℕ ExpresslaneError
  unfolding seal_packet
  encrypt s counter session_id plain_text iv is_encoded out =
      if ltb (length out) (wire_overhead + length plain_text)
      then (s, out, err buffer_too_small)
      else if ltb 65535 (length plain_text)
      then (s, out, err invalid_data)
      else elim s.current_self [
        | none ↦ (s, out, err key_not_set)
        | some cipher ↦
            let (out', result) =
              seal_packet cipher s.version counter session_id plain_text iv is_encoded out in
            (count_sent s result, out', result)
      ]

  -- One attempt on a fresh copy of the ciphertext in `out[..data_len]`.
  pub attempt : Key → List ℕ → List ℕ → List ℕ → List ℕ → List ℕ → List ℕ × Bool
  unfolding Cipher.decrypt
  attempt cipher iv aad ciphertext tag out =
      let copied = write_at out 0 ciphertext in
      let (buf, good) = Cipher.decrypt a cipher iv aad (slice copied 0 (length ciphertext)) tag in
      (write_at copied 0 buf, good)

  -- The second attempt, on whatever the first one left in `out`.
  pub retry : Option Key → List ℕ → List ℕ → List ℕ → List ℕ → List ℕ × Bool → List ℕ × Bool
  retry prev_peer iv aad ciphertext tag (out, true) = (out, true)
  retry none iv aad ciphertext tag (out, false) = (out, false)
  retry (some prev) iv aad ciphertext tag (out, false) = attempt prev iv aad ciphertext tag out

  -- The current key, then the previous one.
  pub try_keys : Key → Option Key → List ℕ → List ℕ → List ℕ → List ℕ → List ℕ → List ℕ × Bool
  try_keys current prev_peer iv aad ciphertext tag out =
      retry prev_peer iv aad ciphertext tag (attempt current iv aad ciphertext tag out)

  -- The window moves only after the packet is authentic.
  pub finish :
      State → ℕ → ℕ → Bool → List ℕ × Bool → State × List ℕ × Result (ℕ × Bool) ExpresslaneError
  finish s counter data_len is_encoded (out, decrypted) =
      if not decrypted
      then (s, scrub out data_len, err invalid_data)
      else let (window, fresh) = commit s.rx.replay_window counter in
        let s' = record s { rx = record (s.rx) { replay_window = window } } in
        if not fresh
        then (s', scrub out data_len, err replayed)
        else (s', out, ok (data_len, is_encoded))

  -- The session, `out`, and the plaintext's length with the encoded flag.
  unfoldable pub decrypt :
      State → List ℕ → List ℕ → List ℕ → State × List ℕ × Result (ℕ × Bool) ExpresslaneError
  decrypt s session_id wire_packet out =
      let counter = from_be_bytes 0 (slice wire_packet 0 8) in
      let iv = slice wire_packet 8 20 in
      let tag = slice wire_packet 20 36 in
      let data_len = from_be_bytes 0 (slice wire_packet 36 38) in
      let flags = from_be_bytes 0 (slice wire_packet 38 40) in
      let is_encoded = not (bit_and flags flag_encoded == 0) in
      if ltb (length wire_packet) wire_overhead
      then (s, out, err insufficient_data)
      else if would_reject s.rx.replay_window counter
      then (s, out, err replayed)
      else if ltb (length wire_packet) (wire_overhead + data_len)
      then (s, out, err insufficient_data)
      else if ltb (length out) data_len
      then (s, out, err buffer_too_small)
      else let aad = aad_bytes s.version session_id counter flags in
        elim s.rx.current_peer [
          | none ↦ (s, out, err key_not_set)
          | some current ↦ finish s counter data_len is_encoded (
              try_keys current s.rx.prev_peer iv aad (slice wire_packet 40 (40 + data_len)) tag out)
        ]
