-- ===== src/Capi/Packets/RoundTrip.antt =====
-- A packet from handle to handle.
use lightway_cffi.Base.{
  ℕ, ◌+◌, ◌^◌, ◌≤◌, ◌<◌, ◌≡◌, ◌≢◌, ◌⊎◌, refl, sym, ap, ap₂, ◌∙◌, Bool, false, true, none, some,
  List, ◌++◌, length, drop, replicate,
}
use lightway_cffi.Data.{from_u8, expresslane_key_size}
use lightway_cffi.Cipher.{Aead, AeadLaws}
use lightway_cffi.Replay.Runs.{would_reject-default}
use lightway_cffi.Session.{State, flags_of, aad_bytes}
use lightway_cffi.Session
use lightway_cffi.Capi.{success, wire_overhead}
use lightway_cffi.Capi.Packets.{EncryptCall, DecryptCall, encrypt, decrypt}
use lightway_cffi.Capi.Packets.Handles.{
  sending, receiving, fresh, sender, receiver, sent_call, delivered_call,
}

module _ (a : Aead) where
  module _ (version c : ℕ) (key sid plain iv : List ℕ) (enc : Bool) (buf out : List ℕ) where
    -- The sender's call, and the receiver's on the datagram that it wrote.
    abbrev pub sent : EncryptCall a
    sent =
        encrypt a (sending a version key) c (some sid) (some plain) (length plain) (some iv) enc
          (some buf) (length buf) (some 0)

    abbrev pub delivered : DecryptCall a
    delivered =
        decrypt a (receiving a version key) (some sid) sent.out (wire_overhead + length plain)
          (some out) (length out) (some 0) (some false)

    -- Through the C interface: two sessions of a known version that are given the same key, other
    -- than the all-zero one, deliver a packet. Both calls succeed, and the receiver's buffer holds
    -- the plaintext with the rest of it kept, its length and the encoded flag in the out-params.
    pub c_round_trip :
        (laws : AeadLaws a)
        → (version ≡ 1) ⊎ (version ≡ 2)
        → length key ≡ expresslane_key_size
        → key ≢ replicate expresslane_key_size 0
        → length sid ≡ 8
        → length iv ≡ 12
        → length plain ≤ 65535
        → c < 2 ^ 64
        → wire_overhead + length plain ≤ length buf
        → length plain ≤ length out
        → ((k : a.Key)
            → a.new_key key ≡ some k
            → (tag : List ℕ) × ((a.seal k iv
                  (aad_bytes (from_u8 version) sid c (flags_of enc))
                  plain).1
                ≡ some tag))
        → (sent.code ≡ success)
          × (sent.out_len ≡ some (wire_overhead + length plain))
          × (delivered.code ≡ success)
          × (delivered.out ≡ some (plain ++ drop (length plain) out))
          × (delivered.out_len ≡ some (length plain))
          × (delivered.is_encoded ≡ some enc)
    unfolding wire_overhead Session.new
    c_round_trip laws known whole usable es ei small hc fits room seals =
        let (k, made, ready) = sender a laws version key known whole usable in
        let (q, made', listening) = receiver a laws version key known whole usable in
        let (tag, et) = seals k made in
        let tx : State a = record (fresh a laws version key known whole usable) {
          current_self = some k;
          next_self = none;
          self_key_installed = true;
        } in
        let rx : State a = record (fresh a laws version key known whole usable) {
          rx = record ((fresh a laws version key known whole usable).rx) {
            current_peer = some q;
            prev_peer = none;
          };
          peer_key_installed = true;
        } in
        let sent_is =
          ap
            (λ h.
              encrypt a h c (some sid) (some plain) (length plain) (some iv) enc (some buf)
                (length buf) (some 0))
            ready
          ∙ sent_call a laws tx rx k c sid plain iv enc buf out tag es ei small fits refl et in
        let delivered_is =
          ap₂
            (λ h o.
              decrypt a h (some sid) o (wire_overhead + length plain) (some out) (length out)
                (some 0) (some false))
            listening (ap (λ t. t.out) sent_is)
          ∙ delivered_call a laws tx rx k c sid plain iv enc buf out tag es ei small fits refl et
              (sym made' ∙ made) refl hc room (would_reject-default c) in
        (
          ap (λ t. t.code) sent_is,
          ap (λ t. t.out_len) sent_is,
          ap (λ t. t.code) delivered_is,
          ap (λ t. t.out) delivered_is,
          ap (λ t. t.out_len) delivered_is,
          ap (λ t. t.is_encoded) delivered_is,
        )
