-- ===== src/Session/Peers.antt =====
-- Sessions with the example cipher: a sender and its receivers.
use lightway_cffi.Base.{
  ℕ, ◌≡◌, refl, ap, true, false, some, List, [], ◌∷◌, replicate, to_be_bytes, write_at,
}
use lightway_cffi.Data.{version2, version_ge, to_u8, bytes_eq, is_invalid, invalid_sentinel}
use lightway_cffi.Cipher.{Aead}
use lightway_cffi.Cipher
use lightway_cffi.Replay.Runs.{would_reject-default}
use lightway_cffi.Replay.{would_reject}
use lightway_cffi.Session.{
  State, new, aad_bytes, flags_of, update_peer_key, update_next_self_key, load_key, build_aad,
  promote_self_key,
}
use lightway_cffi.Session.RoundTrip.{datagram}
use lightway_cffi.Session.Steps.{promote, stage, install, run, step}
use lightway_cffi.Session.Toy.{toy, toy_laws, toy_tag, checksum}

abbrev pub key : List ℕ
key = replicate 32 7

abbrev pub new_key : List ℕ
new_key = replicate 32 9

abbrev pub sid : List ℕ
sid = 1 ∷ 2 ∷ 3 ∷ 4 ∷ 5 ∷ 6 ∷ 7 ∷ 8 ∷ []

abbrev pub iv : List ℕ
iv = replicate 12 5

abbrev pub plain : List ℕ
plain = 72 ∷ 105 ∷ []

abbrev pub room : List ℕ
room = replicate 64 0

-- A sender and a receiver with the same key, and a receiver that has rotated since.
abbrev pub sender : State toy
sender = run toy (new version2) (stage key ∷ promote ∷ [])

abbrev pub receiver : State toy
receiver = run toy (new version2) (install key ∷ [])

abbrev pub rotated : State toy
rotated = run toy (new version2) (install key ∷ install new_key ∷ [])

abbrev pub tag : List ℕ
tag = toy_tag key iv (aad_bytes version2 sid 1 (flags_of true)) plain

abbrev pub wire : List ℕ
wire = datagram toy toy_laws sender receiver 1 sid plain iv true room room key tag

pub sender_key : sender.current_self ≡ some key
unfolding run step new update_next_self_key promote_self_key load_key Cipher.new is_invalid bytes_eq
    invalid_sentinel
sender_key = refl

pub receiver_key : receiver.rx.current_peer ≡ some key
unfolding run step new update_peer_key load_key Cipher.new is_invalid bytes_eq invalid_sentinel
receiver_key = refl

pub receiver_fresh : would_reject receiver.rx.replay_window 1 ≡ false
unfolding run step new update_peer_key load_key Cipher.new is_invalid bytes_eq invalid_sentinel
receiver_fresh = would_reject-default 1

pub rotated_keys : (rotated.rx.current_peer ≡ some new_key) × (rotated.rx.prev_peer ≡ some key)
unfolding run step new update_peer_key load_key Cipher.new is_invalid bytes_eq invalid_sentinel
rotated_keys = (refl, refl)

pub rotated_fresh : would_reject rotated.rx.replay_window 1 ≡ false
unfolding run step new update_peer_key load_key Cipher.new is_invalid bytes_eq invalid_sentinel
rotated_fresh = would_reject-default 1

pub same_version :
    (sender.version ≡ version2) × (receiver.version ≡ version2) × (rotated.version ≡ version2)
unfolding run step new update_peer_key update_next_self_key promote_self_key load_key Cipher.new
    is_invalid bytes_eq invalid_sentinel
same_version = (refl, refl, refl)

pub sealed_tag :
    (toy.seal key iv (aad_bytes sender.version sid 1 (flags_of true)) plain).1 ≡ some tag
sealed_tag =
    ap (λ v. some (toy_tag key iv (aad_bytes v sid 1 (flags_of true)) plain)) same_version.0

pub new_key_fails :
    (toy.unseal new_key iv (aad_bytes sender.version sid 1 (flags_of true)) plain tag).1 ≡ false
unfolding run step new update_next_self_key promote_self_key load_key Cipher.new is_invalid bytes_eq
    invalid_sentinel aad_bytes build_aad toy_tag checksum version_ge to_u8 to_be_bytes write_at
new_key_fails = refl
