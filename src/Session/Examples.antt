-- ===== src/Session/Examples.antt =====
-- Sessions with the example cipher: two peers that exchange a packet.
use lightway_cffi.Base.{
  ℕ, ◌+◌, ◌%◌, ◌≤◌, ◌≡◌, ◌≢◌, refl, sym, ap, ◌∙◌, true, false, List, [], ◌∷◌, ◌++◌, arith, ◌⊎◌,
  length, drop, replicate, u64_mod, add64, ok, err,
}
use lightway_cffi.Base.Fields.{join}
use lightway_cffi.Data.{
  insufficient_data, version1, version2, version_ge, replayed, invalid_data, expresslane_key_size,
  to_u8, is_invalid, bytes_eq, invalid_sentinel,
}
use lightway_cffi.Cipher
use lightway_cffi.Session.{
  new, encrypt, decrypt, aad_bytes, flags_of, wire_overhead, reserve_counter, load_key,
  has_valid_keys, packets_received, update_peer_key, update_next_self_key, promote_self_key,
}
use lightway_cffi.Session.Aad.{aad_bytes-binds}
use lightway_cffi.Session.Packet.{packet, encrypt-packet}
use lightway_cffi.Session.Decrypt.{committed, wire_len, Decrypts, decrypt-Decrypts}
use lightway_cffi.Session.Verdict.{Authentic, decrypt_error, decrypt_success}
use lightway_cffi.Session.RoundTrip.{datagram, round_trip, round_trip_rotated}
use lightway_cffi.Session.Steps.{
  Op, reserve, promote, stage, install, send, receive, step, run, count_got,
}
use lightway_cffi.Session.Hint.{has_valid_keys-stays}
use lightway_cffi.Session.Lifetime.{decrypt_once, packets_received-run}
use lightway_cffi.Session.Counters.{reserve_counter_distinct}
use lightway_cffi.Session.Toy.{toy, toy_laws}
use lightway_cffi.Session.Peers.{
  key, new_key, sid, iv, plain, room, sender, receiver, rotated, tag, wire, sender_key,
  receiver_key, receiver_fresh, rotated_keys, rotated_fresh, same_version, sealed_tag,
  new_key_fails,
}

round_trip_example :
    decrypt toy receiver sid wire room
    ≡ (committed toy receiver 1, plain ++ drop (length plain) room, ok (length plain, true))
round_trip_example =
    round_trip toy toy_laws sender receiver 1 sid plain iv true room room key tag sender_key
      receiver_key (same_version.0 ∙ sym same_version.1) refl (omega arith) (omega arith)
      (omega arith) (omega arith) receiver_fresh sealed_tag

round_trip_rotated_example :
    decrypt toy rotated sid
      (datagram toy toy_laws sender rotated 1 sid plain iv true room room key tag)
      room
    ≡ (committed toy rotated 1, plain ++ drop (length plain) room, ok (length plain, true))
round_trip_rotated_example =
    round_trip_rotated toy toy_laws sender rotated 1 sid plain iv true room room key tag new_key
      sender_key rotated_keys.0 rotated_keys.1 new_key_fails (same_version.0 ∙ sym same_version.2)
      refl (omega arith) (omega arith) (omega arith) (omega arith) rotated_fresh sealed_tag

encrypt-packet_example : encrypt toy sender 1 sid plain iv true room ≡ (
  record sender { packets_sent = add64 sender.packets_sent 1 },
  join
      (packet 1 iv tag 2
        (flags_of true)
        (toy.seal key iv (aad_bytes sender.version sid 1 (flags_of true)) plain).0)
      (drop (wire_overhead + length plain) room),
  ok (wire_overhead + length plain),
)
encrypt-packet_example =
    encrypt-packet toy toy_laws sender 1 sid plain iv true room key tag sender_key refl
      (omega arith) (omega arith) sealed_tag

round_trip_accepts :
    decrypt toy receiver sid wire room
    ≡ (committed toy receiver 1, plain ++ drop (length plain) room, ok (length plain, true))
round_trip_accepts =
    round_trip toy toy_laws sender receiver 1 sid plain iv true room room key tag sender_key
      receiver_key (same_version.0 ∙ sym same_version.1) refl (omega arith) (omega arith)
      (omega arith) (omega arith) receiver_fresh sealed_tag

wire_whole : wire_overhead ≤ length wire
wire_whole =
    (decrypt_success toy toy_laws receiver sid wire room 2 true
      (ap (λ r. r.2) round_trip_accepts)).passes.header

too_short : (decrypt toy receiver sid sid room).2 ≡ err insufficient_data
unfolding decrypt
too_short = refl

old_version : version_ge version1 version2 ≡ false
unfolding version_ge to_u8
old_version = refl

decrypt_success_example : Authentic toy receiver sid wire room 2 true
decrypt_success_example =
    decrypt_success toy toy_laws receiver sid wire room 2 true (ap (λ r. r.2) round_trip_accepts)

decrypt-Decrypts_example : Decrypts toy receiver sid wire room (decrypt toy receiver sid wire room)
decrypt-Decrypts_example = decrypt-Decrypts toy toy_laws receiver sid wire room

-- A datagram that is too short.
decrypt_error_example :
    (decrypt toy receiver sid sid room ≡ (receiver, room, err insufficient_data))
    ⊎ ((insufficient_data ≡ invalid_data)
        × (decrypt toy receiver sid sid room ≡ (
          receiver,
          replicate (wire_len sid) 0 ++ drop (wire_len sid) room,
          err insufficient_data,
        )))
decrypt_error_example = decrypt_error toy toy_laws receiver sid sid room insufficient_data too_short

-- The same datagram again, after another key was installed.
decrypt_once_example :
    decrypt toy
      (run toy (decrypt toy receiver sid wire room).0 (install new_key ∷ []))
      sid
      wire
      room
    ≡ (run toy (decrypt toy receiver sid wire room).0 (install new_key ∷ []), room, err replayed)
decrypt_once_example =
    decrypt_once toy toy_laws version2 (install key ∷ []) (install new_key ∷ []) sid wire room sid
      wire room (2, true) (ap (λ r. r.2) round_trip_accepts) refl wire_whole

abbrev exchange : List Op
exchange =
    install key
    ∷ stage key
    ∷ promote
    ∷ reserve
    ∷ send 1 sid plain iv true room
    ∷ receive sid wire room
    ∷ reserve
    ∷ []

-- The self key is promoted between the two loads.
both_set :
    has_valid_keys
      (run toy (new version2) (install key ∷ stage key ∷ []))
      (run toy (new version2) (install key ∷ stage key ∷ promote ∷ []))
    ≡ true
unfolding has_valid_keys run step new update_peer_key update_next_self_key promote_self_key load_key
    Cipher.new is_invalid bytes_eq invalid_sentinel
both_set = refl

has_valid_keys-stays_example :
    has_valid_keys
      (run toy
        (run toy (new version2) (install key ∷ stage key ∷ []))
        (promote ∷ install new_key ∷ []))
      (run toy
        (run toy (new version2) (install key ∷ stage key ∷ promote ∷ []))
        (install new_key ∷ reserve ∷ promote ∷ []))
    ≡ true
has_valid_keys-stays_example =
    has_valid_keys-stays toy toy_laws (run toy (new version2) (install key ∷ stage key ∷ []))
      (run toy (new version2) (install key ∷ stage key ∷ promote ∷ []))
      (promote ∷ install new_key ∷ []) (install new_key ∷ reserve ∷ promote ∷ []) both_set

packets_received-run_example :
    packets_received (run toy (new version2) exchange)
    ≡ count_got toy (new version2) exchange % u64_mod
packets_received-run_example = packets_received-run toy toy_laws version2 exchange

reserve_counter_distinct_example :
    (reserve_counter (run toy (new version2) exchange)).1
    ≢ (reserve_counter
        (run toy (reserve_counter (run toy (new version2) exchange)).0 (reserve ∷ []))).1
reserve_counter_distinct_example =
    reserve_counter_distinct toy toy_laws version2 exchange (reserve ∷ []) (omega arith)

not_sentinel : new_key ≢ replicate expresslane_key_size 0
not_sentinel e = absurd (grind arith)

aad_bytes-binds_example :
    (sid ≡ sid)
    × ◌≡◌ {A = ℕ} 1 1
    × (version_ge version2 version2 ≡ true → flags_of true ≡ flags_of true)
aad_bytes-binds_example =
    aad_bytes-binds version2 sid sid 1 1 (flags_of true) (flags_of true) refl refl (omega arith)
      (omega arith) (omega arith) (omega arith) refl
