-- ===== src/Capi/Packets/Examples.antt =====
-- The C interface with the example cipher.
use lightway_cffi.Base.{
  ◌+◌, ◌≡◌, ◌≢◌, refl, true, false, some, ◌++◌, arith, length, drop, replicate, inr,
}
use lightway_cffi.Data.{expresslane_key_size}
use lightway_cffi.Session.Toy.{toy, toy_laws, toy_tag}
use lightway_cffi.Session.Peers.{key, sid, iv, plain, room, receiver}
use lightway_cffi.Session
use lightway_cffi.Capi.{
  success, null_pointer, err_insufficient_data, ffi_guard, wire_overhead, from_error,
}
use lightway_cffi.Capi.Packets.{decrypt, decrypt_body, decrypt_end}
use lightway_cffi.Capi.Packets.RoundTrip.{sent, delivered, c_round_trip}

not_sentinel : key ≢ replicate expresslane_key_size 0
not_sentinel e = absurd (grind arith)

c_round_trip_example :
    ((sent toy 2 1 key sid plain iv true room room).code ≡ success)
    × ((sent toy 2 1 key sid plain iv true room room).out_len ≡ some (wire_overhead + length plain))
    × ((delivered toy 2 1 key sid plain iv true room room).code ≡ success)
    × ((delivered toy 2 1 key sid plain iv true room room).out
        ≡ some (plain ++ drop (length plain) room))
    × ((delivered toy 2 1 key sid plain iv true room room).out_len ≡ some (length plain))
    × ((delivered toy 2 1 key sid plain iv true room room).is_encoded ≡ some true)
unfolding wire_overhead
c_round_trip_example =
    c_round_trip toy 2 1 key sid plain iv true room room toy_laws (inr refl) refl not_sentinel refl
      refl (omega arith) (omega arith) (omega arith) (omega arith)
      (λ k made. (toy_tag k iv _ plain, refl))

-- A datagram of 8 bytes.
too_short :
    decrypt toy (some receiver) (some sid) (some sid) 8 (some room) 64 (some 7) (some true)
    ≡ record {
      session = some receiver;
      out = some room;
      out_len = some 0;
      is_encoded = some false;
      code = err_insufficient_data;
    }
unfolding decrypt decrypt_body decrypt_end ffi_guard from_error Session.decrypt
too_short = refl

not_success : err_insufficient_data ≢ success
not_success e = absurd (grind arith)

not_null : err_insufficient_data ≢ null_pointer
not_null e = absurd (grind arith)
