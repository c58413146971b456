-- ===== src/Session/RoundTrip.antt =====
-- `decrypt` reads what `encrypt` writes.
use lightway_cffi.Base.{
  ℕ, ◌+◌, ◌^◌, ◌≤◌, ◌<◌, ◌≡◌, refl, sym, ap, ap₂, subst, ◌∙◌, Bool, true, false, not, some, List,
  [], ◌++◌, arith, length, take, drop, length-to_be_bytes, bit_and, ◌==◌, Result, ok,
}
use lightway_cffi.Base.Fields.{join, width, take-width-join}
use lightway_cffi.Data.{ExpresslaneError}
use lightway_cffi.Cipher.{Aead, AeadLaws}
use lightway_cffi.Replay.{would_reject}
use lightway_cffi.Session.{
  State, wire_overhead, flag_encoded, flags_of, aad_bytes, encrypt, decrypt,
}
use lightway_cffi.Session.Wire.{Reads, packet-Reads}
use lightway_cffi.Session.Packet.{packet, encrypt-packet}
use lightway_cffi.Session.Decrypt.{
  wire_counter, wire_len, wire_encoded, committed, unseal_wire, Opens, current, previous, Passes,
  Decrypts, short, replay, truncated, no_room, no_key, forged, opened, decrypt-Decrypts,
}

some-injective : {A : Type 0} {x y : A} → some x ≡ some y → x ≡ y
some-injective {A} {x} {y} e = grind arith

module _ (a : Aead) (laws : AeadLaws a) where
  -- At most one key opens a packet.
  Opens-same :
      (s : State a) (sid wire : List ℕ) {k q : a.Key}
      → Opens a s sid wire k
      → (unseal_wire a s sid wire k).1 ≡ true
      → Opens a s sid wire q
      → (unseal_wire a s sid wire q).1 ≡ true
      → q ≡ k
  Opens-same s sid wire (current e) good (current e') good' = grind arith
  Opens-same s sid wire (current e) good (previous c e' bad f) good' = absurd (grind arith)
  Opens-same s sid wire (previous c e bad f) good (current e') good' = absurd (grind arith)
  Opens-same s sid wire (previous c e bad f) good (previous c' e' bad' f') good' = grind arith

  -- A packet that passes the checks and that a key opens is accepted.
  opened_decrypt :
      (s : State a) (sid wire out : List ℕ) (k : a.Key)
      → Passes a s wire out
      → Opens a s sid wire k
      → (unseal_wire a s sid wire k).1 ≡ true
      → {r : State a × List ℕ × Result (ℕ × Bool) ExpresslaneError} → Decrypts a s sid wire out r
      → r ≡ (
        committed a s (wire_counter wire),
        (unseal_wire a s sid wire k).0 ++ drop (wire_len wire) out,
        ok (wire_len wire, wire_encoded wire),
      )
  opened_decrypt s sid wire out k p o good (short h e) = absurd (omega (arith, p.header))
  opened_decrypt s sid wire out k p o good (replay _ h e) = absurd (grind (arith, p.not_replayed))
  opened_decrypt s sid wire out k p o good (truncated _ _ h e) = absurd (omega (arith, p.payload))
  opened_decrypt s sid wire out k p o good (no_room _ _ h e) = absurd (omega (arith, p.room))
  opened_decrypt s sid wire out k p (current f) good (no_key _ h e) = absurd (grind arith)
  opened_decrypt s sid wire out k p (previous c f _ _) good (no_key _ h e) = absurd (grind arith)
  opened_decrypt s sid wire out k p o good (forged _ _ _ h e) = absurd (grind (arith, h k o))
  opened_decrypt s sid wire out k p o good (opened _ q o' good' e) =
      e
      ∙ ap
          (λ j. (
            committed a s (wire_counter wire),
            (unseal_wire a s sid wire j).0 ++ drop (wire_len wire) out,
            ok (wire_len wire, wire_encoded wire),
          ))
          (Opens-same s sid wire o good o' good')

  module _ (s : State a) (sid wire : List ℕ) (c : ℕ) (iv tag : List ℕ) (flags : ℕ) (ct : List ℕ)
      (r : Reads wire c iv tag flags ct) where
    abbrev opened_by : a.Key → List ℕ × Bool
    opened_by k = a.unseal k iv (aad_bytes s.version sid c flags) ct tag

    unseal_wire-Reads : (k : a.Key) → unseal_wire a s sid wire k ≡ opened_by k
    unseal_wire-Reads k = cc

    pub delivered :
        (k : a.Key) (plain out : List ℕ)
        → would_reject s.rx.replay_window c ≡ false
        → length ct ≤ length out
        → Opens a s sid wire k
        → opened_by k ≡ (plain, true)
        → decrypt a s sid wire out ≡ (
          committed a s c,
          plain ++ drop (length ct) out,
          ok (length ct, not (bit_and flags flag_encoded == 0)),
        )
    delivered k plain out fresh room o e =
        opened_decrypt s sid wire out k passes o (ap (λ t. t.1) (unseal_wire-Reads k ∙ e))
          (decrypt-Decrypts a laws s sid wire out)
        ∙ rw (r.counter, r.len, r.bits)
            (ap
              (λ t. (
                committed a s c,
                t.0 ++ drop (length ct) out,
                ok (length ct, not (bit_and flags flag_encoded == 0)),
              ))
              (unseal_wire-Reads k ∙ e))
      where
        passes : Passes a s wire out
        passes = record {
          header = omega (arith, r.size);
          not_replayed = rw r.counter fresh;
          payload = omega (arith, r.size, r.len);
          room = omega (arith, r.len);
        }

  flags_of-lt : (enc : Bool) → flags_of enc < 2 ^ 16
  flags_of-lt true = omega arith
  flags_of-lt false = omega arith

  encoded-flags_of : (enc : Bool) → not (bit_and (flags_of enc) flag_encoded == 0) ≡ enc
  encoded-flags_of true = refl
  encoded-flags_of false = refl

  module _ (tx rx : State a) (c : ℕ) (sid plain iv : List ℕ) (enc : Bool) (buf out : List ℕ)
      (k : a.Key) (tag : List ℕ) where
    -- The associated data that the sender computes.
    abbrev pub bound : List ℕ
    bound = aad_bytes tx.version sid c (flags_of enc)

    -- What the sender puts on the network: the bytes that `encrypt` says it wrote.
    abbrev pub datagram : List ℕ
    datagram = take (wire_overhead + length plain) (encrypt a tx c sid plain iv enc buf).1

    abbrev pub sealed : List ℕ
    sealed = (a.seal k iv bound plain).0

    datagram-Reads :
        tx.current_self ≡ some k
        → length iv ≡ 12
        → length plain ≤ 65535
        → c < 2 ^ 64
        → wire_overhead + length plain ≤ length buf
        → (a.seal k iv bound plain).1 ≡ some tag
        → Reads datagram c iv tag (flags_of enc) sealed
    datagram-Reads key ei small hc fits et =
        subst (λ w. Reads w c iv tag (flags_of enc) sealed) (sym as_packet)
          (packet-Reads c iv tag (flags_of enc) sealed ei (laws.length-tag k iv bound plain et) hc
            (flags_of-lt enc) (omega (arith, laws.length-seal k iv bound plain)))
      where
        fields : ℕ → List (List ℕ)
        fields n = packet c iv tag n (flags_of enc) sealed

        width_fields : wire_overhead + length plain ≡ width (fields (length plain))
        width_fields = omega (
          arith,
          length-to_be_bytes 8 c,
          length-to_be_bytes 2 (length plain),
          length-to_be_bytes 2 (flags_of enc),
          laws.length-seal k iv bound plain,
          laws.length-tag k iv bound plain et,
        )

        as_packet : datagram ≡ join (fields (length sealed)) []
        as_packet =
            ap (λ t. take (wire_overhead + length plain) t.1)
              (encrypt-packet a laws tx c sid plain iv enc buf k tag key ei small fits et)
            ∙ take-width-join (fields (length plain)) (drop (wire_overhead + length plain) buf) _
                width_fields
            ∙ ap (λ n. join (fields n) []) (sym (laws.length-seal k iv bound plain))

    delivered_plain :
        tx.version ≡ rx.version
        → length plain ≤ length out
        → would_reject rx.rx.replay_window c ≡ false
        → (a.seal k iv bound plain).1 ≡ some tag
        → Reads datagram c iv tag (flags_of enc) sealed
        → Opens a rx sid datagram k
        → decrypt a rx sid datagram out
          ≡ (committed a rx c, plain ++ drop (length plain) out, ok (length plain, enc))
    delivered_plain same room fresh et r o =
        delivered rx sid datagram c iv tag (flags_of enc) sealed r k plain out fresh
          (omega (arith, laws.length-seal k iv bound plain)) o
          (ap (λ v. a.unseal k iv (aad_bytes v sid c (flags_of enc)) sealed tag) (sym same)
            ∙ laws.unseal-seal k iv bound plain et)
        ∙ ap₂ (λ n b. (committed a rx c, plain ++ drop n out, ok (n, b)))
            (laws.length-seal k iv bound plain) (encoded-flags_of enc)

    -- What `encrypt` writes under a key, `decrypt` opens for a receiver whose current key it is,
    -- when the versions agree and the counter is fresh: it returns the plaintext, its length and
    -- the encoded flag, keeps the rest of the buffer, and commits the counter.
    pub round_trip :
        tx.current_self ≡ some k
        → rx.rx.current_peer ≡ some k
        → tx.version ≡ rx.version
        → length iv ≡ 12
        → length plain ≤ 65535
        → c < 2 ^ 64
        → wire_overhead + length plain ≤ length buf
        → length plain ≤ length out
        → would_reject rx.rx.replay_window c ≡ false
        → (a.seal k iv bound plain).1 ≡ some tag
        → decrypt a rx sid datagram out
          ≡ (committed a rx c, plain ++ drop (length plain) out, ok (length plain, enc))
    round_trip key peer same ei small hc fits room fresh et =
        delivered_plain same room fresh et (datagram-Reads key ei small hc fits et) (current peer)

    -- A packet still in flight when its receiver rotates is not lost: the previous key opens it
    -- after the current one fails, whatever that failure left in the buffer.
    pub round_trip_rotated :
        (q : a.Key)
        → tx.current_self ≡ some k
        → rx.rx.current_peer ≡ some q
        → rx.rx.prev_peer ≡ some k
        → (a.unseal q iv bound sealed tag).1 ≡ false
        → tx.version ≡ rx.version
        → length iv ≡ 12
        → length plain ≤ 65535
        → c < 2 ^ 64
        → wire_overhead + length plain ≤ length buf
        → length plain ≤ length out
        → would_reject rx.rx.replay_window c ≡ false
        → (a.seal k iv bound plain).1 ≡ some tag
        → decrypt a rx sid datagram out
          ≡ (committed a rx c, plain ++ drop (length plain) out, ok (length plain, enc))
    round_trip_rotated q key cur prev bad same ei small hc fits room fresh et =
        delivered_plain same room fresh et r (previous q cur bad' prev)
      where
        r : Reads datagram c iv tag (flags_of enc) sealed
        r = datagram-Reads key ei small hc fits et

        bad' : (unseal_wire a rx sid datagram q).1 ≡ false
        bad' =
            ap (λ t. t.1)
              (unseal_wire-Reads rx sid datagram c iv tag (flags_of enc) sealed r q
                ∙ ap (λ v. a.unseal q iv (aad_bytes v sid c (flags_of enc)) sealed tag) (sym same))
            ∙ bad
