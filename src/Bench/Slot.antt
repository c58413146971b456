-- ===== src/Bench/Slot.antt =====
-- What the building of a pool does to one slot.
use lightway_cffi.Base.{
  ℕ, ◌+◌, ◌*◌, ◌≤◌, ◌≡◌, refl, sym, ap, ◌∙◌, subst, some, List, [], ◌∷◌, ◌++◌, arith, length, take,
  drop, slice, write_at, to_be_bytes, add64, length-to_be_bytes, length-take, length-drop,
  from_be_bytes, from_be-to_be_two, take-append-drop, take-drop_next,
}
use lightway_cffi.Base.Fields.{join, width, slice-join, take-width-join}
use lightway_cffi.Base.Slices.{leb-true, length-slice, slice-slice, slice-write_at_self}
use lightway_cffi.Cipher.{Aead, AeadLaws, SealsPackets}
use lightway_cffi.Session.{State, wire_overhead}
use lightway_cffi.Session.Packet.{packet}
use lightway_cffi.Bench.Pool.{iv_for, aad_v2, seal_cc, seal_slot}
use lightway_cffi.Bench.Sealed.{length-iv_for, IsPacket, seal_cc_fields}
use lightway_cffi.Bench.Sent.{write_at-join_all, Sends, length-IsPacket, encrypt-IsPacket}

module _ (cc : Aead) (laws : AeadLaws cc) (can : SealsPackets cc) (c : cc.Key) (sid : List ℕ) where
  -- The ChaCha packet takes over the header of the packet of the session.
  seal_cc-IsPacket :
      (payload wire wire_cc : List ℕ) (counter base : ℕ) (tag' ct' : List ℕ)
      → length payload ≤ 65535
      → base + (wire_overhead + length payload) ≤ length wire_cc
      → length tag' ≡ 16
      → slice wire base (base + (wire_overhead + length payload))
        ≡ join (packet counter (iv_for counter) tag' (length payload) 0 ct') []
      → (w : List ℕ) × IsPacket cc c sid counter payload w
        × (seal_cc cc c sid payload counter base (iv_for counter) wire wire_cc
            ≡ some (write_at wire_cc base w))
  seal_cc-IsPacket payload wire wire_cc counter base tag' ct' small room et' ew =
      let (tag, et) =
        can.seal_ok c (iv_for counter) (aad_v2 sid counter 0) payload (length-iv_for counter)
          small in
      (_, record { tag = tag; seals = et; is = refl }, sealed tag et)
    where
      n : ℕ
      n = wire_overhead + length payload

      fields : List (List ℕ)
      fields =
          to_be_bytes 8 counter
          ∷ iv_for counter
          ∷ tag'
          ∷ to_be_bytes 2 (length payload)
          ∷ to_be_bytes 2 0
          ∷ []

      seg : ℕ → ℕ → List ℕ
      seg m at = take m (drop at wire_cc)

      cut_up :
          join
            (take base wire_cc
              ∷ seg wire_overhead base
              ∷ seg (length payload) (base + wire_overhead)
              ∷ [])
            (drop (base + n) wire_cc)
          ≡ wire_cc
      cut_up =
          rw
            (
              take-drop_next (length payload) (base + wire_overhead) (base + n) wire_cc
                  (omega arith),
              take-drop_next wire_overhead base (base + wire_overhead) wire_cc refl,
            )
            (take-append-drop base wire_cc)

      width_fields : wire_overhead ≡ width fields
      width_fields = omega (
        arith,
        length-to_be_bytes 8 counter,
        length-iv_for counter,
        length-to_be_bytes 2 (length payload),
        length-to_be_bytes 2 0,
      )

      header : slice wire base (base + wire_overhead) ≡ join fields []
      header =
          ap (λ b. slice wire b (base + wire_overhead)) {x = base} {y = base + 0} (omega arith)
          ∙ sym (slice-slice wire base n 0 wire_overhead (omega arith))
          ∙ ap (λ t. slice t 0 wire_overhead) ew
          ∙ take-width-join fields (ct' ++ []) wire_overhead width_fields

      flags : slice wire (base + 38) (base + 40) ≡ to_be_bytes 2 0
      flags =
          sym (slice-slice wire base n 38 40 (omega arith))
          ∙ ap (λ t. slice t 38 40) ew
          ∙ slice-join
              (to_be_bytes 8 counter ∷ iv_for counter ∷ tag' ∷ to_be_bytes 2 (length payload) ∷ [])
              (to_be_bytes 2 0) (ct' ∷ []) [] 38 40
              (omega (arith, width_fields, length-to_be_bytes 2 0))
              (omega (arith, length-to_be_bytes 2 0))

      no_flags : from_be_bytes 0 (to_be_bytes 2 0) ≡ 0
      no_flags = from_be-to_be_two 0 (omega arith)

      sealed :
          (tag : List ℕ)
          → (cc.seal c (iv_for counter) (aad_v2 sid counter 0) payload).1 ≡ some tag
          → seal_cc cc c sid payload counter base (iv_for counter) wire wire_cc
            ≡ some (
                write_at wire_cc base (
                  join
                    (packet counter
                      (iv_for counter)
                      tag
                      (length payload)
                      0
                      (cc.seal c (iv_for counter) (aad_v2 sid counter 0) payload).0)
                    []))
      sealed tag et =
          ap (seal_cc cc c sid payload counter base (iv_for counter) wire) (sym cut_up)
          ∙ seal_cc_fields cc laws c sid payload (iv_for counter) wire counter base
              (to_be_bytes 8 counter) (iv_for counter) tag' (to_be_bytes 2 (length payload))
              (to_be_bytes 2 0) (length-to_be_bytes 8 counter) (length-iv_for counter) et'
              (length-to_be_bytes 2 (length payload)) (length-to_be_bytes 2 0) header flags
              (take base wire_cc) (seg wire_overhead base)
              (seg (length payload) (base + wire_overhead)) (drop (base + n) wire_cc) tag
              (omega (arith, length-take base wire_cc))
              (omega
                (arith, length-take wire_overhead (drop base wire_cc), length-drop base wire_cc))
              (omega (
                arith,
                length-take (length payload) (drop (base + wire_overhead) wire_cc),
                length-drop (base + wire_overhead) wire_cc,
              ))
              (subst (λ f. (cc.seal c (iv_for counter) (aad_v2 sid counter f) payload).1 ≡ some tag)
                (sym no_flags) et)
          ∙ ap some (
              write_at-join_all wire_cc base n
                (packet counter (iv_for counter) tag (length payload) 0
                  (cc.seal c (iv_for counter)
                    (aad_v2 sid counter (from_be_bytes 0 (to_be_bytes 2 0))) payload).0)
                (subst
                  (λ f.
                    length (
                      join
                        (packet counter (iv_for counter) tag (length payload) 0
                          (cc.seal c (iv_for counter) (aad_v2 sid counter f) payload).0)
                        [])
                    ≡ n)
                  (sym no_flags)
                  (length-IsPacket cc laws c sid counter payload _
                    (record { tag = tag; seals = et; is = refl })))
              ∙ ap
                  (λ f. write_at wire_cc base (
                    join
                      (packet counter (iv_for counter) tag (length payload) 0
                        (cc.seal c (iv_for counter) (aad_v2 sid counter f) payload).0)
                      []))
                  no_flags)

module _ (ring cc : Aead) (laws : AeadLaws ring) (cc_laws : AeadLaws cc) (can : SealsPackets ring)
    (cc_can : SealsPackets cc) (k : ring.Key) (c : cc.Key) (sid : List ℕ)
    (es : length sid ≡ 8) where
  -- A slot of a pool gets a packet of each cipher, of its payload and under its counter.
  pub seal_slot-IsPacket :
      (len stride i : ℕ) (plain wire wire_cc : List ℕ) (tx : State ring)
      → Sends ring k tx
      → len ≤ 65535
      → i * stride + wire_overhead + len ≤ length plain
      → i * stride + wire_overhead + len ≤ length wire
      → i * stride + wire_overhead + len ≤ length wire_cc
      → let payload = slice plain (i * stride) (i * stride + len) in
        (tx' : State ring) × Sends ring k tx'
        × (w : List ℕ) × IsPacket ring k sid (i + 1) payload w
        × (wc : List ℕ) × IsPacket cc c sid (i + 1) payload wc
        × (seal_slot ring cc c sid len stride plain i tx wire wire_cc
            ≡ some (tx', write_at wire (i * stride) w, write_at wire_cc (i * stride) wc))
  unfolding seal_slot
  seal_slot-IsPacket len stride i plain wire wire_cc tx s small rp rw_ rc =
      let (w, pw, ew) =
        encrypt-IsPacket ring laws can k sid es tx (i + 1) payload out s small_payload length_out in
      let (wc, pc, ec) =
        seal_cc-IsPacket cc cc_laws cc_can c sid payload (write_at wire (i * stride) w) wire_cc
          (i + 1) (i * stride) pw.tag _ small_payload (omega (arith, length_payload))
          (laws.length-tag k _ _ payload pw.seals)
          (slice-write_at_self wire w (i * stride) (i * stride + (wire_overhead + length payload))
              (omega (arith, length-IsPacket ring laws k sid (i + 1) payload w pw)) (omega arith)
            ∙ pw.is) in
      (
        record tx { packets_sent = add64 tx.packets_sent 1 },
        record { key = s.key; version = s.version },
        w,
        pw,
        wc,
        pc,
        rw
            (
              leb-true (i * stride + len) (length plain) (omega (arith, rp)),
              leb-true _ _ rw_,
              leb-true _ _ rc,
              ew,
              ec,
            )
            refl,
      )
    where
      payload : List ℕ
      payload = slice plain (i * stride) (i * stride + len)

      out : List ℕ
      out = slice wire (i * stride) (i * stride + wire_overhead + len)

      length_payload : length payload ≡ len
      length_payload =
          length-slice plain (i * stride) (i * stride + len) (omega arith) (omega arith)
          ∙ omega arith

      small_payload : length payload ≤ 65535
      small_payload = omega (arith, length_payload)

      length_out : length out ≡ wire_overhead + length payload
      length_out =
          length-slice wire (i * stride) (i * stride + wire_overhead + len) (omega arith)
            (omega arith)
          ∙ omega (arith, length_payload)
