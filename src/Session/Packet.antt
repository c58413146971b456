-- ===== src/Session/Packet.antt =====
-- The wire layout of a packet, and `encrypt` as its writer.
use lightway_cffi.Base.{
  ℕ, ◌+◌, ◌≤◌, ◌≡◌, refl, sym, ap, ◌∙◌, Bool, Option, some, List, [], ◌∷◌, arith, length, take,
  drop, write_at, to_be_bytes, length-to_be_bytes, length-take, length-drop, take-drop_next,
  take-append-drop, add64, Result, ok,
}
use lightway_cffi.Base.Fields.{join, write_at-join, slice-join}
use lightway_cffi.Data.{ExpresslaneError, ExpresslaneVersion}
use lightway_cffi.Cipher.{Aead, AeadLaws}
use lightway_cffi.Cipher
use lightway_cffi.Session.{State, wire_overhead, flags_of, aad_bytes, seal_packet, encrypt}

-- 8 bytes of counter, 12 of iv, 16 of tag, 2 of length, 2 of flags, and the ciphertext.
abbrev pub packet : ℕ → List ℕ → List ℕ → ℕ → ℕ → List ℕ → List (List ℕ)
packet counter iv tag len flags ciphertext =
    to_be_bytes 8 counter ∷ iv ∷ tag ∷ to_be_bytes 2 len ∷ to_be_bytes 2 flags ∷ ciphertext ∷ []

-- The writes of `encrypt`, in its order, on a buffer that is cut into fields.
module _ (z8 z12 z16 z2 z2' zn rest iv plain : List ℕ) (e8 : length z8 ≡ 8) (e12 : length z12 ≡ 12)
    (e16 : length z16 ≡ 16) (e2 : length z2 ≡ 2) (e2' : length z2' ≡ 2)
    (en : length zn ≡ length plain) (ei : length iv ≡ 12) where
  filled :
      write_at (write_at (join (z8 ∷ z12 ∷ z16 ∷ z2 ∷ z2' ∷ zn ∷ []) rest) 8 iv) 40 plain
      ≡ join (z8 ∷ iv ∷ z16 ∷ z2 ∷ z2' ∷ plain ∷ []) rest
  filled =
      ap (λ t. write_at t 40 plain)
        (write_at-join (z8 ∷ []) z12 (z16 ∷ z2 ∷ z2' ∷ zn ∷ []) rest iv 8 (omega arith)
          (omega arith))
      ∙ write_at-join (z8 ∷ iv ∷ z16 ∷ z2 ∷ z2' ∷ []) zn [] rest plain 40 (omega arith)
          (omega arith)

  finished :
      (ct tag c8 l2 f2 : List ℕ)
      → length ct ≡ length plain
      → length tag ≡ 16
      → length c8 ≡ 8
      → length l2 ≡ 2
      → length f2 ≡ 2
      → write_at
          (write_at
            (write_at
              (write_at (write_at (join (z8 ∷ iv ∷ z16 ∷ z2 ∷ z2' ∷ plain ∷ []) rest) 40 ct) 0 c8)
              20
              tag)
            36
            l2)
          38
          f2
        ≡ join (c8 ∷ iv ∷ tag ∷ l2 ∷ f2 ∷ ct ∷ []) rest
  finished ct tag c8 l2 f2 ec et ec8 el ef =
      rw
        (
          write_at-join (z8 ∷ iv ∷ z16 ∷ z2 ∷ z2' ∷ []) plain [] rest ct 40 (omega arith)
              (omega arith),
          write_at-join [] z8 (iv ∷ z16 ∷ z2 ∷ z2' ∷ ct ∷ []) rest c8 0 (omega arith) (omega arith),
          write_at-join (c8 ∷ iv ∷ []) z16 (z2 ∷ z2' ∷ ct ∷ []) rest tag 20 (omega arith)
              (omega arith),
          write_at-join (c8 ∷ iv ∷ tag ∷ []) z2 (z2' ∷ ct ∷ []) rest l2 36 (omega arith)
              (omega arith),
          write_at-join (c8 ∷ iv ∷ tag ∷ l2 ∷ []) z2' (ct ∷ []) rest f2 38 (omega arith)
              (omega arith),
        )
        refl

module _ (a : Aead) (laws : AeadLaws a) (k : a.Key) (version : ExpresslaneVersion) (counter : ℕ)
    (sid plain iv : List ℕ) (enc : Bool) where
  abbrev pub sealed : List ℕ × Option (List ℕ)
  sealed = a.seal k iv (aad_bytes version sid counter (flags_of enc)) plain

  seal_packet_fields :
      (z8 z12 z16 z2 z2' zn rest : List ℕ) {tag : List ℕ}
      → length z8 ≡ 8
      → length z12 ≡ 12
      → length z16 ≡ 16
      → length z2 ≡ 2
      → length z2' ≡ 2
      → length zn ≡ length plain
      → length iv ≡ 12
      → sealed.1 ≡ some tag
      → seal_packet a k version counter sid plain iv enc
          (join (z8 ∷ z12 ∷ z16 ∷ z2 ∷ z2' ∷ zn ∷ []) rest)
        ≡ (
          join (packet counter iv tag (length plain) (flags_of enc) sealed.0) rest,
          ok (wire_overhead + length plain),
        )
  unfolding seal_packet
  seal_packet_fields z8 z12 z16 z2 z2' zn rest {tag} e8 e12 e16 e2 e2' en ei et =
      rw
        (
          filled z8 z12 z16 z2 z2' zn rest iv plain e8 e12 e16 e2 e2' en ei,
          slice-join (z8 ∷ iv ∷ z16 ∷ z2 ∷ z2' ∷ []) plain [] rest 40 (wire_overhead + length plain)
              (omega arith) refl,
          encrypt_sealed,
        )
        (ap {B = List ℕ × Result ℕ ExpresslaneError} (λ t. (t, ok (wire_overhead + length plain)))
          (finished z8 z12 z16 z2 z2' zn rest iv plain e8 e12 e16 e2 e2' en ei sealed.0 tag
            (to_be_bytes 8 counter) (to_be_bytes 2 (length plain)) (to_be_bytes 2 (flags_of enc))
            (laws.length-seal k iv _ plain) (laws.length-tag k iv _ plain et)
            (length-to_be_bytes 8 counter) (length-to_be_bytes 2 (length plain))
            (length-to_be_bytes 2 (flags_of enc))))
    where
      encrypt_sealed :
          Cipher.encrypt a k iv (aad_bytes version sid counter (flags_of enc)) plain
          ≡ (sealed.0, ok tag)
      encrypt_sealed = Cipher.encrypt_seal a laws k iv _ plain et

  seal_packet-packet :
      (out : List ℕ) {tag : List ℕ}
      → wire_overhead + length plain ≤ length out
      → length iv ≡ 12
      → sealed.1 ≡ some tag
      → seal_packet a k version counter sid plain iv enc out ≡ (
        join
            (packet counter iv tag (length plain) (flags_of enc) sealed.0)
            (drop (wire_overhead + length plain) out),
        ok (wire_overhead + length plain),
      )
  seal_packet-packet out fits ei et =
      ap (seal_packet a k version counter sid plain iv enc) (sym cut_up)
      ∙ seal_packet_fields _ _ _ _ _ _ (drop (wire_overhead + length plain) out)
          (field 8 0 (omega arith)) (field 12 8 (omega arith)) (field 16 20 (omega arith))
          (field 2 36 (omega arith)) (field 2 38 (omega arith))
          (field (length plain) 40 (omega arith)) ei et
    where
      seg : ℕ → ℕ → List ℕ
      seg n at = take n (drop at out)

      cut_up :
          join
            (take 8 out ∷ seg 12 8 ∷ seg 16 20 ∷ seg 2 36 ∷ seg 2 38 ∷ seg (length plain) 40 ∷ [])
            (drop (wire_overhead + length plain) out)
          ≡ out
      cut_up =
          rw
            (
              take-drop_next (length plain) 40 _ out refl,
              take-drop_next 2 38 40 out refl,
              take-drop_next 2 36 38 out refl,
              take-drop_next 16 20 36 out refl,
              take-drop_next 12 8 20 out refl,
            )
            (take-append-drop 8 out)

      field : (n at : ℕ) → at + n ≤ length out → length (seg n at) ≡ n
      field n at h = omega (arith, length-take n (drop at out), length-drop at out)

-- With a key, an iv of 12 bytes, a payload that the length field can hold and room in `out`,
-- `encrypt` writes the packet's fields in order, leaves the bytes behind it alone, counts the
-- packet, changes nothing else of the session and returns the packet's length.
pub encrypt-packet :
    (a : Aead) (laws : AeadLaws a) (s : State a) (counter : ℕ) (sid plain iv : List ℕ) (enc : Bool)
    (out : List ℕ) (k : a.Key) (tag : List ℕ)
    → s.current_self ≡ some k
    → length iv ≡ 12
    → length plain ≤ 65535
    → wire_overhead + length plain ≤ length out
    → (a.seal k iv (aad_bytes s.version sid counter (flags_of enc)) plain).1 ≡ some tag
    → encrypt a s counter sid plain iv enc out ≡ (
      record s { packets_sent = add64 s.packets_sent 1 },
      join
          (packet counter iv tag
            (length plain)
            (flags_of enc)
            (a.seal k iv (aad_bytes s.version sid counter (flags_of enc)) plain).0)
          (drop (wire_overhead + length plain) out),
      ok (wire_overhead + length plain),
    )
unfolding encrypt
encrypt-packet a laws s counter sid plain iv enc out k tag key ei small fits et =
    ground (arith, seal_packet-packet a laws k s.version counter sid plain iv enc out fits ei et)
