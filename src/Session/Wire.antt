-- ===== src/Session/Wire.antt =====
-- The fields that `decrypt` cuts out of a packet are those that `encrypt` wrote.
use lightway_cffi.Base.{
  ℕ, ◌+◌, ◌^◌, ◌<◌, ◌≡◌, refl, ap, ◌∙◌, List, [], ◌∷◌, arith, length, from_be-to_be_two,
  from_be-to_be_eight, to_be_bytes, from_be_bytes, length-to_be_bytes,
}
use lightway_cffi.Base.Fields.{join, slice-join, length-join}
use lightway_cffi.Session.{wire_overhead}
use lightway_cffi.Session.Packet.{packet}
use lightway_cffi.Session.Decrypt.{wire_counter, wire_iv, wire_tag, wire_len, wire_flags, wire_data}

-- The fields that `decrypt` cuts out of a packet.
module _ (c : ℕ) (iv tag : List ℕ) (flags : ℕ) (ct : List ℕ) (ei : length iv ≡ 12)
    (et : length tag ≡ 16) where
  abbrev wire : List ℕ
  wire = join (packet c iv tag (length ct) flags ct) []

  c8 : length (to_be_bytes 8 c) ≡ 8
  c8 = length-to_be_bytes 8 c

  n2 : length (to_be_bytes 2 (length ct)) ≡ 2
  n2 = length-to_be_bytes 2 (length ct)

  f2 : length (to_be_bytes 2 flags) ≡ 2
  f2 = length-to_be_bytes 2 flags

  length-wire : length wire ≡ wire_overhead + length ct
  length-wire = length-join (packet c iv tag (length ct) flags ct) [] ∙ omega (arith, c8, n2, f2)

  wire_counter-wire : c < 2 ^ 64 → wire_counter wire ≡ c
  wire_counter-wire h =
      ap (from_be_bytes 0) (
        slice-join [] (to_be_bytes 8 c)
          (iv ∷ tag ∷ to_be_bytes 2 (length ct) ∷ to_be_bytes 2 flags ∷ ct ∷ []) [] 0 8 refl
          (omega (arith, c8)))
      ∙ from_be-to_be_eight c h

  wire_iv-wire : wire_iv wire ≡ iv
  wire_iv-wire =
      slice-join (to_be_bytes 8 c ∷ []) iv
        (tag ∷ to_be_bytes 2 (length ct) ∷ to_be_bytes 2 flags ∷ ct ∷ []) [] 8 20
        (omega (arith, c8)) (omega arith)

  wire_tag-wire : wire_tag wire ≡ tag
  wire_tag-wire =
      slice-join (to_be_bytes 8 c ∷ iv ∷ []) tag
        (to_be_bytes 2 (length ct) ∷ to_be_bytes 2 flags ∷ ct ∷ []) [] 20 36 (omega (arith, c8))
        (omega arith)

  wire_len-wire : length ct < 2 ^ 16 → wire_len wire ≡ length ct
  wire_len-wire h =
      ap (from_be_bytes 0) (
        slice-join (to_be_bytes 8 c ∷ iv ∷ tag ∷ []) (to_be_bytes 2 (length ct))
          (to_be_bytes 2 flags ∷ ct ∷ []) [] 36 38 (omega (arith, c8)) (omega (arith, n2)))
      ∙ from_be-to_be_two (length ct) h

  wire_flags-wire : flags < 2 ^ 16 → wire_flags wire ≡ flags
  wire_flags-wire h =
      ap (from_be_bytes 0) (
        slice-join (to_be_bytes 8 c ∷ iv ∷ tag ∷ to_be_bytes 2 (length ct) ∷ [])
          (to_be_bytes 2 flags) (ct ∷ []) [] 38 40 (omega (arith, c8, n2)) (omega (arith, f2)))
      ∙ from_be-to_be_two flags h

  wire_data-wire : length ct < 2 ^ 16 → wire_data wire ≡ ct
  wire_data-wire h =
      slice-join (to_be_bytes 8 c ∷ iv ∷ tag ∷ to_be_bytes 2 (length ct) ∷ to_be_bytes 2 flags ∷ [])
        ct [] [] 40 _ (omega (arith, c8, n2, f2)) (ap (◌+◌ 40) (wire_len-wire h))

-- What `decrypt` reads from a datagram.
pub record Reads (wire : List ℕ) (c : ℕ) (iv tag : List ℕ) (flags : ℕ) (ct : List ℕ) : Type 0 where
  pub size : length wire ≡ wire_overhead + length ct
  pub counter : wire_counter wire ≡ c
  pub nonce : wire_iv wire ≡ iv
  pub mac : wire_tag wire ≡ tag
  pub len : wire_len wire ≡ length ct
  pub bits : wire_flags wire ≡ flags
  pub data_ : wire_data wire ≡ ct

pub packet-Reads :
    (c : ℕ) (iv tag : List ℕ) (flags : ℕ) (ct : List ℕ)
    → length iv ≡ 12
    → length tag ≡ 16
    → c < 2 ^ 64
    → flags < 2 ^ 16
    → length ct < 2 ^ 16
    → Reads (join (packet c iv tag (length ct) flags ct) []) c iv tag flags ct
packet-Reads c iv tag flags ct ei et hc hf hn = record {
  size = length-wire c iv tag flags ct ei et;
  counter = wire_counter-wire c iv tag flags ct ei et hc;
  nonce = wire_iv-wire c iv tag flags ct ei et;
  mac = wire_tag-wire c iv tag flags ct ei et;
  len = wire_len-wire c iv tag flags ct ei et hn;
  bits = wire_flags-wire c iv tag flags ct ei et hf;
  data_ = wire_data-wire c iv tag flags ct ei et hn;
}
