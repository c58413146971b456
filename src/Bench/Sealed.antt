-- ===== src/Bench/Sealed.antt =====
-- The packets of a slot: what the session and the ChaCha arm write there.
use lightway_cffi.Base.{
  ℕ, ◌+◌, ◌≤◌, ◌<◌, ◌^◌, ◌≡◌, refl, sym, ap, ◌∙◌, subst, some, List, [], ◌∷◌, arith, length, slice,
  write_at, replicate, to_be_bytes, length-to_be_bytes, length-write_at, take_all, from_be_bytes,
}
use mathlib.Core.List.{append_assoc, append-nil}
use lightway_cffi.Base.Fields.{join, write_at-join, slice-join, length-join}
use lightway_cffi.Data.{version2}
use lightway_cffi.Cipher.{Aead, AeadLaws}
use lightway_cffi.Session.{wire_overhead, aad_bytes}
use lightway_cffi.Session.Packet.{packet}
use lightway_cffi.Session.Wire.{Reads, packet-Reads}
use lightway_cffi.Bench.Pool.{iv_for, aad_v2, seal_cc}

pub length-iv_for : (c : ℕ) → length (iv_for c) ≡ 12
unfolding iv_for
length-iv_for c =
    length-write_at (replicate 12 0) 0 (to_be_bytes 8 c) (omega (arith, length-to_be_bytes 8 c))

-- The associated data of the benchmark's own arms is the session's, for a session id of 8 bytes.
pub aad_v2-aad_bytes :
    (sid : List ℕ) (c flags : ℕ)
    → length sid ≡ 8
    → aad_bytes version2 sid c flags ≡ aad_v2 sid c flags
unfolding aad_bytes aad_v2
aad_v2-aad_bytes sid c flags h = take_all _ 18 (
    sym (
      length-write_at _ 16 (to_be_bytes 2 flags) (omega (arith, two, length-to_be_bytes 2 flags))
      ∙ two))
  where
    one : length (write_at (replicate 18 0) 0 sid) ≡ 18
    one = length-write_at (replicate 18 0) 0 sid (omega arith)

    two : length (write_at (write_at (replicate 18 0) 0 sid) 8 (to_be_bytes 8 c)) ≡ 18
    two = length-write_at _ 8 (to_be_bytes 8 c) (omega (arith, one, length-to_be_bytes 8 c)) ∙ one

module _ (a : Aead) where
  -- What a slot holds: the packet of version 2 under the slot's counter, nonce and flags 0.
  pub record IsPacket (k : a.Key) (sid : List ℕ) (counter : ℕ) (payload w : List ℕ) : Type 0 where
    pub tag : List ℕ
    pub seals : (a.seal k (iv_for counter) (aad_v2 sid counter 0) payload).1 ≡ some tag
    pub is :
        w
        ≡ join
            (packet counter
              (iv_for counter)
              tag
              (length payload)
              0
              (a.seal k (iv_for counter) (aad_v2 sid counter 0) payload).0)
            []

  pub IsPacket-Reads :
      AeadLaws a
      → (k : a.Key) (sid : List ℕ) (counter : ℕ) (payload w : List ℕ)
        (h : IsPacket k sid counter payload w)
      → counter < 2 ^ 64
      → length payload ≤ 65535
      → Reads w counter
          (iv_for counter)
          h.tag
          0
          (a.seal k (iv_for counter) (aad_v2 sid counter 0) payload).0
  IsPacket-Reads laws k sid counter payload w h hc small =
      subst (λ v. Reads v counter (iv_for counter) h.tag 0 ct)
        (sym (h.is ∙ ap (λ n. join (packet counter (iv_for counter) h.tag n 0 ct) []) (sym same)))
        (packet-Reads counter (iv_for counter) h.tag 0 ct (length-iv_for counter)
          (laws.length-tag k _ _ payload h.seals) hc (omega arith) (omega (arith, same)))
    where
      ct : List ℕ
      ct = (a.seal k (iv_for counter) (aad_v2 sid counter 0) payload).0

      same : length ct ≡ length payload
      same = laws.length-seal k _ _ payload

module _ (cc : Aead) (laws : AeadLaws cc) (c : cc.Key) (sid plain iv wire : List ℕ)
    (counter base : ℕ) (h8 h12 h16 h2 f2 : List ℕ) (e8 : length h8 ≡ 8) (e12 : length h12 ≡ 12)
    (e16 : length h16 ≡ 16) (e2 : length h2 ≡ 2) (ef : length f2 ≡ 2)
    (header : slice wire base (base + wire_overhead) ≡ join (h8 ∷ h12 ∷ h16 ∷ h2 ∷ f2 ∷ []) [])
    (flags : slice wire (base + 38) (base + 40) ≡ f2) where
  abbrev pub ct : List ℕ
  ct = (cc.seal c iv (aad_v2 sid counter (from_be_bytes 0 f2)) plain).0

  pub seal_cc_fields :
      (before head body rest tag : List ℕ)
      → length before ≡ base
      → length head ≡ wire_overhead
      → length body ≡ length plain
      → (cc.seal c iv (aad_v2 sid counter (from_be_bytes 0 f2)) plain).1 ≡ some tag
      → seal_cc cc c sid plain counter base iv wire (join (before ∷ head ∷ body ∷ []) rest)
        ≡ some (join (before ∷ h8 ∷ h12 ∷ tag ∷ h2 ∷ f2 ∷ ct ∷ []) rest)
  unfolding seal_cc
  seal_cc_fields before head body rest tag eb eh en et =
      rw
        (
          header,
          flags,
          write_at-join (before ∷ []) head (body ∷ []) rest whole base (omega arith)
              (omega (arith, length_whole)),
          write_at-join (before ∷ whole ∷ []) body [] rest plain (base + wire_overhead)
              (omega (arith, length_whole)) (omega arith),
          slice-join (before ∷ whole ∷ []) plain [] rest (base + wire_overhead)
              (base + wire_overhead + length plain) (omega (arith, length_whole)) refl,
          et,
          write_at-join (before ∷ whole ∷ []) plain [] rest ct (base + wire_overhead)
              (omega (arith, length_whole)) (laws.length-seal c _ _ plain),
          cut_up,
        )
        (ap some (
          write_at-join (before ∷ h8 ∷ h12 ∷ []) h16 (h2 ∷ f2 ∷ ct ∷ []) rest tag (base + 20)
            (omega arith) (laws.length-tag c _ _ plain et ∙ sym e16)))
    where
      whole : List ℕ
      whole = join (h8 ∷ h12 ∷ h16 ∷ h2 ∷ f2 ∷ []) []

      length_whole : length whole ≡ wire_overhead
      length_whole = length-join (h8 ∷ h12 ∷ h16 ∷ h2 ∷ f2 ∷ []) [] ∙ omega arith

      cut_up :
          join (before ∷ whole ∷ ct ∷ []) rest
          ≡ join (before ∷ h8 ∷ h12 ∷ h16 ∷ h2 ∷ f2 ∷ ct ∷ []) rest
      cut_up = simp (append_assoc, append-nil)
