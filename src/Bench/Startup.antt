-- ===== src/Bench/Startup.antt =====
-- lightway-expresslane-bench/src/main.rs: the self-test.
use lightway_cffi.Base.{
  ℕ, ◌+◌, ◌*◌, ◌≤◌, ◌<◌, ◌≡◌, refl, sym, ap, ◌∙◌, true, false, some, List, arith, length, slice,
  from_be_bytes, ok, ◌==◌,
}
use lightway_cffi.Cipher.{Aead, AeadLaws}
use lightway_cffi.Session.{State, wire_overhead, decrypt}
use lightway_cffi.Session.Keys.{bytes_eq_refl}
use lightway_cffi.Bench.Pool.{Src, aad_v2, iv_for}
use lightway_cffi.Bench.Arms.{Providers}
use lightway_cffi.Bench.Sealed.{IsPacket-Reads}
use lightway_cffi.Bench.Filled.{Holds, payload_at, packet_at}
use lightway_cffi.Bench.Built.{IsPool}
use lightway_cffi.Bench.Agree.{SameCipher, ProviderLaws, IsPacket-SameCipher}
use lightway_cffi.Bench.Commits.{Receives, decrypt-Receives}
use lightway_cffi.Bench.Runner.{Keys, fresh_rx, SelfTest, self_test}
use lightway_cffi.Session.Wire.{Reads}
use lightway_cffi.Bench.Sent.{length-IsPacket}
use lightway_cffi.Base.Slices.{leb-true, slice-inside, length-slice}

abbrev pub all_true : (p : Providers) → SelfTest p
all_true p = record {
  rc_roundtrip = true;
  ring_roundtrip = true;
  cc_roundtrip = true;
  session_roundtrip = true;
  cross_provider_ct = true;
}

-- How the packet of the first slot reads.
module _ (a : Aead) (laws : AeadLaws a) (k : a.Key) (sid : List ℕ) (len stride : ℕ)
    (plain wire : List ℕ) (small : len ≤ 65535) (el : length (payload_at len stride plain 0) ≡ len)
    (h : Holds a k sid len stride plain wire 0) where
  abbrev sealed : List ℕ
  sealed = (a.seal k (iv_for 1) (aad_v2 sid 1 0) (payload_at len stride plain 0)).0

  first-Reads : Reads (packet_at len stride wire 0) 1 (iv_for 1) h.tag 0 sealed
  first-Reads =
      IsPacket-Reads a laws k sid 1 (payload_at len stride plain 0) (packet_at len stride wire 0) h
        (omega arith) (omega (arith, el))

  first_text : slice (packet_at len stride wire 0) wire_overhead (wire_overhead + len) ≡ sealed
  first_text =
      ap (λ n. slice (packet_at len stride wire 0) wire_overhead (wire_overhead + n))
        (sym (laws.length-seal k _ _ _ ∙ el) ∙ sym first-Reads.len)
      ∙ first-Reads.data_

  -- The packet opens to the payload.
  opens_first :
      a.unseal k
        (iv_for 1)
        (aad_v2 sid 1 0)
        (slice (packet_at len stride wire 0) wire_overhead (wire_overhead + len))
        (slice (packet_at len stride wire 0) 20 36)
      ≡ (payload_at len stride plain 0, true)
  opens_first =
      (λ i. a.unseal k (iv_for 1) (aad_v2 sid 1 0) (first_text i) (first-Reads.mac i))
      ∙ laws.unseal-seal k (iv_for 1) (aad_v2 sid 1 0) (payload_at len stride plain 0) h.seals

module _ (p : Providers) (laws : ProviderLaws p) (keys : Keys p) (src : Src)
    (pool : IsPool p.ring p.cc keys.ring_key keys.cc_key src.session_id src)
    (same : SameCipher p.ring p.rc keys.ring_key keys.rc_key) (es : length src.session_id ≡ 8)
    (some_slots : 0 < src.slots) where
  abbrev expected : List ℕ
  expected = payload_at src.len src.stride src.plain 0

  abbrev w : List ℕ
  w = packet_at src.len src.stride src.wire 0

  abbrev aad : List ℕ
  aad = aad_v2 src.session_id 1 0

  length-expected : length expected ≡ src.len
  length-expected =
      length-slice src.plain (0 * src.stride) (0 * src.stride + src.len) (omega arith) inside
      ∙ omega arith
    where
      inside : 0 * src.stride + src.len ≤ length src.plain
      inside = grind (arith, pool.size, pool.room)

  abbrev held : Holds p.ring keys.ring_key src.session_id src.len src.stride src.plain src.wire 0
  held = pool.holds 0 some_slots

  header : Reads w 1 (iv_for 1) held.tag 0 (p.ring.seal keys.ring_key (iv_for 1) aad expected).0
  header =
      first-Reads p.ring laws.ring_laws keys.ring_key src.session_id src.len src.stride src.plain
        src.wire pool.small length-expected held

  abbrev Opens : (a : Aead) → a.Key → List ℕ → Type 0
  Opens a k wire =
      a.unseal k (iv_for 1) aad
        (slice (packet_at src.len src.stride wire 0) wire_overhead (wire_overhead + src.len))
        (slice (packet_at src.len src.stride wire 0) 20 36)
      ≡ (expected, true)

  ring-Opens : Opens p.ring keys.ring_key src.wire
  ring-Opens =
      opens_first p.ring laws.ring_laws keys.ring_key src.session_id src.len src.stride src.plain
        src.wire pool.small length-expected held

  rc-Opens : Opens p.rc keys.rc_key src.wire
  rc-Opens =
      opens_first p.rc laws.rc_laws keys.rc_key src.session_id src.len src.stride src.plain src.wire
        pool.small length-expected
        (IsPacket-SameCipher p.ring p.rc keys.ring_key keys.rc_key same src.session_id 1 expected w
          held)

  cc-Opens : Opens p.cc keys.cc_key src.wire_cc
  cc-Opens =
      opens_first p.cc laws.cc_laws keys.cc_key src.session_id src.len src.stride src.plain
        src.wire_cc pool.small length-expected (pool.holds_cc 0 some_slots)

  aad_read :
      aad_v2 src.session_id (from_be_bytes 0 (slice w 0 8)) (from_be_bytes 0 (slice w 38 40)) ≡ aad
  aad_read i = aad_v2 src.session_id (header.counter i) (header.bits i)

  -- The session takes the packet, and returns the whole payload.
  session_opened :
      (rx : State p.ring) (out : List ℕ)
      → Receives p.ring keys.ring_key 0 rx
      → length out ≡ src.len
      → (rx' : State p.ring) × (decrypt p.ring rx src.session_id w out
          ≡ (rx', expected, ok (src.len, false)))
  session_opened rx out fresh eo =
      let (rx', after, e) =
        decrypt-Receives p.ring laws.ring_laws keys.ring_key src.session_id es src.len src.stride
          src.plain src.wire pool.small 0 rx out fresh (omega arith) length-expected eo held in
      (rx', e)

  whole : (src.len == src.len) ≡ true
  whole = ground arith

  -- The first slot starts at 0.
  first_payload : slice src.plain 0 src.len ≡ expected
  first_payload i = slice src.plain (start i) (end i)
    where
      start : 0 ≡ 0 * src.stride
      start = omega arith

      end : src.len ≡ 0 * src.stride + src.len
      end = omega arith

  first_packet :
      (wire : List ℕ) → slice wire 0 (wire_overhead + src.len) ≡ packet_at src.len src.stride wire 0
  first_packet wire i = slice wire (start i) (end i)
    where
      start : 0 ≡ 0 * src.stride
      start = omega arith

      end : wire_overhead + src.len ≡ 0 * src.stride + wire_overhead + src.len
      end = omega arith

  -- The self-test passes.
  pub self_test_passes :
      (rx : State p.ring)
      → fresh_rx p keys ≡ some rx
      → Receives p.ring keys.ring_key 0 rx
      → self_test p keys src ≡ some (all_true p)
  unfolding self_test
  self_test_passes rx fresh_is fresh =
      let (rx', opened) = session_opened rx expected fresh length-expected in
      rw
        (
          leb-true _ _ room,
          leb-true _ _ room_cc,
          leb-true _ _ room_plain,
          fresh_is,
          first_payload,
          first_packet src.wire,
          first_packet src.wire_cc,
          aad_read,
          header.nonce,
          same.same (iv_for 1) aad expected,
          held.seals,
          rc-Opens,
          ring-Opens,
          cc-Opens,
          opened,
          bytes_eq_refl expected,
          whole,
          bytes_eq_refl (p.ring.seal keys.ring_key (iv_for 1) aad expected).0,
          bytes_eq_refl held.tag,
        )
        refl
    where
      full :
          (wire : List ℕ)
          → length (packet_at src.len src.stride wire 0) ≡ wire_overhead + src.len
          → wire_overhead + src.len ≤ length wire
      full wire h = omega (
        arith,
        slice-inside wire 0 (wire_overhead + src.len) (omega arith) (
            ap (λ e. length (slice wire 0 e)) {x = 0 + (wire_overhead + src.len)}
              {y = wire_overhead + src.len} (omega arith)
            ∙ ap length (first_packet wire)
            ∙ h),
      )

      room : wire_overhead + src.len ≤ length src.wire
      room = full src.wire (
          length-IsPacket p.ring laws.ring_laws keys.ring_key src.session_id 1 expected _ held
          ∙ omega (arith, length-expected))

      room_cc : wire_overhead + src.len ≤ length src.wire_cc
      room_cc = full src.wire_cc (
          length-IsPacket p.cc laws.cc_laws keys.cc_key src.session_id 1 expected _
            (pool.holds_cc 0 some_slots)
          ∙ omega (arith, length-expected))

      room_plain : src.len ≤ length src.plain
      room_plain = grind (arith, pool.size, pool.room)
