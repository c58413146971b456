-- ===== src/Bench/Sent.antt =====
-- The sender of the benchmark, and the packet that it writes.
use mathlib.Core.List.{append_assoc}
use lightway_cffi.Base.{
  ℕ, ◌+◌, ◌≤◌, ◌≡◌, refl, sym, ap, ap₂, ◌∙◌, subst, false, some, List, [], ◌∷◌, ◌++◌, arith, length,
  take, drop, write_at, add64, length-to_be_bytes, ok,
}
use lightway_cffi.Base.Fields.{join, length-join}
use lightway_cffi.Base.Slices.{drop_all}
use lightway_cffi.Data.{version2}
use lightway_cffi.Cipher.{Aead, AeadLaws, SealsPackets}
use lightway_cffi.Session.{State, wire_overhead, aad_bytes, encrypt}
use lightway_cffi.Session.Packet.{packet, encrypt-packet}
use lightway_cffi.Bench.Pool.{iv_for, aad_v2}
use lightway_cffi.Bench.Sealed.{length-iv_for, aad_v2-aad_bytes, IsPacket}

join-append_rest : (fs : List (List ℕ)) (rest : List ℕ) → join fs rest ≡ join fs [] ++ rest
join-append_rest [] rest = refl
join-append_rest (f ∷ fs) rest =
    ap (◌++◌ f) (join-append_rest fs rest) ∙ sym (append_assoc f (join fs []) rest)

-- Fields between what stands before and behind them are a write.
pub write_at-join_all :
    (buf : List ℕ) (at n : ℕ) (fs : List (List ℕ))
    → length (join fs []) ≡ n
    → join (take at buf ∷ fs) (drop (at + n) buf) ≡ write_at buf at (join fs [])
unfolding write_at
write_at-join_all buf at n fs h =
    ap (◌++◌ (take at buf))
      (join-append_rest fs (drop (at + n) buf) ∙ ap (λ m. join fs [] ++ drop (at + m) buf) (sym h))

-- A sender of the benchmark, under a key.
pub record Sends (a : Aead) (k : a.Key) (s : State a) : Type 0 where
  pub key : s.current_self ≡ some k
  pub version : s.version ≡ version2

pub length-IsPacket :
    (a : Aead) (laws : AeadLaws a) (k : a.Key) (sid : List ℕ) (counter : ℕ) (payload w : List ℕ)
    → IsPacket a k sid counter payload w
    → length w ≡ wire_overhead + length payload
length-IsPacket a laws k sid counter payload w h =
    ap length h.is
    ∙ length-join (packet counter (iv_for counter) h.tag (length payload) 0 _) []
    ∙ omega (
      arith,
      length-to_be_bytes 8 counter,
      length-iv_for counter,
      laws.length-tag k _ _ payload h.seals,
      length-to_be_bytes 2 (length payload),
      length-to_be_bytes 2 0,
      laws.length-seal k (iv_for counter) (aad_v2 sid counter 0) payload,
    )

module _ (ring : Aead) (laws : AeadLaws ring) (can : SealsPackets ring) (k : ring.Key)
    (sid : List ℕ) (es : length sid ≡ 8) where
  -- The session writes the packet into a segment of its size.
  pub encrypt-IsPacket :
      (tx : State ring) (counter : ℕ) (payload out : List ℕ)
      → Sends ring k tx
      → length payload ≤ 65535
      → length out ≡ wire_overhead + length payload
      → (w : List ℕ) × IsPacket ring k sid counter payload w
        × (encrypt ring tx counter sid payload (iv_for counter) false out ≡ (
          record tx { packets_sent = add64 tx.packets_sent 1 },
          w,
          ok (wire_overhead + length payload),
        ))
  encrypt-IsPacket tx counter payload out s small eo =
      let (tag, et) =
        can.seal_ok k (iv_for counter) (aad_v2 sid counter 0) payload (length-iv_for counter)
          small in
      (_, record { tag = tag; seals = et; is = refl }, written tag et)
    where
      aad : aad_bytes tx.version sid counter 0 ≡ aad_v2 sid counter 0
      aad = ap (λ v. aad_bytes v sid counter 0) s.version ∙ aad_v2-aad_bytes sid counter 0 es

      written :
          (tag : List ℕ)
          → (ring.seal k (iv_for counter) (aad_v2 sid counter 0) payload).1 ≡ some tag
          → encrypt ring tx counter sid payload (iv_for counter) false out ≡ (
            record tx { packets_sent = add64 tx.packets_sent 1 },
            join
                (packet counter
                  (iv_for counter)
                  tag
                  (length payload)
                  0
                  (ring.seal k (iv_for counter) (aad_v2 sid counter 0) payload).0)
                [],
            ok (wire_overhead + length payload),
          )
      written tag et =
          encrypt-packet ring laws tx counter sid payload (iv_for counter) false out k tag s.key
            (length-iv_for counter) small (omega arith)
            (subst (λ t. (ring.seal k (iv_for counter) t payload).1 ≡ some tag) (sym aad) et)
          ∙ ap₂
              (λ t rest. (
                record tx { packets_sent = add64 tx.packets_sent 1 },
                join
                    (packet counter (iv_for counter) tag (length payload) 0
                      (ring.seal k (iv_for counter) t payload).0)
                    rest,
                ok (wire_overhead + length payload),
              ))
              aad (drop_all (wire_overhead + length payload) out (omega arith))
