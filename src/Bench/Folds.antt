-- ===== src/Bench/Folds.antt =====
-- What an encrypting arm folds in a pass.
use lightway_cffi.Base.{
  ℕ, zero, suc, ◌+◌, ◌*◌, ◌^◌, ◌≤◌, ◌<◌, ◌≡◌, refl, sym, ap, ◌∙◌, subst, Option, some, List, arith,
  length, slice, get_or, bit_xor, rotate_one, from_le_bytes,
}
use lightway_cffi.Base.Slices.{slice-slice}
use lightway_cffi.Cipher.{Aead, AeadLaws, SealsPackets}
use lightway_cffi.Session.{wire_overhead}
use lightway_cffi.Session.Wire.{Reads}
use lightway_cffi.Bench.Pool.{Src, Sched, iv_for, aad_v2}
use lightway_cffi.Bench.Arms.{Providers, Ctx, Pass, fold, fold_tag, slot_of, fold_of, seal_payload}
use lightway_cffi.Bench.Passes.{each, sealed_body}
use lightway_cffi.Bench.Sealed.{IsPacket, IsPacket-Reads, length-iv_for}
use lightway_cffi.Bench.Filled.{payload_at}
use lightway_cffi.Bench.Built.{IsPool}
use lightway_cffi.Bench.Visits.{each_all}
use lightway_cffi.Bench.Recovers.{length-payload_at}

-- What has been folded and counted after `i` rounds of sealing.
unfoldable pub sealed_sum : (a : Aead) → a.Key → List ℕ → Src → Sched → ℕ → ℕ × ℕ
sealed_sum a k sid src sch zero = (0, 0)
sealed_sum a k sid src sch (suc i) =
    let (ct, tag) =
      seal_payload a k sid (get_or sch.slot i 0)
        (payload_at src.len src.stride src.plain (get_or sch.slot i 0)) in
    let (acc, done) = sealed_sum a k sid src sch i in
    let (acc', done') = fold_tag acc done tag in (fold acc' ct (get_or sch.fold i 0), done')

-- The bytes that the session's arm folds out of a packet are those of the tag and the ciphertext.
pub fold_packet :
    (a : Aead) (laws : AeadLaws a) (k : a.Key) (sid : List ℕ) (counter : ℕ) (payload w : List ℕ)
    (acc off : ℕ) (h : IsPacket a k sid counter payload w)
    → counter < 2 ^ 64
    → length payload ≤ 65535
    → off + 8 ≤ length payload
    → fold (fold acc w 20) w (wire_overhead + off)
      ≡ fold (fold acc h.tag 0) (a.seal k (iv_for counter) (aad_v2 sid counter 0) payload).0 off
fold_packet a laws k sid counter payload w acc off h hc small inside = λ i.
    bit_xor (rotate_one (bit_xor (rotate_one acc) (from_le_bytes (tag_bytes i))))
      (from_le_bytes (ct_bytes i))
  where
    ct : List ℕ
    ct = (a.seal k (iv_for counter) (aad_v2 sid counter 0) payload).0

    r : Reads w counter (iv_for counter) h.tag 0 ct
    r = IsPacket-Reads a laws k sid counter payload w h hc small

    tag_bytes : slice w 20 (20 + 8) ≡ slice h.tag 0 (0 + 8)
    tag_bytes = sym (slice-slice w 20 16 0 8 (omega arith)) ∙ ap (λ t. slice t 0 8) r.mac

    ct_bytes : slice w (wire_overhead + off) (wire_overhead + off + 8) ≡ slice ct off (off + 8)
    ct_bytes =
        ap (slice w (wire_overhead + off)) {y = wire_overhead + (off + 8)} (omega arith)
        ∙ sym (
            slice-slice w wire_overhead (length ct) off (off + 8)
              (omega (arith, laws.length-seal k (iv_for counter) (aad_v2 sid counter 0) payload)))
        ∙ ap (λ n. slice (slice w wire_overhead (wire_overhead + n)) off (off + 8)) (sym r.len)
        ∙ ap (λ t. slice t off (off + 8)) r.data_

module _ (p : Providers) (x : Ctx p) (src : Src)
    (pool : IsPool p.ring p.cc x.ring_key x.cc_key x.sid src) (few : src.slots ≤ 2 ^ 32)
    (sch : Sched) (visits : (i : ℕ) → i < sch.n → slot_of p sch i < src.slots) where
  abbrev pub payload_in : ℕ → List ℕ
  payload_in i = payload_at src.len src.stride src.plain (slot_of p sch i)

  module _ (a : Aead) (can : SealsPackets a) (k : a.Key) where
    abbrev pub sum_to : ℕ → ℕ × ℕ
    sum_to i = sealed_sum a k x.sid src sch i

    abbrev pub Sums : ℕ → Pass p → Type 0
    Sums i t = (t.acc ≡ (sum_to i).0) × (t.done ≡ (sum_to i).1)

    abbrev pub sealed_in : ℕ → List ℕ × Option (List ℕ)
    sealed_in i = seal_payload a k x.sid (slot_of p sch i) (payload_in i)

    sealed_body-Sums :
        (i base : ℕ) (t : Pass p)
        → Sums i t
        → Sums (suc i) (sealed_body p sch i base t (sealed_in i))
    unfolding sealed_body sealed_sum
    sealed_body-Sums i base t (ea, ed) = (
      λ j. fold (fold_tag (ea j) (ed j) (sealed_in i).1).0 (sealed_in i).0 (fold_of p sch i),
      λ j. (fold_tag (ea j) (ed j) (sealed_in i).1).1,
    )

    -- A seal never fails, so every round is counted.
    counted : (i : ℕ) → i ≤ sch.n → (sum_to i).1 ≡ i
    unfolding sealed_sum
    counted zero h = refl
    counted (suc i) h =
        let (tag, e) =
          can.seal_ok k (iv_for (slot_of p sch i + 1)) (aad_v2 x.sid (slot_of p sch i + 1) 0)
            (payload_in i) (length-iv_for (slot_of p sch i + 1)) small in
        ap (λ o. (fold_tag (sum_to i).0 (sum_to i).1 o).1) (sealed_tag tag e)
        ∙ omega (arith, counted i (omega arith))
      where
        small : length (payload_in i) ≤ 65535
        small = omega (
          arith,
          length-payload_at p x src sch pool few visits (slot_of p sch i) (visits i (omega arith)),
          pool.small,
        )

        sealed_tag :
            (tag : List ℕ)
            → (a.seal k
                (iv_for (slot_of p sch i + 1))
                (aad_v2 x.sid (slot_of p sch i + 1) 0)
                (payload_in i)).1
              ≡ some tag
            → (sealed_in i).1 ≡ some tag
        sealed_tag tag e = unfold seal_payload in e

    -- What a pass has folded and counted when it has sealed the payload of every round.
    abbrev pub Folded : Pass p → Type 0
    Folded t = (t.acc ≡ (sum_to sch.n).0) × (t.done ≡ sch.n)

    pub from-Sums : (t : Pass p) → Sums sch.n t → Folded t
    from-Sums t k = (k.0, k.1 ∙ counted sch.n (omega arith))

    pub each-Folded :
        (body : ℕ → Pass p → Pass p) (t : Pass p)
        → ((i : ℕ) (t : Pass p)
            → body i t ≡ sealed_body p sch i (slot_of p sch i * src.stride) t (sealed_in i))
        → t.acc ≡ 0
        → t.done ≡ 0
        → Folded (each p body sch.n 0 t)
    unfolding sealed_sum
    each-Folded body t same ea ed = from-Sums (each p body sch.n 0 t) (
        each_all p body sch.n Sums
          (λ i t h k.
            subst (Sums (suc i)) (sym (same i t))
              (sealed_body-Sums i (slot_of p sch i * src.stride) t k))
          t (ea, ed))
