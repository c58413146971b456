-- ===== src/Bench/Recovers.antt =====
-- lightway-expresslane-bench/src/arms.rs: the rounds of the arms that decrypt.
use lightway_cffi.Base.{
  ℕ, zero, suc, ◌+◌, ◌*◌, ◌^◌, ◌≤◌, ◌<◌, ◌≡◌, refl, sym, ap, ◌∙◌, true, List, arith, length, slice,
  get_or,
}
use lightway_cffi.Base.Slices.{length-slice}
use lightway_cffi.Cipher.{Aead, AeadLaws}
use lightway_cffi.Session.{wire_overhead}
use lightway_cffi.Session.Wire.{Reads}
use lightway_cffi.Bench.Pool.{Src, Sched, iv_for, aad_v2}
use lightway_cffi.Bench.Arms.{Providers, Ctx, Pass, fold, slot_of, fold_of, open_packet}
use lightway_cffi.Bench.Passes.{each, opened_body}
use lightway_cffi.Bench.Sealed.{IsPacket-Reads}
use lightway_cffi.Bench.Visits.{each_all}
use lightway_cffi.Bench.Built.{IsPool}
use lightway_cffi.Bench.Filled.{Holds, payload_at, packet_at}

-- What an arm that recovers the payloads has folded after `i` rounds.
unfoldable pub checksum : Src → Sched → ℕ → ℕ
checksum src sch zero = 0
checksum src sch (suc i) =
    fold (checksum src sch i) (payload_at src.len src.stride src.plain (get_or sch.slot i 0))
      (get_or sch.fold i 0)

-- An AEAD opens the packet of a slot to its payload.
open_packet-Holds :
    (a : Aead) (laws : AeadLaws a) (k : a.Key) (sid : List ℕ) (len stride : ℕ) (plain wire : List ℕ)
    (j : ℕ)
    → length (payload_at len stride plain j) ≡ len
    → len ≤ 65535
    → j + 1 < 2 ^ 64
    → Holds a k sid len stride plain wire j
    → open_packet a k sid len (packet_at len stride wire j) ≡ (payload_at len stride plain j, true)
unfolding open_packet
open_packet-Holds a laws k sid len stride plain wire j el small hj h =
    (λ i. a.unseal k (r.nonce i) (aad_v2 sid (r.counter i) (r.bits i)) (text i) (r.mac i))
    ∙ (laws.unseal-seal k (iv_for (j + 1)) (aad_v2 sid (j + 1) 0) (payload_at len stride plain j)
        h.seals)
  where
    ct : List ℕ
    ct = (a.seal k (iv_for (j + 1)) (aad_v2 sid (j + 1) 0) (payload_at len stride plain j)).0

    r : Reads (packet_at len stride wire j) (j + 1) (iv_for (j + 1)) h.tag 0 ct
    r =
        IsPacket-Reads a laws k sid (j + 1) (payload_at len stride plain j)
          (packet_at len stride wire j) h hj (omega (arith, el))

    length_ct : length ct ≡ len
    length_ct = laws.length-seal k _ _ _ ∙ el

    text : slice (packet_at len stride wire j) wire_overhead (wire_overhead + len) ≡ ct
    text =
        ap (λ n. slice (packet_at len stride wire j) wire_overhead (wire_overhead + n))
          (sym length_ct ∙ sym r.len)
        ∙ r.data_

-- A body that folds the payload of its slot and counts a success.
abbrev pub Recovers : (p : Providers) → Src → Sched → ℕ → Pass p → Pass p → Type 0
Recovers p src sch i t u =
    (u.acc
      ≡ fold t.acc (payload_at src.len src.stride src.plain (slot_of p sch i)) (fold_of p sch i))
    × (u.done ≡ t.done + 1)

-- All rounds of such a body.
pub each-Recovers :
    (p : Providers) (src : Src) (sch : Sched) (body : ℕ → Pass p → Pass p) (t : Pass p)
    → ((i : ℕ) (t : Pass p) → i < sch.n → Recovers p src sch i t (body i t))
    → t.acc ≡ 0
    → t.done ≡ 0
    → ((each p body sch.n 0 t).acc ≡ checksum src sch sch.n)
      × ((each p body sch.n 0 t).done ≡ sch.n)
unfolding checksum
each-Recovers p src sch body t round ea ed =
    each_all p body sch.n (λ i t. (t.acc ≡ checksum src sch i) × (t.done ≡ i))
      (λ i t h k. (
        (round i t h).0
            ∙ ap
                (λ a.
                  fold a (payload_at src.len src.stride src.plain (slot_of p sch i))
                    (fold_of p sch i))
                k.0,
        omega (arith, (round i t h).1, k.1),
      ))
      t (ea, ed)

module _ (p : Providers) (x : Ctx p) (src : Src) (sch : Sched)
    (pool : IsPool p.ring p.cc x.ring_key x.cc_key x.sid src) (few : src.slots ≤ 2 ^ 32)
    (visits : (i : ℕ) → i < sch.n → slot_of p sch i < src.slots) where
  pub length-payload_at :
      (j : ℕ) → j < src.slots → length (payload_at src.len src.stride src.plain j) ≡ src.len
  length-payload_at j h =
      length-slice src.plain (j * src.stride) (j * src.stride + src.len) (omega arith) inside
      ∙ omega arith
    where
      inside : j * src.stride + src.len ≤ length src.plain
      inside = grind (arith, pool.size, pool.room)

  -- A round that opens the packet of its slot.
  pub opened_body-Recovers :
      (a : Aead) (laws : AeadLaws a) (k : a.Key) (wire : List ℕ)
      → ((j : ℕ) → j < src.slots → Holds a k x.sid src.len src.stride src.plain wire j)
      → (i : ℕ) (t : Pass p) → i < sch.n
      → Recovers p src sch i t (
          opened_body p sch i
            (slot_of p sch i * src.stride)
            t
            (open_packet a k x.sid src.len (packet_at src.len src.stride wire (slot_of p sch i))))
  unfolding opened_body
  opened_body-Recovers a laws k wire holds i t h = rw opens (refl, refl)
    where
      opens :
          open_packet a k x.sid src.len (packet_at src.len src.stride wire (slot_of p sch i))
          ≡ (payload_at src.len src.stride src.plain (slot_of p sch i), true)
      opens =
          open_packet-Holds a laws k x.sid src.len src.stride src.plain wire (slot_of p sch i)
            (length-payload_at (slot_of p sch i) (visits i h)) pool.small
            (omega (arith, visits i h, few)) (holds (slot_of p sch i) (visits i h))
