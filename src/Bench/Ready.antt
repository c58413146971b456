-- ===== src/Bench/Ready.antt =====
-- What every arm leaves for the next one: a buffer of the pool's size, and a sender with the key.
use lightway_cffi.Base.{
  ℕ, ◌+◌, ◌*◌, ◌^◌, ◌≤◌, ◌<◌, ◌≡◌, sym, ◌∙◌, subst, List, arith, length, write_at, length-write_at,
}
use lightway_cffi.Base.Slices.{length-slice}
use lightway_cffi.Cipher.{Aead, AeadLaws}
use lightway_cffi.Session.{wire_overhead}
use lightway_cffi.Bench.Pool.{Src, Sched}
use lightway_cffi.Bench.Arms.{Providers, Ctx, Pass, start, slot_of, open_packet, seal_payload}
use lightway_cffi.Bench.Passes.{
  each, null_pass, copy_pass, opened_body, sealed_body, null_body, copy_body,
}
use lightway_cffi.Bench.Sent.{Sends, length-IsPacket}
use lightway_cffi.Bench.Filled.{packet_at, payload_at}
use lightway_cffi.Bench.Built.{IsPool}
use lightway_cffi.Bench.Visits.{each_all}
use lightway_cffi.Bench.Recovers.{length-payload_at}

pub record IsReady (p : Providers) (k : p.ring.Key) (src : Src) (t : Pass p) : Type 0 where
  pub size : src.slots * src.stride ≤ length t.dst
  pub tx : Sends p.ring k t.tx

module _ (p : Providers) (x : Ctx p) (src : Src)
    (pool : IsPool p.ring p.cc x.ring_key x.cc_key x.sid src) (few : src.slots ≤ 2 ^ 32)
    (sch : Sched) (visits : (i : ℕ) → i < sch.n → slot_of p sch i < src.slots) where
  abbrev pub Ready : Pass p → Type 0
  Ready t = IsReady p x.ring_key src t

  -- The write of a payload's length into the slot of a round.
  write-size :
      (i : ℕ) (dst out : List ℕ)
      → i < sch.n
      → src.slots * src.stride ≤ length dst
      → length out ≡ src.len
      → src.slots * src.stride ≤ length (write_at dst (slot_of p sch i * src.stride) out)
  write-size i dst out h big e =
      subst (λ n. src.slots * src.stride ≤ n)
        (sym (length-write_at dst (slot_of p sch i * src.stride) out inside)) big
    where
      inside : slot_of p sch i * src.stride + length out ≤ length dst
      inside = grind (arith, pool.room, visits i h)

  length_payload :
      (i : ℕ)
      → i < sch.n
      → length (payload_at src.len src.stride src.plain (slot_of p sch i)) ≡ src.len
  length_payload i h = length-payload_at p x src sch pool few visits (slot_of p sch i) (visits i h)

  module _ (laws : AeadLaws p.ring) where
    length_packet :
        (i : ℕ)
        → i < sch.n
        → length (packet_at src.len src.stride src.wire (slot_of p sch i)) ≡ wire_overhead + src.len
    length_packet i h =
        length-IsPacket p.ring laws x.ring_key x.sid _ _ _
          (pool.holds (slot_of p sch i) (visits i h))
        ∙ omega (arith, length_payload i h)

    pub copy_pass-Ready : (dst : List ℕ) → Ready (start p x dst) → Ready (copy_pass p x src dst sch)
    unfolding copy_pass
    copy_pass-Ready dst r =
        each_all p (copy_body p x src sch) sch.n (λ i t. Ready t) step (start p x dst) r
      where
        step : (i : ℕ) (t : Pass p) → i < sch.n → Ready t → Ready (copy_body p x src sch i t)
        step i t h k =
            unfold copy_body in
            record {
              size = write-size i t.dst _ h k.size (
                  length-slice (packet_at src.len src.stride src.wire (slot_of p sch i))
                    wire_overhead (wire_overhead + src.len) (omega arith)
                    (omega (arith, length_packet i h))
                  ∙ omega arith);
              tx = k.tx;
            }

  -- What is opened has the length of a payload, whatever the answer.
  pub opens-Ready :
      (a : Aead) (laws : AeadLaws a) (k : a.Key) (body : ℕ → Pass p → Pass p) (wire : List ℕ)
      → ((j : ℕ)
          → j < src.slots
          → length (packet_at src.len src.stride wire j) ≡ wire_overhead + src.len)
      → ((i : ℕ) (t : Pass p)
          → body i t
            ≡ opened_body p sch i (slot_of p sch i * src.stride) t (
                open_packet a k x.sid src.len
                  (packet_at src.len src.stride wire (slot_of p sch i))))
      → (t : Pass p) → Ready t
      → Ready (each p body sch.n 0 t)
  unfolding opened_body open_packet
  opens-Ready a laws k body wire lengths same t r =
      each_all p body sch.n (λ i t. Ready t)
        (λ i t h u. subst Ready (sym (same i t)) (record {
          size = write-size i t.dst _ h u.size (
              laws.length-unseal k _ _ _ _
              ∙ length-slice (packet_at src.len src.stride wire (slot_of p sch i)) wire_overhead
                  (wire_overhead + src.len) (omega arith)
                  (omega (arith, lengths (slot_of p sch i) (visits i h)))
              ∙ omega arith);
          tx = u.tx;
        }))
        t r

  pub seals-Ready :
      (a : Aead) (laws : AeadLaws a) (k : a.Key) (body : ℕ → Pass p → Pass p)
      → ((i : ℕ) (t : Pass p)
          → body i t
            ≡ sealed_body p sch i (slot_of p sch i * src.stride) t (
                seal_payload a k x.sid
                  (slot_of p sch i)
                  (payload_at src.len src.stride src.plain (slot_of p sch i))))
      → (t : Pass p) → Ready t
      → Ready (each p body sch.n 0 t)
  unfolding sealed_body seal_payload
  seals-Ready a laws k body same t r =
      each_all p body sch.n (λ i t. Ready t)
        (λ i t h u. subst Ready (sym (same i t)) (record {
          size = write-size i t.dst _ h u.size (laws.length-seal k _ _ _ ∙ length_payload i h);
          tx = u.tx;
        }))
        t r

  pub null_pass-Ready : (dst : List ℕ) → Ready (start p x dst) → Ready (null_pass p x src dst sch)
  unfolding null_pass
  null_pass-Ready dst r =
      each_all p (null_body p x src sch) sch.n (λ i t. Ready t)
        (λ i t h k. unfold null_body in record { size = k.size; tx = k.tx }) (start p x dst) r
