-- ===== src/Bench/Bounds.antt =====
-- The bounds of what the arms index.
use lightway_cffi.Base.{
  ℕ, ◌+◌, ◌*◌, ◌^◌, ◌≤◌, ◌<◌, ◌≡◌, refl, ap, ◌∙◌, some, arith, length, List, write_at, slice,
}
use lightway_cffi.Base.Slices.{length-slice, slice-inside, leb-true, ltb-true}
use lightway_cffi.Cipher.{AeadLaws}
use lightway_cffi.Session.{wire_overhead}
use lightway_cffi.Bench.Panic.{index, index_mut, index_in, index_mut_in}
use lightway_cffi.Bench.Pool.{Src, Sched}
use lightway_cffi.Bench.Arms.{Providers, Ctx, Pass, slot_of, fold_of, slot_at, fold_at}
use lightway_cffi.Bench.Sent.{length-IsPacket}
use lightway_cffi.Bench.Filled.{packet_at, payload_at}
use lightway_cffi.Bench.Built.{IsPool}
use lightway_cffi.Bench.Recovers.{length-payload_at}

-- A schedule within a pool: it has an entry of each kind for every round, the slots are the pool's,
-- and the bytes that are folded lie in the payload.
pub record Fits (p : Providers) (src : Src) (sch : Sched) : Type 0 where
  pub slots : sch.n ≤ length sch.slot
  pub folds : sch.n ≤ length sch.fold
  pub visits : (i : ℕ) → i < sch.n → slot_of p sch i < src.slots
  pub inside : (i : ℕ) → i < sch.n → fold_of p sch i + 8 ≤ src.len

module _ (p : Providers) (x : Ctx p) (src : Src)
    (pool : IsPool p.ring p.cc x.ring_key x.cc_key x.sid src) (few : src.slots ≤ 2 ^ 32)
    (dst : List ℕ) (big : src.slots * src.stride ≤ length dst) (sch : Sched)
    (s : Fits p src sch) where
  slot_at-Fits : (i : ℕ) → i < sch.n → slot_at p sch i ≡ some (slot_of p sch i)
  slot_at-Fits i h = rw (ltb-true i (length sch.slot) (omega (arith, h, s.slots))) refl

  fold_at-Fits :
      (i skip off : ℕ) (out : List ℕ)
      → i < sch.n
      → skip + fold_of p sch i ≡ off
      → skip + src.len ≤ length out
      → fold_at p sch i skip out ≡ some off
  fold_at-Fits i skip off out h e k =
      rw
        (
          ltb-true i (length sch.fold) (omega (arith, h, s.folds)),
          leb-true (skip + fold_of p sch i + 8) (length out) (omega (arith, k, s.inside i h)),
        )
        (ap some e)

  fits-slot :
      (i n : ℕ) (dst : List ℕ)
      → i < sch.n
      → n ≤ src.stride
      → src.slots * src.stride ≤ length dst
      → slot_of p sch i * src.stride + n ≤ length dst
  fits-slot i n dst h small big = grind (arith, s.visits i h)

  fits-plain : (i : ℕ) → i < sch.n → slot_of p sch i * src.stride + src.len ≤ length src.plain
  fits-plain i h =
      fits-slot i src.len src.plain h (omega (arith, pool.room)) (omega (arith, pool.size))

  payload_size :
      (j : ℕ) → j < src.slots → length (payload_at src.len src.stride src.plain j) ≡ src.len
  payload_size = length-payload_at p x src sch pool few s.visits

  packet_ends :
      (i : ℕ) (wire : List ℕ)
      → length (packet_at src.len src.stride wire (slot_of p sch i)) ≡ wire_overhead + src.len
      → slot_of p sch i * src.stride + (wire_overhead + src.len) ≤ length wire
  packet_ends i wire h =
      slice-inside wire (slot_of p sch i * src.stride) (wire_overhead + src.len) (omega arith) (
        ap (λ e. length (slice wire (slot_of p sch i * src.stride) e))
          {x = slot_of p sch i * src.stride + (wire_overhead + src.len)}
          {y = slot_of p sch i * src.stride + wire_overhead + src.len} (omega arith)
        ∙ h)

  fits-wire :
      (laws : AeadLaws p.ring) (i : ℕ)
      → i < sch.n
      → slot_of p sch i * src.stride + (wire_overhead + src.len) ≤ length src.wire
  fits-wire laws i h = packet_ends i src.wire (
      length-IsPacket p.ring laws x.ring_key x.sid _ _ _
        (pool.holds (slot_of p sch i) (s.visits i h))
      ∙ omega (arith, payload_size (slot_of p sch i) (s.visits i h)))

  fits-wire_cc :
      (laws : AeadLaws p.cc) (i : ℕ)
      → i < sch.n
      → slot_of p sch i * src.stride + (wire_overhead + src.len) ≤ length src.wire_cc
  fits-wire_cc laws i h = packet_ends i src.wire_cc (
      length-IsPacket p.cc laws x.cc_key x.sid _ _ _
        (pool.holds_cc (slot_of p sch i) (s.visits i h))
      ∙ omega (arith, payload_size (slot_of p sch i) (s.visits i h)))

  small_len : src.len ≤ src.stride
  small_len = omega (arith, pool.room)

  -- The bytes of a slot in the output buffer.
  out_in :
      (i m : ℕ) (dst : List ℕ)
      → i < sch.n
      → m ≤ src.stride
      → src.slots * src.stride ≤ length dst
      → index_mut dst (slot_of p sch i * src.stride) (slot_of p sch i * src.stride + m)
        ≡ some (
          slice dst (slot_of p sch i * src.stride) (slot_of p sch i * src.stride + m),
          write_at dst (slot_of p sch i * src.stride),
        )
  out_in i m dst h small big = index_mut_in dst _ _ (omega arith) (fits-slot i m dst h small big)

  length-out :
      (i m : ℕ) (dst : List ℕ)
      → i < sch.n
      → m ≤ src.stride
      → src.slots * src.stride ≤ length dst
      → length (slice dst (slot_of p sch i * src.stride) (slot_of p sch i * src.stride + m)) ≡ m
  length-out i m dst h small big =
      length-slice dst (slot_of p sch i * src.stride) (slot_of p sch i * src.stride + m)
        (omega arith) (fits-slot i m dst h small big)
      ∙ omega arith

  -- The offset of a fold into the bytes of a slot.
  folds_in :
      (i : ℕ) (dst : List ℕ)
      → i < sch.n
      → src.slots * src.stride ≤ length dst
      → fold_at p sch i 0
          (slice dst (slot_of p sch i * src.stride) (slot_of p sch i * src.stride + src.len))
        ≡ some (fold_of p sch i)
  folds_in i dst h big =
      fold_at-Fits i 0 (fold_of p sch i) _ h (omega arith)
        (omega (arith, length-out i src.len dst h small_len big))

  packet_in :
      (i : ℕ) (wire : List ℕ)
      → slot_of p sch i * src.stride + (wire_overhead + src.len) ≤ length wire
      → index wire
          (slot_of p sch i * src.stride)
          (slot_of p sch i * src.stride + wire_overhead + src.len)
        ≡ some (packet_at src.len src.stride wire (slot_of p sch i))
  packet_in i wire h = index_in wire _ _ (omega arith) (omega (arith, h))

  plain_in :
      (i : ℕ)
      → i < sch.n
      → index src.plain (slot_of p sch i * src.stride) (slot_of p sch i * src.stride + src.len)
        ≡ some (payload_at src.len src.stride src.plain (slot_of p sch i))
  plain_in i h = index_in src.plain _ _ (omega arith) (fits-plain i h)

  -- The packet that the session writes.
  sent_in :
      (i : ℕ) (dst : List ℕ)
      → i < sch.n
      → src.slots * src.stride ≤ length dst
      → index_mut dst
          (slot_of p sch i * src.stride)
          (slot_of p sch i * src.stride + wire_overhead + src.len)
        ≡ some (
          packet_at src.len src.stride dst (slot_of p sch i),
          write_at dst (slot_of p sch i * src.stride),
        )
  sent_in i dst h big =
      index_mut_in dst _ _ (omega arith)
        (omega (arith, fits-slot i (wire_overhead + src.len) dst h pool.room big))

  sent_folds_in :
      (i : ℕ) (dst : List ℕ)
      → i < sch.n
      → src.slots * src.stride ≤ length dst
      → fold_at p sch i wire_overhead (packet_at src.len src.stride dst (slot_of p sch i))
        ≡ some (wire_overhead + fold_of p sch i)
  sent_folds_in i dst h big =
      fold_at-Fits i wire_overhead (wire_overhead + fold_of p sch i) _ h refl
        (omega (arith, length_packet))
    where
      length_packet :
          length (packet_at src.len src.stride dst (slot_of p sch i)) ≡ wire_overhead + src.len
      length_packet =
          length-slice dst (slot_of p sch i * src.stride)
            (slot_of p sch i * src.stride + wire_overhead + src.len) (omega arith)
            (omega (arith, fits-slot i (wire_overhead + src.len) dst h pool.room big))
          ∙ omega arith

  -- What a round indexes is there: the entries of the schedule, and the slot in every buffer.
  pub record Within (i : ℕ) (t : Pass p) : Type 0 where
    pub slot : slot_at p sch i ≡ some (slot_of p sch i)
    pub out :
        index_mut t.dst (slot_of p sch i * src.stride) (slot_of p sch i * src.stride + src.len)
        ≡ some (
          slice t.dst (slot_of p sch i * src.stride) (slot_of p sch i * src.stride + src.len),
          write_at t.dst (slot_of p sch i * src.stride),
        )
    pub fold :
        fold_at p sch i 0
          (slice t.dst (slot_of p sch i * src.stride) (slot_of p sch i * src.stride + src.len))
        ≡ some (fold_of p sch i)
    pub plain :
        index src.plain (slot_of p sch i * src.stride) (slot_of p sch i * src.stride + src.len)
        ≡ some (payload_at src.len src.stride src.plain (slot_of p sch i))
    pub packet :
        AeadLaws p.ring
        → index src.wire
            (slot_of p sch i * src.stride)
            (slot_of p sch i * src.stride + wire_overhead + src.len)
          ≡ some (packet_at src.len src.stride src.wire (slot_of p sch i))
    pub packet_cc :
        AeadLaws p.cc
        → index src.wire_cc
            (slot_of p sch i * src.stride)
            (slot_of p sch i * src.stride + wire_overhead + src.len)
          ≡ some (packet_at src.len src.stride src.wire_cc (slot_of p sch i))
    pub room :
        index_mut t.dst
          (slot_of p sch i * src.stride)
          (slot_of p sch i * src.stride + wire_overhead + src.len)
        ≡ some (
          packet_at src.len src.stride t.dst (slot_of p sch i),
          write_at t.dst (slot_of p sch i * src.stride),
        )
    pub room_fold :
        fold_at p sch i wire_overhead (packet_at src.len src.stride t.dst (slot_of p sch i))
        ≡ some (wire_overhead + fold_of p sch i)

  pub within : (i : ℕ) (t : Pass p) → i < sch.n → src.slots * src.stride ≤ length t.dst → Within i t
  within i t h k = record {
    slot = slot_at-Fits i h;
    out = out_in i src.len t.dst h small_len k;
    fold = folds_in i t.dst h k;
    plain = plain_in i h;
    packet = λ laws. packet_in i src.wire (fits-wire laws i h);
    packet_cc = λ laws. packet_in i src.wire_cc (fits-wire_cc laws i h);
    room = sent_in i t.dst h k;
    room_fold = sent_folds_in i t.dst h k;
  }
