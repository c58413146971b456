-- ===== src/Bench/Arms.antt =====
-- lightway-expresslane-bench/src/arms.rs: the loops that the benchmark times. An arm's state is
-- its accumulator, its count of successes, the output buffer and the two sessions of its context.
-- `black_box` is the identity. An index out of bounds is a
-- panic, which is `none`. What a round borrows of the output buffer keeps its length.
use lightway_cffi.Base.{
  ℕ, zero, suc, ◌+◌, ◌*◌, bit_xor, Bool, true, false, Option, none, some, List, slice,
  from_be_bytes, from_le_bytes, length, ltb, leb, get_or, rotate_one, Result, ok, err,
}
use lightway_cffi.Cipher.{Aead}
use lightway_cffi.Data.{ExpresslaneError}
use lightway_cffi.Bench.Panic.{◌>>=◌, guarded, index, index_mut}
use lightway_cffi.Session.{State, wire_overhead, encrypt, decrypt}
use lightway_cffi.Bench.Pool.{Src, Sched, iv_for, aad_v2}

-- The three crates: `ring`, which the session uses, `aes-gcm` and `chacha20poly1305`.
pub record Providers : Type 1 where
  pub ring : Aead
  pub rc : Aead
  pub cc : Aead

-- For 8 bytes that are there, which the rounds check.
abbrev pub fold : ℕ → List ℕ → ℕ → ℕ
fold acc buf off = bit_xor (rotate_one acc) (from_le_bytes (slice buf off (off + 8)))

-- `r.is_ok() as u64`.
abbrev pub one_if : Bool → ℕ
one_if true = 1
one_if false = 0

abbrev pub is_ok {ℓ κ} : {A : Type ℓ} {E : Type κ} → Result A E → Bool
is_ok (ok a) = true
is_ok (err e) = false

-- The accumulator and the count after an encrypt call's tag.
abbrev pub fold_tag : ℕ → ℕ → Option (List ℕ) → ℕ × ℕ
fold_tag acc done none = (rotate_one acc, done)
fold_tag acc done (some tag) = (fold acc tag 0, done + 1)

-- A packet of a pool opened with its payload copied out first: the buffer, and the answer.
unfoldable pub open_packet : (a : Aead) → a.Key → List ℕ → ℕ → List ℕ → List ℕ × Bool
open_packet a key sid len w =
    let counter = from_be_bytes 0 (slice w 0 8) in
    let flags = from_be_bytes 0 (slice w 38 40) in
    let aad = aad_v2 sid counter flags in
    let out = slice w wire_overhead (wire_overhead + len) in
    a.unseal key (slice w 8 20) aad out (slice w 20 36)

-- A payload sealed in place under the counter of its slot: the buffer, and the tag.
unfoldable pub seal_payload : (a : Aead) → a.Key → List ℕ → ℕ → List ℕ → List ℕ × Option (List ℕ)
seal_payload a key sid slot payload =
    let counter = slot + 1 in a.seal key (iv_for counter) (aad_v2 sid counter 0) payload

module _ (p : Providers) where
  open p use {ring, rc, cc}

  pub record Ctx : Type 0 where
    pub rc_key : rc.Key
    pub ring_key : ring.Key
    pub cc_key : cc.Key
    pub rx : State ring
    pub tx : State ring
    pub sid : List ℕ

  -- The sessions change behind their shared references.
  pub record Pass : Type 0 where
    pub acc : ℕ
    pub done : ℕ
    pub dst : List ℕ
    pub rx : State ring
    pub tx : State ring

  abbrev pub start : Ctx → List ℕ → Pass
  start c dst = record { acc = 0; done = 0; dst = dst; rx = c.rx; tx = c.tx }

  -- `for i in 0..n`: `rounds` rounds from round `i` on, until one panics.
  unfoldable pub try_each : (ℕ → Pass → Option Pass) → ℕ → ℕ → Pass → Option Pass
  try_each round zero i s = some s
  try_each round (suc rounds) i s = round i s >>= try_each round rounds (i + 1)

  abbrev pub slot_of : Sched → ℕ → ℕ
  slot_of sch i = get_or sch.slot i 0

  abbrev pub fold_of : Sched → ℕ → ℕ
  fold_of sch i = get_or sch.fold i 0

  -- The index of a slot in the schedule.
  abbrev pub slot_at : Sched → ℕ → Option ℕ
  slot_at sch i = guarded (ltb i (length sch.slot)) (some (slot_of sch i))

  -- The place of the 8 bytes that are folded, `skip` bytes and the schedule's offset into `out`.
  abbrev pub fold_at : Sched → ℕ → ℕ → List ℕ → Option ℕ
  fold_at sch i skip out =
      guarded (ltb i (length sch.fold))
        (guarded (leb (skip + fold_of sch i + 8) (length out)) (some (skip + fold_of sch i)))

  unfoldable pub null_round : Ctx → Src → Sched → ℕ → Pass → Option Pass
  unfolding index_mut
  null_round c s sch i t = do
    slot ← slot_at sch i
    (out, put) ← index_mut t.dst (slot * s.stride) (slot * s.stride + s.len)
    off ← fold_at sch i 0 out
    some (record t { acc = fold t.acc out off; done = t.done + 1 })

  unfoldable pub arm_null : Ctx → Src → List ℕ → Sched → Option Pass
  arm_null c s dst sch = try_each (null_round c s sch) sch.n 0 (start c dst)

  unfoldable pub copy_round : Ctx → Src → Sched → ℕ → Pass → Option Pass
  unfolding index index_mut
  copy_round c s sch i t = do
    slot ← slot_at sch i
    w ← index s.wire (slot * s.stride) (slot * s.stride + wire_overhead + s.len)
    (out, put) ← index_mut t.dst (slot * s.stride) (slot * s.stride + s.len)
    off ← fold_at sch i 0 out
    some (record t {
      acc = fold t.acc (slice w wire_overhead (wire_overhead + s.len)) off;
      done = t.done + 1;
      dst = put (slice w wire_overhead (wire_overhead + s.len));
    })

  unfoldable pub arm_copy : Ctx → Src → List ℕ → Sched → Option Pass
  arm_copy c s dst sch = try_each (copy_round c s sch) sch.n 0 (start c dst)

  -- The end of a decrypting round: what was opened is in the buffer, and is folded at `off`.
  unfoldable pub opened_round : ℕ → (List ℕ → List ℕ) → Pass → List ℕ × Bool → Pass
  opened_round off put t (out, good) = record t {
    acc = fold t.acc out off;
    done = t.done + one_if good;
    dst = put out;
  }

  unfoldable pub rc_dec_round : Ctx → Src → Sched → ℕ → Pass → Option Pass
  unfolding index index_mut open_packet opened_round
  rc_dec_round c s sch i t = do
    slot ← slot_at sch i
    w ← index s.wire (slot * s.stride) (slot * s.stride + wire_overhead + s.len)
    (out, put) ← index_mut t.dst (slot * s.stride) (slot * s.stride + s.len)
    off ← fold_at sch i 0 out
    some (opened_round off put t (open_packet rc c.rc_key c.sid s.len w))

  unfoldable pub arm_rc_aesgcm_dec : Ctx → Src → List ℕ → Sched → Option Pass
  arm_rc_aesgcm_dec c s dst sch = try_each (rc_dec_round c s sch) sch.n 0 (start c dst)

  unfoldable pub ring_dec_round : Ctx → Src → Sched → ℕ → Pass → Option Pass
  unfolding index index_mut open_packet opened_round
  ring_dec_round c s sch i t = do
    slot ← slot_at sch i
    w ← index s.wire (slot * s.stride) (slot * s.stride + wire_overhead + s.len)
    (out, put) ← index_mut t.dst (slot * s.stride) (slot * s.stride + s.len)
    off ← fold_at sch i 0 out
    some (opened_round off put t (open_packet ring c.ring_key c.sid s.len w))

  unfoldable pub arm_ring_aesgcm_dec : Ctx → Src → List ℕ → Sched → Option Pass
  arm_ring_aesgcm_dec c s dst sch = try_each (ring_dec_round c s sch) sch.n 0 (start c dst)

  unfoldable pub cc_dec_round : Ctx → Src → Sched → ℕ → Pass → Option Pass
  unfolding index index_mut open_packet opened_round
  cc_dec_round c s sch i t = do
    slot ← slot_at sch i
    w ← index s.wire_cc (slot * s.stride) (slot * s.stride + wire_overhead + s.len)
    (out, put) ← index_mut t.dst (slot * s.stride) (slot * s.stride + s.len)
    off ← fold_at sch i 0 out
    some (opened_round off put t (open_packet cc c.cc_key c.sid s.len w))

  unfoldable pub arm_rc_chacha_dec : Ctx → Src → List ℕ → Sched → Option Pass
  arm_rc_chacha_dec c s dst sch = try_each (cc_dec_round c s sch) sch.n 0 (start c dst)

  -- The end of an encrypting round: the tag, then the ciphertext.
  unfoldable pub sealed_round : ℕ → (List ℕ → List ℕ) → Pass → List ℕ × Option (List ℕ) → Pass
  sealed_round off put t (out, tag) =
      let (acc, done) = fold_tag t.acc t.done tag in
      record t { acc = fold acc out off; done = done; dst = put out }

  unfoldable pub rc_enc_round : Ctx → Src → Sched → ℕ → Pass → Option Pass
  unfolding index index_mut seal_payload sealed_round
  rc_enc_round c s sch i t = do
    slot ← slot_at sch i
    (out, put) ← index_mut t.dst (slot * s.stride) (slot * s.stride + s.len)
    payload ← index s.plain (slot * s.stride) (slot * s.stride + s.len)
    off ← fold_at sch i 0 out
    some (sealed_round off put t (seal_payload rc c.rc_key c.sid slot payload))

  unfoldable pub arm_rc_aesgcm_enc : Ctx → Src → List ℕ → Sched → Option Pass
  arm_rc_aesgcm_enc c s dst sch = try_each (rc_enc_round c s sch) sch.n 0 (start c dst)

  unfoldable pub ring_enc_round : Ctx → Src → Sched → ℕ → Pass → Option Pass
  unfolding index index_mut seal_payload sealed_round
  ring_enc_round c s sch i t = do
    slot ← slot_at sch i
    (out, put) ← index_mut t.dst (slot * s.stride) (slot * s.stride + s.len)
    payload ← index s.plain (slot * s.stride) (slot * s.stride + s.len)
    off ← fold_at sch i 0 out
    some (sealed_round off put t (seal_payload ring c.ring_key c.sid slot payload))

  unfoldable pub arm_ring_aesgcm_enc : Ctx → Src → List ℕ → Sched → Option Pass
  arm_ring_aesgcm_enc c s dst sch = try_each (ring_enc_round c s sch) sch.n 0 (start c dst)

  unfoldable pub cc_enc_round : Ctx → Src → Sched → ℕ → Pass → Option Pass
  unfolding index index_mut seal_payload sealed_round
  cc_enc_round c s sch i t = do
    slot ← slot_at sch i
    (out, put) ← index_mut t.dst (slot * s.stride) (slot * s.stride + s.len)
    payload ← index s.plain (slot * s.stride) (slot * s.stride + s.len)
    off ← fold_at sch i 0 out
    some (sealed_round off put t (seal_payload cc c.cc_key c.sid slot payload))

  unfoldable pub arm_rc_chacha_enc : Ctx → Src → List ℕ → Sched → Option Pass
  arm_rc_chacha_enc c s dst sch = try_each (cc_enc_round c s sch) sch.n 0 (start c dst)

  -- The end of the session's decrypting round.
  unfoldable pub received_round :
      ℕ → (List ℕ → List ℕ) → Pass → State ring × List ℕ × Result (ℕ × Bool) ExpresslaneError → Pass
  received_round off put t (rx, out, r) = record t {
    acc = fold t.acc out off;
    done = t.done + one_if (is_ok r);
    dst = put out;
    rx = rx;
  }

  unfoldable pub session_dec_round : Ctx → Src → Sched → ℕ → Pass → Option Pass
  unfolding index index_mut received_round
  session_dec_round c s sch i t = do
    slot ← slot_at sch i
    w ← index s.wire (slot * s.stride) (slot * s.stride + wire_overhead + s.len)
    (out, put) ← index_mut t.dst (slot * s.stride) (slot * s.stride + s.len)
    off ← fold_at sch i 0 out
    some (received_round off put t (decrypt ring t.rx c.sid w out))

  unfoldable pub arm_session_dec : Ctx → Src → List ℕ → Sched → Option Pass
  arm_session_dec c s dst sch = try_each (session_dec_round c s sch) sch.n 0 (start c dst)

  -- The end of the session's encrypting round: the tag's first bytes, then the ciphertext.
  unfoldable pub sent_round :
      ℕ → (List ℕ → List ℕ) → Pass → State ring × List ℕ × Result ℕ ExpresslaneError → Pass
  sent_round off put t (tx, out, r) = record t {
    acc = fold (fold t.acc out 20) out off;
    done = t.done + one_if (is_ok r);
    dst = put out;
    tx = tx;
  }

  unfoldable pub session_enc_round : Ctx → Src → Sched → ℕ → Pass → Option Pass
  unfolding index index_mut sent_round
  session_enc_round c s sch i t = do
    slot ← slot_at sch i
    (out, put) ← index_mut t.dst (slot * s.stride) (slot * s.stride + wire_overhead + s.len)
    payload ← index s.plain (slot * s.stride) (slot * s.stride + s.len)
    off ← fold_at sch i wire_overhead out
    some (
        sent_round off put t
          (encrypt ring t.tx (slot + 1) c.sid payload (iv_for (slot + 1)) false out))

  unfoldable pub arm_session_enc : Ctx → Src → List ℕ → Sched → Option Pass
  arm_session_enc c s dst sch = try_each (session_enc_round c s sch) sch.n 0 (start c dst)
