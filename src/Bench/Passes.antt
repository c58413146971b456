-- ===== src/Bench/Passes.antt =====
-- The passes of the arms of which no index is out of bounds.
use lightway_cffi.Base.{ℕ, zero, suc, ◌+◌, ◌*◌, List, Bool, Option, slice, write_at, false}
use lightway_cffi.Session.{wire_overhead, encrypt, decrypt}
use lightway_cffi.Bench.Pool.{Src, Sched, iv_for}
use lightway_cffi.Bench.Runner.{
  Arm, null_arm, copy_payload, rc_aesgcm256_dec, ring_aesgcm256_dec, rc_chacha_dec, session_decrypt,
  rc_aesgcm256_enc, ring_aesgcm256_enc, rc_chacha_enc, session_encrypt,
}
use lightway_cffi.Bench.Arms.{
  Providers, Ctx, Pass, start, slot_of, fold_of, fold, one_if, is_ok, open_packet, seal_payload,
  opened_round, sealed_round,
}

module _ (p : Providers) where
  -- `rounds` rounds from round `i` on, of a body that cannot fail.
  unfoldable pub each : (ℕ → Pass p → Pass p) → ℕ → ℕ → Pass p → Pass p
  each body zero i s = s
  each body (suc rounds) i s = each body rounds (i + 1) (body i s)

  unfoldable pub null_body : Ctx p → Src → Sched → ℕ → Pass p → Pass p
  null_body c s sch i t =
      let base = slot_of p sch i * s.stride in
      let out = slice t.dst base (base + s.len) in
      record t { acc = fold t.acc out (fold_of p sch i); done = t.done + 1 }

  unfoldable pub copy_body : Ctx p → Src → Sched → ℕ → Pass p → Pass p
  copy_body c s sch i t =
      let base = slot_of p sch i * s.stride in
      let w = slice s.wire base (base + wire_overhead + s.len) in
      let out = slice w wire_overhead (wire_overhead + s.len) in
      record t {
        acc = fold t.acc out (fold_of p sch i);
        done = t.done + 1;
        dst = write_at t.dst base out;
      }

  -- The end of a decrypting round, for what was opened at `base`.
  unfoldable pub opened_body : Sched → ℕ → ℕ → Pass p → List ℕ × Bool → Pass p
  unfolding opened_round
  opened_body sch i base t r = opened_round p (fold_of p sch i) (write_at t.dst base) t r

  unfoldable pub rc_dec_body : Ctx p → Src → Sched → ℕ → Pass p → Pass p
  unfolding open_packet opened_body
  rc_dec_body c s sch i t =
      let base = slot_of p sch i * s.stride in
      let w = slice s.wire base (base + wire_overhead + s.len) in
      opened_body sch i base t (open_packet p.rc c.rc_key c.sid s.len w)

  unfoldable pub ring_dec_body : Ctx p → Src → Sched → ℕ → Pass p → Pass p
  unfolding open_packet opened_body
  ring_dec_body c s sch i t =
      let base = slot_of p sch i * s.stride in
      let w = slice s.wire base (base + wire_overhead + s.len) in
      opened_body sch i base t (open_packet p.ring c.ring_key c.sid s.len w)

  unfoldable pub cc_dec_body : Ctx p → Src → Sched → ℕ → Pass p → Pass p
  unfolding open_packet opened_body
  cc_dec_body c s sch i t =
      let base = slot_of p sch i * s.stride in
      let w = slice s.wire_cc base (base + wire_overhead + s.len) in
      opened_body sch i base t (open_packet p.cc c.cc_key c.sid s.len w)

  -- The end of an encrypting round: the tag, then the ciphertext.
  unfoldable pub sealed_body : Sched → ℕ → ℕ → Pass p → List ℕ × Option (List ℕ) → Pass p
  unfolding sealed_round
  sealed_body sch i base t r = sealed_round p (fold_of p sch i) (write_at t.dst base) t r

  unfoldable pub rc_enc_body : Ctx p → Src → Sched → ℕ → Pass p → Pass p
  unfolding seal_payload sealed_body
  rc_enc_body c s sch i t =
      let slot = slot_of p sch i in
      let base = slot * s.stride in
      sealed_body sch i base t
        (seal_payload p.rc c.rc_key c.sid slot (slice s.plain base (base + s.len)))

  unfoldable pub ring_enc_body : Ctx p → Src → Sched → ℕ → Pass p → Pass p
  unfolding seal_payload sealed_body
  ring_enc_body c s sch i t =
      let slot = slot_of p sch i in
      let base = slot * s.stride in
      sealed_body sch i base t
        (seal_payload p.ring c.ring_key c.sid slot (slice s.plain base (base + s.len)))

  unfoldable pub cc_enc_body : Ctx p → Src → Sched → ℕ → Pass p → Pass p
  unfolding seal_payload sealed_body
  cc_enc_body c s sch i t =
      let slot = slot_of p sch i in
      let base = slot * s.stride in
      sealed_body sch i base t
        (seal_payload p.cc c.cc_key c.sid slot (slice s.plain base (base + s.len)))

  unfoldable pub session_dec_body : Ctx p → Src → Sched → ℕ → Pass p → Pass p
  session_dec_body c s sch i t =
      let base = slot_of p sch i * s.stride in
      let w = slice s.wire base (base + wire_overhead + s.len) in
      let (rx, out, r) = decrypt p.ring t.rx c.sid w (slice t.dst base (base + s.len)) in
      record t {
        acc = fold t.acc out (fold_of p sch i);
        done = t.done + one_if (is_ok r);
        dst = write_at t.dst base out;
        rx = rx;
      }

  unfoldable pub session_enc_body : Ctx p → Src → Sched → ℕ → Pass p → Pass p
  session_enc_body c s sch i t =
      let slot = slot_of p sch i in
      let base = slot * s.stride in
      let counter = slot + 1 in
      let payload = slice s.plain base (base + s.len) in
      let buf = slice t.dst base (base + wire_overhead + s.len) in
      let (tx, out, r) = encrypt p.ring t.tx counter c.sid payload (iv_for counter) false buf in
      record t {
        acc = fold (fold t.acc out 20) out (wire_overhead + fold_of p sch i);
        done = t.done + one_if (is_ok r);
        dst = write_at t.dst base out;
        tx = tx;
      }

  unfoldable pub null_pass : Ctx p → Src → List ℕ → Sched → Pass p
  null_pass c s dst sch = each (null_body c s sch) sch.n 0 (start p c dst)

  unfoldable pub copy_pass : Ctx p → Src → List ℕ → Sched → Pass p
  copy_pass c s dst sch = each (copy_body c s sch) sch.n 0 (start p c dst)

  unfoldable pub rc_dec_pass : Ctx p → Src → List ℕ → Sched → Pass p
  rc_dec_pass c s dst sch = each (rc_dec_body c s sch) sch.n 0 (start p c dst)

  unfoldable pub ring_dec_pass : Ctx p → Src → List ℕ → Sched → Pass p
  ring_dec_pass c s dst sch = each (ring_dec_body c s sch) sch.n 0 (start p c dst)

  unfoldable pub cc_dec_pass : Ctx p → Src → List ℕ → Sched → Pass p
  cc_dec_pass c s dst sch = each (cc_dec_body c s sch) sch.n 0 (start p c dst)

  unfoldable pub rc_enc_pass : Ctx p → Src → List ℕ → Sched → Pass p
  rc_enc_pass c s dst sch = each (rc_enc_body c s sch) sch.n 0 (start p c dst)

  unfoldable pub ring_enc_pass : Ctx p → Src → List ℕ → Sched → Pass p
  ring_enc_pass c s dst sch = each (ring_enc_body c s sch) sch.n 0 (start p c dst)

  unfoldable pub cc_enc_pass : Ctx p → Src → List ℕ → Sched → Pass p
  cc_enc_pass c s dst sch = each (cc_enc_body c s sch) sch.n 0 (start p c dst)

  unfoldable pub session_dec_pass : Ctx p → Src → List ℕ → Sched → Pass p
  session_dec_pass c s dst sch = each (session_dec_body c s sch) sch.n 0 (start p c dst)

  unfoldable pub session_enc_pass : Ctx p → Src → List ℕ → Sched → Pass p
  session_enc_pass c s dst sch = each (session_enc_body c s sch) sch.n 0 (start p c dst)

  unfoldable pub run_pass : Arm → Ctx p → Src → List ℕ → Sched → Pass p
  run_pass null_arm = null_pass
  run_pass copy_payload = copy_pass
  run_pass rc_aesgcm256_dec = rc_dec_pass
  run_pass ring_aesgcm256_dec = ring_dec_pass
  run_pass rc_chacha_dec = cc_dec_pass
  run_pass session_decrypt = session_dec_pass
  run_pass rc_aesgcm256_enc = rc_enc_pass
  run_pass ring_aesgcm256_enc = ring_enc_pass
  run_pass rc_chacha_enc = cc_enc_pass
  run_pass session_encrypt = session_enc_pass
