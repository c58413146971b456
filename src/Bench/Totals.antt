-- ===== src/Bench/Totals.antt =====
-- The arms never index out of bounds, on a pool and a schedule and a buffer that fit it.
use lightway_cffi.Base.{
  ℕ, zero, suc, ◌+◌, ◌*◌, ◌^◌, ◌≤◌, ◌<◌, ◌≡◌, refl, Option, some, arith, length, List,
}
use lightway_cffi.Base.Slices.{write_at-grows}
use lightway_cffi.Cipher.{AeadLaws}
use lightway_cffi.Bench.Pool.{Src, Sched}
use lightway_cffi.Bench.Arms.{
  Providers, Ctx, Pass, start, try_each, opened_round, sealed_round, received_round, sent_round,
  null_round, arm_null, copy_round, arm_copy, rc_dec_round, arm_rc_aesgcm_dec, ring_dec_round,
  arm_ring_aesgcm_dec, cc_dec_round, arm_rc_chacha_dec, rc_enc_round, arm_rc_aesgcm_enc,
  ring_enc_round, arm_ring_aesgcm_enc, cc_enc_round, arm_rc_chacha_enc, session_dec_round,
  arm_session_dec, session_enc_round, arm_session_enc,
}
use lightway_cffi.Bench.Passes.{
  each, run_pass, null_pass, copy_pass, rc_dec_pass, ring_dec_pass, cc_dec_pass, rc_enc_pass,
  ring_enc_pass, cc_enc_pass, session_dec_pass, session_enc_pass, opened_body, sealed_body,
  null_body, copy_body, rc_dec_body, ring_dec_body, cc_dec_body, rc_enc_body, ring_enc_body,
  cc_enc_body, session_dec_body, session_enc_body,
}
use lightway_cffi.Bench.Runner.{
  Arm, run_arm, null_arm, copy_payload, rc_aesgcm256_dec, ring_aesgcm256_dec, rc_chacha_dec,
  session_decrypt, rc_aesgcm256_enc, ring_aesgcm256_enc, rc_chacha_enc, session_encrypt,
}
use lightway_cffi.Bench.Built.{IsPool}
use lightway_cffi.Bench.Bounds.{Fits, within}

-- Rounds that are within their bounds, each of which leaves the buffer no shorter, end as their
-- bodies do.
module _ (p : Providers) (size : ℕ) (round : ℕ → Pass p → Option (Pass p))
    (body : ℕ → Pass p → Pass p) (n : ℕ)
    (grows : (i : ℕ) (t : Pass p) → length t.dst ≤ length (body i t).dst)
    (within : (i : ℕ) (t : Pass p)
      → i < n
      → size ≤ length t.dst
      → round i t ≡ some (body i t)) where
  try_each-each :
      (rounds i : ℕ) (t : Pass p)
      → i + rounds ≡ n
      → size ≤ length t.dst
      → try_each p round rounds i t ≡ some (each p body rounds i t)
  unfolding try_each each
  try_each-each zero i t e h = refl
  try_each-each (suc rounds) i t e h =
      rw (within i t (omega (arith, e)) h)
        (try_each-each rounds (i + 1) (body i t) (omega (arith, e)) (omega (arith, h, grows i t)))

module _ (p : Providers) (x : Ctx p) (src : Src)
    (pool : IsPool p.ring p.cc x.ring_key x.cc_key x.sid src) (few : src.slots ≤ 2 ^ 32)
    (dst : List ℕ) (big : src.slots * src.stride ≤ length dst) (sch : Sched)
    (s : Fits p src sch) where
  pass_total :
      (round : ℕ → Pass p → Option (Pass p)) (body : ℕ → Pass p → Pass p)
      → ((i : ℕ) (t : Pass p) → length t.dst ≤ length (body i t).dst)
      → ((i : ℕ) (t : Pass p)
          → i < sch.n
          → src.slots * src.stride ≤ length t.dst
          → round i t ≡ some (body i t))
      → try_each p round sch.n 0 (start p x dst) ≡ some (each p body sch.n 0 (start p x dst))
  pass_total round body grows within =
      try_each-each p (src.slots * src.stride) round body sch.n grows within sch.n 0 (start p x dst)
        (omega arith) big

  pub arm_null_total : arm_null p x src dst sch ≡ some (null_pass p x src dst sch)
  unfolding arm_null null_round null_body null_pass
  arm_null_total =
      pass_total (null_round p x src sch) (null_body p x src sch) (λ i t. omega arith)
        (λ i t h k.
          let w = within p x src pool few dst big sch s i t h k in rw (w.slot, w.out, w.fold) refl)

  pub arm_copy_total : AeadLaws p.ring → arm_copy p x src dst sch ≡ some (copy_pass p x src dst sch)
  unfolding arm_copy copy_round copy_body copy_pass
  arm_copy_total laws =
      pass_total (copy_round p x src sch) (copy_body p x src sch) (λ i t. write_at-grows t.dst _ _)
        (λ i t h k.
          let w = within p x src pool few dst big sch s i t h k in
          rw (w.slot, w.packet laws, w.out, w.fold) refl)

  pub arm_rc_aesgcm_dec_total :
      AeadLaws p.ring → arm_rc_aesgcm_dec p x src dst sch ≡ some (rc_dec_pass p x src dst sch)
  unfolding arm_rc_aesgcm_dec rc_dec_round rc_dec_body rc_dec_pass opened_body opened_round
  arm_rc_aesgcm_dec_total laws =
      pass_total (rc_dec_round p x src sch) (rc_dec_body p x src sch)
        (λ i t. write_at-grows t.dst _ _)
        (λ i t h k.
          let w = within p x src pool few dst big sch s i t h k in
          rw (w.slot, w.packet laws, w.out, w.fold) refl)

  pub arm_ring_aesgcm_dec_total :
      AeadLaws p.ring → arm_ring_aesgcm_dec p x src dst sch ≡ some (ring_dec_pass p x src dst sch)
  unfolding arm_ring_aesgcm_dec ring_dec_round ring_dec_body ring_dec_pass opened_body opened_round
  arm_ring_aesgcm_dec_total laws =
      pass_total (ring_dec_round p x src sch) (ring_dec_body p x src sch)
        (λ i t. write_at-grows t.dst _ _)
        (λ i t h k.
          let w = within p x src pool few dst big sch s i t h k in
          rw (w.slot, w.packet laws, w.out, w.fold) refl)

  pub arm_rc_chacha_dec_total :
      AeadLaws p.cc → arm_rc_chacha_dec p x src dst sch ≡ some (cc_dec_pass p x src dst sch)
  unfolding arm_rc_chacha_dec cc_dec_round cc_dec_body cc_dec_pass opened_body opened_round
  arm_rc_chacha_dec_total laws =
      pass_total (cc_dec_round p x src sch) (cc_dec_body p x src sch)
        (λ i t. write_at-grows t.dst _ _)
        (λ i t h k.
          let w = within p x src pool few dst big sch s i t h k in
          rw (w.slot, w.packet_cc laws, w.out, w.fold) refl)

  pub arm_rc_aesgcm_enc_total :
      arm_rc_aesgcm_enc p x src dst sch ≡ some (rc_enc_pass p x src dst sch)
  unfolding arm_rc_aesgcm_enc rc_enc_round rc_enc_body rc_enc_pass sealed_body sealed_round
  arm_rc_aesgcm_enc_total =
      pass_total (rc_enc_round p x src sch) (rc_enc_body p x src sch)
        (λ i t. write_at-grows t.dst _ _)
        (λ i t h k.
          let w = within p x src pool few dst big sch s i t h k in
          rw (w.slot, w.out, w.plain, w.fold) refl)

  pub arm_ring_aesgcm_enc_total :
      arm_ring_aesgcm_enc p x src dst sch ≡ some (ring_enc_pass p x src dst sch)
  unfolding arm_ring_aesgcm_enc ring_enc_round ring_enc_body ring_enc_pass sealed_body sealed_round
  arm_ring_aesgcm_enc_total =
      pass_total (ring_enc_round p x src sch) (ring_enc_body p x src sch)
        (λ i t. write_at-grows t.dst _ _)
        (λ i t h k.
          let w = within p x src pool few dst big sch s i t h k in
          rw (w.slot, w.out, w.plain, w.fold) refl)

  pub arm_rc_chacha_enc_total :
      arm_rc_chacha_enc p x src dst sch ≡ some (cc_enc_pass p x src dst sch)
  unfolding arm_rc_chacha_enc cc_enc_round cc_enc_body cc_enc_pass sealed_body sealed_round
  arm_rc_chacha_enc_total =
      pass_total (cc_enc_round p x src sch) (cc_enc_body p x src sch)
        (λ i t. write_at-grows t.dst _ _)
        (λ i t h k.
          let w = within p x src pool few dst big sch s i t h k in
          rw (w.slot, w.out, w.plain, w.fold) refl)

  pub arm_session_dec_total :
      AeadLaws p.ring → arm_session_dec p x src dst sch ≡ some (session_dec_pass p x src dst sch)
  unfolding arm_session_dec session_dec_round session_dec_body session_dec_pass received_round
  arm_session_dec_total laws =
      pass_total (session_dec_round p x src sch) (session_dec_body p x src sch)
        (λ i t. write_at-grows t.dst _ _)
        (λ i t h k.
          let w = within p x src pool few dst big sch s i t h k in
          rw (w.slot, w.packet laws, w.out, w.fold) refl)

  pub arm_session_enc_total :
      arm_session_enc p x src dst sch ≡ some (session_enc_pass p x src dst sch)
  unfolding arm_session_enc session_enc_round session_enc_body session_enc_pass sent_round
  arm_session_enc_total =
      pass_total (session_enc_round p x src sch) (session_enc_body p x src sch)
        (λ i t. write_at-grows t.dst _ _)
        (λ i t h k.
          let w = within p x src pool few dst big sch s i t h k in
          rw (w.slot, w.room, w.plain, w.room_fold) refl)

  -- No arm panics.
  pub run_arm_total :
      (ring_laws : AeadLaws p.ring) (cc_laws : AeadLaws p.cc) (a : Arm)
      → run_arm p a x src dst sch ≡ some (run_pass p a x src dst sch)
  unfolding run_arm run_pass
  run_arm_total ring_laws cc_laws null_arm = arm_null_total
  run_arm_total ring_laws cc_laws copy_payload = arm_copy_total ring_laws
  run_arm_total ring_laws cc_laws rc_aesgcm256_dec = arm_rc_aesgcm_dec_total ring_laws
  run_arm_total ring_laws cc_laws ring_aesgcm256_dec = arm_ring_aesgcm_dec_total ring_laws
  run_arm_total ring_laws cc_laws rc_chacha_dec = arm_rc_chacha_dec_total cc_laws
  run_arm_total ring_laws cc_laws rc_aesgcm256_enc = arm_rc_aesgcm_enc_total
  run_arm_total ring_laws cc_laws ring_aesgcm256_enc = arm_ring_aesgcm_enc_total
  run_arm_total ring_laws cc_laws rc_chacha_enc = arm_rc_chacha_enc_total
  run_arm_total ring_laws cc_laws session_decrypt = arm_session_dec_total ring_laws
  run_arm_total ring_laws cc_laws session_encrypt = arm_session_enc_total
