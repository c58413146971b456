-- ===== src/Bench/Complete.antt =====
-- What a pass of each arm is to end with.
use lightway_cffi.Base.{
  ℕ, zero, suc, ◌+◌, ◌^◌, ◌≤◌, ◌≡◌, ◌⊎◌, Bool, true, false, List, length, slice, get_or,
}
use lightway_cffi.Cipher.{SealsPackets}
use lightway_cffi.Session.{wire_overhead}
use lightway_cffi.Bench.Pool.{Src, Sched}
use lightway_cffi.Bench.Arms.{Providers, Pass, fold}
use lightway_cffi.Bench.Filled.{packet_at}
use lightway_cffi.Bench.Built.{IsPool}
use lightway_cffi.Bench.Recovers.{checksum}
use lightway_cffi.Bench.Agree.{SameCipher, ProviderLaws}
use lightway_cffi.Bench.Folds.{sealed_sum}
use lightway_cffi.Bench.Ready.{IsReady}
use lightway_cffi.Bench.Runner.{
  Family, null_family, copy_family, dec, enc, enc_chacha, Arm, null_arm, copy_payload,
  rc_aesgcm256_dec, ring_aesgcm256_dec, rc_chacha_dec, session_decrypt, rc_aesgcm256_enc,
  ring_aesgcm256_enc, rc_chacha_enc, session_encrypt,
}

-- What the arm that only copies folds: the ciphertexts.
unfoldable pub copied_sum : Src → Sched → ℕ → ℕ
copied_sum src sch zero = 0
copied_sum src sch (suc i) =
    fold (copied_sum src sch i)
      (slice (packet_at src.len src.stride src.wire (get_or sch.slot i 0)) wire_overhead
        (wire_overhead + src.len))
      (get_or sch.fold i 0)

-- The family of an arm, and whether it decrypts through the session.
abbrev pub family_of : Arm → Family
family_of null_arm = null_family
family_of copy_payload = copy_family
family_of rc_aesgcm256_dec = dec
family_of ring_aesgcm256_dec = dec
family_of rc_chacha_dec = dec
family_of session_decrypt = dec
family_of rc_aesgcm256_enc = enc
family_of ring_aesgcm256_enc = enc
family_of rc_chacha_enc = enc_chacha
family_of session_encrypt = enc

abbrev pub is_session : Arm → Bool
is_session session_decrypt = true
is_session _ = false

-- The laws and the sizes that the outcomes need.
pub record Right (p : Providers) (ring_key : p.ring.Key) (rc_key : p.rc.Key) (cc_key : p.cc.Key)
    (sid : List ℕ) (src : Src) : Type 0 where
  pub laws : ProviderLaws p
  pub can : SealsPackets p.ring
  pub cc_can : SealsPackets p.cc
  pub same : SameCipher p.ring p.rc ring_key rc_key
  pub pool : IsPool p.ring p.cc ring_key cc_key sid src
  pub few : src.slots ≤ 2 ^ 32
  pub payloads : 8 ≤ src.len
  pub sid_size : length sid ≡ 8

module _ (p : Providers) (ring_key : p.ring.Key) (cc_key : p.cc.Key) (sid : List ℕ)
    (src : Src) where
  -- The accumulator that all arms of a family end with.
  unfoldable pub expected : Family → Sched → ℕ
  expected null_family sch = 0
  expected copy_family sch = copied_sum src sch sch.n
  expected dec sch = checksum src sch sch.n
  expected enc sch = (sealed_sum p.ring ring_key sid src sch sch.n).0
  expected enc_chacha sch = (sealed_sum p.cc cc_key sid src sch sch.n).0

  -- The arm that writes nothing folds what its predecessor left.
  pub record IsComplete (family : Family) (sch : Sched) (t : Pass p) : Type 0 where
    pub done : t.done ≡ sch.n
    pub acc : (family ≡ null_family) ⊎ (t.acc ≡ expected family sch)
    pub ready : IsReady p ring_key src t
