-- ===== src/Bench/Runner.antt =====
-- lightway-expresslane-bench/src/main.rs: the keys, the self-test, the list of jobs and the timed
-- samples. What the clocks and counters of the system answer is an argument; the report and its
-- floating-point statistics are left out.
use lightway_cffi.Base.{
  leb, ℕ, zero, suc, ◌+◌, ◌%◌, max, Bool, true, false, not, ◌&&◌, Option, none, some, List, [], ◌∷◌,
  ◌++◌, ◌==◌, if◌then◌else◌, length, drop, take, slice, from_be_bytes, Result, ok, err,
}
use lightway_cffi.Data.{ExpresslaneError, version2, bytes_eq}
use lightway_cffi.Cipher.{Aead}
use lightway_cffi.Session.{State, wire_overhead, new, update_peer_key, decrypt, packets_received}
use lightway_cffi.Bench.Panic.{◌>>=◌, expect, guarded}
use lightway_cffi.Bench.Pool.{Src, Sched, aad_v2, sender}
use lightway_cffi.Bench.Arms.{
  Providers, Ctx, Pass, arm_null, arm_copy, arm_rc_aesgcm_dec, arm_ring_aesgcm_dec,
  arm_rc_chacha_dec, arm_session_dec, arm_rc_aesgcm_enc, arm_ring_aesgcm_enc, arm_rc_chacha_enc,
  arm_session_enc,
}

pub data Family : Type 0 where
  null_family copy_family dec enc enc_chacha : Family

-- An arm by its name.
pub data Arm : Type 0 where
  null_arm copy_payload rc_aesgcm256_dec ring_aesgcm256_dec rc_chacha_dec session_decrypt
        rc_aesgcm256_enc ring_aesgcm256_enc rc_chacha_enc session_encrypt :
      Arm

pub record Spec : Type 0 where
  pub name : Arm
  pub family : Family
  pub cold_only : Bool
  pub is_aesgcm : Bool
  pub is_session_dec : Bool

abbrev spec : Arm → Family → Bool → Bool → Bool → Spec
spec a f cold aes session = record {
  name = a;
  family = f;
  cold_only = cold;
  is_aesgcm = aes;
  is_session_dec = session;
}

-- `specs`.
unfoldable pub specs : List Spec
specs =
    spec null_arm null_family false false false
    ∷ spec copy_payload copy_family false false false
    ∷ spec rc_aesgcm256_dec dec false true false
    ∷ spec ring_aesgcm256_dec dec false true false
    ∷ spec rc_chacha_dec dec false false false
    ∷ spec session_decrypt dec true false true
    ∷ spec rc_aesgcm256_enc enc false true false
    ∷ spec ring_aesgcm256_enc enc false true false
    ∷ spec rc_chacha_enc enc_chacha false false false
    ∷ spec session_encrypt enc false false false
    ∷ []

-- A spec and whether it is run hot.
abbrev pub Job : Type 0
Job = Spec × Bool

-- The hot job of a spec, if it has one, and then its cold one.
unfoldable pub jobs_of : List Spec → List Job
jobs_of [] = []
jobs_of (s ∷ specs) =
    let rest = jobs_of specs in
    if s.cold_only then (s, false) ∷ rest else (s, true) ∷ (s, false) ∷ rest

-- `rotate_left(k)` and `reverse` of a list of at least `k` elements.
abbrev pub rotate_left {ℓ} : {A : Type ℓ} → ℕ → List A → List A
rotate_left k xs = drop k xs ++ take k xs

unfoldable pub backwards {ℓ} : {A : Type ℓ} → List A → List A → List A
backwards acc [] = acc
backwards acc (x ∷ xs) = backwards (x ∷ acc) xs

-- The order of the jobs in a round, from that of the round before.
unfoldable pub next_order : ℕ → List ℕ → List ℕ
unfolding backwards
next_order round order =
    let turned = rotate_left (round % max (length order) 1) order in
    if round % 2 == 1 then backwards [] turned else turned

-- The part of `Res` that says what was computed.
pub record Res : Type 0 where
  pub total_ops : ℕ
  pub expected_ops : ℕ
  pub acc : ℕ
  pub acc_stable : Bool

-- What a sample adds to the result of its job.
unfoldable pub record_sample : Res → ℕ → ℕ → ℕ → Res
record_sample r acc done n = record {
  total_ops = r.total_ops + done;
  expected_ops = r.expected_ops + n;
  acc = if r.total_ops == 0 then acc else r.acc;
  acc_stable = if r.total_ops == 0 then r.acc_stable else r.acc_stable && r.acc == acc;
}

module _ (p : Providers) where
  open p use {ring, rc, cc}

  pub record Keys : Type 0 where
    pub rc_key : rc.Key
    pub ring_key : ring.Key
    pub cc_key : cc.Key
    pub tx : State ring
    pub key : List ℕ

  -- `build_keys`.
  unfoldable pub build_keys : List ℕ → Option Keys
  build_keys key = do
    tx ← sender ring key
    r ← rc.new_key key
    k ← ring.new_key key
    c ← cc.new_key key
    some (record { rc_key = r; ring_key = k; cc_key = c; tx = tx; key = key })

  -- `fresh_rx`.
  unfoldable pub fresh_rx : Keys → Option (State ring)
  fresh_rx keys =
      let (rx, installed) = update_peer_key ring (new version2) keys.key in
      do installed' ← expect installed; some rx

  -- Whether a cipher opens the packet `w` to the expected payload.
  unfoldable opens_to : (a : Aead) → a.Key → List ℕ → ℕ → List ℕ → List ℕ → List ℕ → Bool
  opens_to a key aad len expected header w =
      let (buf, good) =
        a.unseal key (slice header 8 20) aad (slice w wire_overhead (wire_overhead + len))
          (slice w 20 36) in
      good && bytes_eq buf expected

  -- `session_roundtrip`: the whole payload, and not marked as encoded.
  unfoldable session_opens : ℕ → List ℕ → List ℕ × Result (ℕ × Bool) ExpresslaneError → Bool
  session_opens len expected (buf, ok (n, encoded)) =
      not encoded && (n == len && bytes_eq buf expected)
  session_opens len expected (buf, err e) = false

  pub record SelfTest : Type 0 where
    pub rc_roundtrip : Bool
    pub ring_roundtrip : Bool
    pub cc_roundtrip : Bool
    pub session_roundtrip : Bool
    pub cross_provider_ct : Bool

  -- `self_test`, on the packets of slot 0; a slice out of bounds is a panic.
  unfoldable pub self_test : Keys → Src → Option SelfTest
  unfolding opens_to session_opens
  self_test keys src =
      let len = src.len in
      let w = slice src.wire 0 (wire_overhead + len) in
      let wc = slice src.wire_cc 0 (wire_overhead + len) in
      let expected = slice src.plain 0 len in
      let counter = from_be_bytes 0 (slice w 0 8) in
      let flags = from_be_bytes 0 (slice w 38 40) in
      let aad = aad_v2 src.session_id counter flags in
      let iv = slice w 8 20 in
      let buf =
        (cc.unseal keys.cc_key iv aad (slice wc wire_overhead (wire_overhead + len))
          (slice wc 20 36)).0 in
      let (ct, tag) = rc.seal keys.rc_key iv aad expected in
      let (ct', tag') = ring.seal keys.ring_key iv aad expected in
      guarded
        (leb (wire_overhead + len) (length src.wire)
          && (leb (wire_overhead + len) (length src.wire_cc) && leb len (length src.plain)))
        (do
          rx ← fresh_rx keys
          ta ← tag
          tb ← tag'
          some (record {
            rc_roundtrip = opens_to rc keys.rc_key aad len expected w w;
            ring_roundtrip = opens_to ring keys.ring_key aad len expected w w;
            cc_roundtrip = opens_to cc keys.cc_key aad len expected w wc;
            session_roundtrip =
                (let (rx', out, r) = decrypt ring rx src.session_id w buf in
                  session_opens len expected (out, r));
            cross_provider_ct = bytes_eq ct ct' && bytes_eq ta tb;
          }))

  -- The loop of a spec.
  unfoldable pub run_arm : Arm → Ctx p → Src → List ℕ → Sched → Option (Pass p)
  run_arm null_arm = arm_null p
  run_arm copy_payload = arm_copy p
  run_arm rc_aesgcm256_dec = arm_rc_aesgcm_dec p
  run_arm ring_aesgcm256_dec = arm_ring_aesgcm_dec p
  run_arm rc_chacha_dec = arm_rc_chacha_dec p
  run_arm session_decrypt = arm_session_dec p
  run_arm rc_aesgcm256_enc = arm_rc_aesgcm_enc p
  run_arm ring_aesgcm256_enc = arm_ring_aesgcm_enc p
  run_arm rc_chacha_enc = arm_rc_chacha_enc p
  run_arm session_encrypt = arm_session_enc p

  -- The context of a sample: a receiver of its own, and the sender that all samples share.
  unfoldable pub context : Keys → Src → State ring → State ring → Ctx p
  context keys src rx tx = record {
    rc_key = keys.rc_key;
    ring_key = keys.ring_key;
    cc_key = keys.cc_key;
    rx = rx;
    tx = tx;
    sid = src.session_id;
  }

  -- One timed sample: the buffer, the sender and the result after it. `none` is the assertion that
  -- the session's receiver has committed every packet.
  unfoldable pub sample :
      Keys → Src → Sched → Spec → List ℕ × State ring × Res → Option (List ℕ × State ring × Res)
  unfolding context record_sample run_arm
  sample keys src sch s (dst, tx, r) = do
    rx ← fresh_rx keys
    t ← run_arm s.name (context keys src rx tx) src dst sch
    if s.is_session_dec && not (packets_received t.rx == sch.n)
        then none
        else some (t.dst, t.tx, record_sample r t.acc t.done sch.n)

  -- `for _ in 0..n_samples[j]`.
  unfoldable pub samples :
      Keys → Src → Sched → Spec → ℕ → List ℕ × State ring × Res → Option (List ℕ × State ring × Res)
  samples keys src sch s zero t = some t
  samples keys src sch s (suc n) t = sample keys src sch s t >>= samples keys src sch s n
