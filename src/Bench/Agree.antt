-- ===== src/Bench/Agree.antt =====
-- lightway-expresslane-bench/src/arms.rs: the arms that decrypt with one of the crates.
use lightway_cffi.Base.{
  ◌*◌, some, Option, ℕ, ◌+◌, ◌^◌, ◌≤◌, ◌<◌, ◌≡◌, refl, sym, ap, ◌∙◌, List, [], length,
}
use lightway_cffi.Base.Fields.{join}
use lightway_cffi.Cipher.{Aead, AeadLaws}
use lightway_cffi.Session.Packet.{packet}
use lightway_cffi.Bench.Pool.{Src, Sched, iv_for, aad_v2}
use lightway_cffi.Bench.Arms.{Providers, Ctx, Pass, slot_of}
use lightway_cffi.Bench.Passes.{
  rc_dec_pass, ring_dec_pass, cc_dec_pass, rc_dec_body, ring_dec_body, cc_dec_body,
}
use lightway_cffi.Bench.Bounds.{Fits}
use lightway_cffi.Bench.Totals.{
  arm_rc_aesgcm_dec_total, arm_ring_aesgcm_dec_total, arm_rc_chacha_dec_total,
}
use lightway_cffi.Bench.Arms.{arm_rc_aesgcm_dec, arm_ring_aesgcm_dec, arm_rc_chacha_dec}
use lightway_cffi.Bench.Sealed.{IsPacket}
use lightway_cffi.Bench.Built.{IsPool}
use lightway_cffi.Bench.Recovers.{checksum, each-Recovers, opened_body-Recovers}

-- Two crates that seal alike under two keys, as two implementations of AES-256-GCM do.
pub record SameCipher (a b : Aead) (k : a.Key) (q : b.Key) : Type 0 where
  pub same : (iv aad buf : List ℕ) → b.seal q iv aad buf ≡ a.seal k iv aad buf

pub IsPacket-SameCipher :
    (a b : Aead) (k : a.Key) (q : b.Key)
    → SameCipher a b k q
    → (sid : List ℕ) (counter : ℕ) (payload w : List ℕ) → IsPacket a k sid counter payload w
    → IsPacket b q sid counter payload w
IsPacket-SameCipher a b k q s sid counter payload w h = record {
  tag = h.tag;
  seals = ap (λ t. t.1) (s.same (iv_for counter) (aad_v2 sid counter 0) payload) ∙ h.seals;
  is =
      h.is
      ∙ ap (λ t. join (packet counter (iv_for counter) h.tag (length payload) 0 t.0) [])
          (sym (s.same (iv_for counter) (aad_v2 sid counter 0) payload));
}

-- The laws of the three crates.
pub record ProviderLaws (p : Providers) : Type 0 where
  pub ring_laws : AeadLaws p.ring
  pub rc_laws : AeadLaws p.rc
  pub cc_laws : AeadLaws p.cc

module _ (p : Providers) (laws : ProviderLaws p) (x : Ctx p) (src : Src)
    (pool : IsPool p.ring p.cc x.ring_key x.cc_key x.sid src)
    (same : SameCipher p.ring p.rc x.ring_key x.rc_key) (few : src.slots ≤ 2 ^ 32) (dst : List ℕ)
    (sch : Sched) (visits : (i : ℕ) → i < sch.n → slot_of p sch i < src.slots) where
  abbrev Complete : Pass p → Type 0
  Complete t = (t.acc ≡ checksum src sch sch.n) × (t.done ≡ sch.n)

  pub arm_rc-Complete : Complete (rc_dec_pass p x src dst sch)
  unfolding rc_dec_pass rc_dec_body
  arm_rc-Complete =
      each-Recovers p src sch _ _
        (opened_body-Recovers p x src sch pool few visits p.rc laws.rc_laws x.rc_key src.wire
          (λ j h.
            IsPacket-SameCipher p.ring p.rc x.ring_key x.rc_key same x.sid (j + 1) _ _
              (pool.holds j h)))
        refl refl

  pub arm_ring-Complete : Complete (ring_dec_pass p x src dst sch)
  unfolding ring_dec_pass ring_dec_body
  arm_ring-Complete =
      each-Recovers p src sch _ _
        (opened_body-Recovers p x src sch pool few visits p.ring laws.ring_laws x.ring_key src.wire
          pool.holds)
        refl refl

  pub arm_chacha-Complete : Complete (cc_dec_pass p x src dst sch)
  unfolding cc_dec_pass cc_dec_body
  arm_chacha-Complete =
      each-Recovers p src sch _ _
        (opened_body-Recovers p x src sch pool few visits p.cc laws.cc_laws x.cc_key src.wire_cc
          pool.holds_cc)
        refl refl

module _ (p : Providers) (laws : ProviderLaws p) (x : Ctx p) (src : Src)
    (pool : IsPool p.ring p.cc x.ring_key x.cc_key x.sid src)
    (same : SameCipher p.ring p.rc x.ring_key x.rc_key) (few : src.slots ≤ 2 ^ 32) (dst : List ℕ)
    (big : src.slots * src.stride ≤ length dst) (sch : Sched) (fits : Fits p src sch) where
  -- An arm ends without a panic, has recovered every payload, and counts a success per round.
  abbrev Recovered : Option (Pass p) → Type 0
  Recovered o = (t : Pass p) × (o ≡ some t) × (t.acc ≡ checksum src sch sch.n) × (t.done ≡ sch.n)

  recovers :
      {o : Option (Pass p)} {t : Pass p}
      → o ≡ some t
      → (t.acc ≡ checksum src sch sch.n) × (t.done ≡ sch.n)
      → Recovered o
  recovers {o} {t} e got = (t, e, got.0, got.1)

  -- `aes-gcm`, `ring` and ChaCha do the same work on a pool, in any order of its slots, if the first
  -- two are the same cipher, for a buffer of the pool's size and a schedule within the pool: no
  -- index is out of bounds, each opens the packet of every round, and folds the payloads that went
  -- into the pool, so the accumulators agree.
  pub decrypting_arms :
      Recovered (arm_rc_aesgcm_dec p x src dst sch)
      × Recovered (arm_ring_aesgcm_dec p x src dst sch)
      × Recovered (arm_rc_chacha_dec p x src dst sch)
  decrypting_arms = (
    recovers (arm_rc_aesgcm_dec_total p x src pool few dst big sch fits laws.ring_laws)
        (arm_rc-Complete p laws x src pool same few dst sch fits.visits),
    recovers (arm_ring_aesgcm_dec_total p x src pool few dst big sch fits laws.ring_laws)
        (arm_ring-Complete p laws x src pool same few dst sch fits.visits),
    recovers (arm_rc_chacha_dec_total p x src pool few dst big sch fits laws.cc_laws)
        (arm_chacha-Complete p laws x src pool same few dst sch fits.visits),
  )
