-- ===== src/Bench/Valid.antt =====
-- lightway-expresslane-bench/src/main.rs: what `main` does for a payload size, from the keys to
-- the gates of the report.
use lightway_cffi.Base.{
  ℕ, ◌*◌, ◌^◌, ◌≤◌, ◌<◌, ◌≡◌, refl, sym, ap, ◌∙◌, subst, true, false, some, List, arith, length,
  max, replicate, length-replicate,
}
use lightway_cffi.Data.{is_invalid}
use lightway_cffi.Cipher.{SealsPackets}
use lightway_cffi.Bench.Pool.{Src, build, stride_for, slots_for}
use lightway_cffi.Bench.Arms.{Providers}
use lightway_cffi.Bench.Layout.{pool_layout}
use lightway_cffi.Bench.Built.{IsPool, build-IsPool}
use lightway_cffi.Bench.Agree.{SameCipher, ProviderLaws}
use lightway_cffi.Bench.Complete.{Right}
use lightway_cffi.Bench.Runner.{dec, enc, specs, jobs_of, Keys, build_keys}
use lightway_cffi.Bench.Run.{Entry, run_all, all_ok, all_acc, family_ok}
use lightway_cffi.Bench.Families.{all_ok-Final, all_acc-Final, family_ok-Final}
use lightway_cffi.Bench.Jobs.{specs-IsTrue}
use lightway_cffi.Bench.Keyed.{build_keys-Sends, fresh_rx-Receives}
use lightway_cffi.Bench.Final.{run_all-Final}
use lightway_cffi.Bench.Startup.{all_true, self_test_passes}
use lightway_cffi.Bench.Runner.{self_test}

-- What `main` relies on: the laws of the three crates, `aes-gcm` and `ring` being the same cipher
-- under the key, and the key being one that they and the session take.
pub record IsUsable (p : Providers) (key : List ℕ) : Type 0 where
  pub laws : ProviderLaws p
  pub can : SealsPackets p.ring
  pub cc_can : SealsPackets p.cc
  pub usable : is_invalid key ≡ false
  pub ring_key : p.ring.Key
  pub rc_key : p.rc.Key
  pub cc_key : p.cc.Key
  pub ring_loads : p.ring.new_key key ≡ some ring_key
  pub rc_loads : p.rc.new_key key ≡ some rc_key
  pub cc_loads : p.cc.new_key key ≡ some cc_key
  pub same : SameCipher p.ring p.rc ring_key rc_key

-- A benchmark run of one or more rounds, in which every job is sampled, never panics and passes
-- the gates of the report, on a usable key, a session id of 8 bytes and at most 2^32 slots: the
-- keys and a pool of any payload size from 8 bytes to 65,535 are built, the self-test passes, no
-- index is out of bounds, every assertion holds, there is a result for each job, every operation
-- succeeded, the accumulators are stable, and all arms that decrypt agree, as do all that encrypt
-- with AES, hot and cold.
pub run_all_valid :
    (p : Providers) (key sid : List ℕ) (len target_bytes max_slots seed order_seed n : ℕ)
    (counts : ℕ → ℕ)
    → IsUsable p key
    → length sid ≡ 8
    → 8 ≤ len
    → len ≤ 65535
    → max_slots ≤ 2 ^ 32
    → 0 < n
    → ((i : ℕ) → 0 < counts i)
    → (keys : Keys p) × (src : Src) × (build_keys p key ≡ some keys)
      × (build p.ring p.cc len target_bytes max_slots key sid seed ≡ some src)
      × (self_test p keys src ≡ some (all_true p))
      × (results : List Entry) × (run_all p n counts keys src order_seed
            (replicate (src.slots * src.stride) 0)
            specs
          ≡ some results)
      × (length results ≡ length (jobs_of specs))
      × (all_ok results ≡ true)
      × (all_acc results ≡ true)
      × (family_ok dec results ≡ true)
      × (family_ok enc results ≡ true)
run_all_valid p key sid len target max_slots seed order_seed n counts u es least small few rounds
      each =
    let (tx, built, sends) =
      build_keys-Sends p key u.usable u.ring_key u.rc_key u.cc_key u.ring_loads u.rc_loads
        u.cc_loads in
    let (rx, fresh_is, fresh) =
      fresh_rx-Receives p key u.usable u.ring_key u.rc_key u.cc_key u.ring_loads u.rc_loads
        u.cc_loads tx in
    let (src, made, slots, length_is, pool) =
      build-IsPool p.ring p.cc u.laws.ring_laws u.laws.cc_laws u.can u.cc_can len target max_slots
        key sid seed u.ring_key u.cc_key small es u.usable u.ring_loads u.cc_loads in
    let (aligned, most, limited, fits) = pool_layout len target max_slots in
    let r : Right p u.ring_key u.rc_key u.cc_key src.session_id src = record {
      laws = u.laws;
      can = u.can;
      cc_can = u.cc_can;
      same = u.same;
      pool = subst (λ t. IsPool p.ring p.cc u.ring_key u.cc_key t src) (sym pool.id) pool;
      few =
          few_slots max_slots src.slots (slots_for target max_slots (stride_for len)) slots few
            limited;
      payloads = omega (arith, length_is);
      sid_size = ap length pool.id ∙ es;
    } in
    let (results, ran, len_is, final) =
      run_all-Final p _ src order_seed r (omega (arith, slots, most)) rx fresh_is fresh counts each
        n (replicate (src.slots * src.stride) 0) specs rounds specs-IsTrue
        (omega (arith, length-replicate {A = ℕ} (src.slots * src.stride) 0)) sends in
    (
      _,
      src,
      built,
      made,
      self_test_passes p u.laws _ src r.pool u.same r.sid_size (omega (arith, slots, most)) rx
          fresh_is fresh,
      results,
      ran,
      len_is,
      all_ok-Final _ results final,
      all_acc-Final _ results final,
      family_ok-Final _ dec results refl final,
      family_ok-Final _ enc results refl final,
    )
  where
    few_slots : (limit slots n : ℕ) → slots ≡ n → limit ≤ 2 ^ 32 → n ≤ max limit 64 → slots ≤ 2 ^ 32
    few_slots limit slots n e h k = ground arith
