-- ===== src/Bench/Examples.antt =====
-- A benchmark with the example cipher in the place of all three crates, and a pool of one slot.
use lightway_cffi.Base.{
  ℕ, ◌+◌, ◌*◌, ◌≤◌, ◌<◌, ◌≡◌, refl, subst, zero, suc, true, false, some, List, [], ◌∷◌, ◌++◌, arith,
  length, replicate, take, get_or, max, to_be_bytes, write_at,
}
use lightway_cffi.Base.Fields.{join}
use lightway_cffi.Data.{is_invalid, bytes_eq, invalid_sentinel}
use lightway_cffi.Cipher
use lightway_cffi.Replay.Refine.{default-Tracks}
use lightway_cffi.Cipher.{Aead, AeadLaws, SealsPackets}
use lightway_cffi.Session.{update_peer_key, load_key, new, packets_received}
use lightway_cffi.Session.Toy.{toy, toy_laws, toy_tag, checksum}
use lightway_cffi.Session.Packet.{packet}
use lightway_cffi.Session.Steps.{run, step}
use lightway_cffi.Session.Peers.{same_version, key, sid, sender, receiver, sender_key, receiver_key}
use lightway_cffi.Bench.Pool.{
  Src, Sched, iv_for, aad_v2, build, slots_for, stride_for, fill_payload,
}
use lightway_cffi.Bench.Bounds.{Fits}
use lightway_cffi.Bench.Arms.{
  Pass, Providers, Ctx, arm_rc_aesgcm_dec, arm_ring_aesgcm_dec, arm_rc_chacha_dec, arm_session_dec,
  arm_rc_aesgcm_enc, arm_ring_aesgcm_enc, arm_session_enc,
}
use lightway_cffi.Bench.Sent.{Sends}
use lightway_cffi.Bench.Filled.{Holds}
use lightway_cffi.Bench.Built.{IsPool, build-IsPool}
use lightway_cffi.Bench.Layout.{IsStride, pool_layout}
use lightway_cffi.Bench.Fill.{draws, fill_payload_total}
use lightway_cffi.Bench.Recovers
use lightway_cffi.Bench.Agree.{SameCipher, ProviderLaws, decrypting_arms}
use lightway_cffi.Bench.Commits.{Receives, arm_session_dec-Complete}
use lightway_cffi.Bench.Folds.{sealed_sum}
use lightway_cffi.Bench.Encrypts.{encrypting_arms}
use lightway_cffi.Bench.Startup.{all_true}
use lightway_cffi.Bench.Runner.{Keys, specs, jobs_of, build_keys, self_test, dec, enc}
use lightway_cffi.Bench.Run.{Entry, run_all, all_ok, all_acc, family_ok}
use lightway_cffi.Bench.Valid.{IsUsable, run_all_valid}

abbrev crates : Providers
crates = record { ring = toy; rc = toy; cc = toy }

crates_laws : ProviderLaws crates
crates_laws = record { ring_laws = toy_laws; rc_laws = toy_laws; cc_laws = toy_laws }

toy_seals : SealsPackets toy
toy_seals = record { seal_ok = λ k iv aad buf h h'. (toy_tag k iv aad buf, refl) }

same_toy : SameCipher toy toy key key
same_toy = record { same = λ iv aad buf. refl }

key_usable : is_invalid key ≡ false
unfolding is_invalid bytes_eq invalid_sentinel
key_usable = refl

usable : IsUsable crates key
usable = record {
  laws = crates_laws;
  can = toy_seals;
  cc_can = toy_seals;
  usable = key_usable;
  ring_key = key;
  rc_key = key;
  cc_key = key;
  ring_loads = refl;
  rc_loads = refl;
  cc_loads = refl;
  same = same_toy;
}

run_all_valid_example :
    (keys : Keys crates) × (src : Src) × (build_keys crates key ≡ some keys)
    × (build toy toy 16 4096 100 key sid 7 ≡ some src)
    × (self_test crates keys src ≡ some (all_true crates))
    × (results : List Entry) × (run_all crates 2
          (λ i. 8 + i)
          keys
          src
          9
          (replicate (src.slots * src.stride) 0)
          specs
        ≡ some results)
    × (length results ≡ length (jobs_of specs))
    × (all_ok results ≡ true)
    × (all_acc results ≡ true)
    × (family_ok dec results ≡ true)
    × (family_ok enc results ≡ true)
run_all_valid_example =
    run_all_valid crates key sid 16 4096 100 7 9 2 (λ i. 8 + i) usable refl (omega arith)
      (omega arith) (omega arith) (omega arith) (λ i. omega arith)

build-IsPool_example :
    (src : Src) × (build toy toy 16 4096 100 key sid 7 ≡ some src)
    × (src.slots ≡ slots_for 4096 100 (stride_for 16))
    × (src.len ≡ 16)
    × IsPool toy toy key key sid src
build-IsPool_example =
    build-IsPool toy toy toy_laws toy_laws toy_seals toy_seals 16 4096 100 key sid 7 key key
      (omega arith) refl key_usable refl refl

pool_layout_example :
    IsStride 16 (stride_for 16)
    × (64 ≤ slots_for 4096 100 (stride_for 16))
    × (slots_for 4096 100 (stride_for 16) ≤ max 100 64)
    × (slots_for 4096 100 (stride_for 16) * stride_for 16 ≤ max 4096 (64 * stride_for 16))
pool_layout_example = pool_layout 16 4096 100

fill_payload_total_example :
    (rng' : ℕ) × (fill_payload 14 13 0 5 (replicate 13 0) ≡ some (rng', take 13 (draws 14 5)))
fill_payload_total_example = fill_payload_total 13 5 (replicate 13 0) refl

abbrev payload : List ℕ
payload = 1 ∷ 2 ∷ 3 ∷ 4 ∷ 5 ∷ 6 ∷ 7 ∷ 8 ∷ []

abbrev first_tag : List ℕ
first_tag = toy_tag key (iv_for 1) (aad_v2 sid 1 0) payload

abbrev first_packet : List ℕ
first_packet = join (packet 1 (iv_for 1) first_tag 8 0 payload) (replicate 16 0)

abbrev pool_src : Src
pool_src = record {
  wire = first_packet;
  wire_cc = first_packet;
  plain = payload ++ replicate 56 0;
  slots = 1;
  len = 8;
  stride = 64;
  session_id = sid;
  pool_hash = 0;
}

first_holds : Holds toy key sid 8 64 pool_src.plain first_packet 0
unfolding toy_tag checksum iv_for aad_v2 to_be_bytes write_at
first_holds = record { tag = first_tag; seals = refl; is = refl }

-- The only slot is slot 0.
first_only : (j : ℕ) → j < 1 → Holds toy key sid 8 64 pool_src.plain first_packet j
first_only j h =
    subst (Holds toy key sid 8 64 pool_src.plain first_packet) {x = 0} (omega arith) first_holds

pool_src-IsPool : IsPool toy toy key key sid pool_src
pool_src-IsPool = record {
  id = refl;
  small = omega arith;
  room = omega arith;
  size = refl;
  holds = first_only;
  holds_cc = first_only;
}

abbrev once : Sched
once = record { slot = 0 ∷ []; fold = 0 ∷ []; n = 1 }

abbrev ctx : Ctx crates
ctx = record { rc_key = key; ring_key = key; cc_key = key; rx = receiver; tx = sender; sid = sid }

receiver-Receives : Receives toy key 0 receiver
unfolding run step new update_peer_key load_key Cipher.new is_invalid bytes_eq invalid_sentinel
receiver-Receives = record {
  peer = receiver_key;
  version = same_version.1;
  tracks = default-Tracks;
}

sender_Sends : Sends toy key sender
sender_Sends = record { key = sender_key; version = same_version.0 }

visits_first : (i : ℕ) → i < 1 → get_or once.slot i 0 < 1
visits_first zero h = omega arith
visits_first (suc i) h = absurd (omega arith)

inside_first : (i : ℕ) → i < 1 → get_or once.fold i 0 + 8 ≤ 8
inside_first zero h = omega arith
inside_first (suc i) h = absurd (omega arith)

in_order_first : (i : ℕ) → i < 1 → get_or once.slot i 0 ≡ i
in_order_first zero h = refl
in_order_first (suc i) h = absurd (omega arith)

abbrev slot_room : List ℕ
slot_room = replicate 64 0

once-Fits : Fits crates pool_src once
once-Fits = record {
  slots = omega arith;
  folds = omega arith;
  visits = visits_first;
  inside = inside_first;
}

decrypting_arms_example :
    ((t : Pass crates) × (arm_rc_aesgcm_dec crates ctx pool_src slot_room once ≡ some t)
      × (t.acc ≡ Recovers.checksum pool_src once 1)
      × (t.done ≡ 1))
    × ((t : Pass crates) × (arm_ring_aesgcm_dec crates ctx pool_src slot_room once ≡ some t)
        × (t.acc ≡ Recovers.checksum pool_src once 1)
        × (t.done ≡ 1))
    × ((t : Pass crates) × (arm_rc_chacha_dec crates ctx pool_src slot_room once ≡ some t)
        × (t.acc ≡ Recovers.checksum pool_src once 1)
        × (t.done ≡ 1))
decrypting_arms_example =
    decrypting_arms crates crates_laws ctx pool_src pool_src-IsPool same_toy (omega arith) slot_room
      (omega arith) once once-Fits

arm_session_dec-Complete_example :
    (t : Pass crates) × (arm_session_dec crates ctx pool_src slot_room once ≡ some t)
    × (t.acc ≡ Recovers.checksum pool_src once 1)
    × (t.done ≡ 1)
    × (packets_received t.rx ≡ 1)
arm_session_dec-Complete_example =
    arm_session_dec-Complete crates toy_laws ctx pool_src pool_src-IsPool (omega arith) refl
      slot_room (omega arith) once refl in_order_first once-Fits receiver-Receives

encrypting_arms_example :
    ((t : Pass crates) × (arm_rc_aesgcm_enc crates ctx pool_src slot_room once ≡ some t)
      × (t.acc ≡ (sealed_sum toy key sid pool_src once 1).0)
      × (t.done ≡ 1))
    × ((t : Pass crates) × (arm_ring_aesgcm_enc crates ctx pool_src slot_room once ≡ some t)
        × (t.acc ≡ (sealed_sum toy key sid pool_src once 1).0)
        × (t.done ≡ 1))
    × ((t : Pass crates) × (arm_session_enc crates ctx pool_src slot_room once ≡ some t)
        × (t.acc ≡ (sealed_sum toy key sid pool_src once 1).0)
        × (t.done ≡ 1))
encrypting_arms_example =
    encrypting_arms crates toy_laws toy_seals ctx pool_src pool_src-IsPool same_toy (omega arith)
      slot_room (omega arith) refl once once-Fits sender_Sends
