-- ===== src/Bench/Keyed.antt =====
-- lightway-expresslane-bench/src/main.rs: the keys, and a fresh receiver.
use lightway_cffi.Base.{ℕ, ◌≡◌, refl, true, false, none, some, List}
use lightway_cffi.Data.{version2, is_invalid}
use lightway_cffi.Session.{State, new, update_peer_key}
use lightway_cffi.Replay.Refine.{default-Tracks}
use lightway_cffi.Bench.Arms.{Providers}
use lightway_cffi.Bench.Sent.{Sends}
use lightway_cffi.Bench.Built.{load_key_ok, sender-Sends}
use lightway_cffi.Bench.Commits.{Receives}
use lightway_cffi.Bench.Runner.{Keys, build_keys, fresh_rx}

module _ (p : Providers) (key : List ℕ) (usable : is_invalid key ≡ false) (k : p.ring.Key)
    (q : p.rc.Key) (c : p.cc.Key) (ek : p.ring.new_key key ≡ some k)
    (eq : p.rc.new_key key ≡ some q) (ec : p.cc.new_key key ≡ some c) where
  abbrev keys_of : State p.ring → Keys p
  keys_of tx = record { rc_key = q; ring_key = k; cc_key = c; tx = tx; key = key }

  pub build_keys-Sends :
      (tx : State p.ring) × (build_keys p key ≡ some (keys_of tx)) × Sends p.ring k tx
  unfolding build_keys
  build_keys-Sends =
      let (tx, e, s) = sender-Sends p.ring key k usable ek in (tx, rw (e, eq, ek, ec) refl, s)

  pub fresh_rx-Receives :
      (tx : State p.ring)
      → (rx : State p.ring) × (fresh_rx p (keys_of tx) ≡ some rx) × Receives p.ring k 0 rx
  unfolding fresh_rx update_peer_key new
  fresh_rx-Receives tx = (
    record (new version2) {
      rx = record ((new version2).rx) { current_peer = some k; prev_peer = none };
      peer_key_installed = true;
    },
    simp (fresh_rx, update_peer_key, load_key_ok p.ring key k usable ek),
    record { peer = refl; version = refl; tracks = default-Tracks },
  )
