-- ===== src/Client/Expresslane.antt =====
-- src/cffi_expresslane.rs: the keys that the host is given, and the packet counts that it gives.
use lightway_cffi.Base.{ℕ, List}
use lightway_cffi.Client.{ReturnCode, he_success}
use lightway_cffi.Client.Access.{scrub_bytes}

pub record ExpresslaneKeys : Type 0 where
  pub session_id : List ℕ
  pub self_key : List ℕ
  pub peer_key : List ℕ
  pub version : ℕ

-- `lightway_core::ExpresslaneCbData`.
pub record ExpresslaneCbData : Type 0 where
  pub self_key : List ℕ
  pub peer_key : List ℕ
  pub version : ℕ

-- `lightway_core::ExpresslanePacketStats`.
pub record ExpresslanePacketStats : Type 0 where
  pub sent : ℕ
  pub received : ℕ

-- What the callback is called with, and what is left of it on the stack.
unfoldable pub update : List ℕ → ExpresslaneCbData → ExpresslaneKeys × ExpresslaneKeys
unfolding scrub_bytes
update session_id keys_data =
    let keys : ExpresslaneKeys = record {
      session_id = session_id;
      self_key = keys_data.self_key;
      peer_key = keys_data.peer_key;
      version = keys_data.version;
    } in
    (
      keys,
      record keys { self_key = scrub_bytes keys.self_key; peer_key = scrub_bytes keys.peer_key },
    )

unfoldable pub stats_of : ReturnCode × ℕ × ℕ → ExpresslanePacketStats
stats_of (he_success, sent, received) = record { sent = sent; received = received }
stats_of (_, sent, received) = record { sent = 0; received = 0 }

-- The callback is given the session id and two counts of 0, and gives its code and the counts as
-- it left them.
unfoldable pub get_stats : (List ℕ → ℕ → ℕ → ReturnCode × ℕ × ℕ) → List ℕ → ExpresslanePacketStats
unfolding stats_of
get_stats cb session_id = stats_of (cb session_id 0 0)
