-- ===== src/Offload/Examples.antt =====
-- A header format for the examples: the version, the two flags, five zero bytes, and the session id.
use lightway_cffi.Base.{
  ℕ, ◌≡◌, ◌≢◌, refl, Bool, true, false, Option, none, some, List, [], ◌∷◌, ◌++◌, arith, ◌==◌,
  if◌then◌else◌, length, drop, replicate,
}
use lightway_cffi.Client.{he_success}
use lightway_cffi.Client.Core.{online, Live, Client, new_client}
use lightway_cffi.Client.Toy.{toy_core}
use lightway_cffi.Offload.{
  undecidable, expresslane, Header, HeaderFormat, HeaderFormatLaws, wire_size, identify_packet,
  build_expresslane_header,
}
use lightway_cffi.Offload.RoundTrip.{build-identify}

abbrev flag_byte : Bool → ℕ
flag_byte b = if b then 1 else 0

abbrev example_parse : List ℕ → Option Header
example_parse (v ∷ a ∷ e ∷ z3 ∷ z4 ∷ z5 ∷ z6 ∷ z7 ∷ sid) =
    some
      (record { version = v; aggressive_mode = a == 1; expresslane_data = e == 1; session = sid })
example_parse _ = none

abbrev example_format : HeaderFormat
example_format = record {
  try_from_wire = example_parse;
  append_to_wire = λ h.
      h.version
      ∷ flag_byte h.aggressive_mode
      ∷ flag_byte h.expresslane_data
      ∷ 0
      ∷ 0
      ∷ 0
      ∷ 0
      ∷ 0
      ∷ h.session;
  is_reserved = λ sid. false;
}

flag_back : (b : Bool) → (flag_byte b == 1) ≡ b
flag_back true = refl
flag_back false = refl

example_laws : HeaderFormatLaws example_format
example_laws = record {
  length-append_to_wire = λ h e. omega (arith, e);
  try_from_wire-append_to_wire =
      λ h e. rw (flag_back h.aggressive_mode, flag_back h.expresslane_data) refl;
}

abbrev session_id : List ℕ
session_id = 1 ∷ 2 ∷ 3 ∷ 4 ∷ 5 ∷ 6 ∷ 7 ∷ 8 ∷ []

abbrev live : Live toy_core
live = record {
  core = record { phase = online; fault = none };
  app_state = record {
    next_tick = none;
    pending_ticks = [];
    ip_config = none;
    nudge_time_cb = none;
    ctx = 0;
  };
  hooks = record {
    state_change_cb = none;
    event_cb = none;
    expresslane_state_change_cb = none;
    network_config_ipv4_cb = none;
    ctx = 0;
  };
}

abbrev client : Client toy_core
client = record (new_client toy_core) { connection = some live }

not_mine : client.conn.lock_owner ≢ 1
not_mine e = absurd (omega (arith, e))

build-identify_example :
    (bytes : List ℕ) × (length bytes ≡ wire_size)
    × (build_expresslane_header example_format toy_core 1
          (some client)
          (some session_id)
          (some (replicate 20 0))
        ≡ (some (bytes ++ drop wire_size (replicate 20 0)), he_success))
    × (identify_packet example_format
          (some (bytes ++ 9 ∷ []))
          17
          (some undecidable)
          (some (replicate 8 0))
          (some 0)
        ≡ record {
          kind = some expresslane;
          session_id = some session_id;
          header_len = some wire_size;
          code = he_success;
        })
build-identify_example =
    build-identify example_format example_laws toy_core live session_id refl 1 client
      (replicate 20 0) (9 ∷ []) (replicate 8 0) 17 undecidable 0 refl not_mine refl (omega arith)
      refl
