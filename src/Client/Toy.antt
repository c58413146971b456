-- ===== src/Client/Toy.antt =====
-- A core for the examples: a connection goes online with a packet from outside that is not empty, fails with
-- the error that it is given, and an error is its number: 0 for a timeout, 1 for a call out of
-- order, 2 for another fatal one.
use lightway_cffi.Base.{
  ℕ, Bool, true, false, ◌||◌, ◌==◌, ltb, ◌≡◌, refl, Option, none, some, List, [], ◌∷◌, Result, ok,
  err,
}
use lightway_cffi.Timer.{TickType, connection_tick, payload_tick}
use lightway_cffi.Client.{ConnState, datagram}
use lightway_cffi.Client.Core.{
  State, connecting, online, disconnecting, disconnected, dtls_v1_3, state_changed, Callback, event,
  schedule_tick, Core, Std,
}
use lightway_cffi.Client.Events.{rust_state_to_c}
use lightway_cffi.Client.Moves.{
  CoreCall, tick_call, outside_call, inside_call, disconnect_call, rotate_call, perform,
}
use lightway_cffi.Client.Shown.{shown}
use lightway_cffi.Client.Tracks.{StateLaws}

pub record Toy : Type 0 where
  pub phase : State
  pub fault : Option ℕ

abbrev answer : Option ℕ → Result (Unit {0}) ℕ
answer none = ok tt
answer (some e) = err e

abbrev toy_tick : Toy → TickType ℕ → Toy × List (Callback ℕ) × Result (Unit {0}) ℕ
toy_tick c connection_tick = (c, [], answer c.fault)
toy_tick c (payload_tick p) = (c, schedule_tick 50 1000000 (payload_tick p) ∷ [], ok tt)

abbrev toy_outside : Toy → List ℕ → Toy × List (Callback ℕ) × Result (Unit {0}) ℕ
toy_outside c (b ∷ bytes) = (record c { phase = online }, event (state_changed online) ∷ [], ok tt)
toy_outside c [] = (c, [], err 2)

abbrev toy_disconnect : Toy → Toy × List (Callback ℕ) × Result (Unit {0}) ℕ
toy_disconnect c = (
  record c { phase = disconnected },
  event (state_changed disconnecting) ∷ event (state_changed disconnected) ∷ [],
  ok tt,
)

abbrev toy_connect : Bool → List (Callback ℕ) × Option Toy
toy_connect true = ([], some (record { phase = connecting; fault = none }))
toy_connect false = ([], none)

abbrev pub toy_core : Core
toy_core = record {
  Connection = Toy;
  Payload = ℕ;
  Error = ℕ;
  Builder = Unit {0};
  ConnBuilder = Bool;
  max_inside_mtu = 1350;
  is_timed_out = λ e. e == 0;
  is_invalid_state = λ e. e == 1;
  is_fatal = λ e type. (e == 0) || (e == 2);
  new_builder = λ type ca inside network. some tt;
  with_chacha20 = λ b. some b;
  with_expresslane = λ b. b;
  with_expresslane_cb = λ b cb. b;
  with_expresslane_metrics = λ b cb. b;
  start_connect = λ b cb mtu. some (ltb 0 mtu);
  with_auth = λ b auth. b;
  with_server_domain_name_validation = λ b name. b;
  with_sni_header = λ b name. b;
  with_pq_crypto = λ b. b;
  connect = toy_connect;
  connection_type = λ c. datagram;
  state = λ c. c.phase;
  tick_interval = λ c. some 2000000;
  session_id = λ c. 1 ∷ 2 ∷ 3 ∷ 4 ∷ 5 ∷ 6 ∷ 7 ∷ 8 ∷ [];
  tunnel_protocol_version = λ c. 2;
  tls_protocol_version = λ c. dtls_v1_3;
  current_curve = λ c. some (80 ∷ 53 ∷ []);
  current_cipher = λ c. some (67 ∷ []);
  tick = toy_tick;
  outside_data_received = toy_outside;
  inside_data_received = λ c bytes. (c, [], answer c.fault);
  disconnect = toy_disconnect;
  rotate_expresslane_key = λ c. (c, [], ok tt);
}

abbrev pub toy_std : Std
toy_std = record { is_utf8 = λ bytes. true; display = λ addr. addr }

toy_reports :
    (k : CoreCall toy_core) (c : Toy)
    → shown (rust_state_to_c c.phase) (perform toy_core k c).1
      ≡ rust_state_to_c (perform toy_core k c).0.phase
unfolding rust_state_to_c
toy_reports (tick_call connection_tick) c = refl
toy_reports (tick_call (payload_tick p)) c = refl
toy_reports (outside_call []) c = refl
toy_reports (outside_call (b ∷ bytes)) c = refl
toy_reports (inside_call bytes) c = refl
toy_reports disconnect_call c = refl
toy_reports rotate_call c = refl

toy_starts : (b : Bool) (c : Toy) → (toy_connect b).1 ≡ some c → c.phase ≡ connecting
toy_starts true c h = cc
toy_starts false c h = cc

pub toy_laws : StateLaws toy_core
toy_laws = record { reports = toy_reports; starts = toy_starts; fails = λ b s h. toy_fails b s }
  where
    toy_fails : (b : Bool) (s : ConnState) → shown s (toy_connect b).0 ≡ s
    toy_fails true s = refl
    toy_fails false s = refl
