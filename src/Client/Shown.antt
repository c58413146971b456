-- ===== src/Client/Shown.antt =====
-- What the callbacks of a call of lightway-core leave in the connection object, and what the host
-- hears of it.
use lightway_cffi.Base.{ℕ, ◌≡◌, refl, ap, ◌∙◌, Option, none, some, List, [], ◌∷◌, ◌++◌}
use lightway_cffi.Timer.{CffiAppState, cffi_schedule_tick_cb}
use lightway_cffi.Client.{ConnState, Conn}
use lightway_cffi.Client.Core.{
  Event, state_changed, keepalive_reply, first_packet_received, session_id_rotation_acknowledged,
  tls_keys_update_start, tls_keys_update_completed, encoding_state_changed,
  session_id_rotation_started, expresslane_state_changed, Callback, event, schedule_tick,
  set_ip_config, Core, Std, Hooks,
}
use lightway_cffi.Client.Events.{
  Call, state_change_call, event_call, expresslane_state_call, network_config_call, nudge_time_call,
  call_if, rust_state_to_c, fire_event, on_event, on_ip_config, Inner, callback, callbacks,
  nudge_time_calls,
}

-- The state after these callbacks.
abbrev pub shown : {P : Type 0} → ConnState → List (Callback P) → ConnState
shown s [] = s
shown s (event (state_changed t) ∷ cs) = shown (rust_state_to_c t) cs
shown s (event _ ∷ cs) = shown s cs
shown s (schedule_tick now d t ∷ cs) = shown s cs
shown s (set_ip_config c ∷ cs) = shown s cs

-- The state that the last call of the state-change callback gave.
unfoldable pub reported : ConnState → List Call → ConnState
reported s [] = s
reported s (state_change_call cb t ctx ∷ calls) = reported t calls
reported s (event_call cb e ctx ∷ calls) = reported s calls
reported s (expresslane_state_call cb e ctx ∷ calls) = reported s calls
reported s (network_config_call cb c ctx ∷ calls) = reported s calls
reported s (nudge_time_call cb ms ctx ∷ calls) = reported s calls

pub reported-append :
    (s : ConnState) (xs ys : List Call) → reported s (xs ++ ys) ≡ reported (reported s xs) ys
unfolding reported
reported-append s [] ys = refl
reported-append s (state_change_call cb t ctx ∷ xs) ys = reported-append t xs ys
reported-append s (event_call cb e ctx ∷ xs) ys = reported-append s xs ys
reported-append s (expresslane_state_call cb e ctx ∷ xs) ys = reported-append s xs ys
reported-append s (network_config_call cb c ctx ∷ xs) ys = reported-append s xs ys
reported-append s (nudge_time_call cb ms ctx ∷ xs) ys = reported-append s xs ys

module _ (C : Core) (std : Std) (hooks : Hooks) where
  abbrev with_state : Conn → ConnState → Conn
  with_state conn s = record conn { state = s }

  -- The state is all that callbacks change in the connection object.
  pub callbacks-conn :
      (inner : Inner C std) (cs : List (Callback C.Payload))
      → (callbacks C std hooks inner cs).conn ≡ with_state inner.conn (shown inner.conn.state cs)
  unfolding callbacks callback on_event
  callbacks-conn inner [] = refl
  callbacks-conn inner (event (state_changed t) ∷ cs) =
      callbacks-conn (callback C std hooks inner (event (state_changed t))) cs
  callbacks-conn inner (event keepalive_reply ∷ cs) =
      callbacks-conn (callback C std hooks inner (event keepalive_reply)) cs
  callbacks-conn inner (event first_packet_received ∷ cs) =
      callbacks-conn (callback C std hooks inner (event first_packet_received)) cs
  callbacks-conn inner (event session_id_rotation_acknowledged ∷ cs) =
      callbacks-conn (callback C std hooks inner (event session_id_rotation_acknowledged)) cs
  callbacks-conn inner (event tls_keys_update_start ∷ cs) =
      callbacks-conn (callback C std hooks inner (event tls_keys_update_start)) cs
  callbacks-conn inner (event tls_keys_update_completed ∷ cs) =
      callbacks-conn (callback C std hooks inner (event tls_keys_update_completed)) cs
  callbacks-conn inner (event encoding_state_changed ∷ cs) =
      callbacks-conn (callback C std hooks inner (event encoding_state_changed)) cs
  callbacks-conn inner (event session_id_rotation_started ∷ cs) =
      callbacks-conn (callback C std hooks inner (event session_id_rotation_started)) cs
  callbacks-conn inner (event (expresslane_state_changed s) ∷ cs) =
      callbacks-conn (callback C std hooks inner (event (expresslane_state_changed s))) cs
  callbacks-conn inner (schedule_tick now d t ∷ cs) =
      callbacks-conn (callback C std hooks inner (schedule_tick now d t)) cs
  callbacks-conn inner (set_ip_config c ∷ cs) =
      callbacks-conn (callback C std hooks inner (set_ip_config c)) cs

  -- A callback that is no state change tells of none.
  call_if-reported :
      (o : Option ℕ) (call : ℕ → Call)
      → ((s : ConnState) (cb : ℕ) → reported s (call cb ∷ []) ≡ s)
      → (s : ConnState) → reported s (call_if o call) ≡ s
  unfolding reported
  call_if-reported none call quiet s = refl
  call_if-reported (some cb) call quiet s = quiet s cb

  pub nudge_time_calls-reported :
      (s : ConnState) (a : CffiAppState C.Payload) (timeout : Option ℕ)
      → reported s (nudge_time_calls C std a timeout) ≡ s
  unfolding reported nudge_time_calls
  nudge_time_calls-reported s a none = refl
  nudge_time_calls-reported s a (some timeout) = call_if-reported a.nudge_time_cb _ (λ s cb. refl) s

  on_event-reported :
      (cb : ℕ)
      → hooks.state_change_cb ≡ some cb
      → (conn : Conn) (e : Event)
      → reported conn.state (on_event hooks conn e).1 ≡ (on_event hooks conn e).0.state
  unfolding reported on_event fire_event
  on_event-reported cb h conn (state_changed t) = rw (h) refl
  on_event-reported cb h conn keepalive_reply = call_if-reported hooks.event_cb _ (λ s c. refl) _
  on_event-reported cb h conn first_packet_received =
      call_if-reported hooks.event_cb _ (λ s c. refl) _
  on_event-reported cb h conn session_id_rotation_acknowledged =
      call_if-reported hooks.event_cb _ (λ s c. refl) _
  on_event-reported cb h conn tls_keys_update_start =
      call_if-reported hooks.event_cb _ (λ s c. refl) _
  on_event-reported cb h conn tls_keys_update_completed =
      call_if-reported hooks.event_cb _ (λ s c. refl) _
  on_event-reported cb h conn encoding_state_changed = refl
  on_event-reported cb h conn session_id_rotation_started = refl
  on_event-reported cb h conn (expresslane_state_changed s) =
      call_if-reported hooks.expresslane_state_change_cb _ (λ s c. refl) _

  callback-reported :
      (cb : ℕ)
      → hooks.state_change_cb ≡ some cb
      → (s : ConnState) (inner : Inner C std) (c : Callback C.Payload)
      → reported s inner.calls ≡ inner.conn.state
      → reported s (callback C std hooks inner c).calls ≡ (callback C std hooks inner c).conn.state
  unfolding callback on_ip_config reported
  callback-reported cb h s inner (event e) i =
      reported-append s inner.calls _
      ∙ ap (λ t. reported t (on_event hooks inner.conn e).1) i
      ∙ on_event-reported cb h inner.conn e
  callback-reported cb h s inner (schedule_tick now d t) i =
      reported-append s inner.calls _
      ∙ nudge_time_calls-reported _ (cffi_schedule_tick_cb now d inner.app_state t).0 _
      ∙ i
  callback-reported cb h s inner (set_ip_config config) i =
      reported-append s inner.calls _
      ∙ call_if-reported hooks.network_config_ipv4_cb _ (λ s cb. refl) _
      ∙ i

  -- With the state-change callback set, the last state that it gave is the connection object's.
  pub callbacks-reported :
      (cb : ℕ)
      → hooks.state_change_cb ≡ some cb
      → (s : ConnState) (inner : Inner C std) (cs : List (Callback C.Payload))
      → reported s inner.calls ≡ inner.conn.state
      → reported s (callbacks C std hooks inner cs).calls
        ≡ (callbacks C std hooks inner cs).conn.state
  unfolding callbacks
  callbacks-reported cb h s inner [] i = i
  callbacks-reported cb h s inner (c ∷ cs) i =
      callbacks-reported cb h s (callback C std hooks inner c) cs
        (callback-reported cb h s inner c i)
