-- ===== src/Client/Retry.antt =====
-- A handshake whose tick fails keeps its timer.
use lightway_cffi.Base.{
  ℕ, ◌+◌, ◌≤◌, true, false, ◌||◌, arith, ◌≡◌, refl, sym, ap, ◌∙◌, subst, Option, none, some, List,
  inl, inr, both_false, Option-cases, err,
}
use lightway_cffi.Timer.{
  CffiAppState, connection_tick, earliest_tick_deadline, earliest_pending, unwrap_or, nanos_per_ms,
  cffi_schedule_tick_cb, record_tick, deadline_to_timeout_ms, merge,
}
use lightway_cffi.Client.{he_err_failed, ConnectionType, Conn}
use lightway_cffi.Client.Core.{State, Core, Std, Live, Client, Callback}
use lightway_cffi.Client.Events.{run_live}
use lightway_cffi.Client.Traffic.{nudge_ms_until, refresh}
use lightway_cffi.Client.Nudge.{
  Clock, is_due, is_handshake, retry_connection_tick_after_error, Ticked, after_tick,
  connection_tick_step, after_connection, nudge_locked,
}
use lightway_cffi.Client.Ticks.{handle_kept}

merge_le : (o : Option ℕ) (d : ℕ) → merge o d ≤ d
merge_le none d = omega arith
merge_le (some e) d = ground arith

some_same {ℓ} : {A : Type ℓ} {a b : A} → some a ≡ some b → b ≡ a
some_same h = cc

due_lem : (t now : ℕ) → t ≤ now → is_due now (some t) ≡ true
due_lem t now h = ground arith

pending_timer :
    {P : Type 0} (s : CffiAppState P) (d now : ℕ)
    → s.next_tick ≡ some d
    → 1 ≤ nudge_ms_until (earliest_tick_deadline s) now
unfolding nudge_ms_until earliest_tick_deadline deadline_to_timeout_ms
pending_timer s d now h = elim (Option-cases (earliest_pending s.pending_ticks)) [
  | inl n ↦ simp (h, n) (omega arith)
  | inr (t, e) ↦ simp (h, e) (omega arith)
]

module _ (C : Core) (std : Std) where
  -- A tick is waited for, no later than a delay after an instant.
  pub record Waits (latest : ℕ) (live : Live C) : Type 0 where
    pub deadline : ℕ
    pub next_tick : live.app_state.next_tick ≡ some deadline
    pub in_time : deadline ≤ latest

  retry-Waits :
      (now : ℕ) (e : C.Error) (type : ConnectionType) (s : State) (delay : ℕ) (live : Live C)
      → C.is_fatal e type ≡ false
      → is_handshake s ≡ true
      → Waits (now + delay) (record live {
        app_state = (retry_connection_tick_after_error C std now e type s delay live.app_state).0;
      })
  unfolding retry_connection_tick_after_error cffi_schedule_tick_cb record_tick
  retry-Waits now e type s delay live f h =
      rw (f, h)
        (record {
          deadline = merge live.app_state.next_tick (now + delay);
          next_tick = refl;
          in_time = merge_le live.app_state.next_tick (now + delay);
        })

  connection_tick_step-Waits :
      (clock : Clock) (conn : Conn) (live : Live C) (core' : C.Connection)
      (cs : List (Callback C.Payload)) (e : C.Error)
      → is_due clock.connection_tick_now live.app_state.next_tick ≡ true
      → C.tick live.core connection_tick ≡ (core', cs, err e)
      → C.is_fatal e (C.connection_type live.core) ≡ false
      → is_handshake (C.state core') ≡ true
      → let r = connection_tick_step C std clock conn live in
        (r.3 ≡ some e)
        × Waits (clock.retry_now + unwrap_or (C.tick_interval live.core) nanos_per_ms) r.1
  unfolding connection_tick_step after_tick run_live
  connection_tick_step-Waits clock conn live core' cs e due t f h =
      rw (due, t) (refl, retry-Waits _ _ _ _ _ _ f h)

  after_connection-kept :
      (clock : Clock) (client : Client C) (type : ConnectionType) (r : Ticked C std) (e : C.Error)
      → r.3 ≡ some e
      → C.is_timed_out e || C.is_fatal e type ≡ false
      → let end = after_connection C std clock client type r in
        (end.0.connection ≡ some r.1)
        × (end.0.conn.nudge_time_ms
            ≡ nudge_ms_until (earliest_tick_deadline r.1.app_state) clock.error_now)
        × (end.2 ≡ he_err_failed)
  unfolding after_connection
  after_connection-kept clock client type (conn, live, calls, none) e h k = cc
  after_connection-kept clock client type (conn, live, calls, some e') e h k =
      let left = record client {
        conn = refresh C std clock.error_now live conn;
        connection = some live;
      } in
      let kept =
        handle_kept C left e' type
          (subst (λ e. C.is_timed_out e || C.is_fatal e type ≡ false) (some_same h) k) in
      (ap (λ r. r.0.connection) kept, ap (λ r. r.0.conn.nudge_time_ms) kept, ap (λ r. r.2) kept)

  -- If the tick of a live connection is due, lightway-core fails it with an error that is neither
  -- a timeout nor fatal, and the connection is then in its handshake, then the nudge fails, the
  -- connection stays, with a tick that it waits for no longer than its tick interval, or a
  -- millisecond if it has none, and the host has a timer.
  pub nudge_locked-Waits :
      (clock : Clock) (client : Client C) (live : Live C) (t : ℕ) (core' : C.Connection)
      (cs : List (Callback C.Payload)) (e : C.Error)
      → client.connection ≡ some live
      → live.app_state.next_tick ≡ some t
      → t ≤ clock.connection_tick_now
      → C.tick live.core connection_tick ≡ (core', cs, err e)
      → C.is_timed_out e || C.is_fatal e (C.connection_type live.core) ≡ false
      → is_handshake (C.state core') ≡ true
      → let r = nudge_locked C std clock client in
        (live' : Live C) × ((r.0.connection ≡ some live')
          × Waits (clock.retry_now + unwrap_or (C.tick_interval live.core) nanos_per_ms) live'
          × (1 ≤ r.0.conn.nudge_time_ms)
          × (r.2 ≡ he_err_failed))
  unfolding nudge_locked
  nudge_locked-Waits clock client live t core' cs e h n d tick k s =
      let step = connection_tick_step C std clock client.conn live in
      let (failed, waits) =
        connection_tick_step-Waits clock client.conn live core' cs e
          (ap (is_due clock.connection_tick_now) n ∙ due_lem t clock.connection_tick_now d) tick
          (both_false (C.is_timed_out e) _ k).1 s in
      let (kept, timer, code) =
        after_connection-kept clock client (C.connection_type live.core) step e failed k in
      rw (h) (
        step.1,
        (
          kept,
          waits,
          subst (λ n. 1 ≤ n) (sym timer)
              (pending_timer step.1.app_state waits.deadline clock.error_now waits.next_tick),
          code,
        ),
      )
