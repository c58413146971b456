-- ===== src/Client/Received.antt =====
-- What a packet from outside leaves behind.
use lightway_cffi.Base.{
  ℕ, true, false, arith, ◌≡◌, refl, none, some, List, inl, inr, Bool-cases, Result, ok, err,
}
use lightway_cffi.Client.{ReturnCode, he_success, he_err_failed, state_disconnected, ConnectionType}
use lightway_cffi.Client.Core.{Core, Std, Live, Client}
use lightway_cffi.Client.Events.{Call, run, run_live}
use lightway_cffi.Client.Teardown.{
  sync_conn_info, snapshot, synced_conn, fatal_disconnect, is_disconnected,
}
use lightway_cffi.Client.Traffic.{after_outside, outside_locked}
use lightway_cffi.Client.Ticks.{is_disconnected_lem}

module _ (C : Core) (std : Std) where
  -- The end of a packet by the core's answer to it: a fatal error ends the connection, and any
  -- other answer is a success that keeps it, with what the core has negotiated.
  pub data OutsideEnd (client : Client C) (type : ConnectionType)
      (result : Result (Unit {0}) C.Error) (live : Live C) (r : Client C × List Call × ReturnCode)
      : Type 0 where
    goes_on :
        ((e : C.Error) → result ≡ err e → C.is_fatal e type ≡ false)
        → r.2 ≡ he_success
        → r.0.connection ≡ some live
        → r.0.conn ≡ synced_conn C client.conn live.core
        → OutsideEnd client type result live r
    ended :
        (e : C.Error)
        → result ≡ err e
        → C.is_fatal e type ≡ true
        → r.2 ≡ he_err_failed
        → r.0.connection ≡ none
        → r.0.conn.state ≡ state_disconnected
        → OutsideEnd client type result live r

  fatal_disconnect-state :
      (client : Client C)
      → ((fatal_disconnect C client).0.connection ≡ none)
        × ((fatal_disconnect C client).0.conn.state ≡ state_disconnected)
  unfolding fatal_disconnect
  fatal_disconnect-state client = elim (Bool-cases (is_disconnected client.conn.state)) [
    | inl t ↦ rw (t) (refl, is_disconnected_lem client.conn.state t)
    | inr f ↦ rw (f) (refl, refl)
  ]

  after_outside-OutsideEnd :
      (type : ConnectionType) (result : Result (Unit {0}) C.Error) (client : Client C)
      (live : Live C) (calls : List Call)
      → client.connection ≡ some live
      → OutsideEnd client type result live (after_outside C std type result client calls)
  unfolding after_outside sync_conn_info snapshot
  after_outside-OutsideEnd type (ok u) client live calls h =
      goes_on (λ e x. cc) refl h (rw (h) refl)
  after_outside-OutsideEnd type (err e) client live calls h =
      elim (Bool-cases (C.is_fatal e type)) [
        | inl t ↦
            let end = fatal_disconnect-state client in rw (t) (ended e refl t refl end.0 end.1)
        | inr f ↦ rw (f) (goes_on (λ e' x. ground arith) refl h (rw (h) refl))
      ]

  -- A packet from outside for a live connection. When the core answers with an error that is fatal
  -- for the connection's type, the call fails, the connection is gone and the state is
  -- disconnected. With any other answer the call succeeds, the connection is the core's after the
  -- packet and its callbacks, and the host reads what that has negotiated.
  pub outside_locked-OutsideEnd :
      (bytes : List ℕ) (client : Client C) (live : Live C)
      → client.connection ≡ some live
      → let a = C.outside_data_received live.core bytes in
        let ran = run_live C std client.conn live a.0 a.1 in
        OutsideEnd
          (run C std client live a.0 a.1).0
          (C.connection_type live.core)
          a.2
          ran.1
          (outside_locked C std bytes client)
  unfolding outside_locked run
  outside_locked-OutsideEnd bytes client live h = rw (h) (
      let a = C.outside_data_received live.core bytes in
      let ran = run C std client live a.0 a.1 in
      after_outside-OutsideEnd (C.connection_type live.core) a.2 ran.0 _ ran.1 refl)
