-- ===== src/Client/Established.antt =====
-- What a connect leaves behind.
use lightway_cffi.Base.{
  false, is_some, if◌then◌else◌, arith, ◌≡◌, ◌≢◌, refl, sym, ap, subst, Option, none, some, List,
  [], inl, inr, Option-cases, Result, ok, err,
}
use lightway_cffi.Client.{
  ReturnCode, he_success, he_err_invalid_conn_state, state_connecting, protocol_none,
}
use lightway_cffi.Client.Core.{Core, Std, Live, Client, Callback}
use lightway_cffi.Client.Events.{Call, callbacks}
use lightway_cffi.Client.Shown.{callbacks-conn}
use lightway_cffi.Client.Connect.{
  prepare, install, fresh_conn, begin, connect_with, hooks_of, opening, client_connect_locked,
}
use lightway_cffi.Client.Config.{is_success, fails, fails-prepare}

module _ (C : Core) (std : Std) where
  -- What a connect gets: a connection with nothing of an earlier one left, none, or the refusal
  -- to replace a live one.
  pub data ConnectEnd (client : Client C) (r : Client C × List Call × ReturnCode) : Type 0 where
    connected :
        (live : Live C)
        → client.connection ≡ none
        → r.2 ≡ he_success
        → r.0.connection ≡ some live
        → r.0.conn ≡ record client.conn {
          state = state_connecting;
          current_protocol = protocol_none;
          curve_name = none;
          cipher_name = none;
          outside_mtu_negotiated = client.conn.outside_mtu;
        }
        → ConnectEnd client r
    not_connected :
        client.connection ≡ none → r.2 ≢ he_success → r.0.connection ≡ none → ConnectEnd client r
    already_connected :
        (live : Live C)
        → client.connection ≡ some live
        → r ≡ (client, [], he_err_invalid_conn_state)
        → ConnectEnd client r

  begin-ConnectEnd :
      (client : Client C) (cs : List (Callback C.Payload)) (o : Option C.Connection)
      → client.connection ≡ none
      → ConnectEnd client (
          install C std client
            (callbacks C std (hooks_of C std client) (opening C std client) cs)
            o)
  unfolding install fresh_conn opening
  begin-ConnectEnd client cs none n = not_connected n (λ e. cc) n
  begin-ConnectEnd client cs (some core) n = connected _ n refl refl (
      ap (fresh_conn C std)
        (callbacks-conn C std (hooks_of C std client) (opening C std client) cs))

  success_failed : (code : ReturnCode) → is_success code ≡ false → code ≢ he_success
  success_failed code h e = ground arith

  prepared-ConnectEnd :
      (client : Client C) (r : Result C.ConnBuilder ReturnCode)
      → client.connection ≡ none
      → fails is_success r ≡ false
      → ConnectEnd client (begin C std client r)
  unfolding begin connect_with
  prepared-ConnectEnd client (err code) n h = not_connected n (success_failed code h) n
  prepared-ConnectEnd client (ok b) n h = begin-ConnectEnd client (C.connect b).0 (C.connect b).1 n

  -- A connect on a live connection is refused and changes nothing. Another one either makes a
  -- connection, with success, in the state connecting, with the configured MTU, and with no
  -- protocol, curve or cipher; or it leaves the client with no connection, and fails.
  pub client_connect_locked-ConnectEnd :
      (client : Client C) → ConnectEnd client (client_connect_locked C std client)
  unfolding client_connect_locked
  client_connect_locked-ConnectEnd client = elim (Option-cases client.connection) [
    | inr (live, h) ↦ already_connected live h (
        ap
          (λ o.
            if is_some o
            then (client, [], he_err_invalid_conn_state)
            else begin C std client (prepare C std client))
          h)
    | inl n ↦
        subst
          (λ o. ConnectEnd client (
            if is_some o
            then (client, [], he_err_invalid_conn_state)
            else begin C std client (prepare C std client)))
          (sym n)
          (prepared-ConnectEnd client (prepare C std client) n
            (fails-prepare C std is_success refl refl refl client))
  ]
