-- ===== src/Client/Moves.antt =====
-- What the calls of the library do to a client, as a chain of moves.
use lightway_cffi.Base.{
  ℕ, Bool, true, ◌||◌, ◌≡◌, sym, subst, Option, none, some, List, [], ◌++◌, Result,
}
use mathlib.Core.List.{append_assoc, append-nil}
use lightway_cffi.Timer.{TickType, CffiAppState}
use lightway_cffi.Client.{state_disconnecting, state_disconnected}
use lightway_cffi.Client.Core.{Core, Std, Live, Client, Callback}
use lightway_cffi.Client.Events.{Call, nudge_time_calls, run}
use lightway_cffi.Client.Lock.{set_owner}
use lightway_cffi.Client.Teardown.{
  is_disconnecting, is_disconnected, notify, sync_conn_info, fatal_disconnect,
}
use lightway_cffi.Client.Connect.{connect_with}

module _ (C : Core) where
  -- A call of the core on a live connection.
  pub data CoreCall : Type 0 where
    tick_call : TickType C.Payload → CoreCall
    outside_call inside_call : List ℕ → CoreCall
    disconnect_call rotate_call : CoreCall

  abbrev pub perform :
      CoreCall → C.Connection → C.Connection × List (Callback C.Payload) × Result (Unit {0}) C.Error
  perform (tick_call t) core = C.tick core t
  perform (outside_call bytes) core = C.outside_data_received core bytes
  perform (inside_call bytes) core = C.inside_data_received core bytes
  perform disconnect_call core = C.disconnect core
  perform rotate_call core = C.rotate_expresslane_key core

  abbrev pub with_nudge_time : ℕ → Client C → Client C
  with_nudge_time n client = record client { conn = record client.conn { nudge_time_ms = n } }

  abbrev pub with_app_state : Client C → Live C → CffiAppState C.Payload → Client C
  with_app_state client live s = record client { connection = some (record live { app_state = s }) }

  abbrev pub ended : Client C → Client C
  ended client = record client {
    conn = record client.conn { state = state_disconnected };
    connection = none;
  }

  -- The moves that call nothing.
  pub data Silent : Client C → Client C → Type 0 where
    owned : (client : Client C) (n : ℕ) → Silent client (set_owner C n client)
    synced : (client : Client C) → Silent client (sync_conn_info C client)
    timed : (client : Client C) (n : ℕ) → Silent client (with_nudge_time n client)
    stored :
        (client : Client C) (live : Live C) (s : CffiAppState C.Payload)
        → client.connection ≡ some live
        → Silent client (with_app_state client live s)
    dropped :
        (client : Client C)
        → is_disconnecting client.conn.state || is_disconnected client.conn.state ≡ true
        → Silent client (record client { connection = none })

module _ (C : Core) (std : Std) where
  abbrev pub ran : Client C → Live C → CoreCall C → Client C × List Call
  ran client live k =
      let (core', cs, result) = perform C k live.core in run C std client live core' cs

-- `fresh` is whether a connection may be started.
module _ (C : Core) (std : Std) (fresh : Bool) where
  -- The moves that can call the host.
  pub data Loud : Client C → List Call → Client C → Type 0 where
    called :
        (client : Client C) (live : Live C) (k : CoreCall C)
        → client.connection ≡ some live
        → Loud client (ran C std client live k).1 (ran C std client live k).0
    failed :
        (client : Client C)
        → Loud client (fatal_disconnect C client).1 (fatal_disconnect C client).0
    told :
        (client : Client C) (s : CffiAppState C.Payload) (timeout : Option ℕ)
        → Loud client (nudge_time_calls C std s timeout) client
    started :
        (client : Client C) (b : C.ConnBuilder)
        → fresh ≡ true
        → client.connection ≡ none
        → Loud client
            (connect_with C std client (C.connect b)).1
            (connect_with C std client (C.connect b)).0
    finished :
        (client : Client C)
        → Loud client
            (notify client.ssl_ctx client.conn state_disconnecting
              ++ notify client.ssl_ctx client.conn state_disconnected)
            (ended C client)

  pub data Moves : Client C → List Call → Client C → Type 0 where
    done : {client : Client C} → Moves client [] client
    silently :
        {client client' client'' : Client C} {xs : List Call}
        → Moves client xs client'
        → Silent C client' client''
        → Moves client xs client''
    loudly :
        {client client' client'' : Client C} {xs ys : List Call}
        → Moves client xs client'
        → Loud client' ys client''
        → Moves client (xs ++ ys) client''

  pub join :
      {client client' client'' : Client C} {xs ys : List Call}
      → Moves client xs client'
      → Moves client' ys client''
      → Moves client (xs ++ ys) client''
  join {client} {client'} {xs = xs} first done =
      subst (λ zs. Moves client zs client') (sym (append-nil xs)) first
  join first (silently rest s) = silently (join first rest) s
  join {client} {client'' = client''} {xs = xs} first (loudly {xs = ys} {ys = zs} rest l) =
      subst (λ ws. Moves client ws client'') (append_assoc xs ys zs) (loudly (join first rest) l)

  pub loud :
      {client client' : Client C} {xs : List Call}
      → Loud client xs client'
      → Moves client xs client'
  loud l = loudly done l
