-- ===== src/Client/Reports.antt =====
-- The host that listens to the state-change callback knows the state.
use lightway_cffi.Base.{
  ℕ, Bool, true, arith, ◌≡◌, refl, sym, ap, ◌∙◌, subst, Option, none, some, List, [], ◌∷◌, ◌++◌,
  inl, inr, Bool-cases,
}
use lightway_cffi.Client.{
  ConnState, state_disconnected, state_connecting, state_disconnecting, Conn,
}
use lightway_cffi.Client.Core.{Core, Std, Live, Client}
use lightway_cffi.Client.Events.{Call, Inner, run, run_live, callbacks}
use lightway_cffi.Client.Lock.{set_owner}
use lightway_cffi.Client.Teardown.{
  is_disconnected, notify, snapshot, sync_conn_info, fatal_disconnect, synced_conn,
}
use lightway_cffi.Client.Connect.{
  is_connecting, hooks_of, fresh_conn, connecting_calls, install, connect_with, opening,
}
use lightway_cffi.Client.Moves.{
  CoreCall, Silent, Loud, Moves, done, silently, loudly, owned, synced, timed, stored, dropped,
  ended, called, failed, told, started, finished, ran,
}
use lightway_cffi.Client.History.{Op, operate, history, is_connect, operate-Ends}
use lightway_cffi.Client.Shown.{
  reported, reported-append, callbacks-reported, nudge_time_calls-reported,
}

is_connecting_lem : (s : ConnState) → is_connecting s ≡ true → s ≡ state_connecting
is_connecting_lem s h = ground arith

module _ (C : Core) (std : Std) (cb : ℕ) where
  abbrev pub IsHeardBy : Option (Live C) → Type 0
  IsHeardBy none = Unit {0}
  IsHeardBy (some live) = live.hooks.state_change_cb ≡ some cb

  -- The state-change callback is `cb`, for the library and for the live connection.
  pub record IsHeard (client : Client C) : Type 0 where
    pub set : client.ssl_ctx.state_change_cb ≡ some cb
    pub connected : IsHeardBy client.connection

  Silent-IsHeard :
      {client client' : Client C} → Silent C client client' → IsHeard client → IsHeard client'
  unfolding set_owner sync_conn_info
  Silent-IsHeard (owned client n) h = record { set = h.set; connected = h.connected }
  Silent-IsHeard (synced client) h = record { set = h.set; connected = h.connected }
  Silent-IsHeard (timed client n) h = record { set = h.set; connected = h.connected }
  Silent-IsHeard (stored client live s e) h = record {
    set = h.set;
    connected = subst IsHeardBy e h.connected;
  }
  Silent-IsHeard (dropped client d) h = record { set = h.set; connected = tt }

  snapshot-state : (conn : Conn) (o : Option (Live C)) → (snapshot C conn o).state ≡ conn.state
  unfolding snapshot synced_conn
  snapshot-state conn none = refl
  snapshot-state conn (some live) = refl

  pub Silent-state :
      {client client' : Client C} → Silent C client client' → client'.conn.state ≡ client.conn.state
  unfolding set_owner sync_conn_info
  Silent-state (owned client n) = refl
  Silent-state (synced client) = snapshot-state client.conn client.connection
  Silent-state (timed client n) = refl
  Silent-state (stored client live s e) = refl
  Silent-state (dropped client d) = refl

  -- A loud move keeps the callback, and tells of the state it leaves.
  record Told (client : Client C) (calls : List Call) (client' : Client C) : Type 0 where
    pub heard : IsHeard client'
    pub agrees : reported client.conn.state calls ≡ client'.conn.state

  module _ (client : Client C) (h : IsHeard client) where
    called-Told :
        (live : Live C) (k : CoreCall C)
        → client.connection ≡ some live
        → Told client (ran C std client live k).1 (ran C std client live k).0
    unfolding run run_live reported
    called-Told live k e = record {
      heard = record { set = h.set; connected = hears };
      agrees = callbacks-reported C std live.hooks cb hears client.conn.state _ _ refl;
    }
      where
        hears : live.hooks.state_change_cb ≡ some cb
        hears = subst IsHeardBy e h.connected

    failed-Told : Told client (fatal_disconnect C client).1 (fatal_disconnect C client).0
    unfolding fatal_disconnect reported
    failed-Told = elim (Bool-cases (is_disconnected client.conn.state)) [
      | inl t ↦ rw (t) (record { heard = record { set = h.set; connected = tt }; agrees = refl })
      | inr f ↦
          rw (f)
            (record { heard = record { set = h.set; connected = tt }; agrees = rw (h.set) refl })
    ]

    finished-Told :
        Told client
          (notify client.ssl_ctx client.conn state_disconnecting
            ++ notify client.ssl_ctx client.conn state_disconnected)
          (ended C client)
    unfolding reported
    finished-Told = record {
      heard = record { set = h.set; connected = tt };
      agrees = rw (h.set) refl;
    }

    connecting-reported :
        (conn : Conn) (ctx : ℕ)
        → reported conn.state (connecting_calls C std client.ssl_ctx conn ctx) ≡ state_connecting
    unfolding connecting_calls reported
    connecting-reported conn ctx = elim (Bool-cases (is_connecting conn.state)) [
      | inl t ↦ rw (t) (is_connecting_lem conn.state t)
      | inr f ↦ rw (f) (rw (h.set) refl)
    ]

    install-Told :
        (inner : Inner C std) (o : Option C.Connection)
        → client.connection ≡ none
        → reported client.conn.state inner.calls ≡ inner.conn.state
        → Told client (install C std client inner o).1 (install C std client inner o).0
    unfolding install hooks_of fresh_conn
    install-Told inner none n i = record {
      heard = record { set = h.set; connected = h.connected };
      agrees = i;
    }
    install-Told inner (some core) n i = record {
      heard = record { set = h.set; connected = h.set };
      agrees =
          reported-append client.conn.state inner.calls _
          ∙ ap
              (λ s.
                reported s (connecting_calls C std client.ssl_ctx inner.conn client.conn.context))
              i
          ∙ connecting-reported inner.conn client.conn.context;
    }

    started-Told :
        (b : C.ConnBuilder)
        → client.connection ≡ none
        → Told client
            (connect_with C std client (C.connect b)).1
            (connect_with C std client (C.connect b)).0
    unfolding connect_with reported hooks_of opening
    started-Told b n =
        install-Told
          (callbacks C std (hooks_of C std client) (opening C std client) (C.connect b).0)
          (C.connect b).1 n
          (callbacks-reported C std (hooks_of C std client) cb h.set client.conn.state
            (opening C std client) (C.connect b).0 refl)

  module _ (fresh : Bool) where
    Loud-Told :
        {client client' : Client C} {calls : List Call}
        → Loud C std fresh client calls client'
        → IsHeard client
        → Told client calls client'
    Loud-Told (called client live k e) h = called-Told client h live k e
    Loud-Told (failed client) h = failed-Told client h
    Loud-Told (told client s timeout) h = record {
      heard = h;
      agrees = nudge_time_calls-reported C std (hooks_of C std client) client.conn.state s timeout;
    }
    Loud-Told (started client b f n) h = started-Told client h b n
    Loud-Told (finished client) h = finished-Told client h

    Moves-Told :
        {client client' : Client C} {calls : List Call}
        → Moves C std fresh client calls client'
        → IsHeard client
        → Told client calls client'
    unfolding reported
    Moves-Told done h = record { heard = h; agrees = refl }
    Moves-Told (silently rest s) h =
        let before = Moves-Told rest h in
        record {
          heard = Silent-IsHeard s before.heard;
          agrees = before.agrees ∙ sym (Silent-state s);
        }
    Moves-Told {client} (loudly {xs = xs} {ys = ys} rest l) h =
        let before = Moves-Told rest h in
        let after = Loud-Told l before.heard in
        record {
          heard = after.heard;
          agrees =
              reported-append client.conn.state xs ys
              ∙ ap (λ s. reported s ys) before.agrees
              ∙ after.agrees;
        }

  -- If the state-change callback is set, for the library and for the connection if there is one,
  -- then after any calls of the six entry points, by any threads, the client is there and its state
  -- is the last one that the callback was called with, or the first one if it was not called.
  pub history-reported :
      (ops : List (ℕ × Op)) (client : Client C)
      → IsHeard client
      → (after : Client C) × (((history C std ops (some client)).0 ≡ some after)
          × (reported client.conn.state (history C std ops (some client)).1 ≡ after.conn.state))
  unfolding history reported
  history-reported [] client h = (client, (refl, refl))
  history-reported ((me, op) ∷ ops) client h =
      let ends = operate-Ends C std op me client in
      let t = Moves-Told (is_connect op) ends.moves h in
      let rest = history-reported ops ends.after t.heard in
      rw (ends.is_after) (
        rest.0,
        (
          rest.1.0,
          reported-append client.conn.state (operate C std op me (some client)).1 _
              ∙ ap (λ s. reported s (history C std ops (some ends.after)).1) t.agrees
              ∙ rest.1.1,
        ),
      )
