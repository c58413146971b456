-- ===== src/Client/Tracks.antt =====
-- The state that the host reads is that of the connection in lightway-core.
use lightway_cffi.Base.{
  ℕ, Bool, true, false, ◌||◌, arith, ◌≡◌, refl, sym, ap, ◌∙◌, subst, Option, none, some, List, [],
  ◌∷◌, inl, inr, Bool-cases,
}
use lightway_cffi.Client.{ConnState, state_none, state_disconnected, state_disconnecting}
use lightway_cffi.Client.Core.{connecting, Core, Std, Live, Client}
use lightway_cffi.Client.Events.{Call, Inner, rust_state_to_c, run, run_live, callbacks}
use lightway_cffi.Client.Lock.{set_owner}
use lightway_cffi.Client.Teardown.{
  is_disconnecting, is_disconnected, sync_conn_info, fatal_disconnect,
}
use lightway_cffi.Client.Connect.{hooks_of, fresh_conn, install, connect_with, opening}
use lightway_cffi.Client.Moves.{
  CoreCall, perform, Silent, Loud, Moves, done, silently, loudly, owned, synced, timed, stored,
  dropped, called, failed, told, started, finished, ran,
}
use lightway_cffi.Client.History.{Op, history, is_connect, operate-Ends}
use lightway_cffi.Client.Shown.{shown, callbacks-conn}
use lightway_cffi.Client.Reports.{Silent-state}

-- What lightway-core does: each call reports the states that it passes through, a new connection
-- is connecting, and one that is not made reports nothing.
pub record StateLaws (C : Core) : Type 0 where
  pub reports :
      (k : CoreCall C) (core : C.Connection)
      → shown (rust_state_to_c (C.state core)) (perform C k core).1
        ≡ rust_state_to_c (C.state (perform C k core).0)
  pub starts :
      (b : C.ConnBuilder) (core : C.Connection)
      → (C.connect b).1 ≡ some core
      → C.state core ≡ connecting
  pub fails :
      (b : C.ConnBuilder) (s : ConnState) → (C.connect b).1 ≡ none → shown s (C.connect b).0 ≡ s

abbrev pub is_offline : ConnState → Bool
is_offline state_none = true
is_offline state_disconnecting = true
is_offline state_disconnected = true
is_offline _ = false

offline_disconnected : (s : ConnState) → is_disconnected s ≡ true → is_offline s ≡ true
offline_disconnected s h = ground arith

offline_dropped :
    (s : ConnState) → is_disconnecting s || is_disconnected s ≡ true → is_offline s ≡ true
offline_dropped s h = ground arith

module _ (C : Core) (std : Std) where
  -- The state of a client: the core's, and without a connection one that says so.
  abbrev pub Tracks : ConnState → Option (Live C) → Type 0
  Tracks s none = is_offline s ≡ true
  Tracks s (some live) = s ≡ rust_state_to_c (C.state live.core)

  abbrev IsTracked : Client C → Type 0
  IsTracked client = Tracks client.conn.state client.connection

  Silent-IsTracked :
      {client client' : Client C} → Silent C client client' → IsTracked client → IsTracked client'
  unfolding set_owner sync_conn_info
  Silent-IsTracked (owned client n) h = h
  Silent-IsTracked (synced client) h =
      subst (λ s. Tracks s client.connection) (sym (Silent-state C std 0 (synced client))) h
  Silent-IsTracked (timed client n) h = h
  Silent-IsTracked (stored client live s e) h = subst (Tracks client.conn.state) e h
  Silent-IsTracked (dropped client d) h = offline_dropped client.conn.state d

  module _ (laws : StateLaws C) (client : Client C) (h : IsTracked client) where
    called-IsTracked :
        (live : Live C) (k : CoreCall C)
        → client.connection ≡ some live
        → IsTracked (ran C std client live k).0
    unfolding run run_live
    called-IsTracked live k e =
        ap (λ conn. conn.state) (callbacks-conn C std live.hooks _ (perform C k live.core).1)
        ∙ ap (λ s. shown s (perform C k live.core).1) (subst (Tracks client.conn.state) e h)
        ∙ laws.reports k live.core

    failed-IsTracked : IsTracked (fatal_disconnect C client).0
    unfolding fatal_disconnect
    failed-IsTracked = elim (Bool-cases (is_disconnected client.conn.state)) [
      | inl t ↦ rw (t) (offline_disconnected client.conn.state t)
      | inr f ↦ rw (f) refl
    ]

    install-IsTracked :
        (inner : Inner C std) (o : Option C.Connection)
        → client.connection ≡ none
        → (o ≡ none → inner.conn.state ≡ client.conn.state)
        → ((core : C.Connection) → o ≡ some core → C.state core ≡ connecting)
        → IsTracked (install C std client inner o).0
    unfolding install fresh_conn rust_state_to_c
    install-IsTracked inner none n same starts =
        rw (n) (rw (same refl) (subst (Tracks client.conn.state) n h))
    install-IsTracked inner (some core) n same starts = rw (starts core refl) refl

    started-IsTracked :
        (b : C.ConnBuilder)
        → client.connection ≡ none
        → IsTracked (connect_with C std client (C.connect b)).0
    unfolding connect_with opening
    started-IsTracked b n =
        install-IsTracked
          (callbacks C std (hooks_of C std client) (opening C std client) (C.connect b).0)
          (C.connect b).1 n
          (λ f.
            ap (λ conn. conn.state)
              (callbacks-conn C std (hooks_of C std client) (opening C std client) (C.connect b).0)
            ∙ laws.fails b client.conn.state f)
          (laws.starts b)

  module _ (laws : StateLaws C) (fresh : Bool) where
    Loud-IsTracked :
        {client client' : Client C} {calls : List Call}
        → Loud C std fresh client calls client'
        → IsTracked client
        → IsTracked client'
    Loud-IsTracked (called client live k e) h = called-IsTracked laws client h live k e
    Loud-IsTracked (failed client) h = failed-IsTracked laws client h
    Loud-IsTracked (told client s timeout) h = h
    Loud-IsTracked (started client b f n) h = started-IsTracked laws client h b n
    Loud-IsTracked (finished client) h = refl

    Moves-IsTracked :
        {client client' : Client C} {calls : List Call}
        → Moves C std fresh client calls client'
        → IsTracked client
        → IsTracked client'
    Moves-IsTracked done h = h
    Moves-IsTracked (silently rest s) h = Silent-IsTracked s (Moves-IsTracked rest h)
    Moves-IsTracked (loudly rest l) h = Loud-IsTracked l (Moves-IsTracked rest h)

  -- If lightway-core reports the states that it passes through, starts in the connecting state and
  -- reports none when it fails to start, then after any calls of the library, by any threads, the
  -- client of a live connection has the connection's state, and one without a connection has no
  -- state but none, disconnecting and disconnected, if this was so before.
  pub history-Tracks :
      StateLaws C
      → (ops : List (ℕ × Op)) (client : Client C) → Tracks client.conn.state client.connection
      → (after : Client C) × (((history C std ops (some client)).0 ≡ some after)
          × Tracks after.conn.state after.connection)
  unfolding history
  history-Tracks laws [] client h = (client, (refl, h))
  history-Tracks laws ((me, op) ∷ ops) client h =
      let ends = operate-Ends C std op me client in
      rw (ends.is_after)
        (history-Tracks laws ops ends.after (Moves-IsTracked laws (is_connect op) ends.moves h))
