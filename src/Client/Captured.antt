-- ===== src/Client/Captured.antt =====
-- What was captured of the handshake stays, so that the pointers that the host was given stay good.
use lightway_cffi.Base.{
  ℕ, Bool, false, ◌||◌, ◌≡◌, ◌≢◌, refl, sym, ap, ◌∙◌, subst, Option, none, some, List, [], ◌∷◌, inl,
  inr, Bool-cases, both_false,
}
use lightway_cffi.Client.{
  ConnectionProtocol, protocol_none, dtls_1_2, dtls_1_3, tls_1_2, tls_1_3, Conn,
}
use lightway_cffi.Client.Core.{ProtocolVersion, Core, Std, Live, Client}
use lightway_cffi.Client.Events.{Call, run, run_live}
use lightway_cffi.Client.Lock.{set_owner}
use lightway_cffi.Client.Teardown.{
  is_disconnected, c_string, capture_protocol, or_else, snapshot, sync_conn_info, fatal_disconnect,
  synced_conn,
}
use lightway_cffi.Client.Moves.{
  CoreCall, perform, Silent, Loud, Moves, done, silently, loudly, owned, synced, timed, stored,
  dropped, called, failed, told, started, finished, ran,
}
use lightway_cffi.Client.History.{Op, operate, history, is_connect, operate-Ends}
use lightway_cffi.Client.Shown.{callbacks-conn}

-- What the second connection object keeps of the first.
pub record Keeps (conn conn' : Conn) : Type 0 where
  pub protocol :
      (p : ConnectionProtocol)
      → p ≢ protocol_none
      → conn.current_protocol ≡ p
      → conn'.current_protocol ≡ p
  pub curve : (name : List ℕ) → conn.curve_name ≡ some name → conn'.curve_name ≡ some name
  pub cipher : (name : List ℕ) → conn.cipher_name ≡ some name → conn'.cipher_name ≡ some name

Keeps-refl : (conn : Conn) → Keeps conn conn
Keeps-refl conn = record { protocol = λ p n e. e; curve = λ name e. e; cipher = λ name e. e }

Keeps-trans : (a b c : Conn) → Keeps a b → Keeps b c → Keeps a c
Keeps-trans a b c k l = record {
  protocol = λ p n e. l.protocol p n (k.protocol p n e);
  curve = λ name e. l.curve name (k.curve name e);
  cipher = λ name e. l.cipher name (k.cipher name e);
}

-- A change of the fields that have nothing to do with it.
Keeps-fields :
    (a b : Conn)
    → b.current_protocol ≡ a.current_protocol
    → b.curve_name ≡ a.curve_name
    → b.cipher_name ≡ a.cipher_name
    → Keeps a b
Keeps-fields a b ep ev ec = record {
  protocol = λ p n e. ep ∙ e;
  curve = λ name e. ev ∙ e;
  cipher = λ name e. ec ∙ e;
}

capture_protocol_kept :
    (p : ConnectionProtocol) (v : ProtocolVersion) → p ≢ protocol_none → capture_protocol p v ≡ p
unfolding capture_protocol
capture_protocol_kept protocol_none v n = absurd (n refl)
capture_protocol_kept dtls_1_2 v n = refl
capture_protocol_kept dtls_1_3 v n = refl
capture_protocol_kept tls_1_2 v n = refl
capture_protocol_kept tls_1_3 v n = refl

module _ (C : Core) (std : Std) where
  snapshot-Keeps : (conn : Conn) (o : Option (Live C)) → Keeps conn (snapshot C conn o)
  unfolding snapshot synced_conn
  snapshot-Keeps conn none = Keeps-refl conn
  snapshot-Keeps conn (some live) = record {
    protocol = λ p n e.
        ap (λ q. capture_protocol q (C.tls_protocol_version live.core)) e
        ∙ capture_protocol_kept p (C.tls_protocol_version live.core) n;
    curve = λ name e. ap (λ o. or_else o (c_string (C.current_curve live.core))) e;
    cipher = λ name e. ap (λ o. or_else o (c_string (C.current_cipher live.core))) e;
  }

  Silent-Keeps :
      {client client' : Client C} → Silent C client client' → Keeps client.conn client'.conn
  unfolding set_owner sync_conn_info
  Silent-Keeps (owned client n) = Keeps-fields client.conn _ refl refl refl
  Silent-Keeps (synced client) = snapshot-Keeps client.conn client.connection
  Silent-Keeps (timed client n) = Keeps-fields client.conn _ refl refl refl
  Silent-Keeps (stored client live s e) = Keeps-refl client.conn
  Silent-Keeps (dropped client d) = Keeps-refl client.conn

  called-Keeps :
      (client : Client C) (live : Live C) (k : CoreCall C)
      → Keeps client.conn (ran C std client live k).0.conn
  unfolding run run_live
  called-Keeps client live k =
      subst (Keeps client.conn)
        (sym (
          callbacks-conn C std live.hooks
            (record { conn = client.conn; app_state = live.app_state; calls = [] })
            (perform C k live.core).1))
        (Keeps-fields client.conn _ refl refl refl)

  failed-Keeps : (client : Client C) → Keeps client.conn (fatal_disconnect C client).0.conn
  unfolding fatal_disconnect
  failed-Keeps client = elim (Bool-cases (is_disconnected client.conn.state)) [
    | inl t ↦ rw (t) (Keeps-refl client.conn)
    | inr f ↦ rw (f) (Keeps-fields client.conn _ refl refl refl)
  ]

  Loud-Keeps :
      {client client' : Client C} {calls : List Call}
      → Loud C std false client calls client'
      → Keeps client.conn client'.conn
  Loud-Keeps (called client live k e) = called-Keeps client live k
  Loud-Keeps (failed client) = failed-Keeps client
  Loud-Keeps (told client s timeout) = Keeps-refl client.conn
  Loud-Keeps (started client b f n) = cc
  Loud-Keeps (finished client) = Keeps-fields client.conn _ refl refl refl

  Moves-Keeps :
      {client client' : Client C} {calls : List Call}
      → Moves C std false client calls client'
      → Keeps client.conn client'.conn
  Moves-Keeps {client} done = Keeps-refl client.conn
  Moves-Keeps (silently rest s) = Keeps-trans _ _ _ (Moves-Keeps rest) (Silent-Keeps s)
  Moves-Keeps (loudly rest l) = Keeps-trans _ _ _ (Moves-Keeps rest) (Loud-Keeps l)

  abbrev pub has_connect : List (ℕ × Op) → Bool
  has_connect [] = false
  has_connect ((me, op) ∷ ops) = is_connect op || has_connect ops

  -- After any calls of the library but a connect, by any threads, the protocol, the curve and the
  -- cipher that the host can read are those that were captured before, if they were captured.
  pub history-Keeps :
      (ops : List (ℕ × Op)) (client : Client C)
      → has_connect ops ≡ false
      → (after : Client C) × (((history C std ops (some client)).0 ≡ some after)
          × Keeps client.conn after.conn)
  unfolding history
  history-Keeps [] client h = (client, (refl, Keeps-refl client.conn))
  history-Keeps ((me, op) ∷ ops) client h =
      let ends = operate-Ends C std op me client in
      let rest = history-Keeps ops ends.after (both_false (is_connect op) _ h).1 in
      rw (ends.is_after) (
        rest.0,
        (
          rest.1.0,
          Keeps-trans client.conn ends.after.conn rest.0.conn
              (Moves-Keeps (
                subst (λ f. Moves C std f client (operate C std op me (some client)).1 ends.after)
                  (both_false (is_connect op) _ h).0 ends.moves))
              rest.1.1,
        ),
      )
