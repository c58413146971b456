-- ===== src/Client/History.antt =====
-- The calls of the library as values, and runs of them: one call after the other, as the lock
-- makes it, each by some thread.
use lightway_cffi.Base.{
  none, ℕ, Bool, true, false, ◌==◌, if◌then◌else◌, err, ◌≡◌, refl, sym, subst, Option, some, List,
  [], ◌∷◌, ◌++◌, inl, inr, Bool-cases,
}
use lightway_cffi.Client.{ReturnCode, he_err_failed}
use lightway_cffi.Client.Core.{Core, Std, Client}
use lightway_cffi.Client.Events.{Call}
use lightway_cffi.Client.Lock.{set_owner, lock_client, with_client, returning, outcome}
use lightway_cffi.Client.Teardown.{client_disconnect_locked, disconnect}
use lightway_cffi.Client.Connect.{client_connect_locked, connect}
use lightway_cffi.Client.Traffic.{
  outside_locked, outside_data_received, inside_locked, inside_packet_received, rotate_locked,
  rotate_if_due,
}
use lightway_cffi.Client.Nudge.{Clock, nudge_locked, nudge}
use lightway_cffi.Client.Moves.{Moves, done, silently, join, owned}
use lightway_cffi.Client.Operate.Ticking.{nudge_locked-Moves}
use lightway_cffi.Client.Operate.{
  Done, client_connect_locked-Moves, client_disconnect_locked-Moves, outside_locked-Moves,
  inside_locked-Moves, rotate_locked-Moves,
}

-- A call with its arguments besides the client. A buffer is not null.
pub data Op : Type 0 where
  connect_op disconnect_op : Op
  outside_op inside_op : (buffer : List ℕ) (len : ℕ) → Op
  rotate_op : (now : ℕ) → Op
  nudge_op : Clock → Op

abbrev pub is_connect : Op → Bool
is_connect connect_op = true
is_connect _ = false

module _ (C : Core) (std : Std) where
  unfoldable pub operate : Op → ℕ → Option (Client C) → Option (Client C) × List Call × ReturnCode
  unfolding connect disconnect outside_data_received inside_packet_received rotate_if_due nudge
  operate connect_op me client = connect C std me client
  operate disconnect_op me client = disconnect C std me client
  operate (outside_op buffer len) me client =
      outside_data_received C std me client (some buffer) len
  operate (inside_op packet len) me client =
      inside_packet_received C std me client (some packet) len
  operate (rotate_op now) me client = rotate_if_due C std now me client
  operate (nudge_op clock) me client = nudge C std clock me client

  -- The client and the calls of a run.
  unfoldable pub history : List (ℕ × Op) → Option (Client C) → Option (Client C) × List Call
  history [] client = (client, [])
  history ((me, op) ∷ ops) client =
      let (client', calls, code) = operate op me client in
      let (client'', calls') = history ops client' in (client'', calls ++ calls')

module _ (C : Core) (std : Std) (fresh : Bool) where
  -- Where a call of the library gets with a client.
  pub record Ends (client : Client C) (r : Option (Client C) × List Call × ReturnCode)
      : Type 0 where
    pub after : Client C
    pub is_after : r.0 ≡ some after
    pub moves : Moves C std fresh client r.1 after
    pub freed : client.conn.lock_owner ≡ 0 → after.conn.lock_owner ≡ 0

  lock-Ends :
      (me : ℕ) (client : Client C) (f : Client C → Client C × List Call × ReturnCode)
      → ((c : Client C) → Done C std fresh c (f c))
      → Ends client (outcome C (lock_client C me (some client) (returning C f)))
  unfolding lock_client set_owner
  lock-Ends me client f m = elim (Bool-cases (client.conn.lock_owner == me)) [
    | inl t ↦ rw (t) (record { after = client; is_after = refl; moves = done; freed = λ h. h })
    | inr g ↦ rw (g) (record {
      after = set_owner C 0 (f (set_owner C me client)).0;
      is_after = refl;
      moves =
          silently (join C std fresh (silently done (owned client me)) (m (set_owner C me client)))
            (owned _ 0);
      freed = λ h. refl;
    })
  ]

  with_client-Ends :
      (me : ℕ) (client : Client C) (f : Client C → Client C × List Call × ReturnCode)
      → ((c : Client C) → Done C std fresh c (f c))
      → Ends client (outcome C (with_client C me (some client) (returning C f)))
  unfolding with_client
  with_client-Ends me client f m = elim (Bool-cases client.conn.client_ptr) [
    | inl t ↦ subst reached (sym t) (lock-Ends me client f m)
    | inr g ↦
        subst reached (sym g)
          (record { after = client; is_after = refl; moves = done; freed = λ h. h })
  ]
    where
      reached : Bool → Type 0
      reached b = Ends client (
          outcome C (
            if b
            then lock_client C me (some client) (returning C f)
            else (some client, err he_err_failed)))

module _ (C : Core) (std : Std) where
  pub operate-Ends :
      (op : Op) (me : ℕ) (client : Client C)
      → Ends C std (is_connect op) client (operate C std op me (some client))
  unfolding operate
  operate-Ends connect_op me client =
      lock-Ends C std true me client (client_connect_locked C std)
        (client_connect_locked-Moves C std)
  operate-Ends disconnect_op me client =
      lock-Ends C std false me client (client_disconnect_locked C std)
        (client_disconnect_locked-Moves C std false)
  operate-Ends (outside_op buffer len) me client =
      with_client-Ends C std false me client (outside_locked C std _)
        (outside_locked-Moves C std false _)
  operate-Ends (inside_op packet len) me client =
      with_client-Ends C std false me client (inside_locked C std _)
        (inside_locked-Moves C std false _)
  operate-Ends (rotate_op now) me client =
      with_client-Ends C std false me client (rotate_locked C std now)
        (rotate_locked-Moves C std false now)
  operate-Ends (nudge_op clock) me client =
      with_client-Ends C std false me client (nudge_locked C std clock)
        (nudge_locked-Moves C std false clock)

  abbrev unwrap_or : Client C → Option (Client C) → Client C
  unwrap_or c none = c
  unwrap_or c (some c') = c'

  -- A call of the library under the lock that has done `work` when a callback calls the library
  -- from the same thread.
  abbrev pub calls_back :
      Op → ℕ → (Client C → Client C) → Client C → Client C × (List Call × ReturnCode)
  calls_back op me work client =
      let (after, calls, code) = operate C std op me (some (work client)) in
      (unwrap_or (work client) after, (calls, code))

  -- Between two calls of the library nobody holds the lock, whatever the calls were.
  pub history-lock_owner :
      (ops : List (ℕ × Op)) (client : Client C)
      → client.conn.lock_owner ≡ 0
      → (after : Client C) × (((history C std ops (some client)).0 ≡ some after)
          × (after.conn.lock_owner ≡ 0))
  unfolding history
  history-lock_owner [] client h = (client, (refl, h))
  history-lock_owner ((me, op) ∷ ops) client h =
      let ends = operate-Ends op me client in
      rw (ends.is_after) (history-lock_owner ops ends.after (ends.freed h))
