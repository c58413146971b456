-- ===== src/Client/Lock.antt =====
-- src/lib.rs: the lock of a client, and the way from a connection object to its client. Null is
-- none, and the calling thread has the token `me`, which is not 0. What runs under the lock runs
-- to its end before another thread has it.
use lightway_cffi.Base.{
  ℕ, ◌==◌, if◌then◌else◌, Option, none, some, List, [], Result, ok, err, from_le_bytes,
}
use lightway_cffi.Client.{ReturnCode, he_err_null_pointer, he_err_failed, he_err_invalid_conn_state}
use lightway_cffi.Client.Core.{Core, Live, Client}
use lightway_cffi.Client.Events.{Call}

module _ (C : Core) where
  -- `owner.store(token)`.
  unfoldable pub set_owner : ℕ → Client C → Client C
  set_owner owner client = record client { conn = record client.conn { lock_owner = owner } }

  unfoldable pub lock_client {ℓ} :
      {R : Type ℓ}
      → ℕ
      → Option (Client C)
      → (Client C → Client C × R)
      → Option (Client C) × Result R ReturnCode
  unfolding set_owner
  lock_client me none f = (none, err he_err_null_pointer)
  lock_client me (some client) f =
      if client.conn.lock_owner == me
      then (some client, err he_err_invalid_conn_state)
      else let done = f (set_owner me client) in (some (set_owner 0 done.0), ok done.1)

  -- The connection object is the client's own, so none of it is a null `conn`.
  unfoldable pub with_client {ℓ} :
      {R : Type ℓ}
      → ℕ
      → Option (Client C)
      → (Client C → Client C × R)
      → Option (Client C) × Result R ReturnCode
  unfolding lock_client
  with_client me none f = (none, err he_err_failed)
  with_client me (some client) f =
      if client.conn.client_ptr
      then lock_client me (some client) f
      else (some client, err he_err_failed)

  -- `Ok(code) | Err(code) => code`, for a body that gives its calls and its code.
  abbrev pub outcome :
      Option (Client C) × Result (List Call × ReturnCode) ReturnCode
      → Option (Client C) × List Call × ReturnCode
  outcome (client, ok (calls, code)) = (client, calls, code)
  outcome (client, err code) = (client, [], code)

  -- A body with its calls and its code as one result.
  abbrev pub returning :
      (Client C → Client C × List Call × ReturnCode)
      → Client C
      → Client C × (List Call × ReturnCode)
  returning f client = let (client', calls, code) = f client in (client', (calls, code))

  unfoldable pub session_number : Option (Live C) → ℕ
  session_number none = 0
  session_number (some live) = from_le_bytes (C.session_id live.core)

  unfoldable pub unwrap_or_zero : Result ℕ ReturnCode → ℕ
  unwrap_or_zero (ok id) = id
  unwrap_or_zero (err code) = 0

  -- `he_conn_get_session_id`, which only reads the client.
  unfoldable pub get_session_id : ℕ → Option (Client C) → ℕ
  unfolding lock_client session_number unwrap_or_zero
  get_session_id me client =
      unwrap_or_zero (lock_client me client (λ c. (c, session_number c.connection))).1
