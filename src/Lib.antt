-- ===== src/Lib.antt =====
-- lightway-cffi: the C client, the ExpressLane packet session and its C interface.
--
-- The repository has a packet-crypto library, lightway-expresslane, its C interface,
-- lightway-expresslane-cffi, a C client, the root crate, around lightway-core, and a benchmark of the
-- session, lightway-expresslane-bench. A session encrypts packets under a self key, decrypts them
-- under the peer's current or previous key, and keeps a replay window of the counters that it
-- accepted. The C interface wraps each method of the session in null checks, a panic guard and
-- return codes.
--
-- Base          shared helpers: lists, buffers, rows of fields, bits, words, results
-- Replay        lightway-expresslane/src/replay_window.rs: would_reject, commit, clear_range and
--               the ring they work on; Replay/History is what the window promises, with no ring
-- Data          error.rs, version.rs and key.rs of the same folder
-- Cipher        cipher.rs; ring's AES-256-GCM is a parameter, the record Aead, and the record
--               AeadLaws says what ring documents: lengths, 16-byte tags, and that opening undoes
--               sealing; what a failed call leaves in the buffer is open
-- Session       session.rs: build_aad and the methods of ExpresslaneSession, as functions from the
--               session to the session and the result; the children hold the proofs: Aad, Packet
--               and Wire (the wire format), Attempt and Decrypt (every branch of decrypt),
--               Verdict (what an answer means), RoundTrip, Keys, Steps, Life, Lifetime and
--               Counters (any sequence of operations), and Hint (has_valid_keys, without a lock)
-- Capi          lightway-expresslane-cffi/src/lib.rs and types.rs: the exported functions
-- Timer         src/cffi_state.rs: the ticks that a connection asked for, and the timeout that the
--               host is told; durations and instants are nanoseconds
-- Client        the root crate's src/types.rs, conn.rs and lib.rs: the client object, its return
--               codes and every entry point. lightway-core is a parameter, the record Core of
--               Client/Core: a call of it gives the connection, the callbacks that it ran in their
--               order, and its result. The children with code are Codes (types.rs), Setters and
--               Access (the setters and getters), Lock (lock_client and with_client), Events
--               (cffi_event.rs, cffi_ip_config.rs, cffi_io.rs), Expresslane (cffi_expresslane.rs),
--               Teardown (sync_conn_info, fatal_disconnect, he_client_disconnect), Connect
--               (he_client_connect and the validation), Traffic (the packets and the key rotation)
--               and Nudge (he_conn_nudge). The children with proofs are Setup (any setters), Moves,
--               Operate and History (any calls, as chains of small moves), Shown, Reports, Tracks
--               and Captured (what holds over them), Config and Established (connect), Received
--               (packets from outside), and Ticks, Retry and Pending (nudge)
-- Offload       src/lib.rs: he_conn_identify_packet and he_conn_build_expresslane_header; the
--               header's wire format is lightway-core's, the record HeaderFormat
-- Bench         lightway-expresslane-bench/src, the benchmark. Code: Panic (indexing and expect),
--               Rng, Pool and Schedule (pool.rs), Arms (arms.rs), Runner and Run (main.rs: keys,
--               self-test, jobs, samples, rounds and the gates of the report). Proofs: Layout
--               (sizes), Fill (the random payloads), Sealed, Sent, Slot, Filled and Built (what a
--               pool holds), Visits and Scheduled (the schedule), Passes, Bounds and Totals (no arm
--               indexes out of bounds), Recovers, Agree, Commits, Folds and Encrypts (the arms), Ready,
--               Complete and Outcome (every arm), Sampled, Entries, Gates, Jobs and Final (a whole
--               run), Families (the comparison of arms), Keyed and Startup (the keys and the
--               self-test), and Valid (all of it). The three crates are the record Providers, each
--               with the laws of Cipher; that aes-gcm and ring are the same cipher is the
--               hypothesis SameCipher, and that a seal of a short payload succeeds is SealsPackets
--
-- A client is driven from C: an entry point takes the lock, calls lightway-core, which calls back
-- into the code of Events and Timer, and that calls the host's callbacks. Those calls are a log
-- that each operation gives back, and the readings of the clock are arguments.
--
-- A method of a session holds its locks for its whole body or touches one atomic, so an
-- interleaving of callers is a sequence of whole methods, which is what Session/Steps runs. The
-- exception is has_valid_keys: it loads two flags without a lock, and they are not in lockstep with
-- the keys that they stand for, so it is a function of the two sessions that its loads find.
--
-- Native numbers stand for the machine's; a sum that wraps is taken modulo 2 ^ 64, as a release
-- build does. A panic is the value none of a body. In the benchmark that is an expect that fails, a
-- failed assertion, and an index out of bounds: of the arms into the schedule, the pool and the
-- output buffer, of the loops that fill and seal the pool, and of the self-test. The hash of a pool,
-- which reads what was sealed, and constant positions inside a packet have no such check.
--
-- Every loop is bounded by its own count, but for the one that fills a payload of `len` bytes: it
-- has `len + 1` rounds of fuel, and takes at least one byte in each, so they are enough
-- (Bench/Fill). The number of samples of a benchmark job comes from the clock and is an argument.
--
-- Not modelled: the inside of lightway-core, and a panic of it or of a host's callback, which the
-- entry points contain; a host's callback that uses a setter; a setter that runs beside a locked
-- call on another thread; the version strings; the texts of errors; lock poisoning (the code ignores
-- it); the packets that lightway-core sends through the write callbacks while a call runs and the
-- ExpressLane key and metrics callbacks, whose functions are modelled (Events, Expresslane) but are
-- not entries of the log of host calls; and of the benchmark the clocks, the calls of Windows
-- (win.rs, cpu.rs), the statistics in floating point, the printed report, its arguments and the
-- warm-up.
pub mod Base
pub mod Replay
pub mod Data
pub mod Cipher
pub mod Session
pub mod Capi
pub mod Timer
pub mod Client
pub mod Offload
pub mod Bench
