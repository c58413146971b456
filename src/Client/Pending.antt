-- ===== src/Client/Pending.antt =====
-- The payload ticks of a nudge.
use lightway_cffi.Base.{
  ℕ, ◌+◌, Bool, not, ◌≡◌, ◌≢◌, refl, sym, ap, ◌∙◌, leb, if◌then◌else◌, none, some, List, [], ◌∷◌,
  ◌++◌, inl, inr, Bool-cases, Option-cases,
}
use mathlib.Core.List.{append_assoc, append-nil}
use lightway_cffi.Timer.{connection_tick, payload_tick, cffi_schedule_tick_cb, record_tick}
use lightway_cffi.Client.{ConnectionType, Conn}
use lightway_cffi.Client.Core.{
  Core, Std, Live, Hooks, Callback, event, schedule_tick, set_ip_config,
}
use lightway_cffi.Client.Events.{Inner, callback, callbacks, on_ip_config, run_live}
use lightway_cffi.Client.Nudge.{Clock, fatal_of, partition_due, dispatch, payload_step}
use lightway_cffi.Client.Ticks.{ran_tick, dispatch_goes_on, dispatch_stops}

-- The elements that pass a test, in their order.
abbrev pub select : {A : Type 0} → (A → Bool) → List A → List A
select test [] = []
select test (x ∷ xs) = let rest = select test xs in if test x then x ∷ rest else rest

abbrev pub due_at : {P : Type 0} → ℕ → ℕ × P → Bool
due_at now (t, p) = leb t now

abbrev pub not_due_at : {P : Type 0} → ℕ → ℕ × P → Bool
not_due_at now (t, p) = not (leb t now)

partition_due-select :
    {P : Type 0} (now : ℕ) (ticks : List (ℕ × P))
    → partition_due now ticks ≡ (select (due_at now) ticks, select (not_due_at now) ticks)
unfolding partition_due
partition_due-select now [] = refl
partition_due-select now ((t, p) ∷ ticks) = elim (Bool-cases (leb t now)) [
  | inl d ↦ rw (d, partition_due-select now ticks) refl
  | inr d ↦ rw (d, partition_due-select now ticks) refl
]

some-none : {A : Type 0} {a : A} → some a ≢ none
some-none h = cc

module _ (C : Core) (std : Std) where
  -- The payload ticks that some callbacks schedule, each with the time it is for.
  abbrev pub asked : List (Callback C.Payload) → List (ℕ × C.Payload)
  asked [] = []
  asked (schedule_tick now d (payload_tick p) ∷ cs) = (now + d, p) ∷ asked cs
  asked (_ ∷ cs) = asked cs

  callbacks-asked :
      (hooks : Hooks) (cs : List (Callback C.Payload)) (inner : Inner C std)
      → (callbacks C std hooks inner cs).app_state.pending_ticks
        ≡ inner.app_state.pending_ticks ++ asked cs
  unfolding callbacks callback on_ip_config cffi_schedule_tick_cb record_tick
  callbacks-asked hooks [] inner = sym (append-nil inner.app_state.pending_ticks)
  callbacks-asked hooks (event e ∷ cs) inner = callbacks-asked hooks cs _
  callbacks-asked hooks (set_ip_config config ∷ cs) inner = callbacks-asked hooks cs _
  callbacks-asked hooks (schedule_tick now d connection_tick ∷ cs) inner =
      callbacks-asked hooks cs _
  callbacks-asked hooks (schedule_tick now d (payload_tick p) ∷ cs) inner =
      callbacks-asked hooks cs _
      ∙ append_assoc inner.app_state.pending_ticks ((now + d, p) ∷ []) (asked cs)

  -- What is scheduled while these ticks run, up to a fatal error.
  abbrev pub asked_by : ConnectionType → List (ℕ × C.Payload) → C.Connection → List (ℕ × C.Payload)
  asked_by type [] core = []
  asked_by type ((t, p) ∷ due) core =
      let (core', cs, result) = C.tick core (payload_tick p) in
      let rest = asked_by type due core' in
      asked cs ++ elim (fatal_of C std type result) [ some e ↦ [] | none ↦ rest ]

  -- The connection after these ticks, whatever each of them answers.
  abbrev pub tick_all : C.Connection → List (ℕ × C.Payload) → C.Connection
  tick_all core [] = core
  tick_all core ((t, p) ∷ ticks) = tick_all (C.tick core (payload_tick p)).0 ticks

  ran_tick-asked :
      (type : ConnectionType) (t : ℕ) (p : C.Payload) (due : List (ℕ × C.Payload)) (conn : Conn)
      (live : Live C)
      → (ran_tick C std type t p due conn live).1.app_state.pending_ticks
        ≡ live.app_state.pending_ticks ++ asked (C.tick live.core (payload_tick p)).1
  unfolding run_live
  ran_tick-asked type t p due conn live = callbacks-asked live.hooks _ _

  dispatch-asked_by :
      (type : ConnectionType) (due : List (ℕ × C.Payload)) (conn : Conn) (live : Live C)
      → (dispatch C std type due conn live).1.app_state.pending_ticks
        ≡ live.app_state.pending_ticks ++ asked_by type due live.core
  unfolding run_live
  dispatch-asked_by type [] conn live =
      unfold dispatch in sym (append-nil live.app_state.pending_ticks)
  dispatch-asked_by type ((t, p) ∷ due) conn live =
      elim (Option-cases (fatal_of C std type (C.tick live.core (payload_tick p)).2)) [
        | inl n ↦
            let (conn', live', calls) = ran_tick C std type t p due conn live in
            ap (λ r. r.1.app_state.pending_ticks) (dispatch_goes_on C std type t p due conn live n)
            ∙ dispatch-asked_by type due conn' live'
            ∙ ap (λ l. l ++ asked_by type due live'.core) (ran_tick-asked type t p due conn live)
            ∙ append_assoc live.app_state.pending_ticks _ _
            ∙ ap
                (λ o.
                  live.app_state.pending_ticks
                  ++ (asked (C.tick live.core (payload_tick p)).1
                      ++ elim o [ some e ↦ [] | none ↦ asked_by type due live'.core ]))
                (sym n)
        | inr (e, h) ↦
            ap (λ r. r.1.app_state.pending_ticks) (dispatch_stops C std type t p due conn live e h)
            ∙ ran_tick-asked type t p due conn live
            ∙ ap (λ l. live.app_state.pending_ticks ++ l) (sym (append-nil _))
            ∙ ap
                (λ o.
                  live.app_state.pending_ticks
                  ++ (asked (C.tick live.core (payload_tick p)).1 ++ elim o [
                    | some e' ↦ []
                    | none ↦ asked_by type due (C.tick live.core (payload_tick p)).0
                  ]))
                (sym h)
      ]

  dispatch-tick_all :
      (type : ConnectionType) (due : List (ℕ × C.Payload)) (conn : Conn) (live : Live C)
      → (dispatch C std type due conn live).3 ≡ none
      → (dispatch C std type due conn live).1.core ≡ tick_all live.core due
  unfolding dispatch run_live
  dispatch-tick_all type [] conn live h = refl
  dispatch-tick_all type ((t, p) ∷ due) conn live h =
      elim (Option-cases (fatal_of C std type (C.tick live.core (payload_tick p)).2)) [
        | inl n ↦
            let (conn', live', calls) = ran_tick C std type t p due conn live in
            let on = dispatch_goes_on C std type t p due conn live n in
            ap (λ r. r.1.core) on
            ∙ dispatch-tick_all type due conn' live' (sym (ap (λ r. r.3) on) ∙ h)
        | inr (e, f) ↦
            absurd (
              some-none (sym (ap (λ r. r.3) (dispatch_stops C std type t p due conn live e f)) ∙ h))
      ]

  -- If no payload tick fails fatally, then the ticks that are due are run in their order, each on
  -- the connection as the one before it leaves it.
  pub payload_step-tick_all :
      (clock : Clock) (conn : Conn) (live : Live C)
      → (payload_step C std clock conn live).3 ≡ none
      → (payload_step C std clock conn live).1.core
        ≡ tick_all live.core (select (due_at clock.payload_now) live.app_state.pending_ticks)
  unfolding payload_step
  payload_step-tick_all clock conn live h =
      dispatch-tick_all (C.connection_type live.core) _ conn _ h
      ∙ ap (λ r. tick_all live.core r.0)
          (partition_due-select clock.payload_now live.app_state.pending_ticks)

  -- After the payload ticks of a nudge, the list of ticks that wait is the ones that were not due,
  -- in their order, and behind them exactly the ones that were scheduled while the due ones ran, up
  -- to a fatal error: none is lost, doubled or made up.
  pub payload_step-select :
      (clock : Clock) (conn : Conn) (live : Live C)
      → (payload_step C std clock conn live).1.app_state.pending_ticks
        ≡ select (not_due_at clock.payload_now) live.app_state.pending_ticks
          ++ asked_by
              (C.connection_type live.core)
              (select (due_at clock.payload_now) live.app_state.pending_ticks)
              live.core
  unfolding payload_step
  payload_step-select clock conn live =
      dispatch-asked_by (C.connection_type live.core) _ conn _
      ∙ ap (λ r. r.1 ++ asked_by (C.connection_type live.core) r.0 live.core)
          (partition_due-select clock.payload_now live.app_state.pending_ticks)
