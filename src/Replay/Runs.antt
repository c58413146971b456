-- ===== src/Replay/Runs.antt =====
-- Sequences of packets against a window that starts empty.
use lightway_cffi.Base.{
  ℕ, ◌+◌, ◌%◌, ◌<◌, ◌≡◌, refl, sym, ap, ap₂, ◌∙◌, Bool, true, false, not, List, [], ◌∷◌, arith,
  length, u64_mod,
}
use lightway_cffi.Replay.{ReplayWindow, window_size, default, would_reject, commit}
use lightway_cffi.Replay.History.{contains, highest, accepts, record_accept, contains-le-highest}
use lightway_cffi.Replay.Refine.{Tracks, default-Tracks, commit-Tracks}

-- The window after a sequence of counters, and what `commit` answered to each.
unfoldable pub after : ReplayWindow → List ℕ → ReplayWindow
after w [] = w
after w (c ∷ cs) = after (commit w c).0 cs

unfoldable pub answers : ReplayWindow → List ℕ → List Bool
answers w [] = []
answers w (c ∷ cs) = (commit w c).1 ∷ answers (commit w c).0 cs

-- The same of the history.
unfoldable pub history_after : List ℕ → List ℕ → List ℕ
history_after history [] = history
history_after history (c ∷ cs) = history_after (record_accept history c).0 cs

unfoldable pub history_answers : List ℕ → List ℕ → List Bool
history_answers history [] = []
history_answers history (c ∷ cs) =
    (record_accept history c).1 ∷ history_answers (record_accept history c).0 cs

abbrev pub count_true : List Bool → ℕ
count_true [] = 0
count_true (true ∷ bs) = count_true bs + 1
count_true (false ∷ bs) = count_true bs

after-Tracks :
    (w : ReplayWindow) (history cs : List ℕ)
    → Tracks w history
    → Tracks (after w cs) (history_after history cs)
unfolding after history_after
after-Tracks w history [] t = t
after-Tracks w history (c ∷ cs) t =
    after-Tracks (commit w c).0 (record_accept history c).0 cs (commit-Tracks w history c t).0

answers-Tracks :
    (w : ReplayWindow) (history cs : List ℕ)
    → Tracks w history
    → answers w cs ≡ history_answers history cs
unfolding answers history_answers
answers-Tracks w history [] t = refl
answers-Tracks w history (c ∷ cs) t =
    ap₂ ◌∷◌ (commit-Tracks w history c t).1
      (answers-Tracks (commit w c).0 (record_accept history c).0 cs (commit-Tracks w history c t).0)

pub after-default-Tracks : (cs : List ℕ) → Tracks (after default cs) (history_after [] cs)
after-default-Tracks cs = after-Tracks default [] cs default-Tracks

-- Refinement: to every sequence of counters the ring answers as the history of accepted counters
-- does, which accepts a counter if it is above all accepted ones, or less than 8192 below the
-- highest and not accepted before.
pub answers-history_answers : (cs : List ℕ) → answers default cs ≡ history_answers [] cs
answers-history_answers cs = answers-Tracks default [] cs default-Tracks

contains-history_after :
    (history cs : List ℕ) (c : ℕ)
    → contains history c ≡ true
    → contains (history_after history cs) c ≡ true
unfolding history_after record_accept
contains-history_after history [] c h = h
contains-history_after history (d ∷ cs) c h =
    contains-history_after (record_accept history d).0 cs c (ground arith)

contains-not-accepts :
    (history : List ℕ) (c : ℕ) → contains history c ≡ true → accepts history c ≡ false
unfolding accepts
contains-not-accepts [] c h = cc
contains-not-accepts (x ∷ xs) c h = ground (arith, contains-le-highest (x ∷ xs) c)

record_accept-contains :
    (history : List ℕ) (c : ℕ)
    → (record_accept history c).1 ≡ true
    → contains (record_accept history c).0 c ≡ true
unfolding record_accept
record_accept-contains history c h = ground arith

pub record_accept_again :
    (history : List ℕ) (c : ℕ) → contains history c ≡ true → (record_accept history c).1 ≡ false
unfolding record_accept
record_accept_again history c h = ground (arith, contains-not-accepts history c)

-- A counter that was accepted is refused ever after, whatever comes before and in between.
pub accepted_once :
    (cs ds : List ℕ) (c : ℕ)
    → (commit (after default cs) c).1 ≡ true
    → (commit (after (commit (after default cs) c).0 ds) c).1 ≡ false
accepted_once cs ds c h =
    (commit-Tracks _ _ c later).1
    ∙ record_accept_again _ c (
        contains-history_after _ ds c (
          record_accept-contains (history_after [] cs) c
            (sym (commit-Tracks _ _ c (after-default-Tracks cs)).1 ∙ h)))
  where
    first : Tracks (commit (after default cs) c).0 (record_accept (history_after [] cs) c).0
    first = (commit-Tracks _ _ c (after-default-Tracks cs)).0

    later :
        Tracks
          (after (commit (after default cs) c).0 ds)
          (history_after (record_accept (history_after [] cs) c).0 ds)
    later = after-Tracks _ _ ds first

accepts_new :
    (history : List ℕ) (c : ℕ)
    → contains history c ≡ false
    → highest history < c + window_size
    → (record_accept history c).1 ≡ true
unfolding accepts record_accept
accepts_new history c h near = ground arith

not-contains-history_after :
    (history cs : List ℕ) (c : ℕ)
    → contains history c ≡ false
    → contains cs c ≡ false
    → contains (history_after history cs) c ≡ false
unfolding history_after record_accept
not-contains-history_after history [] c h k = h
not-contains-history_after history (d ∷ cs) c h k =
    not-contains-history_after (record_accept history d).0 cs c (ground arith) (ground arith)

-- `c` is less than 8192 below each counter of the list.
abbrev pub Within : ℕ → List ℕ → Type 0
Within c [] = Unit {0}
Within c (d ∷ ds) = (d < c + window_size) × Within c ds

highest-history_after :
    (history cs : List ℕ) (c : ℕ)
    → highest history < c + window_size
    → Within c cs
    → highest (history_after history cs) < c + window_size
unfolding history_after record_accept
highest-history_after history [] c h near = h
highest-history_after history (d ∷ cs) c h near =
    highest-history_after (record_accept history d).0 cs c (ground arith) near.1

-- A counter that was never offered, and is less than 8192 below everything that was, is accepted.
pub never_offered_accepted :
    (cs : List ℕ) (c : ℕ)
    → contains cs c ≡ false
    → Within c cs
    → (commit (after default cs) c).1 ≡ true
never_offered_accepted cs c new near =
    (commit-Tracks _ _ c (after-default-Tracks cs)).1
    ∙ accepts_new _ c (not-contains-history_after [] cs c refl new)
        (highest-history_after [] cs c (omega arith) near)

length-history_after :
    (history cs : List ℕ)
    → length (history_after history cs) ≡ length history + count_true (history_answers history cs)
unfolding history_after history_answers record_accept
length-history_after history [] = omega arith
length-history_after history (c ∷ cs) =
    ground (arith, length-history_after (record_accept history c).0 cs)

-- `packets_received` counts the accepted packets, modulo 2 ^ 64.
packets_received-count :
    (cs : List ℕ) → (after default cs).packets_received ≡ count_true (answers default cs) % u64_mod
packets_received-count cs =
    (after-default-Tracks cs).counted
    ∙ ap (λ n. n % u64_mod)
        (length-history_after [] cs ∙ omega (arith, ap count_true (answers-history_answers cs)))

-- The pre-check refuses exactly what `commit` refuses, in every state.
pub would_reject-commit : (w : ReplayWindow) (c : ℕ) → would_reject w c ≡ not (commit w c).1
unfolding would_reject commit
would_reject-commit w c = ground arith

-- A refused counter leaves the window as it was.
pub commit_refused : (w : ReplayWindow) (c : ℕ) → (commit w c).1 ≡ false → (commit w c).0 ≡ w
unfolding commit
commit_refused w c h = ground arith

-- A window that has seen nothing rejects nothing.
pub would_reject-default : (c : ℕ) → would_reject default c ≡ false
unfolding would_reject default
would_reject-default c = refl
