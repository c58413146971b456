-- ===== src/Replay/Examples.antt =====
-- The window on the counters of the crate's own unit tests.
use lightway_cffi.Base.{
  ℕ, ◌-◌, ◌≡◌, refl, true, false, List, [], ◌∷◌, arith, if◌then◌else◌, leb, not,
}
use lightway_cffi.Replay.{
  cleared, default, would_reject, commit, clear_range, is_marked, mark, advance, ring_index, bit_of,
  mask_between,
}
use lightway_cffi.Replay.Ring.{slot, length-cleared}
use lightway_cffi.Replay.Clear.{slot-clear_range, ring_distance}
use lightway_cffi.Replay.Runs.{
  after, answers, history_answers, answers-history_answers, accepted_once, never_offered_accepted,
  would_reject-commit,
}

-- `rejects_too_old_packets`.
abbrev old_packets : List ℕ
old_packets = 100 ∷ 10000 ∷ 100 ∷ 1808 ∷ 1809 ∷ []

answers-old_packets : answers default old_packets ≡ true ∷ true ∷ false ∷ false ∷ true ∷ []
unfolding answers commit default is_marked mark advance cleared ring_index bit_of
answers-old_packets = refl

-- `rejects_replayed_out_of_order_packet`.
abbrev out_of_order : List ℕ
out_of_order = 100 ∷ 105 ∷ 103 ∷ 103 ∷ []

answers-history_answers_example : answers default old_packets ≡ history_answers [] old_packets
answers-history_answers_example = answers-history_answers old_packets

accepted : (commit (after default (100 ∷ 105 ∷ [])) 103).1 ≡ true
unfolding after commit default is_marked mark advance clear_range cleared ring_index bit_of
    mask_between
accepted = refl

accepted_once_example :
    (commit (after (commit (after default (100 ∷ 105 ∷ [])) 103).0 (9000 ∷ [])) 103).1 ≡ false
accepted_once_example = accepted_once (100 ∷ 105 ∷ []) (9000 ∷ []) 103 accepted

never_offered_accepted_example : (commit (after default (100 ∷ 10000 ∷ [])) 1809).1 ≡ true
never_offered_accepted_example =
    never_offered_accepted (100 ∷ 10000 ∷ []) 1809 refl (omega arith, (omega arith, tt))

would_reject-commit_example :
    would_reject (after default out_of_order) 104 ≡ not (commit (after default out_of_order) 104).1
would_reject-commit_example = would_reject-commit (after default out_of_order) 104

slot-clear_range_example :
    slot (clear_range cleared 60 70) 65
    ≡ (if leb (ring_distance 60 65) (70 - 60) then 0 else slot cleared 65)
slot-clear_range_example =
    slot-clear_range cleared 60 70 65 length-cleared (omega arith) (omega arith)
