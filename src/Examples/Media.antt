-- ===== src/Examples/Media.antt =====
-- Runs about the audio: the ledger, the barge-in and the budget.
use revenue_recovery_voice_a.Base.{
  ◌+◌, ◌≤◌, ◌≡◌, refl, true, List, [], ◌∷◌, none, String, pos, All, arith,
}
use revenue_recovery_voice_a.Base.Fixed.{fixed, scale}
use revenue_recovery_voice_a.Media.Ledger.{
  on_chunk_sent, on_mark_ack, on_item_started, played_ms_for_current_item, unplayed_ms, bytes_to_ms,
  outstanding_marks,
}
use revenue_recovery_voice_a.Media.Ledger.Invariant.{
  IsConsistent, LedgerOp, chunk_sent, mark_ack, item_started, new_item, apply_all,
  apply_all-IsConsistent,
}
use revenue_recovery_voice_a.Media.Ledger.Acks.{ack_all, furthest, ack_all-furthest}
use revenue_recovery_voice_a.Media.Ledger.Millis.{send_all, total, item_played_exactly}
use revenue_recovery_voice_a.Media.BargeIn.{on_speech_started}
use revenue_recovery_voice_a.Media.BargeIn.Cut.{IsTruthful, cut-IsTruthful}
use revenue_recovery_voice_a.Media.Budget.{check, watch}
use revenue_recovery_voice_a.Media.Budget.Phases.{IsBudget, rank, check_phase_mono}
use revenue_recovery_voice_a.Media.Budget.Watch.{
  WrapsThenEnds, ends, watch-WrapsThenEnds, watch-ends,
}
use revenue_recovery_voice_a.Examples.Data.{F, ledger, guard, budget}

ledger-IsConsistent : IsConsistent ledger
ledger-IsConsistent = record {
  counted = omega arith;
  ordered = omega arith;
  outstanding = ((omega arith, omega arith), ((omega arith, omega arith), tt));
  distinct = (refl, (refl, tt));
  started = omega arith;
}

abbrev ops : List LedgerOp
ops =
    mark_ack "m2"
    ∷ chunk_sent "m3" 800
    ∷ mark_ack "m1"
    ∷ item_started "item2"
    ∷ chunk_sent "m4" 800
    ∷ new_item none
    ∷ []

apply_all-IsConsistent_example : IsConsistent (apply_all ops ledger)
apply_all-IsConsistent_example = apply_all-IsConsistent ops ledger ledger-IsConsistent

abbrev names : List String
names = "m1" ∷ "m2" ∷ "m1" ∷ "other" ∷ []

ack_all-furthest_example :
    (ack_all names ledger).played_bytes ≡ furthest names ledger.marks ledger.played_bytes
ack_all-furthest_example = ack_all-furthest names ledger (refl, (refl, tt))

item_played_exactly_example :
    let l' =
      (on_mark_ack "c2" (
        on_chunk_sent "c2"
          (pos 800)
          (send_all (("c1", 160) ∷ []) (on_item_started "item2" ledger)))).0 in
    (played_ms_for_current_item fixed l' ≡ bytes_to_ms fixed (pos (total (("c1", 160) ∷ []) + 800)))
    × (unplayed_ms fixed l' ≡ bytes_to_ms fixed (pos 0))
    × (outstanding_marks l' ≡ 0)
item_played_exactly_example =
    item_played_exactly fixed "item2" (("c1", 160) ∷ []) "c2" 800 ledger ledger-IsConsistent

cut-IsTruthful_example :
    All
      (IsTruthful fixed ledger)
      (on_speech_started fixed true "MZ1" (fixed.of_int (pos 3)) ledger).1
cut-IsTruthful_example =
    cut-IsTruthful fixed true "MZ1" (fixed.of_int (pos 3)) ledger ledger-IsConsistent

budget-IsBudget : IsBudget fixed budget
unfolding scale
budget-IsBudget = record {
  seconds_pos = omega arith;
  seconds_cap = omega arith;
  cost_pos = refl;
  wrap_low = omega arith;
  wrap_high = omega arith;
}

check_phase_mono_example :
    rank (check fixed guard (fixed.of_int (pos 100))).phase
    ≤ rank (check fixed guard (fixed.of_int (pos 400))).phase
unfolding scale
check_phase_mono_example =
    check_phase_mono fixed guard (fixed.of_int (pos 100)) (fixed.of_int (pos 400)) budget-IsBudget
      refl

abbrev ticks : List (F × F)
ticks =
    (fixed.of_int (pos 400), fixed.of_int (pos 400))
    ∷ (fixed.of_int (pos 500), fixed.of_int (pos 500))
    ∷ []

watch-WrapsThenEnds_example : WrapsThenEnds (watch fixed ticks guard)
watch-WrapsThenEnds_example = watch-WrapsThenEnds fixed ticks guard

watch-ends_example : ends (watch fixed ticks guard) ≡ true
unfolding scale
watch-ends_example = watch-ends fixed ticks guard budget-IsBudget refl
