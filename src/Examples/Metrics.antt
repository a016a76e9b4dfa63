-- ===== src/Examples/Metrics.antt =====
-- Runs about the latency gate and its tool statistics.
use revenue_recovery_voice_a.Base.{
  ◌<◌, ◌^◌, ◌≡◌, ◌↔◌, true, List, [], ◌∷◌, Option, none, some, length, ok, pos, All, arith,
}
use revenue_recovery_voice_a.Base.Fixed.{fixed, scale}
use revenue_recovery_voice_a.Metrics.{
  CallMetrics, ToolRow, half, percentile, passed, present, compute,
}
use revenue_recovery_voice_a.Metrics.Ranks.{IsPercentile, percentile-IsPercentile}
use revenue_recovery_voice_a.Metrics.Gates.{half_pos, half_share, MeetsCeilings}
use revenue_recovery_voice_a.Metrics.Groups.{total_calls}
use revenue_recovery_voice_a.Metrics.Stats.{IsOfRows}
use revenue_recovery_voice_a.Metrics.Verdict.{compute-passes, compute-tools}
use revenue_recovery_voice_a.Examples.Data.{F}

abbrev turns : List (Option F)
turns = some (scale (pos 900)) ∷ none ∷ some (scale (pos 600)) ∷ some (scale (pos 700)) ∷ []

abbrev cutoffs : List (Option F)
cutoffs = some (scale (pos 120)) ∷ []

abbrev rows : List (ToolRow F)
rows =
    record { name = "lookup"; status = "ok"; latency_ms = scale (pos 40); attempt = pos 1 }
    ∷ record { name = "book"; status = "unavailable"; latency_ms = scale (pos 90); attempt = pos 2 }
    ∷ record { name = "lookup"; status = "denied"; latency_ms = scale (pos 10); attempt = pos 1 }
    ∷ []

small_turns : length (present turns) < 2 ^ 53
unfolding present
small_turns = omega arith

small_cutoffs : length (present cutoffs) < 2 ^ 53
unfolding present
small_cutoffs = omega arith

small_none : length (present {F = F} []) < 2 ^ 53
unfolding present
small_none = omega arith

percentile-IsPercentile_example :
    (v : F) × (percentile fixed (scale (pos 900) ∷ scale (pos 600) ∷ []) (half fixed) ≡ ok (some v))
    × IsPercentile fixed (half fixed) (scale (pos 900) ∷ scale (pos 600) ∷ []) v
percentile-IsPercentile_example =
    percentile-IsPercentile fixed (half fixed) (half_pos fixed) (half_share fixed) (scale (pos 900))
      (scale (pos 600) ∷ []) (omega arith)

compute-passes_example :
    (m : CallMetrics F) × (compute fixed turns cutoffs [] rows (pos 4) (pos 250) ≡ ok m)
    × ((passed m ≡ true) ↔ MeetsCeilings fixed (present turns) (present cutoffs) (present []))
compute-passes_example =
    compute-passes fixed turns cutoffs [] rows (pos 4) (pos 250) small_turns small_cutoffs
      small_none

compute-tools_example :
    (m : CallMetrics F) × (compute fixed turns cutoffs [] rows (pos 4) (pos 250) ≡ ok m)
    × All (IsOfRows fixed rows) m.tools
    × (total_calls m.tools ≡ 3)
compute-tools_example = compute-tools fixed turns cutoffs [] rows (pos 4) (pos 250)
