-- ===== src/Domain/State/Streaks.antt =====
-- The failure streak of `record_tool` counts the failures since the last success, and nothing
-- older.
use revenue_recovery_voice_a.Base.{
  ℕ, ◌+◌, ◌≡◌, refl, Bool, true, not, ◌&&◌, List, [], ◌∷◌, length, arith, if◌then◌else◌,
}
use revenue_recovery_voice_a.Domain.State.{CallState, ToolOutcome, is_ok, record_tool}

-- The calls of `record_tool` that a dispatch loop makes, in order.
unfoldable record_tools : CallState → List ToolOutcome → CallState
record_tools s [] = s
record_tools s (o ∷ os) = record_tools (record_tool s o) os

abbrev none_ok : List ToolOutcome → Bool
none_ok [] = true
none_ok (o ∷ os) = not (is_ok o.status) && none_ok os

-- The length of the longest suffix without a success.
abbrev failing_suffix : List ToolOutcome → ℕ
failing_suffix [] = 0
failing_suffix (o ∷ os) =
    let rest = failing_suffix os in if none_ok (o ∷ os) then length (o ∷ os) else rest

failing_suffix_all : (os : List ToolOutcome) → none_ok os ≡ true → failing_suffix os ≡ length os
failing_suffix_all [] h = refl
failing_suffix_all (o ∷ os) h = ground arith

streak_from :
    (os : List ToolOutcome) (s : CallState)
    → (record_tools s os).consecutive_tool_failures
      ≡ (if none_ok os then s.consecutive_tool_failures + length os else failing_suffix os)
unfolding record_tools record_tool
streak_from [] s = omega arith
streak_from (o ∷ os) s = ground (arith, streak_from os (record_tool s o), failing_suffix_all os)

-- After any list of recorded outcomes on a call with no failure streak, the streak is the number
-- of outcomes since the last success.
record_tools_streak :
    (s : CallState) (os : List ToolOutcome)
    → s.consecutive_tool_failures ≡ 0
    → (record_tools s os).consecutive_tool_failures ≡ failing_suffix os
record_tools_streak s os h = ground (arith, streak_from os s, failing_suffix_all os)
