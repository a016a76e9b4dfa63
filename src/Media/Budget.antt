-- ===== src/Media/Budget.antt =====
-- `apps/api/media/budget_guard.py`: the wall-clock and cost ceilings of a call, and the loop
-- `_watch_budget` of `apps/api/media/bridge.py` that acts on them. Times and money are floats.
pub mod Phases
pub mod Watch
use revenue_recovery_voice_a.Base.{
  ℕ, Bool, true, false, not, ◌&&◌, List, [], ◌∷◌, ◌++◌, Option, none, some, Text, codes, ℤ, pos,
  FloatOps, if◌then◌else◌,
}
use revenue_recovery_voice_a.Config.{BudgetConfig}

pub data BudgetPhase : Type 0 where
  normal wrap_up expired : BudgetPhase

pub data Binding : Type 0 where
  seconds cost : Binding

pub record BudgetStatus (F : Type 0) : Type 0 where
  pub phase : BudgetPhase
  pub elapsed_seconds : F
  pub estimated_cost_usd : F
  pub seconds_pct : F
  pub cost_pct : F
  pub binding : Binding

abbrev is_normal : BudgetPhase → Bool
is_normal normal = true
is_normal _ = false

abbrev is_wrap_up : BudgetPhase → Bool
is_wrap_up wrap_up = true
is_wrap_up _ = false

abbrev pub is_expired : BudgetPhase → Bool
is_expired expired = true
is_expired _ = false

module _ {F : Type 0} where
  -- `BudgetStatus.should_wrap_up`
  unfoldable should_wrap_up : BudgetStatus F → Bool
  should_wrap_up s = not (is_normal s.phase)

  -- `BudgetStatus.should_end`
  unfoldable pub should_end : BudgetStatus F → Bool
  should_end s = is_expired s.phase

-- `BudgetGuard`
pub record BudgetGuard (F : Type 0) : Type 0 where
  pub budget : BudgetConfig F
  pub wrapped_up : Bool

pub data BudgetAction : Type 0 where
  end_call : Binding → BudgetAction
  send_wrap_up : Binding → BudgetAction

module _ (fl : FloatOps) where
  open fl use {F, of_int, add, mul, div, le, round}

  -- A decimal literal, `n / d`.
  abbrev pub literal : ℕ → ℕ → F
  literal n d = div (of_int (pos n)) (of_int (pos d))

  -- `max(a, b)`
  abbrev pub max_float : F → F → F
  max_float a b = if le b a then a else b

  -- `REALTIME_USD_PER_MINUTE + TWILIO_USD_PER_MINUTE`
  abbrev pub usd_per_minute : F
  usd_per_minute = add (literal 36 100) (literal 85 10000)

  -- `ANALYSIS_USD_FIXED`
  abbrev analysis_usd_fixed : F
  analysis_usd_fixed = literal 2 100

  -- `estimate_cost_usd`
  unfoldable pub estimate_cost_usd : F → F
  estimate_cost_usd elapsed =
      add (mul (div elapsed (of_int (pos 60))) usd_per_minute) analysis_usd_fixed

  -- `100.0 * value / ceiling`
  unfoldable pub percent_of : F → F → F
  percent_of value ceiling = div (mul (of_int (pos 100)) value) ceiling

  -- The phase that the larger of the two percentages gives.
  unfoldable pub phase_at : ℕ → F → BudgetPhase
  phase_at wrap_up_at_pct worst =
      if le (of_int (pos 100)) worst
      then expired
      else if le (of_int (pos wrap_up_at_pct)) worst
      then wrap_up
      else normal

  -- `BudgetGuard.check`
  unfoldable pub check : BudgetGuard F → F → BudgetStatus F
  unfolding estimate_cost_usd percent_of phase_at
  check g elapsed =
      let c = estimate_cost_usd elapsed in
      let seconds_pct = percent_of elapsed (of_int (pos g.budget.max_call_seconds)) in
      let cost_pct = percent_of c g.budget.max_call_cost_usd in
      record {
        phase = phase_at g.budget.wrap_up_at_pct (max_float seconds_pct cost_pct);
        elapsed_seconds = elapsed;
        estimated_cost_usd = round c 4;
        seconds_pct = round seconds_pct 2;
        cost_pct = round cost_pct 2;
        binding = if le cost_pct seconds_pct then seconds else cost;
      }

  -- `mark_wrap_up_sent`
  unfoldable pub mark_wrap_up_sent : BudgetGuard F → BudgetGuard F
  mark_wrap_up_sent g = record g { wrapped_up = true }

  -- `needs_wrap_up_now`
  unfoldable pub needs_wrap_up_now : BudgetGuard F → F → Option (BudgetStatus F)
  needs_wrap_up_now g elapsed =
      let status = check g elapsed in
      if is_wrap_up status.phase && not g.wrapped_up then some status else none

  -- One round of `_watch_budget` after its sleep. Each of its two reads of the clock is an argument,
  -- and the Boolean says that the loop ends.
  unfoldable pub watch_tick : F → F → BudgetGuard F → BudgetGuard F × List BudgetAction × Bool
  unfolding mark_wrap_up_sent should_end
  watch_tick now later g =
      let status = check g now in
      if should_end status
      then (g, end_call status.binding ∷ [], true)
      else elim (needs_wrap_up_now g later) [
        | some _ ↦ (mark_wrap_up_sent g, send_wrap_up status.binding ∷ [], false)
        | none ↦ (g, [], false)
      ]

  -- The loop of `_watch_budget` over the clock readings of its rounds, until it ends.
  unfoldable pub watch : List (F × F) → BudgetGuard F → List BudgetAction
  watch [] g = []
  watch ((now, later) ∷ ts) g =
      let (g', actions, done) = watch_tick now later g in
      elim done [ true ↦ actions | false ↦ actions ++ watch ts g' ]
