-- ===== src/Media/Budget/Phases.antt =====
-- `apps/api/media/budget_guard.py`: the phase of the budget as time passes.
use mathlib.Core.Path.{subst}
use revenue_recovery_voice_a.Base.{ℕ, ◌<◌, ◌≤◌, ◌≡◌, ap, ◌∙◌, true, false, pos, FloatOps, arith}
use revenue_recovery_voice_a.Config.{BudgetConfig}
use revenue_recovery_voice_a.Media.Budget.{
  BudgetPhase, normal, wrap_up, expired, BudgetGuard, literal, max_float, usd_per_minute,
  estimate_cost_usd, percent_of, phase_at, check,
}

-- Phases in the order of a call.
abbrev pub rank : BudgetPhase → ℕ
rank normal = 0
rank wrap_up = 1
rank expired = 2

-- The bounds that the schema puts on a budget.
pub record IsBudget (fl : FloatOps) (b : BudgetConfig fl.F) : Type 0 where
  pub seconds_pos : 0 < b.max_call_seconds
  pub seconds_cap : b.max_call_seconds ≤ 3600
  pub cost_pos : fl.le b.max_call_cost_usd (fl.of_int (pos 0)) ≡ false
  pub wrap_low : 1 ≤ b.wrap_up_at_pct
  pub wrap_high : b.wrap_up_at_pct ≤ 100

module _ (fl : FloatOps) where
  open fl use {F, of_int, add, mul, div, le}

  zero_le : (n : ℕ) → le (of_int (pos 0)) (of_int (pos n)) ≡ true
  zero_le n = fl.of_int_mono (pos 0) (pos n) (omega arith)

  positive : (n : ℕ) → 0 < n → n < 9007199254740992 → le (of_int (pos n)) (of_int (pos 0)) ≡ false
  positive n h k = fl.of_int_strict 0 n h k

  literal_nonneg :
      (n d : ℕ) → 0 < d → d < 9007199254740992 → le (of_int (pos 0)) (literal fl n d) ≡ true
  literal_nonneg n d h k =
      subst (λ (x : F). le x (literal fl n d) ≡ true)
        (ap (λ (k : ℕ). div (of_int (pos k)) (of_int (pos d))) (omega arith)
          ∙ fl.div_exact 0 d h (omega arith))
        (fl.div_mono _ _ _ (positive d h k) (zero_le n))

  rate_nonneg : le (of_int (pos 0)) (usd_per_minute fl) ≡ true
  rate_nonneg = fl.le_trans _ _ _ (literal_nonneg 85 10000 (omega arith) (omega arith)) (
      subst (λ (x : F). le x (usd_per_minute fl) ≡ true) (fl.zero_add (literal fl 85 10000))
        (fl.add_mono _ _ _ (literal_nonneg 36 100 (omega arith) (omega arith))))

  estimate_mono :
      (e e' : F) → le e e' ≡ true → le (estimate_cost_usd fl e) (estimate_cost_usd fl e') ≡ true
  unfolding estimate_cost_usd
  estimate_mono e e' h = fl.add_mono _ _ _ (
      fl.mul_mono_right _ _ _ rate_nonneg
        (fl.div_mono _ _ _ (positive 60 (omega arith) (omega arith)) h))

  percent_mono :
      (a b c : F)
      → le c (of_int (pos 0)) ≡ false
      → le a b ≡ true
      → le (percent_of fl a c) (percent_of fl b c) ≡ true
  unfolding percent_of
  percent_mono a b c p h = fl.div_mono _ _ _ p (fl.mul_mono_left _ _ _ (zero_le 100) h)

  max_float_mono :
      (a b a' b' : F)
      → le a a' ≡ true
      → le b b' ≡ true
      → le (max_float fl a b) (max_float fl a' b') ≡ true
  max_float_mono a b a' b' h k = grind (arith, fl.le_trans, fl.le_total)

  phase_mono : (w : ℕ) (x y : F) → le x y ≡ true → rank (phase_at fl w x) ≤ rank (phase_at fl w y)
  unfolding phase_at
  phase_mono w x y h =
      ground (arith, fl.le_trans (of_int (pos 100)) x y, fl.le_trans (of_int (pos w)) x y)

  le-max_float : (a b : F) → le a (max_float fl a b) ≡ true
  le-max_float a b = ground (arith, fl.le_refl a, fl.le_total b a)

  full_percent :
      (m : ℕ)
      → 0 < m
      → m ≤ 3600
      → percent_of fl (of_int (pos m)) (of_int (pos m)) ≡ of_int (pos 100)
  unfolding percent_of
  full_percent m p c =
      ap (λ (x : F). div x (of_int (pos m))) (fl.mul_exact 100 m (omega arith))
      ∙ fl.div_exact 100 m p (omega arith)

  phase_expired : (w : ℕ) (x : F) → le (of_int (pos 100)) x ≡ true → phase_at fl w x ≡ expired
  unfolding phase_at
  phase_expired w x h = rw h

  -- Within the bounds of the schema the phase only moves on as time passes: from normal to wrap-up
  -- to expired, never back.
  pub check_phase_mono :
      (g : BudgetGuard F) (e e' : F)
      → IsBudget fl g.budget
      → le e e' ≡ true
      → rank (check fl g e).phase ≤ rank (check fl g e').phase
  unfolding check
  check_phase_mono g e e' b h =
      let cap = of_int (pos g.budget.max_call_seconds) in
      let cost_cap = g.budget.max_call_cost_usd in
      phase_mono g.budget.wrap_up_at_pct _ _ (
        max_float_mono (percent_of fl e cap) (percent_of fl (estimate_cost_usd fl e) cost_cap)
          (percent_of fl e' cap) (percent_of fl (estimate_cost_usd fl e') cost_cap)
          (percent_mono e e' cap (positive g.budget.max_call_seconds b.seconds_pos (omega arith)) h)
          (percent_mono _ _ cost_cap b.cost_pos (estimate_mono e e' h)))

  -- From `max_call_seconds` on the call has expired, whatever the cost ceiling is.
  pub check_expired :
      (g : BudgetGuard F) (e : F)
      → IsBudget fl g.budget
      → le (of_int (pos g.budget.max_call_seconds)) e ≡ true
      → (check fl g e).phase ≡ expired
  unfolding check
  check_expired g e b h =
      let m = g.budget.max_call_seconds in
      let full =
        subst (λ (x : F). le x (percent_of fl e (of_int (pos m))) ≡ true)
          (full_percent m b.seconds_pos b.seconds_cap)
          (percent_mono (of_int (pos m)) e (of_int (pos m)) (positive m b.seconds_pos (omega arith))
            h) in
      phase_expired g.budget.wrap_up_at_pct _
        (fl.le_trans _ _ _ full (le-max_float (percent_of fl e (of_int (pos m))) _))
