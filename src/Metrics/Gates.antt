-- ===== src/Metrics/Gates.antt =====
-- The verdict of `compute` in `apps/api/observability/metrics.py`, in terms of how many samples are
-- within each ceiling.
use revenue_recovery_voice_a.Base.{
  ℕ, ◌^◌, ◌≤◌, ◌<◌, ◌≡◌, refl, ap, ◌∙◌, ◌↔◌, inl, inr, true, false, List, [], ◌∷◌, Option, none,
  some, String, length, All, is_empty, pos, FloatOps, ok, Bool-cases, arith,
}
use mathlib.Core.Path.{subst}
use revenue_recovery_voice_a.Metrics.{
  Distribution, GateFailure, half, most, distribution_values, breach, breaches, gate_failures,
  max_from,
}
use revenue_recovery_voice_a.Metrics.Ranks.{
  Reaches, IsPercentile, reach-le, percentile-returns, percentile-IsPercentile,
}

breaches-none :
    {F : Type 0} (fs : List (Option (GateFailure F)))
    → (is_empty (breaches fs) ≡ true) ↔ All (λ f. f ≡ none) fs
unfolding breaches
breaches-none [] = (λ h. tt, λ h. refl)
breaches-none (none ∷ fs) = (λ h. (refl, (breaches-none fs).0 h), λ h. (breaches-none fs).1 h.1)
breaches-none (some f ∷ fs) = (λ h. cc, λ h. cc)

module _ (fl : FloatOps) where
  open fl use {F, of_int, mul, div, le, div_mono, div_exact, div_pos, of_int_strict, of_int_mono}

  fraction_share :
      (a b : ℕ)
      → a ≤ b
      → 0 < b
      → b ≤ 100
      → le (div (of_int (pos a)) (of_int (pos b))) (of_int (pos 1)) ≡ true
  fraction_share a b h k m =
      subst (λ (y : F). le (div (of_int (pos a)) (of_int (pos b))) y ≡ true)
        (ap (λ (n : ℕ). div (of_int (pos n)) (of_int (pos b))) (omega arith)
          ∙ div_exact 1 b k (omega arith))
        (div_mono (of_int (pos a)) (of_int (pos b)) (of_int (pos b))
          (of_int_strict 0 b k (omega arith)) (of_int_mono (pos a) (pos b) (omega arith)))

  pub half_pos : le (half fl) (of_int (pos 0)) ≡ false
  half_pos = div_pos 1 2 (omega arith) (omega arith) (omega arith) (omega arith)

  pub half_share : le (half fl) (of_int (pos 1)) ≡ true
  half_share = fraction_share 1 2 (omega arith) (omega arith) (omega arith)

  most_pos : le (most fl) (of_int (pos 0)) ≡ false
  most_pos = div_pos 95 100 (omega arith) (omega arith) (omega arith) (omega arith)

  most_share : le (most fl) (of_int (pos 1)) ≡ true
  most_share = fraction_share 95 100 (omega arith) (omega arith) (omega arith)

  breach-none :
      (metric : String) (v threshold : F)
      → (breach fl metric (some v) threshold ≡ none) ↔ (le v threshold ≡ true)
  unfolding breach
  breach-none metric v threshold = elim (Bool-cases (le v threshold)) [
    | inl within ↦ rw within (λ e. refl, λ e. refl)
    | inr beyond ↦ rw beyond (λ e. cc, λ e. cc)
  ]

  -- A percentile that breaches no ceiling that its share of the samples is within.
  abbrev pub Gates : F → List F → Option F → Type 0
  Gates p xs o = (metric : String) (w : F) → (breach fl metric o w ≡ none) ↔ Reaches fl p xs w

  no_samples-Gates :
      (p : F) → le p (of_int (pos 0)) ≡ false → le p (of_int (pos 1)) ≡ true → Gates p [] none
  unfolding breach
  no_samples-Gates p positive share metric w =
      (λ h. reach-le fl p positive share 0 (omega arith), λ h. refl)

  IsPercentile-Gates : (p : F) (xs : List F) (v : F) → IsPercentile fl p xs v → Gates p xs (some v)
  IsPercentile-Gates p xs v h metric w = (
    λ e. (h.reaches w).0 ((breach-none metric v w).0 e),
    λ e. (breach-none metric v w).1 ((h.reaches w).1 e),
  )

  -- A distribution that is made of the samples.
  pub record IsOf (xs : List F) (d : Distribution F) : Type 0 where
    pub made : distribution_values fl xs ≡ ok d
    pub at_p50 : Gates (half fl) xs d.p50
    pub at_p95 : Gates (most fl) xs d.p95

  pub distribution_values-IsOf :
      (xs : List F) → length xs < 2 ^ 53 → (d : Distribution F) × IsOf xs d
  unfolding distribution_values
  distribution_values-IsOf [] small = (
    record { count = 0; p50 = none; p95 = none; max = none },
    record {
      made = refl;
      at_p50 = no_samples-Gates (half fl) half_pos half_share;
      at_p95 = no_samples-Gates (most fl) most_pos most_share;
    },
  )
  distribution_values-IsOf (x ∷ xs) small =
      let (u, median, low) = percentile-IsPercentile fl (half fl) half_pos half_share x xs small in
      let (v, slow, high) = percentile-IsPercentile fl (most fl) most_pos most_share x xs small in
      (
        record {
          count = length (x ∷ xs);
          p50 = some u;
          p95 = some v;
          max = some (max_from fl x xs);
        },
        record {
          made = rw (median, slow) refl;
          at_p50 = IsPercentile-Gates (half fl) (x ∷ xs) u low;
          at_p95 = IsPercentile-Gates (most fl) (x ∷ xs) v high;
        },
      )

  -- However many samples there are, `distribution` returns.
  pub distribution_values-returns :
      (xs : List F) → (d : Distribution F) × (distribution_values fl xs ≡ ok d)
  unfolding distribution_values
  distribution_values-returns [] = (record { count = 0; p50 = none; p95 = none; max = none }, refl)
  distribution_values-returns (x ∷ xs) =
      let (u, median) = percentile-returns fl (half fl) half_pos half_share x xs in
      let (v, slow) = percentile-returns fl (most fl) most_pos most_share x xs in
      (
        record {
          count = length (x ∷ xs);
          p50 = some u;
          p95 = some v;
          max = some (max_from fl x xs);
        },
        rw (median, slow) refl,
      )

  -- What `compute` decides: at least half of the turns answer within 800 ms, and 95 of 100 turns within
  -- 1400 ms, barge-ins within 200 ms and truncations within 100 ms.
  abbrev pub MeetsCeilings : List F → List F → List F → Type 0
  MeetsCeilings turns cutoffs errors =
      Reaches fl (half fl) turns (of_int (pos 800))
      × Reaches fl (most fl) turns (of_int (pos 1400))
      × Reaches fl (most fl) cutoffs (of_int (pos 200))
      × Reaches fl (most fl) errors (of_int (pos 100))

  pub gate_failures-exact :
      (turns cutoffs errors : List F) (d e f : Distribution F)
      → IsOf turns d
      → IsOf cutoffs e
      → IsOf errors f
      → (is_empty (gate_failures fl d e f) ≡ true) ↔ MeetsCeilings turns cutoffs errors
  unfolding gate_failures
  gate_failures-exact turns cutoffs errors d e f h k l =
      let a = h.at_p50 "voice_to_voice_p50" (of_int (pos 800)) in
      let b = h.at_p95 "voice_to_voice_p95" (of_int (pos 1400)) in
      let c = k.at_p95 "barge_in_cutoff_p95" (of_int (pos 200)) in
      let g = l.at_p95 "truncation_error_p95" (of_int (pos 100)) in
      let all_none = breaches-none (
        breach fl "voice_to_voice_p50" d.p50 (of_int (pos 800))
        ∷ breach fl "voice_to_voice_p95" d.p95 (of_int (pos 1400))
        ∷ breach fl "barge_in_cutoff_p95" e.p95 (of_int (pos 200))
        ∷ breach fl "truncation_error_p95" f.p95 (of_int (pos 100))
        ∷ []) in
      (
        λ q. let ns = all_none.0 q in (a.0 ns.0, b.0 ns.1.0, c.0 ns.1.1.0, g.0 ns.1.1.1.0),
        λ r. all_none.1 (a.1 r.0, (b.1 r.1, (c.1 r.2, (g.1 r.3, tt)))),
      )
