-- ===== src/Metrics/Stats.antt =====
-- The statistics of each tool in `compute` of `apps/api/observability/metrics.py` count the rows of that
-- tool.
use revenue_recovery_voice_a.Base.{
  All, ◌≡◌, refl, sym, ap, ◌∙◌, inl, inr, Bool, not, List, [], ◌∷◌, map, some, String, length,
  length-map, pos, leb_ℤ, FloatOps, Result, ok, ◌>>=◌, IsAmong, count_if, arith,
}
use revenue_recovery_voice_a.Metrics.Gates.{distribution_values-returns}
use revenue_recovery_voice_a.Metrics.{
  Distribution, Sample, ToolRow, ToolStats, sample, is_failure, tool_stats, all_stats, distribution,
  present,
}
use revenue_recovery_voice_a.Metrics.Groups.{rows_of, sizes, total_calls}

module _ (fl : FloatOps) where
  open fl use {F}

  -- The statistics of the rows with a tool's name.
  pub record IsOfRows (rows : List (ToolRow F)) (t : ToolStats F) : Type 0 where
    pub calls : t.calls ≡ length (rows_of t.name rows)
    pub failures :
        t.failures ≡ count_if (λ (r : ToolRow F). is_failure r.status) (rows_of t.name rows)
    pub retried :
        t.retried
        ≡ count_if (λ (r : ToolRow F). not (leb_ℤ r.attempt (pos 1))) (rows_of t.name rows)
    pub latency :
        distribution fl (map (λ (r : ToolRow F). some r.latency_ms) (rows_of t.name rows))
        ≡ ok t.latency

  count_if-sample :
      (p : Sample F → Bool) (rows : List (ToolRow F))
      → count_if p (map sample rows) ≡ count_if (λ r. p (sample r)) rows
  count_if-sample p [] = refl
  count_if-sample p (row ∷ rows) = ground (arith, count_if-sample p rows)

  latencies-sample :
      (rows : List (ToolRow F))
      → map (λ (s : Sample F). some s.latency_ms) (map sample rows)
        ≡ map (λ (r : ToolRow F). some r.latency_ms) rows
  unfolding sample
  latencies-sample [] = refl
  latencies-sample (row ∷ rows) = ap (λ l. some row.latency_ms ∷ l) (latencies-sample rows)

  tool_stats-returns :
      (name : String) (rows : List (ToolRow F))
      → (t : ToolStats F) × (tool_stats fl (name, map sample (rows_of name rows)) ≡ ok t)
        × IsOfRows rows t
        × (t.calls ≡ length (map sample (rows_of name rows)))
  unfolding tool_stats distribution sample
  tool_stats-returns name rows =
      let own = rows_of name rows in
      let samples = map sample own in
      let (d, made) =
        distribution_values-returns fl
          (present (map (λ (s : Sample F). some s.latency_ms) samples)) in
      (
        record {
          name = name;
          calls = length samples;
          failures = count_if (λ (s : Sample F). is_failure s.status) samples;
          retried = count_if (λ (s : Sample F). not (leb_ℤ s.attempt (pos 1))) samples;
          latency = d;
        },
        ap
            (λ (r : Result (Distribution F)). r >>= λ latency. ok (record {
              name = name;
              calls = length samples;
              failures = count_if (λ (s : Sample F). is_failure s.status) samples;
              retried = count_if (λ (s : Sample F). not (leb_ℤ s.attempt (pos 1))) samples;
              latency = latency;
            }))
            made,
        record {
          calls = length-map sample own;
          failures = count_if-sample (λ (s : Sample F). is_failure s.status) own;
          retried = count_if-sample (λ (s : Sample F). not (leb_ℤ s.attempt (pos 1))) own;
          latency = ap (distribution fl) (sym (latencies-sample own)) ∙ made;
        },
        refl,
      )

  pub all_stats-returns :
      (rows : List (ToolRow F)) (items : List (String × List (Sample F)))
      → ((name : String) (samples : List (Sample F))
          → IsAmong (name, samples) items
          → samples ≡ map sample (rows_of name rows))
      → (ts : List (ToolStats F)) × (all_stats fl items ≡ ok ts)
        × All (IsOfRows rows) ts
        × (total_calls ts ≡ sizes items)
  unfolding all_stats
  all_stats-returns rows [] h = ([], refl, tt, refl)
  all_stats-returns rows ((name, samples) ∷ items) h =
      let own = h name samples (inl refl) in
      let (t, one, is_one, size) = tool_stats-returns name rows in
      let (ts, rest, are, sum) =
        all_stats-returns rows items (λ other others k. h other others (inr k)) in
      (t ∷ ts, rw (own, one, rest) refl, (is_one, are), omega (arith, size, sum, ap length own))
