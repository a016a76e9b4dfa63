-- ===== src/Metrics/Verdict.antt =====
-- `compute` of `apps/api/observability/metrics.py` as a whole: its verdict and its tool statistics.
use revenue_recovery_voice_a.Base.{
  ◌^◌, ◌<◌, ◌≡◌, refl, ◌↔◌, true, List, [], Option, length, ℤ, pos, FloatOps, ok, sort_by, All,
  arith,
}
use revenue_recovery_voice_a.Metrics.{
  Distribution, ToolStats, ToolRow, CallMetrics, passed, present, distribution, distribution_values,
  item_le, group_from, all_stats, gate_failures, compute,
}
use revenue_recovery_voice_a.Metrics.Gates.{
  distribution_values-IsOf, distribution_values-returns, MeetsCeilings, gate_failures-exact,
}
use revenue_recovery_voice_a.Metrics.Groups.{
  total_calls, grouped_rows, sizes-group_from, sizes-sort_by,
}
use revenue_recovery_voice_a.Metrics.Stats.{IsOfRows, all_stats-returns}

module _ (fl : FloatOps) where
  open fl use {F, of_int, div}

  -- The report that `compute` makes of its parts.
  abbrev report :
      Distribution F → Distribution F → Distribution F → List (ToolStats F) → ℤ → ℤ → CallMetrics F
  report voice cutoff truncation tools calls cost_cents = record {
    voice_to_voice = voice;
    barge_in_cutoff = cutoff;
    truncation_error = truncation;
    tools = tools;
    calls = calls;
    cost_usd = div (of_int cost_cents) (of_int (pos 100));
    failures = gate_failures fl voice cutoff truncation;
  }

  compute-report :
      (turns cutoffs errors : List (Option F)) (rows : List (ToolRow F)) (calls cost_cents : ℤ)
      (d e f : Distribution F) (ts : List (ToolStats F))
      → distribution_values fl (present turns) ≡ ok d
      → distribution_values fl (present cutoffs) ≡ ok e
      → distribution_values fl (present errors) ≡ ok f
      → all_stats fl (sort_by item_le (group_from rows [])) ≡ ok ts
      → compute fl turns cutoffs errors rows calls cost_cents
        ≡ ok (report d e f ts calls cost_cents)
  unfolding compute distribution
  compute-report turns cutoffs errors rows calls cost_cents d e f ts h k l m = rw (h, k, l, m) refl

  tools_of :
      (rows : List (ToolRow F))
      → (ts : List (ToolStats F)) × (all_stats fl (sort_by item_le (group_from rows [])) ≡ ok ts)
        × All (IsOfRows fl rows) ts
        × (total_calls ts ≡ length rows)
  tools_of rows =
      let (ts, made, are, sum) =
        all_stats-returns fl rows (sort_by item_le (group_from rows [])) (grouped_rows rows) in
      (
        ts,
        made,
        are,
        omega (arith, sum, sizes-sort_by (group_from rows []), sizes-group_from rows []),
      )

  -- With fewer than 2^53 samples of each kind, `compute` returns, whatever the tool rows are. The gate
  -- passes exactly if at least half of the voice latencies are at most 800 ms, and at least 95 of 100 are
  -- at most 1400 ms, of the barge-in cut-offs at most 200 ms, and of the truncation errors at most 100 ms.
  -- Samples that are `None` do not count. A kind without samples does not fail, so that a report without
  -- any sample passes.
  pub compute-passes :
      (turns cutoffs errors : List (Option F)) (rows : List (ToolRow F)) (calls cost_cents : ℤ)
      → length (present turns) < 2 ^ 53
      → length (present cutoffs) < 2 ^ 53
      → length (present errors) < 2 ^ 53
      → (m : CallMetrics F) × (compute fl turns cutoffs errors rows calls cost_cents ≡ ok m)
        × ((passed m ≡ true) ↔ MeetsCeilings fl (present turns) (present cutoffs) (present errors))
  unfolding passed
  compute-passes turns cutoffs errors rows calls cost_cents h k l =
      let (d, is_d) = distribution_values-IsOf fl (present turns) h in
      let (e, is_e) = distribution_values-IsOf fl (present cutoffs) k in
      let (f, is_f) = distribution_values-IsOf fl (present errors) l in
      let (ts, made, are, sum) = tools_of rows in
      (
        report d e f ts calls cost_cents,
        compute-report turns cutoffs errors rows calls cost_cents d e f ts is_d.made is_e.made
            is_f.made made,
        gate_failures-exact fl (present turns) (present cutoffs) (present errors) d e f is_d is_e
            is_f,
      )

  -- `compute` returns. Each tool in the report has the calls, failures, retries and latencies of the rows
  -- with its name, and the calls of all tools together are as many as the rows.
  pub compute-tools :
      (turns cutoffs errors : List (Option F)) (rows : List (ToolRow F)) (calls cost_cents : ℤ)
      → (m : CallMetrics F) × (compute fl turns cutoffs errors rows calls cost_cents ≡ ok m)
        × All (IsOfRows fl rows) m.tools
        × (total_calls m.tools ≡ length rows)
  compute-tools turns cutoffs errors rows calls cost_cents =
      let (d, made_d) = distribution_values-returns fl (present turns) in
      let (e, made_e) = distribution_values-returns fl (present cutoffs) in
      let (f, made_f) = distribution_values-returns fl (present errors) in
      let (ts, made, are, sum) = tools_of rows in
      (
        report d e f ts calls cost_cents,
        compute-report turns cutoffs errors rows calls cost_cents d e f ts made_d made_e made_f
            made,
        are,
        sum,
      )
