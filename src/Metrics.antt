-- ===== src/Metrics.antt =====
-- `apps/api/observability/metrics.py`: percentiles, tool statistics and the verdict of the latency
-- gate. Samples are floats; a name has the order of its code points.
pub mod Ranks
pub mod Gates
pub mod Groups
pub mod Stats
pub mod Verdict
use revenue_recovery_voice_a.Base.{
  ℕ, suc, ◌+◌, ◌-◌, Bool, true, false, not, ◌||◌, ◌&&◌, List, [], ◌∷◌, ◌++◌, map, Option, none,
  some, String, str_eq, Dict, lookup, insert, length, get_elem?, is_empty, ltb, leb, ◌==◌, ℤ, pos,
  negsuc, ◌+ℤ◌, ◌-ℤ◌, leb_ℤ, FloatOps, Result, ok, err, Exc, lookup_error, ◌>>=◌, Text, codes,
  sort_by, count_if, if◌then◌else◌,
}

-- `ordered[i]`: a negative index counts from the end.
unfoldable pub item_at {ℓ} : {A : Type ℓ} → List A → ℤ → Result A
item_at xs (pos i) = elim (get_elem? xs i) [ none ↦ err lookup_error | some x ↦ ok x ]
item_at xs (negsuc i) =
    if ltb i (length xs)
    then elim (get_elem? xs (length xs - suc i)) [ none ↦ err lookup_error | some x ↦ ok x ]
    else err lookup_error

-- `min(a, b)` on integers
unfoldable pub min_ℤ : ℤ → ℤ → ℤ
min_ℤ a b = if leb_ℤ a b then a else b

-- `a <= b` on names
unfoldable pub text_le : Text → Text → Bool
text_le [] t = true
text_le (x ∷ s) [] = false
text_le (x ∷ s) (y ∷ t) = ltb x y || x == y && text_le s t

-- `VOICE_P50_MS`
abbrev voice_p50_ms : ℕ
voice_p50_ms = 800

-- `VOICE_P95_MS`
abbrev voice_p95_ms : ℕ
voice_p95_ms = 1400

-- `BARGE_IN_CUTOFF_MS`
abbrev barge_in_cutoff_ms : ℕ
barge_in_cutoff_ms = 200

-- `TRUNCATION_TOLERANCE_MS`
abbrev truncation_tolerance_ms : ℕ
truncation_tolerance_ms = 100

pub record Distribution (F : Type 0) : Type 0 where
  pub count : ℕ
  pub p50 : Option F
  pub p95 : Option F
  pub max : Option F

pub record GateFailure (F : Type 0) : Type 0 where
  pub metric : String
  pub observed : F
  pub threshold : F

pub record ToolStats (F : Type 0) : Type 0 where
  pub name : String
  pub calls : ℕ
  pub failures : ℕ
  pub retried : ℕ
  pub latency : Distribution F

pub record CallMetrics (F : Type 0) : Type 0 where
  pub voice_to_voice : Distribution F
  pub barge_in_cutoff : Distribution F
  pub truncation_error : Distribution F
  pub tools : List (ToolStats F)
  pub calls : ℤ
  pub cost_usd : F
  pub failures : List (GateFailure F)

-- A row of `tool_rows`.
pub record ToolRow (F : Type 0) : Type 0 where
  pub name : String
  pub status : String
  pub latency_ms : F
  pub attempt : ℤ

-- What `grouped` keeps of a row.
pub record Sample (F : Type 0) : Type 0 where
  pub status : String
  pub latency_ms : F
  pub attempt : ℤ

-- `status in FAILURE_STATUSES`
unfoldable pub is_failure : String → Bool
is_failure status = str_eq status "unavailable" || str_eq status "denied"

module _ {F : Type 0} where
  -- The samples that are not `None`.
  unfoldable pub present : List (Option F) → List F
  present [] = []
  present (none ∷ xs) = present xs
  present (some x ∷ xs) = x ∷ present xs

  -- `CallMetrics.passed`
  unfoldable pub passed : CallMetrics F → Bool
  passed m = is_empty m.failures

  unfoldable pub sample : ToolRow F → Sample F
  sample row = record { status = row.status; latency_ms = row.latency_ms; attempt = row.attempt }

  -- `setdefault(name, [])`, from the value of the key
  unfoldable pub set_default : Option (List (Sample F)) → List (Sample F)
  set_default none = []
  set_default (some rows) = rows

  -- `grouped.setdefault(name, []).append(…)`
  unfoldable pub add_row : ToolRow F → Dict (List (Sample F)) → Dict (List (Sample F))
  unfolding sample set_default
  add_row row grouped =
      insert row.name (set_default (lookup row.name grouped) ++ (sample row ∷ [])) grouped

  unfoldable pub group_from : List (ToolRow F) → Dict (List (Sample F)) → Dict (List (Sample F))
  unfolding add_row
  group_from [] grouped = grouped
  group_from (row ∷ rows) grouped = group_from rows (add_row row grouped)

  -- The order of `sorted(grouped.items())`. The names differ, so the rows are never compared.
  unfoldable pub item_le : (String × List (Sample F)) → (String × List (Sample F)) → Bool
  unfolding text_le
  item_le (a, rows) (b, others) = text_le (codes a) (codes b)

  -- The breaches that are not `None`.
  unfoldable pub breaches : List (Option (GateFailure F)) → List (GateFailure F)
  breaches [] = []
  breaches (none ∷ rest) = breaches rest
  breaches (some failure ∷ rest) = failure ∷ breaches rest

module _ (fl : FloatOps) where
  open fl use {F, of_int, mul, div, le, trunc, round}

  -- `math.ceil`
  unfoldable pub ceil : F → ℤ
  ceil x = if le x (of_int (trunc x)) then trunc x else trunc x +ℤ pos 1

  -- `percentile`
  unfoldable pub percentile : List F → F → Result (Option F)
  unfolding item_at min_ℤ sort_by ceil
  percentile [] p = ok none
  percentile (x ∷ xs) p =
      let ordered = sort_by le (x ∷ xs) in
      let n = pos (length ordered) in
      if le p (of_int (pos 0))
      then (item_at ordered (pos 0) >>= λ v. ok (some v))
      else (let rank = ceil (mul p (of_int n)) in
          item_at ordered (min_ℤ rank n -ℤ pos 1) >>= λ v. ok (some v))

  -- `max(…)`, the first of the greatest
  unfoldable pub max_from : F → List F → F
  max_from best [] = best
  max_from best (x ∷ xs) = max_from (if le x best then best else x) xs

  -- `0.5`
  abbrev pub half : F
  half = div (of_int (pos 1)) (of_int (pos 2))

  -- `0.95`
  abbrev pub most : F
  most = div (of_int (pos 95)) (of_int (pos 100))

  unfoldable pub distribution_values : List F → Result (Distribution F)
  unfolding percentile max_from
  distribution_values [] = ok (record { count = 0; p50 = none; p95 = none; max = none })
  distribution_values (x ∷ xs) = percentile (x ∷ xs) half >>= λ p50.
      percentile (x ∷ xs) most >>= λ p95.
      ok (record { count = length (x ∷ xs); p50 = p50; p95 = p95; max = some (max_from x xs) })

  -- `distribution`
  unfoldable pub distribution : List (Option F) → Result (Distribution F)
  unfolding distribution_values present
  distribution samples = distribution_values (present samples)

  -- `_round`
  unfoldable round_ms : Option F → Option F
  round_ms none = none
  round_ms (some value) = some (round value 1)

  -- `_breach`
  unfoldable pub breach : String → Option F → F → Option (GateFailure F)
  breach metric none threshold = none
  breach metric (some observed) threshold =
      if le observed threshold
      then none
      else some (record { metric = metric; observed = observed; threshold = threshold })

  -- `ToolStats.failure_rate`
  unfoldable failure_rate : ToolStats F → F
  failure_rate t =
      if t.calls == 0
      then of_int (pos 0)
      else round (div (of_int (pos t.failures)) (of_int (pos t.calls))) 4

  -- `CallMetrics.cost_per_call_usd`
  unfoldable cost_per_call_usd : CallMetrics F → Option F
  cost_per_call_usd m =
      if leb_ℤ m.calls (pos 0) && leb_ℤ (pos 0) m.calls
      then none
      else some (round (div m.cost_usd (of_int m.calls)) 4)

  -- The `ToolStats` of one item of `grouped`.
  unfoldable pub tool_stats : (String × List (Sample F)) → Result (ToolStats F)
  unfolding is_failure distribution
  tool_stats (name, rows) =
      distribution (map (λ (r : Sample F). some r.latency_ms) rows) >>= λ latency. ok (record {
        name = name;
        calls = length rows;
        failures = count_if (λ (r : Sample F). is_failure r.status) rows;
        retried = count_if (λ (r : Sample F). not (leb_ℤ r.attempt (pos 1))) rows;
        latency = latency;
      })

  unfoldable pub all_stats : List (String × List (Sample F)) → Result (List (ToolStats F))
  unfolding tool_stats
  all_stats [] = ok []
  all_stats (item ∷ items) = tool_stats item >>= λ t. all_stats items >>= λ ts. ok (t ∷ ts)

  -- The failures of `compute`.
  unfoldable pub gate_failures :
      Distribution F → Distribution F → Distribution F → List (GateFailure F)
  unfolding breach breaches
  gate_failures voice cutoff truncation = breaches (
      breach "voice_to_voice_p50" voice.p50 (of_int (pos voice_p50_ms))
      ∷ breach "voice_to_voice_p95" voice.p95 (of_int (pos voice_p95_ms))
      ∷ breach "barge_in_cutoff_p95" cutoff.p95 (of_int (pos barge_in_cutoff_ms))
      ∷ breach "truncation_error_p95" truncation.p95 (of_int (pos truncation_tolerance_ms))
      ∷ [])

  -- `compute`
  unfoldable pub compute :
      (turn_latencies_ms barge_in_cutoffs_ms truncation_errors_ms : List (Option F))
      (tool_rows : List (ToolRow F)) (calls cost_cents : ℤ)
      → Result (CallMetrics F)
  unfolding distribution group_from item_le sort_by all_stats gate_failures
  compute turn_latencies_ms barge_in_cutoffs_ms truncation_errors_ms tool_rows calls cost_cents =
      distribution turn_latencies_ms >>= λ voice. distribution barge_in_cutoffs_ms >>= λ cutoff.
      distribution truncation_errors_ms >>= λ truncation.
      all_stats (sort_by item_le (group_from tool_rows [])) >>= λ tools. ok (record {
        voice_to_voice = voice;
        barge_in_cutoff = cutoff;
        truncation_error = truncation;
        tools = tools;
        calls = calls;
        cost_usd = div (of_int cost_cents) (of_int (pos 100));
        failures = gate_failures voice cutoff truncation;
      })
