-- ===== src/Gate/Verdict.antt =====
-- gate.py: `_direction`, `_verdict`, `_outcome` and `_ci_confirms_regression`
use eval_ops.Prelude.{
  ℕ, String, Bool, true, false, ◌&&◌, ◌||◌, Option, none, some, List, [], ◌∷◌, ◌==◌, string_eq,
  if◌then◌else◌, contains, ltb, is_some, is_none,
}
use eval_ops.Result.{Result, ok, err, config_error, ◌>>=◌}
use eval_ops.Double.{Double, zero_f}
use eval_ops.Text.{ends_with}
use eval_ops.Domain.Values.{MetricComparison}
use eval_ops.Domain.Evidence.{MetricEvidence}

pub data Direction : Type 0 where
  higher_is_better lower_is_better : Direction

pub data GateOutcome : Type 0 where
  pass regression regression_inconclusive regression_low_evidence : GateOutcome

abbrev pub lower_metrics : List String
lower_metrics = "latency_ms.mean" ∷ "latency_ms.p95" ∷ "cost_usd.total" ∷ []

abbrev pub min_pairs_to_block : ℕ
min_pairs_to_block = 8

pub record MetricVerdict (W : Type 0) : Type 0 where
  pub metric : String
  pub direction : Direction
  pub baseline : W
  pub candidate : W
  pub adverse_change : Option W
  pub threshold : Option W
  pub regression : Bool
  pub outcome : GateOutcome
  pub threshold_breached : Bool
  pub evidence : Option (MetricEvidence W)

unfoldable pub direction_of : String → Result Direction
direction_of metric =
    if contains lower_metrics metric
    then ok lower_is_better
    else if metric == "success_rate"
        || ends_with metric ".pass_rate"
        || ends_with metric ".mean_score"
    then ok higher_is_better
    else err (config_error "gate has no direction rule for metric")

-- `outcome == "regression"`
abbrev pub is_regression : GateOutcome → Bool
is_regression regression = true
is_regression _ = false

module _ {W : Type 0} ⦃d : Double W⦄ where
  -- `threshold is not None and adverse > threshold`
  abbrev pub exceeds : W → Option W → Bool
  exceeds adverse none = false
  exceeds adverse (some threshold) = d.lt threshold adverse

  -- The branches of `_verdict` that set `adverse` and `threshold_breached`.
  unfoldable pub adverse_change : Direction → W → W → Option W → Option W × Bool
  adverse_change higher_is_better baseline candidate threshold =
      if d.eq baseline zero_f && d.eq candidate zero_f
      then (some zero_f, false)
      else if d.eq baseline zero_f
      then (some zero_f, false)
      else (let adverse = d.div (d.sub baseline candidate) baseline in
          (some adverse, exceeds adverse threshold))
  adverse_change lower_is_better baseline candidate threshold =
      if d.eq baseline zero_f && d.eq candidate zero_f
      then (some zero_f, false)
      else if d.eq baseline zero_f
      then (none, is_some threshold)
      else (let adverse = d.div (d.sub candidate baseline) baseline in
          (some adverse, exceeds adverse threshold))

  -- The comparison of the interval with the tolerated boundary.
  abbrev pub beyond : Direction → W → W → W → Bool
  beyond higher_is_better boundary low high = d.lt high (d.neg boundary)
  beyond lower_is_better boundary low high = d.lt boundary low

  unfoldable pub ci_confirms_regression : MetricEvidence W → Direction → Option W → Bool
  ci_confirms_regression evidence direction none = false
  ci_confirms_regression evidence direction (some threshold) = elim evidence.ci_low [
    | none ↦ false
    | some low ↦ elim evidence.ci_high [
      | none ↦ false
      | some high ↦ beyond direction (d.mul threshold evidence.baseline.mean) low high
    ]
  ]

  unfoldable pub outcome_of : Bool → Option W → Direction → Option (MetricEvidence W) → GateOutcome
  unfolding ci_confirms_regression
  outcome_of false threshold direction evidence = pass
  outcome_of true threshold direction none = regression
  outcome_of true threshold direction (some evidence) =
      if ltb evidence.n_pairs min_pairs_to_block
        || is_none evidence.ci_low
        || is_none evidence.ci_high
      then regression_low_evidence
      else if ci_confirms_regression evidence direction threshold
      then regression
      else regression_inconclusive

  unfoldable pub verdict_with :
      MetricComparison W → Option W → Option (MetricEvidence W) → Direction → MetricVerdict W
  unfolding adverse_change outcome_of
  verdict_with mc threshold evidence direction =
      let (adverse, breached) =
        adverse_change direction mc.baseline_value mc.candidate_value threshold in
      let outcome = outcome_of breached threshold direction evidence in
      record {
        metric = mc.metric;
        direction = direction;
        baseline = mc.baseline_value;
        candidate = mc.candidate_value;
        adverse_change = adverse;
        threshold = threshold;
        regression = is_regression outcome;
        outcome = outcome;
        threshold_breached = breached;
        evidence = evidence;
      }

  unfoldable pub verdict :
      MetricComparison W → Option W → Option (MetricEvidence W) → Result (MetricVerdict W)
  unfolding direction_of verdict_with
  verdict mc threshold evidence = do
    direction ← direction_of mc.metric
    ok (verdict_with mc threshold evidence direction)
