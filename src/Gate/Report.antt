-- ===== src/Gate/Report.antt =====
-- gate.py: `GateReport`, `evaluate_gate` and the texts of its reasons and advisories
use Prim.Native.String.{◌++◌}
use eval_ops.Prelude.{
  String, Bool, true, false, not, Option, none, some, List, [], map, string_eq, if◌then◌else◌,
  contains, select,
}
use eval_ops.Result.{Result, ok, err, config_error, other_error, ◌>>=◌, ◌>>◌, raise_if, traverse}
use eval_ops.Double.{Double}
use eval_ops.Dict.{get, keys, index_by}
use eval_ops.Text.{show_nat}
use eval_ops.Domain.Enums.{ReleaseDecision, block}
use eval_ops.Domain.Values.{MetricComparison}
use eval_ops.Domain.Evidence.{MetricEvidence}
use eval_ops.Domain.Entities.{EvaluationResult, ReleasePolicy, is_empty}
use eval_ops.Gate.Verdict.{
  Direction, higher_is_better, lower_is_better, GateOutcome, regression_inconclusive,
  regression_low_evidence, MetricVerdict, is_regression, min_pairs_to_block, verdict,
}

pub record GateReport (W : Type 0) : Type 0 where
  pub decision : ReleaseDecision
  pub verdicts : List (MetricVerdict W)
  pub reasons : List String
  pub advisories : List String
  pub gated : Bool

-- `verdict.direction.replace('_', '-')`
direction_text : Direction → String
direction_text higher_is_better = "higher-is-better"
direction_text lower_is_better = "lower-is-better"

-- `outcome in ("regression_inconclusive", "regression_low_evidence")`
abbrev pub is_advisory : GateOutcome → Bool
is_advisory regression_inconclusive = true
is_advisory regression_low_evidence = true
is_advisory _ = false

module _ {W : Type 0} ⦃d : Double W⦄ where
  adverse_phrase : MetricVerdict W → String
  unfolding direction_text
  adverse_phrase v = elim v.adverse_change [
    | none ↦
        "increased from a zero baseline to "
        ++ d.general v.candidate
        ++ " (unbounded regression; cannot be expressed as a finite percentage)"
    | some change ↦ direction_text v.direction ++ " regression of " ++ d.percent1 change
  ]

  -- A missing threshold is an AssertionError.
  unfoldable pub reason : MetricVerdict W → Result String
  unfolding direction_text
  reason v = elim v.threshold [
    | none ↦ err (other_error "AssertionError")
    | some threshold ↦ ok (elim v.adverse_change [
      | none ↦
          v.metric
          ++ ": increased from a zero baseline to "
          ++ d.general v.candidate
          ++ " (unbounded regression; cannot be expressed as a finite percentage; limit "
          ++ d.percent0 threshold
          ++ ")"
      | some change ↦
          v.metric
          ++ ": "
          ++ direction_text v.direction
          ++ " regression of "
          ++ d.percent1 change
          ++ " (limit "
          ++ d.percent0 threshold
          ++ ")"
    ])
  ]

  -- The text of the interval. A missing upper end cannot be formatted: a TypeError.
  interval_text : Option W → Option W → Result String
  interval_text none high = ok "unavailable"
  interval_text (some low) none = err (other_error "TypeError")
  interval_text (some low) (some high) =
      ok ("[" ++ d.general3 low ++ ", " ++ d.general3 high ++ "]")

  unfoldable pub advisory_tail : GateOutcome → MetricEvidence W → Result String
  unfolding interval_text
  advisory_tail regression_low_evidence ev = ok (
      ", but only "
      ++ show_nat ev.n_pairs
      ++ " paired sample(s) (minimum "
      ++ show_nat min_pairs_to_block
      ++ ") -- insufficient evidence to block; increase repeats or dataset size")
  advisory_tail _ ev = do
    ci ← interval_text ev.ci_low ev.ci_high
    ok (
        ", but the "
        ++ d.percent0 ev.confidence_level
        ++ " CI "
        ++ ci
        ++ " does not confirm a regression beyond the tolerated boundary -- not blocking")

  unfoldable pub advisory : MetricVerdict W → Result String
  unfolding adverse_phrase
  advisory v = elim v.threshold [
    | none ↦ err (other_error "AssertionError")
    | some threshold ↦ elim v.evidence [
      | none ↦ err (other_error "AssertionError")
      | some ev ↦ advisory_tail v.outcome ev >>= λ tail. ok (
          v.metric
          ++ ": observed "
          ++ adverse_phrase v
          ++ " exceeds the "
          ++ d.percent0 threshold
          ++ " limit"
          ++ tail)
    ]
  ]

  -- The verdict on one metric, under the thresholds of a policy if there is one.
  abbrev pub verdict_in :
      EvaluationResult W → Option (ReleasePolicy W) → MetricComparison W → Result (MetricVerdict W)
  verdict_in result none mc =
      verdict mc none (get mc.metric (index_by (λ e. e.metric) result.evidence))
  verdict_in result (some policy) mc =
      verdict mc (get mc.metric policy.thresholds)
        (get mc.metric (index_by (λ e. e.metric) result.evidence))

  -- `[m for m in policy.thresholds if m not in produced]`
  abbrev pub unknown_metrics : EvaluationResult W → ReleasePolicy W → List String
  unknown_metrics result policy =
      select (λ m. not (contains (map (λ mc. mc.metric) result.metrics) m)) (keys policy.thresholds)

  unfoldable pub report_of : List (MetricVerdict W) → Result (GateReport W)
  unfolding reason advisory
  report_of verdicts = do
    reasons ← traverse reason (select (λ v. is_regression v.outcome) verdicts)
    advisories ← traverse advisory (select (λ v. is_advisory v.outcome) verdicts)
    ok (record {
      decision = if is_empty reasons then ReleaseDecision.pass else block;
      verdicts = verdicts;
      reasons = reasons;
      advisories = advisories;
      gated = true;
    })

  unfoldable pub evaluate_gate :
      EvaluationResult W → Option (ReleasePolicy W) → Result (GateReport W)
  evaluate_gate result none = do
    verdicts ← traverse (verdict_in result none) result.metrics
    ok (record {
      decision = ReleaseDecision.pass;
      verdicts = verdicts;
      reasons = [];
      advisories = [];
      gated = false;
    })
  evaluate_gate result (some policy) = do
    raise_if (not (is_empty (unknown_metrics result policy)))
        (config_error "release policy references metric(s) not produced by the evaluation")
    verdicts ← traverse (verdict_in result (some policy)) result.metrics
    report_of verdicts
