-- ===== src/Tests/Gate.antt =====
-- Runs of the release gate.
use eval_ops.Prelude.{
  ◌≡◌, refl, ◌↔◌, true, false, some, none, [], ◌∷◌, Exists, ◌+◌, length, count_if, All,
}
use eval_ops.Result.{ok, is_ok, err, config_error}
use eval_ops.Double.Milli.{Milli, nonneg, minus, milli}
use eval_ops.Double.Laws.{milli_laws, all_finite}
use eval_ops.Domain.Enums.{block, ReleaseDecision}
use eval_ops.Domain.Values.{MetricComparison}
use eval_ops.Domain.Evidence.{MetricEvidence, SampleSummary, continuous}
use eval_ops.Domain.Entities.{EvaluationResult, ReleasePolicy, is_empty}
use eval_ops.Gate.Verdict.{
  higher_is_better, regression, pass, MetricVerdict, verdict, direction_of, verdict_with,
  adverse_change, outcome_of, ci_confirms_regression,
}
use eval_ops.Gate.Report.{GateReport, evaluate_gate, report_of, reason, unknown_metrics}
use eval_ops.Dict.{index_by}
use eval_ops.Text.{ends_with, show_nat}
use eval_ops.Gate.Blocking.{Blocks}
use eval_ops.Gate.Total.{block_iff, breaches_reported, evaluate_gate_total}
use eval_ops.Gate.Ungated.{ungated_passes}
use eval_ops.Gate.Monotone.{threshold_mono}

abbrev success : MetricComparison Milli
success = record {
  metric = "success_rate";
  baseline_value = nonneg 1000;
  candidate_value = nonneg 500;
}

abbrev result : EvaluationResult Milli
result = record { experiment_id = "x"; metrics = success ∷ []; evidence = []; id = "r" }

abbrev policy : ReleasePolicy Milli
policy = record {
  name = "p";
  thresholds = ("success_rate", nonneg 100) ∷ [];
  max_safety_violations = 0;
  id = "p1";
}

abbrev failing : MetricVerdict Milli
failing = record {
  metric = "success_rate";
  direction = higher_is_better;
  baseline = nonneg 1000;
  candidate = nonneg 500;
  adverse_change = some (nonneg 500);
  threshold = some (nonneg 100);
  regression = true;
  outcome = regression;
  threshold_breached = true;
  evidence = none;
}

abbrev blocking : GateReport Milli
blocking = record {
  decision = block;
  verdicts = failing ∷ [];
  reasons = "success_rate: higher-is-better regression of 500/1000 (limit 100/1000)" ∷ [];
  advisories = [];
  gated = true;
}

blocked : evaluate_gate result (some policy) ≡ ok blocking
unfolding evaluate_gate report_of reason verdict direction_of verdict_with adverse_change outcome_of
    index_by ends_with show_nat
blocked = refl

block_iff_example : (blocking.decision ≡ block) ↔ Exists (Blocks result policy) result.metrics
block_iff_example = block_iff result policy blocking blocked

breaches_reported_example :
    length blocking.reasons + length blocking.advisories
    ≡ count_if (λ v. v.threshold_breached) blocking.verdicts
breaches_reported_example = breaches_reported result policy blocking blocked

evaluate_gate_total_example :
    (is_empty (unknown_metrics result policy) ≡ true
      → All (λ mc. is_ok (direction_of mc.metric) ≡ true) result.metrics
      → (report : GateReport Milli) × (evaluate_gate result (some policy) ≡ ok report))
    × (is_empty (unknown_metrics result policy) ≡ false
        → evaluate_gate result (some policy)
          ≡ err (config_error "release policy references metric(s) not produced by the evaluation"))
evaluate_gate_total_example = evaluate_gate_total result policy

-- The same result without a policy.
abbrev tolerated : MetricVerdict Milli
tolerated = record failing {
  threshold = none;
  regression = false;
  outcome = pass;
  threshold_breached = false;
}

abbrev ungated : GateReport Milli
ungated = record {
  decision = ReleaseDecision.pass;
  verdicts = tolerated ∷ [];
  reasons = [];
  advisories = [];
  gated = false;
}

passed_ungated : evaluate_gate result none ≡ ok ungated
unfolding evaluate_gate verdict direction_of verdict_with adverse_change outcome_of index_by
    ends_with
passed_ungated = refl

ungated_passes_example :
    (ungated.decision ≡ ReleaseDecision.pass)
    × (ungated.gated ≡ false)
    × (ungated.reasons ≡ [])
    × All (λ v. (v.outcome ≡ pass) × (v.threshold_breached ≡ false)) ungated.verdicts
ungated_passes_example = ungated_passes result ungated passed_ungated

-- Evidence that confirms the loss: twelve pairs, and an interval from -0.6 to -0.4.
abbrev summary : Milli → SampleSummary Milli
summary mean = record { n = 12; mean = mean; median = mean; stdev = nonneg 0 }

abbrev confirming : MetricEvidence Milli
confirming = record {
  metric = "success_rate";
  kind = continuous;
  n_pairs = 12;
  baseline = summary (nonneg 1000);
  candidate = summary (nonneg 500);
  paired_delta = summary (minus 499);
  delta = minus 499;
  relative_change = some (minus 499);
  confidence_level = nonneg 950;
  ci_low = some (minus 599);
  ci_high = some (minus 399);
  ci_excludes_zero = true;
  insufficient_evidence = false;
  method = "paired_percentile_bootstrap";
  resamples = 2000;
  seed = 12345;
  dropped_provider_failures = 0;
}

abbrev judged_at : Milli → MetricVerdict Milli
judged_at t = record failing { threshold = some t; evidence = some confirming }

judged_low : verdict success (some (nonneg 100)) (some confirming) ≡ ok (judged_at (nonneg 100))
unfolding verdict direction_of verdict_with adverse_change outcome_of ci_confirms_regression
    ends_with
judged_low = refl

judged_high : verdict success (some (nonneg 300)) (some confirming) ≡ ok (judged_at (nonneg 300))
unfolding verdict direction_of verdict_with adverse_change outcome_of ci_confirms_regression
    ends_with
judged_high = refl

threshold_mono_example : (judged_at (nonneg 100)).outcome ≡ regression
threshold_mono_example =
    threshold_mono milli_laws success (some confirming) (nonneg 100) (nonneg 300)
      (judged_at (nonneg 100)) (judged_at (nonneg 300)) judged_low judged_high
      (all_finite (nonneg 100)) (all_finite (nonneg 300)) refl (all_finite (nonneg 1000), refl) refl
