-- ===== src/Tests/Execution.antt =====
-- The evaluation of the experiment that Tests/Runner runs, under a policy.
use eval_ops.Prelude.{ℕ, ◌≡◌, refl, ◌↔◌, true, some, [], ◌∷◌, ◌++◌, map, Exists, string_eq, nat_eq}
use mathlib.Core.Bool.{xor}
use eval_ops.Result.{Result, is_ok, is_ok-value}
use eval_ops.Double.Milli.{Milli, nonneg, milli}
use eval_ops.Dict.{index_by}
use eval_ops.Sort.{sorted}
use eval_ops.Loop.{for_each}
use eval_ops.Text.{is_blank, strip, ends_with, show_nat}
use eval_ops.Domain.Enums.{block}
use eval_ops.Domain.Values.{new_metric_comparison, require_non_empty}
use eval_ops.Domain.Evidence.{new_metric_evidence, new_sample_summary}
use eval_ops.Domain.Entities.{
  new_evaluation_result, new_evaluation_run, new_case_result, ReleasePolicy,
}
use eval_ops.Runner.Exec.{
  run_experiment, run_version, run_case, run_repeat, execute, record_answer, error_text, score,
  scores_of, preflight,
}
use eval_ops.Runner.Turn.{slot}
use eval_ops.Runner.Trace.{version_slots}
use eval_ops.Aggregate.Validate.{validate_outcome, check_aligned, check_runs, check_run}
use eval_ops.Aggregate.Metrics.{
  expected_metric_names, aggregate_results, metrics_of, evaluator_metrics, compare_total,
  compare_partial, success_rate, pass_rate, mean_score, count_passed, total_score, find_score,
  latency_mean, latency_p95, cost_total, successful_latencies,
}
use eval_ops.Stats.Pairing.{
  paired_observations, runs_by_key, matched_series, all_series, evaluator_series, partial_series,
  total_series, latency_series, success_obs, pass_obs, score_obs, observed_score,
}
use eval_ops.Stats.Interval.{
  BootstrapOptions, build_statistical_evidence, evidence_from, metric_evidence, paired_bootstrap_ci,
  interval_of, differences, summarize,
}
use eval_ops.Gate.Verdict.{direction_of, outcome_of, verdict, verdict_with}
use eval_ops.Gate.Blocking.{Blocks}
use eval_ops.Gate.Report.{evaluate_gate, report_of, reason, advisory, advisory_tail}
use eval_ops.Execution.Pipeline.{EvaluationOutcome, run_evaluation}
use eval_ops.Execution.Decision.{run_evaluation_lem}
use eval_ops.Tests.Runner.{env, experiment, dataset, version, providers, exact}

abbrev policy : ReleasePolicy Milli
policy = record {
  name = "strict";
  thresholds = ("exact.pass_rate", nonneg 0) ∷ [];
  max_safety_violations = 0;
  id = "policy";
}

abbrev options : BootstrapOptions Milli
options = record { confidence_level = nonneg 950; resamples = 10; seed = 1 }

abbrev draw : ℕ → ℕ → ℕ → ℕ
draw seed k n = 0

abbrev evaluation : Result (EvaluationOutcome Milli)
evaluation =
    run_evaluation env draw options "r" experiment dataset (version "b") (version "k") (some policy)
      (exact ∷ []) providers

evaluation_returns : is_ok evaluation ≡ true
unfolding run_evaluation run_experiment run_version run_case run_repeat execute record_answer
    error_text score scores_of preflight for_each new_evaluation_run new_case_result
    require_non_empty is_blank strip aggregate_results validate_outcome check_aligned check_runs
    check_run metrics_of evaluator_metrics compare_total compare_partial success_rate pass_rate
    mean_score count_passed total_score find_score latency_mean latency_p95 cost_total
    successful_latencies new_metric_comparison new_evaluation_result index_by sorted
    mathlib.Core.List.flat_map build_statistical_evidence evidence_from metric_evidence
    paired_bootstrap_ci interval_of differences summarize new_metric_evidence new_sample_summary
    paired_observations runs_by_key matched_series all_series evaluator_series partial_series
    total_series latency_series success_obs pass_obs score_obs observed_score evaluate_gate
    report_of reason advisory verdict verdict_with outcome_of direction_of ends_with show_nat xor
    advisory_tail
evaluation_returns = refl

evaluated : (o : EvaluationOutcome Milli) × (evaluation ≡ Result.ok o)
evaluated = is_ok-value evaluation evaluation_returns

run_evaluation_lem_example :
    (map slot evaluated.0.outcome.runs
      ≡ version_slots env experiment dataset (version "b")
        ++ version_slots env experiment dataset (version "k"))
    × (map (λ m. m.metric) evaluated.0.result.metrics ≡ expected_metric_names ("exact" ∷ []))
    × ((evaluated.0.gate.decision ≡ block)
        ↔ Exists (Blocks evaluated.0.result policy) evaluated.0.result.metrics)
run_evaluation_lem_example =
    run_evaluation_lem env draw options "r" experiment dataset (version "b") (version "k") policy
      (exact ∷ []) providers evaluated.0 evaluated.1
