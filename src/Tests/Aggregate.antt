-- ===== src/Tests/Aggregate.antt =====
-- The metrics of the experiment that Tests/Runner runs.
use eval_ops.Prelude.{String, ◌≡◌, refl, [], ◌∷◌, map, string_eq}
use eval_ops.Result.{ok}
use eval_ops.Dict.{index_by}
use eval_ops.Sort.{sorted}
use eval_ops.Double.Milli.{Milli, nonneg, milli}
use eval_ops.Text.{is_blank}
use eval_ops.Domain.Values.{MetricComparison, new_metric_comparison, require_non_empty}
use eval_ops.Domain.Entities.{EvaluationResult, new_evaluation_result}
use eval_ops.Aggregate.Validate.{validate_outcome, check_aligned, check_runs, check_run}
use eval_ops.Aggregate.Metrics.{
  expected_metric_names, aggregate_results, metrics_of, evaluator_metrics, compare_total,
  compare_partial, success_rate, pass_rate, mean_score, count_passed, total_score, find_score,
  latency_mean, latency_p95, cost_total, successful_latencies,
}
use eval_ops.Aggregate.Names.{aggregated_names}
use eval_ops.Tests.Runner.{experiment, outcome}

abbrev metric : String → Milli → Milli → MetricComparison Milli
metric name b c = record { metric = name; baseline_value = b; candidate_value = c }

abbrev pub aggregated_result : EvaluationResult Milli
aggregated_result = record {
  experiment_id = "x";
  metrics =
      metric "success_rate" (nonneg 1000) (nonneg 0)
      ∷ metric "exact.pass_rate" (nonneg 1000) (nonneg 0)
      ∷ metric "exact.mean_score" (nonneg 1000) (nonneg 0)
      ∷ metric "latency_ms.mean" (nonneg 0) (nonneg 0)
      ∷ metric "latency_ms.p95" (nonneg 0) (nonneg 0)
      ∷ metric "cost_usd.total" (nonneg 0) (nonneg 0)
      ∷ [];
  evidence = [];
  id = "r";
}

pub aggregated : aggregate_results "r" experiment outcome ("exact" ∷ []) ≡ ok aggregated_result
unfolding aggregate_results validate_outcome check_aligned check_runs check_run metrics_of
    evaluator_metrics compare_total compare_partial success_rate pass_rate mean_score count_passed
    total_score find_score latency_mean latency_p95 cost_total successful_latencies
    new_metric_comparison new_evaluation_result require_non_empty is_blank index_by sorted
    mathlib.Core.List.flat_map
aggregated = refl

aggregated_names_example :
    (map (λ m. m.metric) aggregated_result.metrics ≡ expected_metric_names ("exact" ∷ []))
    × (aggregated_result.experiment_id ≡ experiment.id)
aggregated_names_example =
    aggregated_names "r" experiment outcome ("exact" ∷ []) aggregated_result aggregated
