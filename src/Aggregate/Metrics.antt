-- ===== src/Aggregate/Metrics.antt =====
-- aggregate.py: the metrics of each version and `aggregate_results`
use Prim.Native.String.{◌++◌ as join}
use eval_ops.Prelude.{
  ℕ, suc, ◌-◌, String, Bool, false, Option, none, some, List, [], ◌∷◌, ◌++◌, map, ◌==◌, string_eq,
  nat_eq, length, select, count_if, is_none, get_elem?, if◌then◌else◌,
}
use mathlib.Core.List.{flat_map}
use eval_ops.Result.{
  Result, ok, err, config_error, key_error, index_error, ◌>>=◌, ◌>>◌, raise_if, map_ok, traverse,
}
use eval_ops.Double.{Double, zero_f}
use eval_ops.Dict.{Dict, get, index_by}
use eval_ops.Sort.{sorted}
use eval_ops.Domain.Values.{EvaluatorScore, MetricComparison, new_metric_comparison}
use eval_ops.Domain.Entities.{
  Experiment, EvaluationRun, CaseResult, EvaluationResult, new_evaluation_result, is_empty,
}
use eval_ops.Runner.Exec.{RunOutcome}
use eval_ops.Aggregate.Validate.{validate_outcome}

-- `f"{name}.pass_rate"` and `f"{name}.mean_score"`
abbrev pub pass_rate_name : String → String
pass_rate_name name = join name ".pass_rate"

abbrev pub mean_score_name : String → String
mean_score_name name = join name ".mean_score"

unfoldable pub expected_metric_names : List String → List String
expected_metric_names names =
    "success_rate"
    ∷ (flat_map (λ name. pass_rate_name name ∷ mean_score_name name ∷ []) names
        ++ ("latency_ms.mean" ∷ "latency_ms.p95" ∷ "cost_usd.total" ∷ []))

-- `if score.passed`
abbrev pub truth : Option Bool → Bool
truth none = false
truth (some b) = b

module _ {W : Type 0} ⦃d : Double W⦄ where
  unfoldable pub success_rate : List (EvaluationRun W) → W
  success_rate runs =
      if is_empty runs then zero_f else d.ratio (count_if (λ r. is_none r.error) runs) (length runs)

  -- The score of one evaluator on one successful run: a missing case result is a KeyError.
  unfoldable pub find_score :
      Dict String (CaseResult W) → String → EvaluationRun W → Result (EvaluatorScore W)
  find_score results name run = elim (get run.id results) [
    | none ↦ err key_error
    | some result ↦ elim (get name (index_by (λ s. s.evaluator) result.scores)) [
      | none ↦ err (config_error "successful run is missing the evaluator score")
      | some score ↦ ok score
    ]
  ]

  -- The loop of `_pass_rate`, with the runs that have passed so far.
  unfoldable pub count_passed :
      Dict String (CaseResult W) → String → ℕ → List (EvaluationRun W) → Result ℕ
  count_passed results name passed [] = ok passed
  count_passed results name passed (run ∷ runs) = elim run.error [
    | some e ↦ count_passed results name passed runs
    | none ↦ find_score results name run >>= λ score.
        count_passed results name (if truth score.passed then suc passed else passed) runs
  ]

  unfoldable pub pass_rate : Dict String (CaseResult W) → String → List (EvaluationRun W) → Result W
  pass_rate results name runs =
      if is_empty runs
      then ok zero_f
      else map_ok (λ passed. d.ratio passed (length runs)) (count_passed results name 0 runs)

  -- The loop of `_mean_score`, with the total so far.
  unfoldable pub total_score :
      Dict String (CaseResult W) → String → W → List (EvaluationRun W) → Result W
  total_score results name total [] = ok total
  total_score results name total (run ∷ runs) = elim run.error [
    | some e ↦ total_score results name total runs
    | none ↦ find_score results name run >>= λ score.
        total_score results name (d.add total score.score) runs
  ]

  unfoldable pub mean_score :
      Dict String (CaseResult W) → String → List (EvaluationRun W) → Result W
  mean_score results name runs =
      if is_empty runs
      then ok zero_f
      else map_ok (λ total. d.div total (d.of_nat (length runs)))
          (total_score results name zero_f runs)

  unfoldable pub successful_latencies : List (EvaluationRun W) → List W
  successful_latencies runs = map (λ r. r.usage.latency_ms) (select (λ r. is_none r.error) runs)

  unfoldable pub latency_mean : List (EvaluationRun W) → W
  unfolding successful_latencies
  latency_mean runs =
      let values = successful_latencies runs in
      if is_empty values then zero_f else d.div (d.sum values) (d.of_nat (length values))

  -- `values[rank - 1]`: rank 0 would be the last item, and a position outside an IndexError.
  abbrev pub item_at : List W → ℕ → Result W
  item_at values rank =
      elim (get_elem? values (if rank == 0 then length values - 1 else rank - 1)) [
        | none ↦ err index_error
        | some value ↦ ok value
      ]

  unfoldable pub latency_p95 : List (EvaluationRun W) → Result W
  unfolding successful_latencies
  latency_p95 runs =
      let values = sorted d.le (successful_latencies runs) in
      if is_empty values
      then ok zero_f
      else item_at values (d.ceil (d.mul (d.decimal 95 2) (d.of_nat (length values))))

  unfoldable pub cost_total : List (EvaluationRun W) → W
  cost_total runs = d.sum (map (λ r. r.usage.cost_usd) runs)

  module _ (baseline candidate : List (EvaluationRun W)) where
    unfoldable pub compare_total :
        String → (List (EvaluationRun W) → W) → Result (MetricComparison W)
    compare_total metric f =
        new_metric_comparison
          (record { metric = metric; baseline_value = f baseline; candidate_value = f candidate })

    unfoldable pub compare_partial :
        String → (List (EvaluationRun W) → Result W) → Result (MetricComparison W)
    compare_partial metric f = do
      b ← f baseline
      c ← f candidate
      new_metric_comparison (record { metric = metric; baseline_value = b; candidate_value = c })

  module _ (results : Dict String (CaseResult W))
      (baseline candidate : List (EvaluationRun W)) where
    -- The two metrics of one evaluator.
    unfoldable pub evaluator_metrics : String → Result (List (MetricComparison W))
    unfolding compare_partial
    evaluator_metrics name = do
      p ← compare_partial baseline candidate (pass_rate_name name) (pass_rate results name)
      m ← compare_partial baseline candidate (mean_score_name name) (mean_score results name)
      ok (p ∷ m ∷ [])

    unfoldable pub metrics_of : List String → Result (List (MetricComparison W))
    unfolding compare_total compare_partial evaluator_metrics
    metrics_of names = do
      success ← compare_total baseline candidate "success_rate" success_rate
      per_evaluator ← traverse evaluator_metrics names
      mean ← compare_total baseline candidate "latency_ms.mean" latency_mean
      p95 ← compare_partial baseline candidate "latency_ms.p95" latency_p95
      cost ← compare_total baseline candidate "cost_usd.total" cost_total
      ok (success ∷ (flat_map (λ ms. ms) per_evaluator ++ (mean ∷ p95 ∷ cost ∷ [])))

  abbrev pub runs_of : String → List (EvaluationRun W) → List (EvaluationRun W)
  runs_of version runs = select (λ r. r.system_version_id == version) runs

  -- `id` is the fresh id of the result.
  abbrev pub result_of :
      String → Experiment → List (MetricComparison W) → Result (EvaluationResult W)
  result_of id x metrics =
      new_evaluation_result
        (record { experiment_id = x.id; metrics = metrics; evidence = []; id = id })

  -- The part that follows the checks.
  abbrev pub computed_result :
      String → Experiment → RunOutcome W → List String → Result (EvaluationResult W)
  computed_result id x outcome names =
      metrics_of (index_by (λ c. c.run_id) outcome.case_results)
        (runs_of x.baseline_version_id outcome.runs) (runs_of x.candidate_version_id outcome.runs)
        names
      >>= result_of id x

  unfoldable pub aggregate_results :
      String → Experiment → RunOutcome W → List String → Result (EvaluationResult W)
  aggregate_results id x outcome names = do
    validate_outcome x outcome names
    raise_if (is_empty (runs_of x.baseline_version_id outcome.runs))
        (config_error "no runs for baseline version")
    raise_if (is_empty (runs_of x.candidate_version_id outcome.runs))
        (config_error "no runs for candidate version")
    computed_result id x outcome names
