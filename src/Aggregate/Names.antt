-- ===== src/Aggregate/Names.antt =====
-- That the metrics of a result are the expected ones, and that their computation returns.
use eval_ops.Prelude.{String, ◌≡◌, sym, ap, ◌∙◌, List, [], ◌∷◌, ◌++◌, map, string_eq, nat_eq, arith}
use mathlib.Core.List.{flat_map, map-append}
use eval_ops.Result.{
  Result, ok, ◌>>=◌, ◌>>◌, >>=-eq-ok, >>-eq-ok, ok_inj, traverse, traverse-cons, raise_if,
  config_error,
}
use eval_ops.Double.{Double}
use eval_ops.Domain.Values.{MetricComparison, new_metric_comparison}
use eval_ops.Domain.Entities.{
  Experiment, EvaluationRun, CaseResult, EvaluationResult, new_evaluation_result, is_empty,
}
use eval_ops.Dict.{Dict, index_by}
use eval_ops.Runner.Exec.{RunOutcome}
use eval_ops.Aggregate.Validate.{validate_outcome}
use eval_ops.Aggregate.Metrics.{
  pass_rate_name, mean_score_name, expected_metric_names, compare_total, compare_partial, result_of,
  computed_result, evaluator_metrics, metrics_of, pass_rate, mean_score, success_rate, latency_mean,
  cost_total, runs_of, aggregate_results, latency_p95,
}

module _ {W : Type 0} ⦃d : Double W⦄ where
  comparison-eq : (m m' : MetricComparison W) → new_metric_comparison m ≡ ok m' → m ≡ m'
  unfolding new_metric_comparison
  comparison-eq m m' h = ground arith

  module _ (baseline candidate : List (EvaluationRun W)) where
    total_name :
        (name : String) (f : List (EvaluationRun W) → W) (m : MetricComparison W)
        → compare_total baseline candidate name f ≡ ok m
        → m.metric ≡ name
    unfolding compare_total
    total_name name f m h = ap (λ k. k.metric) (sym (comparison-eq _ m h))

    partial_name :
        (name : String) (f : List (EvaluationRun W) → Result W) (m : MetricComparison W)
        → compare_partial baseline candidate name f ≡ ok m
        → m.metric ≡ name
    unfolding compare_partial
    partial_name name f m h =
        let (b, p, h') = >>=-eq-ok (f baseline) _ h in
        let (c, q, h'') = >>=-eq-ok (f candidate) _ h' in
        ap (λ k. k.metric) (sym (comparison-eq _ m h''))

  module _ (results : Dict String (CaseResult W))
      (baseline candidate : List (EvaluationRun W)) where
    evaluator_names :
        (name : String) (ms : List (MetricComparison W))
        → evaluator_metrics results baseline candidate name ≡ ok ms
        → map (λ m. m.metric) ms ≡ pass_rate_name name ∷ mean_score_name name ∷ []
    unfolding evaluator_metrics
    evaluator_names name ms h =
        let later_m = λ (p m : MetricComparison W). ok (p ∷ m ∷ []) in
        let later_p = λ (p : MetricComparison W).
          compare_partial baseline candidate (mean_score_name name) (mean_score results name)
          >>= later_m p in
        let (p, a, h') =
          >>=-eq-ok
            (compare_partial baseline candidate (pass_rate_name name) (pass_rate results name))
            later_p h in
        let (m, b, h'') =
          >>=-eq-ok
            (compare_partial baseline candidate (mean_score_name name) (mean_score results name))
            (later_m p) h' in
        let first =
          partial_name baseline candidate (pass_rate_name name) (pass_rate results name) p a in
        let second =
          partial_name baseline candidate (mean_score_name name) (mean_score results name) m b in
        cc (ok_inj h'', first, second)

    all_evaluator_names :
        (names : List String) (mss : List (List (MetricComparison W)))
        → traverse (evaluator_metrics results baseline candidate) names ≡ ok mss
        → map (λ m. m.metric) (flat_map (λ ms. ms) mss)
          ≡ flat_map (λ name. pass_rate_name name ∷ mean_score_name name ∷ []) names
    unfolding flat_map
    all_evaluator_names [] mss h =
        ap (λ l. map (λ m. m.metric) (flat_map (λ ms. ms) l)) (sym (ok_inj h))
    all_evaluator_names (name ∷ names) mss h =
        let (ms, rest, p, q, e) =
          traverse-cons (evaluator_metrics results baseline candidate) name names mss h in
        rw e (
          map-append (λ m. m.metric) ms (flat_map (λ ms. ms) rest)
          ∙ cc (evaluator_names name ms p, all_evaluator_names names rest q))

    metric_names :
        (names : List String) (ms : List (MetricComparison W))
        → metrics_of results baseline candidate names ≡ ok ms
        → map (λ m. m.metric) ms ≡ expected_metric_names names
    unfolding metrics_of expected_metric_names
    metric_names names ms h =
        let last =
          λ (s : MetricComparison W) (per : List (List (MetricComparison W)))
              (mean p95 cost : MetricComparison W).
            ok (s ∷ (flat_map (λ ms. ms) per ++ (mean ∷ p95 ∷ cost ∷ []))) in
        let from_p95 =
          λ (s : MetricComparison W) (per : List (List (MetricComparison W)))
              (mean p95 : MetricComparison W).
            compare_total baseline candidate "cost_usd.total" cost_total >>= last s per mean p95 in
        let from_mean =
          λ (s : MetricComparison W) (per : List (List (MetricComparison W)))
              (mean : MetricComparison W).
            compare_partial baseline candidate "latency_ms.p95" latency_p95
            >>= from_p95 s per mean in
        let from_per = λ (s : MetricComparison W) (per : List (List (MetricComparison W))).
          compare_total baseline candidate "latency_ms.mean" latency_mean >>= from_mean s per in
        let from_success = λ (s : MetricComparison W).
          traverse (evaluator_metrics results baseline candidate) names >>= from_per s in
        let (s, a, h1) =
          >>=-eq-ok (compare_total baseline candidate "success_rate" success_rate) from_success h in
        let (per, b, h2) =
          >>=-eq-ok (traverse (evaluator_metrics results baseline candidate) names) (from_per s)
            h1 in
        let (mean, c, h3) =
          >>=-eq-ok (compare_total baseline candidate "latency_ms.mean" latency_mean)
            (from_mean s per) h2 in
        let (p95, e, h4) =
          >>=-eq-ok (compare_partial baseline candidate "latency_ms.p95" latency_p95)
            (from_p95 s per mean) h3 in
        let (cost, f, h5) =
          >>=-eq-ok (compare_total baseline candidate "cost_usd.total" cost_total)
            (last s per mean p95) h4 in
        let tail : List (MetricComparison W) = mean ∷ p95 ∷ cost ∷ [] in
        let spread =
          map-append (λ (m : MetricComparison W). m.metric) (flat_map (λ ms. ms) per) tail in
        let n1 = total_name baseline candidate "success_rate" success_rate s a in
        let n2 = all_evaluator_names names per b in
        let n3 = total_name baseline candidate "latency_ms.mean" latency_mean mean c in
        let n4 = partial_name baseline candidate "latency_ms.p95" latency_p95 p95 e in
        let n5 = total_name baseline candidate "cost_usd.total" cost_total cost f in
        cc (ok_inj h5, spread, n1, n2, n3, n4, n5)

  pub result-eq : (r r' : EvaluationResult W) → new_evaluation_result r ≡ ok r' → r ≡ r'
  unfolding new_evaluation_result
  result-eq r r' h = ground arith

  checks_passed :
      (id : String) (x : Experiment) (outcome : RunOutcome W) (names : List String)
      (r : EvaluationResult W)
      → aggregate_results id x outcome names ≡ ok r
      → computed_result id x outcome names ≡ ok r
  unfolding aggregate_results
  checks_passed id x outcome names r h =
      let computed = computed_result id x outcome names in
      let second =
        raise_if (is_empty (runs_of x.candidate_version_id outcome.runs))
          (config_error "no runs for candidate version") in
      let first =
        raise_if (is_empty (runs_of x.baseline_version_id outcome.runs))
          (config_error "no runs for baseline version") in
      >>-eq-ok second computed (
        >>-eq-ok first (second >> computed)
          (>>-eq-ok (validate_outcome x outcome names) (first >> (second >> computed)) h))

  -- A result that `aggregate_results` returns has exactly the metrics that `expected_metric_names`
  -- lists, in the same order, and belongs to the experiment.
  pub aggregated_names :
      (id : String) (x : Experiment) (outcome : RunOutcome W) (names : List String)
      (r : EvaluationResult W)
      → aggregate_results id x outcome names ≡ ok r
      → (map (λ m. m.metric) r.metrics ≡ expected_metric_names names) × (r.experiment_id ≡ x.id)
  aggregated_names id x outcome names r h =
      let checked = checks_passed id x outcome names r h in
      let (ms, p, q) =
        >>=-eq-ok
          (metrics_of (index_by (λ c. c.run_id) outcome.case_results)
            (runs_of x.baseline_version_id outcome.runs)
            (runs_of x.candidate_version_id outcome.runs) names)
          (result_of id x) checked in
      let built =
        result-eq (record { experiment_id = x.id; metrics = ms; evidence = []; id = id }) r q in
      (
        ap (λ r. map (λ m. m.metric) r.metrics) (sym built)
            ∙ metric_names (index_by (λ c. c.run_id) outcome.case_results)
                (runs_of x.baseline_version_id outcome.runs)
                (runs_of x.candidate_version_id outcome.runs) names ms p,
        ap (λ r. r.experiment_id) (sym built),
      )
