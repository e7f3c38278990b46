-- ===== src/Execution/Decision.antt =====
-- What an evaluation that has returned has done, from the runs to the decision.
use eval_ops.Prelude.{ℕ, String, ◌≡◌, subst, ◌↔◌, some, List, ◌++◌, map, Exists}
use eval_ops.Result.{ok, ok_inj, >>=-eq-ok}
use eval_ops.Double.{Double}
use eval_ops.Domain.Enums.{block}
use eval_ops.Domain.Entities.{
  SystemVersion, Dataset, Experiment, EvaluationResult, new_evaluation_result, ReleasePolicy,
}
use eval_ops.Runner.Exec.{Environment, Evaluator, Providers, run_experiment}
use eval_ops.Runner.Turn.{slot}
use eval_ops.Runner.Trace.{runs_in_order, version_slots}
use eval_ops.Aggregate.Metrics.{aggregate_results, expected_metric_names}
use eval_ops.Aggregate.Names.{aggregated_names, result-eq}
use eval_ops.Stats.Interval.{BootstrapOptions, build_statistical_evidence}
use eval_ops.Gate.Blocking.{Blocks}
use eval_ops.Gate.Report.{evaluate_gate}
use eval_ops.Gate.Total.{block_iff}
use eval_ops.Execution.Pipeline.{EvaluationOutcome, run_evaluation}

module _ {W : Type 0} ⦃d : Double W⦄ (env : Environment) (draw : ℕ → ℕ → ℕ → ℕ)
    (options : BootstrapOptions W) (result_id : String) where
  -- An evaluation under a policy that returns has run every case of both versions, as often as the
  -- experiment repeats it and in the order of the loops; its result has exactly the metrics that
  -- the evaluators' names give; and it blocks exactly if one of them has a threshold, breaches it,
  -- and is supported by its evidence.
  pub run_evaluation_lem :
      (x : Experiment) (dataset : Dataset W) (baseline candidate : SystemVersion W)
      (policy : ReleasePolicy W) (evaluators : List (Evaluator W)) (providers : Providers W)
      (o : EvaluationOutcome W)
      → run_evaluation env draw options result_id x dataset baseline candidate
          (some policy)
          evaluators
          providers
        ≡ ok o
      → (map slot o.outcome.runs
          ≡ version_slots env x dataset baseline ++ version_slots env x dataset candidate)
        × (map (λ m. m.metric) o.result.metrics
            ≡ expected_metric_names (map (λ e. e.name) evaluators))
        × ((o.gate.decision ≡ block) ↔ Exists (Blocks o.result policy) o.result.metrics)
  unfolding run_evaluation
  run_evaluation_lem x dataset baseline candidate policy evaluators providers o h =
      let names = map (λ (e : Evaluator W). e.name) evaluators in
      let (outcome, ran, h1) =
        >>=-eq-ok (run_experiment env x dataset baseline candidate providers evaluators) _ h in
      let (r, aggregated, h2) = >>=-eq-ok (aggregate_results result_id x outcome names) _ h1 in
      let (evidence, _, h3) =
        >>=-eq-ok (build_statistical_evidence draw x outcome names options) _ h2 in
      let (result, built, h4) =
        >>=-eq-ok (new_evaluation_result (record r { evidence = evidence })) _ h3 in
      let (gate, gated, h5) = >>=-eq-ok (evaluate_gate result (some policy)) _ h4 in
      let same = result-eq (record r { evidence = evidence }) result built in
      subst
        (λ (o : EvaluationOutcome W).
          (map slot o.outcome.runs
            ≡ version_slots env x dataset baseline ++ version_slots env x dataset candidate)
          × (map (λ m. m.metric) o.result.metrics ≡ expected_metric_names names)
          × ((o.gate.decision ≡ block) ↔ Exists (Blocks o.result policy) o.result.metrics))
        (ok_inj h5)
        (
          runs_in_order env x dataset baseline candidate providers evaluators outcome ran,
          subst
              (λ (r : EvaluationResult W).
                map (λ m. m.metric) r.metrics ≡ expected_metric_names names)
              same ((aggregated_names result_id x outcome names r aggregated).0),
          block_iff result policy gate gated,
        )
