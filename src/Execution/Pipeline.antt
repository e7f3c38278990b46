-- ===== src/Execution/Pipeline.antt =====
-- execution.py: `run_evaluation`. The options and the draws of the bootstrap, and the id of the
-- result, are arguments.
use eval_ops.Prelude.{ℕ, String, Option, List, map}
use eval_ops.Result.{Result, ok, ◌>>=◌}
use eval_ops.Double.{Double}
use eval_ops.Domain.Entities.{
  SystemVersion, Dataset, Experiment, EvaluationResult, new_evaluation_result, ReleasePolicy,
}
use eval_ops.Runner.Exec.{Environment, Evaluator, Providers, RunOutcome, run_experiment}
use eval_ops.Aggregate.Metrics.{aggregate_results}
use eval_ops.Stats.Interval.{BootstrapOptions, build_statistical_evidence}
use eval_ops.Gate.Report.{GateReport, evaluate_gate}

pub record EvaluationOutcome (W : Type 0) : Type 0 where
  pub outcome : RunOutcome W
  pub result : EvaluationResult W
  pub gate : GateReport W

module _ {W : Type 0} ⦃d : Double W⦄ (env : Environment) (draw : ℕ → ℕ → ℕ → ℕ)
    (options : BootstrapOptions W) (result_id : String) where
  -- `replace` calls the constructor again.
  unfoldable pub run_evaluation :
      Experiment
      → Dataset W
      → SystemVersion W
      → SystemVersion W
      → Option (ReleasePolicy W)
      → List (Evaluator W)
      → Providers W
      → Result (EvaluationOutcome W)
  run_evaluation x dataset baseline candidate policy evaluators providers = do
    outcome ← run_experiment env x dataset baseline candidate providers evaluators
    aggregated ← aggregate_results result_id x outcome (map (λ e. e.name) evaluators)
    evidence ← build_statistical_evidence draw x outcome (map (λ e. e.name) evaluators) options
    result ← new_evaluation_result (record aggregated { evidence = evidence })
    gate ← evaluate_gate result policy
    ok (record { outcome = outcome; result = result; gate = gate })
