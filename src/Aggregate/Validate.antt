-- ===== src/Aggregate/Validate.antt =====
-- aggregate.py: `_validate_outcome`
use eval_ops.Prelude.{
  String, not, ◌&&◌, ◌||◌, List, ◌∷◌, map, ◌==◌, nat_eq, string_eq, length, contains, distinct,
  select, is_none,
}
use eval_ops.Result.{Result, ok, config_error, ◌>>◌, raise_if}
use eval_ops.Domain.Entities.{Experiment, EvaluationRun, CaseResult, is_empty}
use eval_ops.Runner.Exec.{RunOutcome}

module _ {W : Type 0} where
  -- The loop over `zip(runs, case_results, strict=True)`, once the lengths are known to agree.
  unfoldable pub check_aligned : List (EvaluationRun W) → List (CaseResult W) → Result (Unit {0})
  check_aligned (run ∷ runs) (result ∷ results) =
      let rest = check_aligned runs results in
      raise_if (not (result.run_id == run.id)) (config_error "RunOutcome misaligned") >> rest
  check_aligned _ _ = ok tt

  -- `required - {s.evaluator for s in case_result.scores}`
  abbrev pub missing_scores : List String → CaseResult W → List String
  missing_scores required result =
      select (λ name. not (contains (map (λ s. s.evaluator) result.scores) name)) required

  -- The second loop's body, on one run and its case result.
  unfoldable pub check_run :
      Experiment → List String → EvaluationRun W → CaseResult W → Result (Unit {0})
  check_run x required run result = do
    raise_if (not (run.experiment_id == x.id)) (config_error "run has another experiment_id")
    raise_if
        (not (
          run.system_version_id == x.baseline_version_id
          || run.system_version_id == x.candidate_version_id))
        (config_error "run has unexpected system_version_id")
    raise_if (is_none run.error && not (is_empty (missing_scores required result)))
        (config_error "successful run is missing evaluator score(s)")

  unfoldable pub check_runs :
      Experiment → List String → List (EvaluationRun W) → List (CaseResult W) → Result (Unit {0})
  unfolding check_run
  check_runs x required (run ∷ runs) (result ∷ results) =
      let rest = check_runs x required runs results in check_run x required run result >> rest
  check_runs x required _ _ = ok tt

  unfoldable pub validate_outcome : Experiment → RunOutcome W → List String → Result (Unit {0})
  unfolding check_aligned check_runs
  validate_outcome x outcome names = do
    raise_if (not (length outcome.runs == length outcome.case_results))
        (config_error "RunOutcome has runs and case results of different lengths")
    raise_if (not (distinct (map (λ r. r.id) outcome.runs)))
        (config_error "RunOutcome contains duplicate EvaluationRun ids")
    check_aligned outcome.runs outcome.case_results
    raise_if (not (distinct names)) (config_error "evaluator_names contains duplicates")
    check_runs x names outcome.runs outcome.case_results
