-- ===== src/Stats/Pairing.antt =====
-- stats.py: `paired_observations` and its helpers
use Prim.Native.String.{◌++◌ as join}
use eval_ops.Prelude.{
  ℕ, ◌+◌, ◌-◌, String, Bool, false, not, ◌&&◌, Option, none, some, List, [], ◌∷◌, ◌++◌, map, ◌==◌,
  string_eq, pair_eq, length, select, contains, distinct, is_none, is_some, if◌then◌else◌,
}
use eval_ops.Result.{
  Result, ok, err, config_error, key_error, ◌>>=◌, ◌>>◌, raise_if, map_ok, traverse,
}
use eval_ops.Double.{Double, zero_f, one_f}
use eval_ops.Dict.{Dict, get, set, keys, index_by}
use eval_ops.Sort.{sorted, key_leb}
use eval_ops.Domain.Values.{EvaluatorScore}
use eval_ops.Domain.Evidence.{MetricKind, binary, continuous}
use eval_ops.Domain.Entities.{Experiment, EvaluationRun, CaseResult}
use eval_ops.Runner.Exec.{RunOutcome}

pub record PairedSeries (W : Type 0) : Type 0 where
  pub metric : String
  pub kind : MetricKind
  pub baseline : List W
  pub candidate : List W
  pub matched_pairs : ℕ
  pub comparable_pairs : ℕ
  pub dropped_provider_failures : ℕ
  pub unmatched_runs : ℕ

module _ {W : Type 0} where
  abbrev pub pair_key : EvaluationRun W → String × ℕ
  pair_key run = (run.case_id, run.repeat_index)

  -- The loop of `_runs_by_key`, with the dict filled so far.
  unfoldable pub runs_by_key :
      String
      → List (EvaluationRun W)
      → Dict (String × ℕ) (EvaluationRun W)
      → Result (Dict (String × ℕ) (EvaluationRun W))
  runs_by_key version_id [] by_key = ok by_key
  runs_by_key version_id (run ∷ runs) by_key =
      let skipped = runs_by_key version_id runs by_key in
      let kept = runs_by_key version_id runs (set (pair_key run) run by_key) in
      if not (run.system_version_id == version_id)
      then skipped
      else if is_some (get (pair_key run) by_key)
      then err (config_error "version has more than one run for a case and repeat")
      else kept

  -- `next((s for s in case_result.scores if s.evaluator == evaluator_name), None)`
  abbrev pub first_score : String → List (EvaluatorScore W) → Option (EvaluatorScore W)
  first_score name [] = none
  first_score name (s ∷ scores) = if s.evaluator == name then some s else first_score name scores

  -- The score that `_pass_obs` and `_score_obs` read of a successful run.
  unfoldable pub observed_score :
      EvaluationRun W → Dict String (CaseResult W) → String → Result (EvaluatorScore W)
  observed_score run results name = elim (get run.id results) [
    | none ↦ err (config_error "successful run has no case result")
    | some result ↦ elim (first_score name result.scores) [
      | none ↦ err (config_error "successful run is missing the evaluator score")
      | some score ↦ ok score
    ]
  ]

  -- The pair of runs of a key that both dicts have.
  abbrev pub both_runs :
      Dict (String × ℕ) (EvaluationRun W)
      → Dict (String × ℕ) (EvaluationRun W)
      → String × ℕ
      → Result (EvaluationRun W × EvaluationRun W)
  both_runs baseline candidate key = elim (get key baseline) [
    | none ↦ err key_error
    | some b ↦ elim (get key candidate) [ none ↦ err key_error | some c ↦ ok (b, c) ]
  ]

-- `score.passed` as a condition
abbrev pub passed_truth : Option Bool → Bool
passed_truth none = false
passed_truth (some b) = b

module _ {W : Type 0} ⦃d : Double W⦄ where
  unfoldable pub success_obs : EvaluationRun W → W
  success_obs run = if is_none run.error then one_f else zero_f

  unfoldable pub pass_obs : EvaluationRun W → Dict String (CaseResult W) → String → Result W
  unfolding observed_score
  pass_obs run results name =
      if is_some run.error
      then ok zero_f
      else map_ok (λ score. if passed_truth score.passed then one_f else zero_f)
          (observed_score run results name)

  unfoldable pub score_obs : EvaluationRun W → Dict String (CaseResult W) → String → Result W
  unfolding observed_score
  score_obs run results name =
      if is_some run.error
      then ok zero_f
      else map_ok (λ score. score.score) (observed_score run results name)

  -- A series over pairs of which all contribute, and one over the pairs without a failure.
  module _ (matched unmatched : ℕ) (pairs : List (EvaluationRun W × EvaluationRun W)) where
    abbrev pub full_series : String → MetricKind → List W → List W → PairedSeries W
    full_series metric kind baseline candidate = record {
      metric = metric;
      kind = kind;
      baseline = baseline;
      candidate = candidate;
      matched_pairs = matched;
      comparable_pairs = matched;
      dropped_provider_failures = 0;
      unmatched_runs = unmatched;
    }

    unfoldable pub total_series : String → MetricKind → (EvaluationRun W → W) → PairedSeries W
    total_series metric kind observe =
        full_series metric kind (map (λ p. observe p.0) pairs) (map (λ p. observe p.1) pairs)

    unfoldable pub partial_series :
        String → MetricKind → (EvaluationRun W → Result W) → Result (PairedSeries W)
    partial_series metric kind observe = do
      baseline ← traverse (λ p. observe p.0) pairs
      candidate ← traverse (λ p. observe p.1) pairs
      ok (full_series metric kind baseline candidate)

    -- `both_ok`
    abbrev pub both_ok : List (EvaluationRun W × EvaluationRun W)
    both_ok = select (λ p. is_none p.0.error && is_none p.1.error) pairs

    unfoldable pub latency_series : PairedSeries W
    latency_series = record {
      metric = "latency_ms.mean";
      kind = continuous;
      baseline = map (λ p. p.0.usage.latency_ms) both_ok;
      candidate = map (λ p. p.1.usage.latency_ms) both_ok;
      matched_pairs = matched;
      comparable_pairs = length both_ok;
      dropped_provider_failures = matched - length both_ok;
      unmatched_runs = unmatched;
    }

    -- The loop over the evaluators: two series for each.
    unfoldable pub evaluator_series :
        Dict String (CaseResult W) → List String → Result (List (PairedSeries W))
    unfolding partial_series
    evaluator_series results [] = ok []
    evaluator_series results (name ∷ names) =
        let rest = evaluator_series results names in
        partial_series (join name ".pass_rate") binary (λ run. pass_obs run results name)
        >>= λ passes.
            partial_series (join name ".mean_score") continuous (λ run. score_obs run results name)
            >>= λ scores. map_ok (λ more. passes ∷ scores ∷ more) rest

    unfoldable pub all_series :
        Dict String (CaseResult W) → List String → Result (List (PairedSeries W))
    unfolding evaluator_series total_series latency_series
    all_series results names =
        map_ok
          (λ evaluators.
            total_series "success_rate" binary success_obs
            ∷ (evaluators
                ++ (latency_series
                    ∷ total_series "cost_usd.mean" continuous (λ r. r.usage.cost_usd)
                    ∷ [])))
          (evaluator_series results names)

  -- What follows once both dicts of runs are built.
  unfoldable pub matched_series :
      RunOutcome W
      → List String
      → Dict (String × ℕ) (EvaluationRun W)
      → Dict (String × ℕ) (EvaluationRun W)
      → Result (List (PairedSeries W))
  unfolding all_series
  matched_series outcome names baseline candidate =
      let common = sorted key_leb (select (contains (keys candidate)) (keys baseline)) in
      let matched = length common in
      let unmatched = (length baseline - matched) + (length candidate - matched) in
      traverse (both_runs baseline candidate) common >>= λ pairs.
      all_series matched unmatched pairs (index_by (λ r. r.run_id) outcome.case_results) names

  -- The values of the dict of series, in the order of insertion.
  unfoldable pub paired_observations :
      Experiment → RunOutcome W → List String → Result (List (PairedSeries W))
  unfolding runs_by_key matched_series
  paired_observations x outcome names = do
    raise_if (not (distinct names)) (config_error "evaluator_names contains duplicates")
    baseline ← runs_by_key x.baseline_version_id outcome.runs []
    candidate ← runs_by_key x.candidate_version_id outcome.runs []
    matched_series outcome names baseline candidate
