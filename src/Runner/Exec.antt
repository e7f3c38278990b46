-- ===== src/Runner/Exec.antt =====
-- runner.py and domain/contracts.py. Providers, evaluators, the prompt renderer and the supply of
-- fresh ids are arguments. What they answer may change from call to call: each call is handed its
-- number. Log events, which change no state of the program, are left out.
use eval_ops.Prelude.{
  ℕ, suc, ◌+◌, ◌*◌, String, not, Option, none, some, List, [], ◌∷◌, ◌++◌, map, ◌==◌, string_eq,
  if◌then◌else◌, distinct, is_none, ◌||◌,
}
use eval_ops.Result.{
  Result, ok, err, config_error, provider_error, key_error, ◌>>=◌, ◌>>◌, raise_if, traverse,
}
use eval_ops.Double.{Double}
use eval_ops.Loop.{for_each, range_from}
use eval_ops.Text.{is_blank, strip}
use eval_ops.Domain.Enums.{ProviderName, EvaluatorFamily}
use eval_ops.Domain.Values.{UsageMetrics, RetrievedItem, ToolCall, EvaluatorScore, zero_usage}
use eval_ops.Domain.Entities.{
  SystemVersion, DatasetCase, Dataset, Experiment, EvaluationRun, new_evaluation_run, CaseResult,
  new_case_result,
}

pub record ProviderResponse (W : Type 0) : Type 0 where
  pub text : String
  pub usage : UsageMetrics W
  pub retrieval : List (RetrievedItem W)
  pub tool_calls : List (ToolCall W)

-- `ProviderClient`: the number of the call, the prompt and the version give a response or an error.
pub record ProviderClient (W : Type 0) : Type 0 where
  pub complete : ℕ → String → SystemVersion W → Result (ProviderResponse W)

pub record Evaluator (W : Type 0) : Type 0 where
  pub name : String
  pub family : EvaluatorFamily
  pub evaluate : ℕ → EvaluationRun W → DatasetCase W → Result (EvaluatorScore W)

-- What the runner is given from outside: fresh ids, by number, and `render_prompt`.
pub record Environment : Type 0 where
  pub new_id : ℕ → String
  pub render_prompt : String → String → Result String

pub record RunOutcome (W : Type 0) : Type 0 where
  pub runs : List (EvaluationRun W)
  pub case_results : List (CaseResult W)

-- The two lists that the loops append to, and the number of calls made.
pub record Progress (W : Type 0) : Type 0 where
  pub runs : List (EvaluationRun W)
  pub case_results : List (CaseResult W)
  pub calls : ℕ

abbrev pub Providers : Type 0 → Type 0
Providers W = ProviderName → Option (ProviderClient W)

-- `str(exc).strip() or type(exc).__name__`
unfoldable pub error_text : String → String → String
error_text class_name message = if is_blank message then class_name else strip message

module _ {W : Type 0} where
  -- A failed run is not scored.
  unfoldable pub scores_of :
      EvaluationRun W → DatasetCase W → List (Evaluator W) → ℕ → Result (List (EvaluatorScore W))
  scores_of run case evaluators call = elim run.error [
    | some e ↦ ok []
    | none ↦ traverse (λ evaluator. evaluator.evaluate call run case) evaluators
  ]

  unfoldable pub preflight :
      Experiment
      → Dataset W
      → SystemVersion W
      → SystemVersion W
      → Providers W
      → List (Evaluator W)
      → Result (Unit {0})
  preflight x dataset baseline candidate providers evaluators = do
    raise_if (not (dataset.id == x.dataset_id))
        (config_error "dataset id does not match the experiment's dataset_id")
    raise_if (not (baseline.id == x.baseline_version_id))
        (config_error "baseline_version id does not match the experiment's baseline_version_id")
    raise_if (not (candidate.id == x.candidate_version_id))
        (config_error "candidate_version id does not match the experiment's candidate_version_id")
    raise_if (is_none (providers baseline.provider) || is_none (providers candidate.provider))
        (config_error "no ProviderClient supplied for provider(s)")
    raise_if (not (distinct (map (λ e. e.name) evaluators)))
        (config_error "evaluator names must be unique")

  abbrev pub no_progress : Progress W
  no_progress = record { runs = []; case_results = []; calls = 0 }

module _ {W : Type 0} ⦃d : Double W⦄ (env : Environment) where
  -- The run that a call's answer gives: a `ProviderError` is recorded, any other error passes.
  unfoldable pub record_answer :
      Experiment
      → SystemVersion W
      → DatasetCase W
      → ℕ
      → String
      → Result (ProviderResponse W)
      → Result (EvaluationRun W)
  unfolding error_text
  record_answer x v case repeat_index id (ok response) = new_evaluation_run (record {
    experiment_id = x.id;
    system_version_id = v.id;
    case_id = case.id;
    repeat_index = repeat_index;
    output = response.text;
    usage = response.usage;
    error = none;
    retrieval = response.retrieval;
    tool_calls = response.tool_calls;
    id = id;
  })
  record_answer x v case repeat_index id (err (provider_error class_name message)) =
      new_evaluation_run (record {
        experiment_id = x.id;
        system_version_id = v.id;
        case_id = case.id;
        repeat_index = repeat_index;
        output = "";
        usage = zero_usage;
        error = some (error_text class_name message);
        retrieval = [];
        tool_calls = [];
        id = id;
      })
  record_answer x v case repeat_index id (err e) = err e

  unfoldable pub execute :
      Experiment
      → SystemVersion W
      → DatasetCase W
      → ℕ
      → String
      → ProviderClient W
      → ℕ
      → Result (EvaluationRun W)
  unfolding record_answer
  execute x v case repeat_index prompt provider call =
      record_answer x v case repeat_index (env.new_id (2 * call)) (provider.complete call prompt v)

  unfoldable pub score :
      EvaluationRun W → DatasetCase W → List (Evaluator W) → ℕ → Result (CaseResult W)
  score run case evaluators call = do
    scores ← scores_of run case evaluators call
    new_case_result (record { run_id = run.id; scores = scores; id = env.new_id (2 * call + 1) })

  module _ (x : Experiment) (evaluators : List (Evaluator W)) where
    -- The body of the innermost loop.
    unfoldable pub run_repeat :
        SystemVersion W
        → ProviderClient W
        → DatasetCase W
        → String
        → ℕ
        → Progress W
        → Result (Progress W)
    run_repeat v provider case prompt repeat_index s = do
      run ← execute x v case repeat_index prompt provider s.calls
      result ← score run case evaluators s.calls
      ok (record {
        runs = s.runs ++ run ∷ [];
        case_results = s.case_results ++ result ∷ [];
        calls = suc s.calls;
      })

    unfoldable pub run_case :
        SystemVersion W → ProviderClient W → DatasetCase W → Progress W → Result (Progress W)
    run_case v provider case s = do
      prompt ← env.render_prompt v.prompt_template case.input
      for_each (run_repeat v provider case prompt) (range_from 0 x.repeats) s

    -- `providers[system_version.provider]`, which `_preflight` has checked.
    unfoldable pub run_version :
        Providers W → Dataset W → SystemVersion W → Progress W → Result (Progress W)
    run_version providers dataset v s = elim (providers v.provider) [
      | none ↦ err key_error
      | some provider ↦ for_each (run_case v provider) dataset.cases s
    ]

  unfoldable pub run_experiment :
      Experiment
      → Dataset W
      → SystemVersion W
      → SystemVersion W
      → Providers W
      → List (Evaluator W)
      → Result (RunOutcome W)
  run_experiment x dataset baseline candidate providers evaluators = do
    preflight x dataset baseline candidate providers evaluators
    s ←
        for_each (run_version x evaluators providers dataset) (baseline ∷ candidate ∷ [])
          no_progress
    ok (record { runs = s.runs; case_results = s.case_results })
