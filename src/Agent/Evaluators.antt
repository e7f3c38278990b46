-- ===== src/Agent/Evaluators.antt =====
-- agent_evaluators.py: `ToolSelection`, `ToolSuccess` and `ToolTrajectory`
use eval_ops.Prelude.{
  ℕ, ◌+◌, ◌*◌, String, Bool, not, List, map, string_eq, length, count_if, select, contains, to_set,
  if◌then◌else◌, some, ◌&&◌,
}
use eval_ops.Result.{Result, ok, config_error, ◌>>=◌, ◌>>◌, raise_if}
use eval_ops.Double.{Double, zero_f, one_f}
use eval_ops.Domain.Enums.{deterministic}
use eval_ops.Domain.Values.{ExpectedToolCall, EvaluatorScore, new_evaluator_score}
use eval_ops.Domain.Entities.{DatasetCase, EvaluationRun, is_empty}
use eval_ops.Agent.Subsequence.{lcs_len}

-- The fields that the three evaluators share.
pub record ToolEvaluator (W : Type 0) : Type 0 where
  pub min_score : W
  pub name : String

-- The sizes of the intersection and of the union of two sets of names.
abbrev pub common_size : List String → List String → ℕ
common_size expected observed = length (select (contains observed) (to_set expected))

abbrev pub union_size : List String → List String → ℕ
union_size expected observed =
    length (to_set expected)
    + length (select (λ name. not (contains expected name)) (to_set observed))

module _ {W : Type 0} ⦃d : Double W⦄ where
  unfoldable pub threshold : W → Result W
  threshold value =
      raise_if (not (d.le zero_f value && d.le value one_f))
        (config_error "min_score must be a number within [0, 1]")
      >> ok value

  -- The constructor of each evaluator.
  unfoldable pub new_tool_evaluator : ToolEvaluator W → Result (ToolEvaluator W)
  unfolding threshold
  new_tool_evaluator t = do min_score ← threshold t.min_score; ok t

  unfoldable pub expected_calls : DatasetCase W → Result (List (ExpectedToolCall W))
  expected_calls case =
      raise_if (is_empty case.expected_tool_calls)
        (config_error "evaluator requires expected_tool_calls, but the case has none")
      >> ok case.expected_tool_calls

  -- The score of an evaluator, which passes from `min_score` on.
  unfoldable pub scored : ToolEvaluator W → W → Result (EvaluatorScore W)
  scored t score = new_evaluator_score (record {
    evaluator = t.name;
    family = deterministic;
    score = score;
    passed = some (d.le t.min_score score);
  })

  unfoldable pub selection_score : List String → List String → W
  selection_score expected observed =
      if is_empty expected && is_empty observed
      then one_f
      else d.ratio (common_size expected observed) (union_size expected observed)

  unfoldable pub tool_selection :
      ToolEvaluator W → EvaluationRun W → DatasetCase W → Result (EvaluatorScore W)
  unfolding expected_calls selection_score
  tool_selection t run case = do
    expected ← expected_calls case
    scored t (selection_score (map (λ e. e.name) expected) (map (λ c. c.name) run.tool_calls))

  unfoldable pub success_score : List Bool → W
  success_score successes =
      if is_empty successes then one_f else d.ratio (count_if (λ b. b) successes) (length successes)

  unfoldable pub tool_success :
      ToolEvaluator W → EvaluationRun W → DatasetCase W → Result (EvaluatorScore W)
  unfolding success_score
  tool_success t run case = scored t (success_score (map (λ c. c.success) run.tool_calls))

  unfoldable pub trajectory_score : List String → List String → W
  trajectory_score expected observed =
      if is_empty expected && is_empty observed
      then one_f
      else d.ratio (2 * lcs_len expected observed) (length expected + length observed)

  unfoldable pub tool_trajectory :
      ToolEvaluator W → EvaluationRun W → DatasetCase W → Result (EvaluatorScore W)
  unfolding expected_calls trajectory_score
  tool_trajectory t run case = do
    expected ← expected_calls case
    scored t (trajectory_score (map (λ e. e.name) expected) (map (λ c. c.name) run.tool_calls))
