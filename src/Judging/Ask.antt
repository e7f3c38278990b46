-- ===== src/Judging/Ask.antt =====
-- judge.py: `parse_judge_verdict` and `LLMJudge.judge`. `loads` is the reader of JSON: it gives none
-- for a JSONDecodeError, which is caught, and may raise other exceptions, which are not.
use eval_ops.Prelude.{
  ℕ, String, Bool, true, false, not, Option, none, some, ◌==◌, string_eq, if◌then◌else◌,
}
use eval_ops.Result.{Result, ok, err, judge_error, ◌>>=◌, ◌>>◌, map_ok, raise_if}
use eval_ops.Double.{Double, zero_f, one_f}
use eval_ops.Text.{strip, is_blank}
use eval_ops.Domain.Enums.{ProviderName}
use eval_ops.Domain.Values.{Value, null, text, object, float, Fields, end, field, in_unit}
use eval_ops.Domain.Entities.{new_system_version}
use eval_ops.Runner.Exec.{ProviderClient}
use eval_ops.Calibration.Values.{LabeledJudgeExample}
use eval_ops.Calibration.Judging.{JudgeVerdict}
use eval_ops.Persist.Json.{field_get}
use eval_ops.Documents.{as_number}
use eval_ops.Judging.Parse.{render_judge_prompt, object_text}

abbrev pub pass_or_fail : String → Result Bool
pass_or_fail word =
    if word == "pass"
    then ok true
    else if word == "fail"
    then ok false
    else err (judge_error "judge 'verdict' must be 'pass' or 'fail'")

module _ {W : Type 0} where
  -- `parsed if isinstance(parsed, dict) else None`, where none stands for text that is not JSON.
  abbrev pub as_object : Option (Value W) → Option (Fields W)
  as_object (some (object fs)) = some fs
  as_object _ = none

  -- `_extract_json_object`
  unfoldable pub extract_json_object :
      (String → Result (Option (Value W))) → (String → String) → String → Result (Option (Fields W))
  unfolding object_text
  extract_json_object loads lower reply = elim (object_text lower reply) [
    | none ↦ ok none
    | some found ↦ map_ok as_object (loads found)
  ]

  -- The field `verdict`: whether it passes.
  abbrev pub verdict_of : (String → String) → Fields W → Result Bool
  verdict_of lower obj = elim (field_get "verdict" obj) [
    | some (text verdict) ↦ pass_or_fail (lower (strip verdict))
    | _ ↦ err (judge_error "judge 'verdict' must be 'pass' or 'fail'")
  ]

  abbrev pub reasoning_of : Fields W → Option String
  reasoning_of obj = elim (field_get "reasoning" obj) [
    | some (text raw) ↦ (if is_blank raw then none else some (strip raw))
    | _ ↦ none
  ]

module _ {W : Type 0} ⦃d : Double W⦄ where
  -- A score that is given: the conversion by `float` raises an OverflowError for an int that is too
  -- large.
  unfoldable pub given_score : Value W → Result W
  given_score value = elim (as_number value) [
    | none ↦ err (judge_error "judge 'score' must be a number")
    | some number ↦ number >>= λ x.
        raise_if (not (in_unit x)) (judge_error "judge 'score' must be within [0, 1]") >> ok x
  ]

  -- The field `score`, whose default is that of the verdict.
  unfoldable pub score_of : Bool → Fields W → Result W
  unfolding given_score
  score_of passed obj = elim (field_get "score" obj) [
    | none ↦ ok (if passed then one_f else zero_f)
    | some null ↦ ok (if passed then one_f else zero_f)
    | some value ↦ given_score value
  ]

  -- What follows once the object is there.
  unfoldable pub verdict_from : (String → String) → Fields W → Result (JudgeVerdict W)
  unfolding score_of
  verdict_from lower obj = do
    passed ← verdict_of lower obj
    score ← score_of passed obj
    ok (record { passed = passed; score = score; reasoning = reasoning_of obj })

  -- What follows the extraction.
  abbrev pub verdict_in : (String → String) → Option (Fields W) → Result (JudgeVerdict W)
  verdict_in lower none = err (judge_error "judge reply is not a JSON object")
  verdict_in lower (some obj) = verdict_from lower obj

  unfoldable pub parse_judge_verdict :
      (String → Result (Option (Value W))) → (String → String) → String → Result (JudgeVerdict W)
  unfolding extract_json_object verdict_from
  parse_judge_verdict loads lower reply = extract_json_object loads lower reply >>= verdict_in lower

-- `LLMJudge`, with its client, and the fresh id of the version that it builds for a call.
pub record LlmJudge (W : Type 0) : Type 0 where
  pub provider_name : ProviderName
  pub provider_client : ProviderClient W
  pub model : String
  pub temperature : W
  pub name : String
  pub new_id : ℕ → String

module _ {W : Type 0} ⦃d : Double W⦄ where
  -- `LLMJudge.judge`, on a call by its number.
  unfoldable pub ask_judge :
      (String → Result (Option (Value W)))
      → (String → String)
      → LlmJudge W
      → ℕ
      → LabeledJudgeExample
      → Result (JudgeVerdict W)
  unfolding render_judge_prompt parse_judge_verdict
  ask_judge loads lower j call x = do
    version ← new_system_version (record {
      project_id = "judge";
      name = j.name;
      version = "judge-v1";
      provider = j.provider_name;
      model = j.model;
      prompt_template = "${input}";
      parameters = field "temperature" (float j.temperature) end;
      rag_config = none;
      tool_policy = none;
      id = j.new_id call;
    })
    response ←
        j.provider_client.complete call (render_judge_prompt x.input x.output x.reference) version
    parse_judge_verdict loads lower response.text
