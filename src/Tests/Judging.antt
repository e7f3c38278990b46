-- ===== src/Tests/Judging.antt =====
-- A judge whose provider answers with a verdict in a fence.
use eval_ops.Prelude.{
  String, ◌≡◌, refl, [], true, false, Option, some, none, string_eq, nat_eq, ◌==◌, if◌then◌else◌,
}
use eval_ops.Result.{Result, ok, err, other_error}
use eval_ops.Double.Milli.{Milli, milli}
use eval_ops.Double.Laws.{milli_laws}
use eval_ops.Text.{is_blank, strip, lstrip, rstrip, starts_with}
use eval_ops.Domain.Enums.{openai}
use eval_ops.Domain.Values.{Value, object, field, end, text, zero_usage, require_non_empty}
use eval_ops.Domain.Entities.{new_system_version}
use eval_ops.Runner.Exec.{ProviderClient}
use eval_ops.Calibration.Values.{LabeledJudgeExample}
use eval_ops.Judging.Parse.{object_text, unfenced, before_fence, text_drop, from_brace, up_to_brace}
use eval_ops.Judging.Ask.{
  LlmJudge, ask_judge, parse_judge_verdict, extract_json_object, verdict_from, score_of,
}
use eval_ops.Judging.Judgement.{IsOutcome, ask_judge-IsOutcome}

abbrev reply : String
reply = "```json\n{\"verdict\": \"pass\"}\n```"

cut : object_text (λ s. s) reply ≡ some "{\"verdict\": \"pass\"}"
unfolding object_text unfenced before_fence text_drop from_brace up_to_brace strip lstrip rstrip
    starts_with
cut = refl

abbrev loads : String → Result (Option (Value Milli))
loads s =
    if s == "{\"verdict\": \"pass\"}"
    then ok (some (object (field "verdict" (text "pass") end)))
    else err (other_error "RecursionError")

abbrev client : ProviderClient Milli
client = record {
  complete = λ call prompt v.
      ok (record { text = reply; usage = zero_usage; retrieval = []; tool_calls = [] });
}

abbrev judge : LlmJudge Milli
judge = record {
  provider_name = openai;
  provider_client = client;
  model = "m";
  temperature = Milli.nonneg 0;
  name = "llm_judge";
  new_id = λ call. "v";
}

abbrev example : LabeledJudgeExample
example = record { input = "a"; output = "b"; human_pass = true; reference = none }

visible : (is_blank "llm_judge" ≡ false) × (is_blank "m" ≡ false) × (is_blank "v" ≡ false)
unfolding is_blank
visible = (refl, refl, refl)

passes :
    ask_judge loads (λ s. s) judge 0 example
    ≡ ok (record { passed = true; score = Milli.nonneg 1000; reasoning = none })
unfolding ask_judge new_system_version require_non_empty is_blank parse_judge_verdict
    extract_json_object object_text unfenced before_fence text_drop from_brace up_to_brace strip
    lstrip rstrip starts_with verdict_from score_of
passes = refl

ask_judge-IsOutcome_example : IsOutcome milli_laws loads (ask_judge loads (λ s. s) judge 0 example)
ask_judge-IsOutcome_example =
    ask_judge-IsOutcome milli_laws loads (λ s. s) judge visible.0 visible.1 (λ call. visible.2)
      (λ call prompt v. tt) 0 example
