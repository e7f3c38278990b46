-- ===== src/Tests/Persist.antt =====
-- Entities that are written to rows and read back.
use mathlib.Core.List.Permᴰ
use mathlib.Core.List.Permᴰ.{swap}
use eval_ops.Prelude.{
  String, ◌≡◌, refl, true, false, some, none, List, [], ◌∷◌, string_eq, nat_eq, All,
}
use mathlib.Core.Bool.{xor}
use eval_ops.Result.{ok, err, other_error}
use eval_ops.Double.Milli.{Milli, nonneg, milli}
use eval_ops.Text.{is_blank}
use eval_ops.Domain.Enums.{deterministic, openai, authored}
use eval_ops.Domain.Evidence.{
  MetricEvidence, SampleSummary, continuous, new_metric_evidence, new_sample_summary,
}
use eval_ops.Domain.Values.{
  null, text, end, field, EvaluatorScore, RetrievedItem, ToolCall, zero_usage, require_non_empty,
  new_evaluator_score, new_metric_comparison, new_retrieved_item, new_tool_call,
  new_expected_tool_call, new_usage_metrics,
}
use eval_ops.Domain.Entities.{
  DatasetCase, Dataset, EvaluationRun, CaseResult, EvaluationResult, new_dataset_case, new_dataset,
  new_evaluation_run, new_case_result, new_evaluation_result,
}
use eval_ops.Calibration.Values.{
  JudgeCalibrationCase, JudgeCalibration, new_judge_calibration_case, new_judge_calibration_metrics,
  new_judge_calibration,
}
use eval_ops.Persist.Rows.{EvaluatorScoreRow, JudgeCalibrationCaseRow, DatasetCaseRow}
use eval_ops.Persist.Nested.{
  score_to_orm, calibration_case_to_orm, case_result_to_orm, case_result_from_orm,
  evaluation_result_to_orm, evaluation_result_from_orm, judge_calibration_to_orm,
  judge_calibration_from_orm,
}
use eval_ops.Persist.Json.{Builtins}
use eval_ops.Persist.Runs.{
  case_to_orm, dataset_to_orm, dataset_from_orm, evaluation_run_to_orm, evaluation_run_from_orm,
}
use eval_ops.Persist.RoundTrip.{
  BuiltCaseResult, BuiltResult, BuiltCalibration, case_result_back, evaluation_result_back,
  judge_calibration_back,
}
use eval_ops.Persist.JsonRoundTrip.{BuiltRun, BuiltCase, evaluation_run_back, dataset_back}

abbrev builtins : Builtins Milli
builtins = record {
  str = λ v. "value";
  int = λ v. err (other_error "TypeError");
  float = λ v. err (other_error "TypeError");
  dict = λ v. err (other_error "TypeError");
}

abbrev stored_score : String → EvaluatorScore Milli
stored_score name = record {
  evaluator = name;
  family = deterministic;
  score = nonneg 1000;
  passed = some true;
}

abbrev stored_result : CaseResult Milli
stored_result = record {
  run_id = "r";
  scores = stored_score "exact" ∷ stored_score "regex" ∷ [];
  id = "s";
}

stored_result-BuiltCaseResult : BuiltCaseResult stored_result
unfolding new_case_result new_evaluator_score require_non_empty is_blank
stored_result-BuiltCaseResult = (refl, (refl, (refl, tt)))

-- The rows of the scores, handed out in reverse.
abbrev handed_scores : List (EvaluatorScoreRow Milli)
handed_scores = score_to_orm 1 (stored_score "regex") ∷ score_to_orm 0 (stored_score "exact") ∷ []

case_result_back_example :
    case_result_from_orm (record (case_result_to_orm stored_result) { scores = handed_scores })
    ≡ ok stored_result
unfolding case_result_to_orm
case_result_back_example =
    case_result_back stored_result handed_scores stored_result-BuiltCaseResult (swap refl refl)

abbrev of_three : Milli → SampleSummary Milli
of_three x = record { n = 3; mean = x; median = x; stdev = nonneg 0 }

abbrev stored_evidence : MetricEvidence Milli
stored_evidence = record {
  metric = "latency_ms.mean";
  kind = continuous;
  n_pairs = 3;
  dropped_provider_failures = 0;
  baseline = of_three (nonneg 2000);
  candidate = of_three (nonneg 3000);
  paired_delta = of_three (nonneg 1000);
  delta = nonneg 1000;
  relative_change = some (nonneg 500);
  confidence_level = nonneg 950;
  ci_low = some (nonneg 900);
  ci_high = some (nonneg 1100);
  ci_excludes_zero = true;
  insufficient_evidence = false;
  method = "paired_bootstrap_percentile";
  resamples = 10;
  seed = 1;
}

abbrev stored_comparison : EvaluationResult Milli
stored_comparison = record {
  experiment_id = "x";
  metrics =
      record {
        metric = "latency_ms.mean";
        baseline_value = nonneg 2000;
        candidate_value = nonneg 3000;
      }
      ∷ [];
  evidence = stored_evidence ∷ [];
  id = "e";
}

stored_comparison-BuiltResult : BuiltResult stored_comparison
unfolding new_evaluation_result new_metric_comparison new_metric_evidence new_sample_summary
    require_non_empty is_blank xor
stored_comparison-BuiltResult = (refl, (refl, tt), ((refl, refl, refl, refl), tt))

evaluation_result_back_example :
    evaluation_result_from_orm (evaluation_result_to_orm stored_comparison) ≡ ok stored_comparison
evaluation_result_back_example =
    evaluation_result_back stored_comparison (evaluation_result_to_orm stored_comparison).metrics
      (evaluation_result_to_orm stored_comparison).evidence stored_comparison-BuiltResult
      (Permᴰ.refl _) (Permᴰ.refl _)

abbrev stored_answer : String → JudgeCalibrationCase Milli
stored_answer input = record {
  input = input;
  output = "b";
  reference = none;
  human_pass = true;
  judge_pass = some true;
  judge_score = some (nonneg 900);
  judge_reasoning = none;
  error = none;
}

abbrev stored_calibration : JudgeCalibration Milli
stored_calibration = record {
  judge_provider = openai;
  judge_model = "m";
  judge_name = "llm_judge";
  judge_temperature = nonneg 0;
  rubric_id = "judge-v1";
  metrics = record {
    total = 2;
    scored = 2;
    failures = 0;
    agreements = 2;
    agreement_rate = some (nonneg 1000);
    true_positives = 2;
    true_negatives = 0;
    false_positives = 0;
    false_negatives = 0;
    precision = some (nonneg 1000);
    recall = some (nonneg 1000);
    f1 = some (nonneg 1000);
  };
  cases = stored_answer "a" ∷ stored_answer "c" ∷ [];
  id = "k";
}

stored_calibration-BuiltCalibration : BuiltCalibration stored_calibration
unfolding new_judge_calibration new_judge_calibration_metrics new_judge_calibration_case
    require_non_empty is_blank xor
stored_calibration-BuiltCalibration = (refl, refl, (refl, (refl, tt)))

abbrev handed_answers : List (JudgeCalibrationCaseRow Milli)
handed_answers =
    calibration_case_to_orm 1 (stored_answer "c")
    ∷ calibration_case_to_orm 0 (stored_answer "a")
    ∷ []

judge_calibration_back_example :
    judge_calibration_from_orm
      (record (judge_calibration_to_orm stored_calibration) { cases = handed_answers })
    ≡ ok stored_calibration
unfolding judge_calibration_to_orm
judge_calibration_back_example =
    judge_calibration_back stored_calibration handed_answers stored_calibration-BuiltCalibration
      (swap refl refl)

abbrev stored_item : RetrievedItem Milli
stored_item = record { doc_id = "doc"; content = "words"; rank = 0; score = some (nonneg 700) }

abbrev stored_call : ToolCall Milli
stored_call = record {
  name = "search";
  arguments = field "q" (text "words") end;
  result = null;
  success = false;
  error = some "timeout";
}

abbrev stored_run : EvaluationRun Milli
stored_run = record {
  experiment_id = "x";
  system_version_id = "b";
  case_id = "c";
  repeat_index = 0;
  output = "hi";
  usage = zero_usage;
  error = none;
  retrieval = stored_item ∷ [];
  tool_calls = stored_call ∷ [];
  id = "r";
}

stored_run-BuiltRun : BuiltRun stored_run
unfolding new_evaluation_run new_usage_metrics new_retrieved_item new_tool_call require_non_empty
    is_blank
stored_run-BuiltRun = (refl, refl, (refl, tt), (refl, tt))

evaluation_run_back_example :
    evaluation_run_from_orm builtins (evaluation_run_to_orm stored_run) ≡ ok stored_run
evaluation_run_back_example = evaluation_run_back builtins stored_run stored_run-BuiltRun

abbrev stored_case : String → DatasetCase Milli
stored_case id = record {
  input = "hello";
  expected_output = some "hi";
  origin = authored;
  source_trace_id = none;
  expected_retrieval_ids = [];
  expected_tool_calls =
      record { name = "search"; arguments = some (field "q" (text "words") end) } ∷ [];
  id = id;
}

abbrev stored_dataset : Dataset Milli
stored_dataset = record {
  project_id = "p";
  name = "d";
  version = 1;
  cases = stored_case "c" ∷ stored_case "e" ∷ [];
  id = "ds";
}

stored_cases : All BuiltCase stored_dataset.cases
unfolding new_dataset_case new_expected_tool_call require_non_empty is_blank
stored_cases = ((refl, (refl, tt)), ((refl, (refl, tt)), tt))

new_stored_dataset : new_dataset stored_dataset ≡ ok stored_dataset
unfolding new_dataset require_non_empty is_blank
new_stored_dataset = refl

abbrev handed_cases : List (DatasetCaseRow Milli)
handed_cases = case_to_orm 1 (stored_case "e") ∷ case_to_orm 0 (stored_case "c") ∷ []

dataset_back_example :
    dataset_from_orm builtins (record (dataset_to_orm stored_dataset) { cases = handed_cases })
    ≡ ok stored_dataset
unfolding dataset_to_orm
dataset_back_example =
    dataset_back builtins stored_dataset handed_cases new_stored_dataset stored_cases
      (swap refl refl)
