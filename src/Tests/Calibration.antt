-- ===== src/Tests/Calibration.antt =====
-- Runs of the calibration of a judge.
use eval_ops.Prelude.{
  ℕ, zero, suc, String, ◌≡◌, refl, true, false, none, some, List, [], ◌∷◌, count_if, is_none,
}
use eval_ops.Result.{Result, ok, err, Error, judge_error, is_ok}
use eval_ops.Double.Milli.{Milli, nonneg, milli}
use eval_ops.Text.{is_blank}
use eval_ops.Domain.Enums.{openai}
use eval_ops.Calibration.Values.{
  LabeledJudgeExample, JudgeCalibrationCase, JudgeCalibrationMetrics, JudgeCalibration,
  new_judge_calibration_case, new_judge_calibration, new_judge_calibration_metrics,
}
use eval_ops.Domain.Values.{require_non_empty}
use eval_ops.Calibration.Bounded.{bounded}
use eval_ops.Calibration.Metrics.{compute_metrics, counted, ratio, f1_of}
use eval_ops.Calibration.Judging.{Judge, JudgeVerdict, calibrate_judge, cases_from, case_of}
use eval_ops.Calibration.Counts.{agrees, compute_metrics_counts}
use eval_ops.Calibration.Answers.{Answered, IsJudgement, calibration_answers, calibrate_total}

abbrev describe : Error → String
describe e = "JudgeError: no verdict"

-- A judge that passes the first answer and cannot be read after that.
abbrev reply : ℕ → Result (JudgeVerdict Milli)
reply zero = ok (record { passed = true; score = nonneg 900; reasoning = none })
reply (suc n) = err (judge_error "no verdict")

abbrev judge : Judge Milli
judge = record {
  provider_name = openai;
  model = "m";
  temperature = nonneg 0;
  name = "llm_judge";
  judge = λ n x. reply n;
}

abbrev examples : List LabeledJudgeExample
examples =
    record { input = "a"; output = "b"; human_pass = true; reference = none }
    ∷ record { input = "c"; output = "d"; human_pass = false; reference = none }
    ∷ []

judgements : (n : ℕ) (x : LabeledJudgeExample) → IsJudgement (judge.judge n x)
judgements zero x = refl
judgements (suc n) x = tt

visible_model : is_blank "m" ≡ false
unfolding is_blank
visible_model = refl

visible_name : is_blank "llm_judge" ≡ false
unfolding is_blank
visible_name = refl

visible_rubric : is_blank "judge-v1" ≡ false
unfolding is_blank
visible_rubric = refl

visible_id : is_blank "k" ≡ false
unfolding is_blank
visible_id = refl

calibrate_total_example : is_ok (calibrate_judge describe "k" judge examples "judge-v1") ≡ true
calibrate_total_example =
    calibrate_total describe "k" judge examples "judge-v1" judgements visible_model visible_name
      visible_rubric visible_id refl

abbrev passed_case : JudgeCalibrationCase Milli
passed_case = record {
  input = "a";
  output = "b";
  reference = none;
  human_pass = true;
  judge_pass = some true;
  judge_score = some (nonneg 900);
  judge_reasoning = none;
  error = none;
}

abbrev failed_case : JudgeCalibrationCase Milli
failed_case = record {
  input = "c";
  output = "d";
  reference = none;
  human_pass = false;
  judge_pass = none;
  judge_score = none;
  judge_reasoning = none;
  error = some "JudgeError: no verdict";
}

compute_metrics_counts_example :
    (m : JudgeCalibrationMetrics Milli) × (compute_metrics (passed_case ∷ failed_case ∷ []) ≡ ok m)
    × (m.total ≡ 2)
    × (m.failures ≡ 1)
    × (m.agreements ≡ 1)
compute_metrics_counts_example = compute_metrics_counts (passed_case ∷ failed_case ∷ [])

abbrev calibration : JudgeCalibration Milli
calibration = record {
  judge_provider = openai;
  judge_model = "m";
  judge_name = "llm_judge";
  judge_temperature = nonneg 0;
  rubric_id = "judge-v1";
  metrics = record {
    total = 2;
    scored = 1;
    failures = 1;
    agreements = 1;
    agreement_rate = some (nonneg 1000);
    true_positives = 1;
    true_negatives = 0;
    false_positives = 0;
    false_negatives = 0;
    precision = some (nonneg 1000);
    recall = some (nonneg 1000);
    f1 = some (nonneg 1000);
  };
  cases = passed_case ∷ failed_case ∷ [];
  id = "k";
}

calibrated : calibrate_judge describe "k" judge examples "judge-v1" ≡ ok calibration
unfolding calibrate_judge cases_from case_of compute_metrics counted ratio f1_of bounded
    new_judge_calibration_case new_judge_calibration_metrics new_judge_calibration require_non_empty
    is_blank mathlib.Core.Bool.xor
calibrated = refl

calibration_answers_example :
    Answered describe judge 0 examples calibration.cases
    × (calibration.metrics.agreements ≡ count_if agrees calibration.cases)
    × (calibration.metrics.failures ≡ count_if (λ k. is_none k.judge_pass) calibration.cases)
calibration_answers_example =
    calibration_answers describe "k" judge examples "judge-v1" calibration calibrated
