-- ===== src/Calibration/Judging.antt =====
-- calibration.py: `calibrate_judge`. `LLMJudge.judge` is an argument, as any function
-- of the number of the call and of the example.
use eval_ops.Prelude.{ℕ, suc, String, Bool, Option, none, some, List, [], ◌∷◌, string_eq}
use eval_ops.Result.{Result, ok, err, Error, provider_error, judge_error, ◌>>=◌, map_ok}
use eval_ops.Double.{Double}
use eval_ops.Calibration.Bounded.{bounded}
use eval_ops.Domain.Enums.{ProviderName}
use eval_ops.Calibration.Values.{
  LabeledJudgeExample, JudgeCalibrationCase, JudgeCalibration, new_judge_calibration_case,
  new_judge_calibration,
}
use eval_ops.Calibration.Metrics.{compute_metrics}

pub record JudgeVerdict (W : Type 0) : Type 0 where
  pub passed : Bool
  pub score : W
  pub reasoning : Option String

pub record Judge (W : Type 0) : Type 0 where
  pub provider_name : ProviderName
  pub model : String
  pub temperature : W
  pub name : String
  pub judge : ℕ → LabeledJudgeExample → Result (JudgeVerdict W)

-- `describe` is the text `f"{type(exc).__name__}: {exc}"` of an exception.
module _ {W : Type 0} ⦃d : Double W⦄ (describe : Error → String) where
  abbrev pub failed_case : LabeledJudgeExample → Error → JudgeCalibrationCase W
  failed_case x e = record {
    input = x.input;
    output = x.output;
    reference = x.reference;
    human_pass = x.human_pass;
    judge_pass = none;
    judge_score = none;
    judge_reasoning = none;
    error = some (bounded (describe e));
  }

  abbrev pub judged_case : LabeledJudgeExample → JudgeVerdict W → JudgeCalibrationCase W
  judged_case x v = record {
    input = x.input;
    output = x.output;
    reference = x.reference;
    human_pass = x.human_pass;
    judge_pass = some v.passed;
    judge_score = some v.score;
    judge_reasoning = v.reasoning;
    error = none;
  }

  -- The body of the loop, on the answer of the judge.
  unfoldable pub case_of :
      LabeledJudgeExample → Result (JudgeVerdict W) → Result (JudgeCalibrationCase W)
  case_of x (ok v) = new_judge_calibration_case (judged_case x v)
  case_of x (err (provider_error class_name message)) =
      new_judge_calibration_case (failed_case x (provider_error class_name message))
  case_of x (err (judge_error message)) =
      new_judge_calibration_case (failed_case x (judge_error message))
  case_of x (err e) = err e

  -- The loop, with the number of the next call.
  unfoldable pub cases_from :
      Judge W → ℕ → List LabeledJudgeExample → Result (List (JudgeCalibrationCase W))
  unfolding case_of
  cases_from j call [] = ok []
  cases_from j call (x ∷ xs) =
      let rest = cases_from j (suc call) xs in
      case_of x (j.judge call x) >>= λ c. map_ok (λ cs. c ∷ cs) rest

  -- `id` is the fresh id of the calibration.
  unfoldable pub calibrate_judge :
      String → Judge W → List LabeledJudgeExample → String → Result (JudgeCalibration W)
  unfolding cases_from
  calibrate_judge id j examples rubric_id = do
    cases ← cases_from j 0 examples
    metrics ← compute_metrics cases
    new_judge_calibration (record {
      judge_provider = j.provider_name;
      judge_model = j.model;
      judge_name = j.name;
      judge_temperature = j.temperature;
      rubric_id = rubric_id;
      metrics = metrics;
      cases = cases;
      id = id;
    })
