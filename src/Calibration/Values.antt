-- ===== src/Calibration/Values.antt =====
-- domain/value_objects.py and domain/entities.py: the values of a judge's calibration
use eval_ops.Prelude.{
  ℕ, ◌+◌, String, Bool, false, not, Option, none, some, List, ◌==◌, nat_eq, length, is_none,
  is_some,
}
use mathlib.Core.Bool.{xor}
use eval_ops.Result.{Result, ok, domain_error, ◌>>◌, raise_if}
use eval_ops.Double.{Double, zero_f}
use eval_ops.Domain.Enums.{ProviderName}
use eval_ops.Domain.Values.{require_non_empty, in_unit}

pub record LabeledJudgeExample : Type 0 where
  pub input : String
  pub output : String
  pub human_pass : Bool
  pub reference : Option String

unfoldable pub new_labeled_judge_example : LabeledJudgeExample → Result LabeledJudgeExample
unfolding require_non_empty
new_labeled_judge_example x = do
  require_non_empty x.input "LabeledJudgeExample.input must be a non-empty string"
  require_non_empty x.output "LabeledJudgeExample.output must be a non-empty string"
  ok x

pub record JudgeCalibrationCase (W : Type 0) : Type 0 where
  pub input : String
  pub output : String
  pub reference : Option String
  pub human_pass : Bool
  pub judge_pass : Option Bool
  pub judge_score : Option W
  pub judge_reasoning : Option String
  pub error : Option String

pub record JudgeCalibrationMetrics (W : Type 0) : Type 0 where
  pub total : ℕ
  pub scored : ℕ
  pub failures : ℕ
  pub agreements : ℕ
  pub agreement_rate : Option W
  pub true_positives : ℕ
  pub true_negatives : ℕ
  pub false_positives : ℕ
  pub false_negatives : ℕ
  pub precision : Option W
  pub recall : Option W
  pub f1 : Option W

pub record JudgeCalibration (W : Type 0) : Type 0 where
  pub judge_provider : ProviderName
  pub judge_model : String
  pub judge_name : String
  pub judge_temperature : W
  pub rubric_id : String
  pub metrics : JudgeCalibrationMetrics W
  pub cases : List (JudgeCalibrationCase W)
  pub id : String

module _ {W : Type 0} ⦃d : Double W⦄ where
  -- `score is not None and not 0.0 <= score <= 1.0`
  abbrev pub outside : Option W → Bool
  outside none = false
  outside (some score) = not (in_unit score)

  unfoldable pub new_judge_calibration_case :
      JudgeCalibrationCase W → Result (JudgeCalibrationCase W)
  new_judge_calibration_case c = do
    raise_if (xor (is_none c.judge_pass) (is_some c.error))
        (domain_error "JudgeCalibrationCase.error must be set iff judge_pass is None")
    raise_if (outside c.judge_score)
        (domain_error "JudgeCalibrationCase.judge_score must be within [0, 1]")
    ok c

  unfoldable pub new_judge_calibration_metrics :
      JudgeCalibrationMetrics W → Result (JudgeCalibrationMetrics W)
  new_judge_calibration_metrics m = do
    raise_if (not (m.scored + m.failures == m.total))
        (domain_error "JudgeCalibrationMetrics: scored + failures must equal total")
    raise_if
        (not
          (m.true_positives + m.true_negatives + m.false_positives + m.false_negatives == m.scored))
        (domain_error "JudgeCalibrationMetrics: TP+TN+FP+FN must equal scored")
    ok m

  unfoldable pub new_judge_calibration : JudgeCalibration W → Result (JudgeCalibration W)
  unfolding require_non_empty
  new_judge_calibration c = do
    require_non_empty c.judge_model "JudgeCalibration.judge_model"
    require_non_empty c.judge_name "JudgeCalibration.judge_name"
    require_non_empty c.rubric_id "JudgeCalibration.rubric_id"
    require_non_empty c.id "JudgeCalibration.id"
    raise_if (d.lt c.judge_temperature zero_f)
        (domain_error "JudgeCalibration.judge_temperature must be >= 0")
    raise_if (not (c.metrics.total == length c.cases))
        (domain_error "JudgeCalibration.metrics.total must equal the number of cases")
    ok c
