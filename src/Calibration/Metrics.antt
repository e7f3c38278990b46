-- ===== src/Calibration/Metrics.antt =====
-- calibration.py: `compute_metrics` and `_ratio`
use eval_ops.Prelude.{
  ℕ, ◌+◌, ◌-◌, Bool, false, not, ◌&&◌, Option, none, some, List, ◌==◌, nat_eq, length, count_if,
  select, is_some, if◌then◌else◌,
}
use eval_ops.Result.{Result}
use eval_ops.Double.{Double, zero_f}
use eval_ops.Calibration.Values.{
  JudgeCalibrationCase, JudgeCalibrationMetrics, new_judge_calibration_metrics,
}

-- `c.judge_pass` as a condition
abbrev pub truth : Option Bool → Bool
truth none = false
truth (some b) = b

module _ {W : Type 0} ⦃d : Double W⦄ where
  unfoldable pub ratio : ℕ → ℕ → Option W
  ratio numerator denominator =
      if denominator == 0 then none else some (d.ratio numerator denominator)

  unfoldable pub f1_of : Option W → Option W → Option W
  f1_of none recall = none
  f1_of (some precision) none = none
  f1_of (some precision) (some recall) =
      if d.eq (d.add precision recall) zero_f
      then none
      else some (d.div (d.mul (d.mul (d.of_nat 2) precision) recall) (d.add precision recall))

  -- The metrics before their constructor checks them.
  unfoldable pub counted : List (JudgeCalibrationCase W) → JudgeCalibrationMetrics W
  unfolding ratio f1_of
  counted cases =
      let scored = select (λ c. is_some c.judge_pass) cases in
      let tp = count_if (λ c. c.human_pass && truth c.judge_pass) scored in
      let tn = count_if (λ c. not c.human_pass && not (truth c.judge_pass)) scored in
      let fp = count_if (λ c. not c.human_pass && truth c.judge_pass) scored in
      let fn = count_if (λ c. c.human_pass && not (truth c.judge_pass)) scored in
      let precision = ratio tp (tp + fp) in
      let recall = ratio tp (tp + fn) in
      record {
        total = length cases;
        scored = length scored;
        failures = length cases - length scored;
        agreements = tp + tn;
        agreement_rate = ratio (tp + tn) (length scored);
        true_positives = tp;
        true_negatives = tn;
        false_positives = fp;
        false_negatives = fn;
        precision = precision;
        recall = recall;
        f1 = f1_of precision recall;
      }

  unfoldable pub compute_metrics :
      List (JudgeCalibrationCase W) → Result (JudgeCalibrationMetrics W)
  unfolding counted
  compute_metrics cases = new_judge_calibration_metrics (counted cases)
