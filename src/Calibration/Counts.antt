-- ===== src/Calibration/Counts.antt =====
-- That `compute_metrics` answers, and what its counts are.
use eval_ops.Prelude.{
  ◌+◌, ◌≡◌, refl, Bool, false, not, ◌&&◌, none, some, List, [], ◌∷◌, arith, nat_eq, length,
  count_if, select, is_some, is_none, if◌then◌else◌, length-select,
}
use eval_ops.Result.{ok}
use eval_ops.Double.{Double}
use eval_ops.Calibration.Values.{
  JudgeCalibrationCase, JudgeCalibrationMetrics, new_judge_calibration_metrics,
}
use eval_ops.Calibration.Metrics.{truth, counted, compute_metrics}

module _ {W : Type 0} where
  -- The judge has answered as the person did.
  abbrev pub agrees : JudgeCalibrationCase W → Bool
  agrees c = elim c.judge_pass [ none ↦ false | some b ↦ if c.human_pass then b else not b ]

  all_scored :
      (cases : List (JudgeCalibrationCase W))
      → count_if (λ c. is_some c.judge_pass) cases + count_if (λ c. is_none c.judge_pass) cases
        ≡ length cases
  all_scored [] = refl
  all_scored (c ∷ cs) = ground (arith, all_scored cs)

  confusion :
      (cases : List (JudgeCalibrationCase W))
      → count_if
            (λ c. c.human_pass && truth c.judge_pass)
            (select (λ c. is_some c.judge_pass) cases)
          + count_if
              (λ c. not c.human_pass && not (truth c.judge_pass))
              (select (λ c. is_some c.judge_pass) cases)
          + count_if
              (λ c. not c.human_pass && truth c.judge_pass)
              (select (λ c. is_some c.judge_pass) cases)
          + count_if
              (λ c. c.human_pass && not (truth c.judge_pass))
              (select (λ c. is_some c.judge_pass) cases)
        ≡ length (select (λ c. is_some c.judge_pass) cases)
  confusion [] = refl
  confusion (c ∷ cs) = ground (arith, confusion cs)

  agreement :
      (cases : List (JudgeCalibrationCase W))
      → count_if
            (λ c. c.human_pass && truth c.judge_pass)
            (select (λ c. is_some c.judge_pass) cases)
          + count_if
              (λ c. not c.human_pass && not (truth c.judge_pass))
              (select (λ c. is_some c.judge_pass) cases)
        ≡ count_if agrees cases
  agreement [] = refl
  agreement (c ∷ cs) = ground (arith, agreement cs)

module _ {W : Type 0} ⦃d : Double W⦄ where
  metrics_accepted :
      (m : JudgeCalibrationMetrics W)
      → m.scored + m.failures ≡ m.total
      → m.true_positives + m.true_negatives + m.false_positives + m.false_negatives ≡ m.scored
      → new_judge_calibration_metrics m ≡ ok m
  unfolding new_judge_calibration_metrics
  metrics_accepted m h k =
      let a = (nat_eq.beq_iff (m.scored + m.failures) m.total).1 h in
      let b =
        (nat_eq.beq_iff
            (m.true_positives + m.true_negatives + m.false_positives + m.false_negatives)
            m.scored).1
          k in
      rw (a, b) refl

  -- `compute_metrics` never raises. It counts the cases without a verdict as failures and as
  -- nothing else, and as agreements the cases whose verdict is the person's.
  pub compute_metrics_counts :
      (cases : List (JudgeCalibrationCase W))
      → (m : JudgeCalibrationMetrics W) × (compute_metrics cases ≡ ok m)
        × (m.total ≡ length cases)
        × (m.failures ≡ count_if (λ c. is_none c.judge_pass) cases)
        × (m.agreements ≡ count_if agrees cases)
  unfolding compute_metrics counted
  compute_metrics_counts cases =
      let scored = length-select (λ c. is_some c.judge_pass) cases in
      let all = all_scored cases in
      (
        counted cases,
        metrics_accepted (counted cases) (omega (arith, scored, all)) (confusion cases),
        refl,
        omega (arith, scored, all),
        agreement cases,
      )
