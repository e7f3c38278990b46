-- ===== src/Persist/Nested.antt =====
-- db/mapping.py: the entities whose children are rows of their own. A row's children are those that
-- the database hands out; reading an entity goes through the relationship, which sorts them.
use eval_ops.Prelude.{ℕ, String, ◌==◌, string_eq, if◌then◌else◌}
use eval_ops.Result.{Result, ◌>>=◌, traverse}
use eval_ops.Double.{Double}
use eval_ops.Domain.Values.{
  EvaluatorScore, new_evaluator_score, MetricComparison, new_metric_comparison,
}
use eval_ops.Domain.Evidence.{
  MetricKind, binary, continuous, new_sample_summary, MetricEvidence, new_metric_evidence,
}
use eval_ops.Domain.Entities.{CaseResult, new_case_result, EvaluationResult, new_evaluation_result}
use eval_ops.Calibration.Values.{
  JudgeCalibrationCase, JudgeCalibration, new_judge_calibration_case, new_judge_calibration_metrics,
  new_judge_calibration,
}
use eval_ops.Persist.Loaded.{enumerated, loaded}
use eval_ops.Persist.Rows.{
  EvaluatorScoreRow, CaseResultRow, MetricComparisonRow, MetricEvidenceRow, EvaluationResultRow,
  JudgeCalibrationCaseRow, JudgeCalibrationRow,
}

-- The wire value of a kind, and `"binary" if row.kind == "binary" else "continuous"`.
abbrev pub kind_text : MetricKind → String
kind_text binary = "binary"
kind_text continuous = "continuous"

abbrev pub kind_of : String → MetricKind
kind_of s = if s == "binary" then binary else continuous

module _ {W : Type 0} where
  unfoldable pub score_to_orm : ℕ → EvaluatorScore W → EvaluatorScoreRow W
  score_to_orm position v = record {
    evaluator = v.evaluator;
    position = position;
    family = v.family;
    score = v.score;
    passed = v.passed;
  }

  unfoldable pub case_result_to_orm : CaseResult W → CaseResultRow W
  unfolding score_to_orm
  case_result_to_orm v = record {
    id = v.id;
    run_id = v.run_id;
    scores = enumerated score_to_orm 0 v.scores;
  }

  unfoldable pub comparison_to_orm : ℕ → MetricComparison W → MetricComparisonRow W
  comparison_to_orm position v = record {
    metric = v.metric;
    position = position;
    baseline_value = v.baseline_value;
    candidate_value = v.candidate_value;
  }

  unfoldable pub metric_evidence_to_orm : ℕ → MetricEvidence W → MetricEvidenceRow W
  metric_evidence_to_orm position v = record {
    metric = v.metric;
    position = position;
    kind = kind_text v.kind;
    n_pairs = v.n_pairs;
    baseline_mean = v.baseline.mean;
    baseline_median = v.baseline.median;
    baseline_stdev = v.baseline.stdev;
    candidate_mean = v.candidate.mean;
    candidate_median = v.candidate.median;
    candidate_stdev = v.candidate.stdev;
    paired_delta_mean = v.paired_delta.mean;
    paired_delta_median = v.paired_delta.median;
    paired_delta_stdev = v.paired_delta.stdev;
    delta = v.delta;
    relative_change = v.relative_change;
    confidence_level = v.confidence_level;
    ci_low = v.ci_low;
    ci_high = v.ci_high;
    ci_excludes_zero = v.ci_excludes_zero;
    insufficient_evidence = v.insufficient_evidence;
    dropped_provider_failures = v.dropped_provider_failures;
    method = v.method;
    resamples = v.resamples;
    seed = v.seed;
  }

  unfoldable pub evaluation_result_to_orm : EvaluationResult W → EvaluationResultRow W
  unfolding comparison_to_orm metric_evidence_to_orm
  evaluation_result_to_orm v = record {
    id = v.id;
    experiment_id = v.experiment_id;
    metrics = enumerated comparison_to_orm 0 v.metrics;
    evidence = enumerated metric_evidence_to_orm 0 v.evidence;
  }

  unfoldable pub calibration_case_to_orm : ℕ → JudgeCalibrationCase W → JudgeCalibrationCaseRow W
  calibration_case_to_orm position v = record {
    position = position;
    input = v.input;
    output = v.output;
    reference = v.reference;
    human_pass = v.human_pass;
    judge_pass = v.judge_pass;
    judge_score = v.judge_score;
    judge_reasoning = v.judge_reasoning;
    error = v.error;
  }

  unfoldable pub judge_calibration_to_orm : JudgeCalibration W → JudgeCalibrationRow W
  unfolding calibration_case_to_orm
  judge_calibration_to_orm v = record {
    id = v.id;
    judge_provider = v.judge_provider;
    judge_model = v.judge_model;
    judge_name = v.judge_name;
    judge_temperature = v.judge_temperature;
    rubric_id = v.rubric_id;
    total = v.metrics.total;
    scored = v.metrics.scored;
    failures = v.metrics.failures;
    agreements = v.metrics.agreements;
    agreement_rate = v.metrics.agreement_rate;
    true_positives = v.metrics.true_positives;
    true_negatives = v.metrics.true_negatives;
    false_positives = v.metrics.false_positives;
    false_negatives = v.metrics.false_negatives;
    precision = v.metrics.precision;
    recall = v.metrics.recall;
    f1 = v.metrics.f1;
    cases = enumerated calibration_case_to_orm 0 v.cases;
  }

module _ {W : Type 0} ⦃d : Double W⦄ where
  unfoldable pub score_from_orm : EvaluatorScoreRow W → Result (EvaluatorScore W)
  score_from_orm row = new_evaluator_score (record {
    evaluator = row.evaluator;
    family = row.family;
    score = row.score;
    passed = row.passed;
  })

  unfoldable pub case_result_from_orm : CaseResultRow W → Result (CaseResult W)
  unfolding score_from_orm loaded
  case_result_from_orm row = do
    scores ← traverse score_from_orm (loaded (λ r. r.position) row.scores)
    new_case_result (record { id = row.id; run_id = row.run_id; scores = scores })

  unfoldable pub comparison_from_orm : MetricComparisonRow W → Result (MetricComparison W)
  comparison_from_orm row = new_metric_comparison (record {
    metric = row.metric;
    baseline_value = row.baseline_value;
    candidate_value = row.candidate_value;
  })

  unfoldable pub metric_evidence_from_orm : MetricEvidenceRow W → Result (MetricEvidence W)
  metric_evidence_from_orm row = do
    baseline ← new_sample_summary (record {
      n = row.n_pairs;
      mean = row.baseline_mean;
      median = row.baseline_median;
      stdev = row.baseline_stdev;
    })
    candidate ← new_sample_summary (record {
      n = row.n_pairs;
      mean = row.candidate_mean;
      median = row.candidate_median;
      stdev = row.candidate_stdev;
    })
    paired_delta ← new_sample_summary (record {
      n = row.n_pairs;
      mean = row.paired_delta_mean;
      median = row.paired_delta_median;
      stdev = row.paired_delta_stdev;
    })
    new_metric_evidence (record {
      metric = row.metric;
      kind = kind_of row.kind;
      n_pairs = row.n_pairs;
      baseline = baseline;
      candidate = candidate;
      paired_delta = paired_delta;
      delta = row.delta;
      relative_change = row.relative_change;
      confidence_level = row.confidence_level;
      ci_low = row.ci_low;
      ci_high = row.ci_high;
      ci_excludes_zero = row.ci_excludes_zero;
      insufficient_evidence = row.insufficient_evidence;
      method = row.method;
      resamples = row.resamples;
      seed = row.seed;
      dropped_provider_failures = row.dropped_provider_failures;
    })

  unfoldable pub evaluation_result_from_orm : EvaluationResultRow W → Result (EvaluationResult W)
  unfolding comparison_from_orm metric_evidence_from_orm loaded
  evaluation_result_from_orm row = do
    metrics ← traverse comparison_from_orm (loaded (λ r. r.position) row.metrics)
    evidence ← traverse metric_evidence_from_orm (loaded (λ r. r.position) row.evidence)
    new_evaluation_result (record {
      id = row.id;
      experiment_id = row.experiment_id;
      metrics = metrics;
      evidence = evidence;
    })

  unfoldable pub calibration_case_from_orm :
      JudgeCalibrationCaseRow W → Result (JudgeCalibrationCase W)
  calibration_case_from_orm row = new_judge_calibration_case (record {
    input = row.input;
    output = row.output;
    reference = row.reference;
    human_pass = row.human_pass;
    judge_pass = row.judge_pass;
    judge_score = row.judge_score;
    judge_reasoning = row.judge_reasoning;
    error = row.error;
  })

  unfoldable pub judge_calibration_from_orm : JudgeCalibrationRow W → Result (JudgeCalibration W)
  unfolding calibration_case_from_orm loaded
  judge_calibration_from_orm row = do
    metrics ← new_judge_calibration_metrics (record {
      total = row.total;
      scored = row.scored;
      failures = row.failures;
      agreements = row.agreements;
      agreement_rate = row.agreement_rate;
      true_positives = row.true_positives;
      true_negatives = row.true_negatives;
      false_positives = row.false_positives;
      false_negatives = row.false_negatives;
      precision = row.precision;
      recall = row.recall;
      f1 = row.f1;
    })
    cases ← traverse calibration_case_from_orm (loaded (λ r. r.position) row.cases)
    new_judge_calibration (record {
      id = row.id;
      judge_provider = row.judge_provider;
      judge_model = row.judge_model;
      judge_name = row.judge_name;
      judge_temperature = row.judge_temperature;
      rubric_id = row.rubric_id;
      metrics = metrics;
      cases = cases;
    })
