-- ===== src/Persist/RoundTrip.antt =====
-- That what is written to rows is read back unchanged, in whichever order the child rows are
-- handed out.
use mathlib.Core.List.{Permᴰ}
use eval_ops.Prelude.{ℕ, suc, ◌≡◌, refl, subst, List, [], ◌∷◌, arith, All, string_eq, nat_eq}
use eval_ops.Result.{Result, ok, traverse}
use eval_ops.Double.{Double}
use eval_ops.Domain.Values.{new_evaluator_score, new_metric_comparison}
use eval_ops.Domain.Evidence.{
  MetricKind, MetricEvidence, SampleSummary, binary, continuous, new_sample_summary,
  new_metric_evidence,
}
use eval_ops.Domain.Entities.{CaseResult, new_case_result, EvaluationResult, new_evaluation_result}
use eval_ops.Calibration.Values.{
  JudgeCalibration, new_judge_calibration_case, new_judge_calibration_metrics,
  new_judge_calibration,
}
use eval_ops.Persist.Loaded.{enumerated, loaded, loaded-handed}
use eval_ops.Persist.Rows.{
  EvaluatorScoreRow, MetricComparisonRow, MetricEvidenceRow, JudgeCalibrationCaseRow,
}
use eval_ops.Persist.Nested.{
  kind_text, kind_of, score_to_orm, score_from_orm, case_result_to_orm, case_result_from_orm,
  comparison_to_orm, comparison_from_orm, metric_evidence_to_orm, metric_evidence_from_orm,
  evaluation_result_to_orm, evaluation_result_from_orm, calibration_case_to_orm,
  calibration_case_from_orm, judge_calibration_to_orm, judge_calibration_from_orm,
}

-- A constructor that accepts each child lets the whole list be read back.
pub traverse-enumerated :
    {A R : Type 0} (write : ℕ → A → R) (read : R → Result A) (Good : A → Type 0)
    → ((n : ℕ) (x : A) → Good x → read (write n x) ≡ ok x)
    → (n : ℕ) (xs : List A) → All Good xs
    → traverse read (enumerated write n xs) ≡ ok xs
traverse-enumerated write read Good back n [] h = refl
traverse-enumerated write read Good back n (x ∷ xs) h =
    cc (back n x h.0, traverse-enumerated write read Good back (suc n) xs h.1)

-- So it does for the rows of numbered children, in whichever order they are handed out.
pub traverse-handed :
    {A R : Type 0} (position : R → ℕ) (write : ℕ → A → R) (read : R → Result A) (Good : A → Type 0)
    → ((n : ℕ) (x : A) → position (write n x) ≡ n)
    → ((n : ℕ) (x : A) → Good x → read (write n x) ≡ ok x)
    → (xs : List A) (rows : List R) → All Good xs
    → Permᴰ (enumerated write 0 xs) rows
    → traverse read (loaded position rows) ≡ ok xs
traverse-handed position write read Good numbered back xs rows h p =
    rw (loaded-handed position write numbered 0 xs rows p)
      (traverse-enumerated write read Good back 0 xs h)

kind_back : (k : MetricKind) → kind_of (kind_text k) ≡ k
kind_back binary = refl
kind_back continuous = refl

module _ {W : Type 0} ⦃d : Double W⦄ where
  -- A case result and each of its scores have passed their constructors.
  abbrev pub BuiltCaseResult : CaseResult W → Type 0
  BuiltCaseResult v = (new_case_result v ≡ ok v) × All (λ s. new_evaluator_score s ≡ ok s) v.scores

  -- A case result that has been built is read back as it was stored, its scores in order, in
  -- whichever order the database hands out the rows of the scores.
  pub case_result_back :
      (v : CaseResult W) (scores : List (EvaluatorScoreRow W))
      → BuiltCaseResult v
      → Permᴰ (case_result_to_orm v).scores scores
      → case_result_from_orm (record (case_result_to_orm v) { scores = scores }) ≡ ok v
  unfolding case_result_from_orm case_result_to_orm score_from_orm score_to_orm
  case_result_back v rows (built, scores) p =
      rw
        (traverse-handed (λ r. r.position) score_to_orm score_from_orm
          (λ s. new_evaluator_score s ≡ ok s) (λ n s. refl) (λ n s h. h) v.scores rows scores p)
        built

  abbrev pub BuiltEvidence : MetricEvidence W → Type 0
  BuiltEvidence e =
      (new_metric_evidence e ≡ ok e)
      × (new_sample_summary e.baseline ≡ ok e.baseline)
      × (new_sample_summary e.candidate ≡ ok e.candidate)
      × (new_sample_summary e.paired_delta ≡ ok e.paired_delta)

  -- The sizes that the row does not store.
  sizes :
      (e : MetricEvidence W)
      → new_metric_evidence e ≡ ok e
      → (e.baseline.n ≡ e.n_pairs) × (e.candidate.n ≡ e.n_pairs) × (e.paired_delta.n ≡ e.n_pairs)
  unfolding new_metric_evidence
  sizes e h = ground arith

  resized :
      (s : SampleSummary W) (n : ℕ)
      → s.n ≡ n
      → new_sample_summary s ≡ ok s
      → new_sample_summary (record s { n = n }) ≡ ok s
  resized s n same built =
      subst (λ (n : ℕ). new_sample_summary (record s { n = n }) ≡ ok s) same built

  evidence_back :
      (n : ℕ) (e : MetricEvidence W)
      → BuiltEvidence e
      → metric_evidence_from_orm (metric_evidence_to_orm n e) ≡ ok e
  unfolding metric_evidence_from_orm metric_evidence_to_orm
  evidence_back n e (built, b, c, p) =
      let (nb, nc, np) = sizes e built in
      rw
        (
          resized e.baseline e.n_pairs nb b,
          resized e.candidate e.n_pairs nc c,
          resized e.paired_delta e.n_pairs np p,
          kind_back e.kind,
        )
        built

  abbrev pub BuiltResult : EvaluationResult W → Type 0
  BuiltResult v =
      (new_evaluation_result v ≡ ok v)
      × All (λ m. new_metric_comparison m ≡ ok m) v.metrics
      × All BuiltEvidence v.evidence

  -- An evaluation result that has been built is read back as it was stored: its comparisons and
  -- its evidence, whose three summaries lose their sizes in the row, in order, in whichever order
  -- the database hands out the rows of either.
  pub evaluation_result_back :
      (v : EvaluationResult W) (metrics : List (MetricComparisonRow W))
      (evidence : List (MetricEvidenceRow W))
      → BuiltResult v
      → Permᴰ (evaluation_result_to_orm v).metrics metrics
      → Permᴰ (evaluation_result_to_orm v).evidence evidence
      → evaluation_result_from_orm
          (record (evaluation_result_to_orm v) { metrics = metrics; evidence = evidence })
        ≡ ok v
  unfolding evaluation_result_from_orm evaluation_result_to_orm comparison_from_orm
      comparison_to_orm metric_evidence_to_orm
  evaluation_result_back v ms es (built, metrics, evidence) p q =
      rw
        (
          traverse-handed (λ r. r.position) comparison_to_orm comparison_from_orm
              (λ m. new_metric_comparison m ≡ ok m) (λ n m. refl) (λ n m h. h) v.metrics ms metrics
              p,
          traverse-handed (λ r. r.position) metric_evidence_to_orm metric_evidence_from_orm
              BuiltEvidence (λ n e. refl) evidence_back v.evidence es evidence q,
        )
        built

  abbrev pub BuiltCalibration : JudgeCalibration W → Type 0
  BuiltCalibration v =
      (new_judge_calibration v ≡ ok v)
      × (new_judge_calibration_metrics v.metrics ≡ ok v.metrics)
      × All (λ c. new_judge_calibration_case c ≡ ok c) v.cases

  -- A calibration that has been built is read back as it was stored, its cases in order, in
  -- whichever order the database hands out their rows.
  pub judge_calibration_back :
      (v : JudgeCalibration W) (cases : List (JudgeCalibrationCaseRow W))
      → BuiltCalibration v
      → Permᴰ (judge_calibration_to_orm v).cases cases
      → judge_calibration_from_orm (record (judge_calibration_to_orm v) { cases = cases }) ≡ ok v
  unfolding judge_calibration_from_orm judge_calibration_to_orm calibration_case_from_orm
      calibration_case_to_orm
  judge_calibration_back v rows (built, metrics, cases) p =
      rw
        (
          metrics,
          traverse-handed (λ r. r.position) calibration_case_to_orm calibration_case_from_orm
              (λ c. new_judge_calibration_case c ≡ ok c) (λ n c. refl) (λ n c h. h) v.cases rows
              cases p,
        )
        built
