-- ===== src/Calibration/Answers.antt =====
-- What `calibrate_judge` returns: a case for each example, in order, with the judge's answer.
use eval_ops.Prelude.{
  ℕ, suc, String, ◌≡◌, refl, sym, ◌∙◌, subst, true, false, none, some, List, [], ◌∷◌, arith, nat_eq,
  string_eq, length, count_if, is_none,
}
use eval_ops.Result.{
  Result, ok, err, Error, provider_error, judge_error, map_ok, map_ok-inv, is_ok, is_ok-value,
  >>=-eq-ok, ok_inj,
}
use eval_ops.Double.{Double, zero_f}
use eval_ops.Text.{is_blank}
use eval_ops.Domain.Values.{in_unit, require_non_empty}
use eval_ops.Calibration.Values.{
  LabeledJudgeExample, JudgeCalibrationCase, JudgeCalibrationMetrics, JudgeCalibration,
  new_judge_calibration_case, new_judge_calibration,
}
use eval_ops.Calibration.Bounded.{bounded}
use eval_ops.Calibration.Metrics.{compute_metrics}
use eval_ops.Calibration.Judging.{Judge, JudgeVerdict, case_of, cases_from, calibrate_judge}
use eval_ops.Calibration.Counts.{compute_metrics_counts, agrees}

module _ {W : Type 0} where
  -- The example that a case records.
  abbrev pub example_of : JudgeCalibrationCase W → LabeledJudgeExample
  example_of c = record {
    input = c.input;
    output = c.output;
    human_pass = c.human_pass;
    reference = c.reference;
  }

-- The failures that a calibration catches.
abbrev pub IsCaught : Error → Type 0
IsCaught (provider_error class_name message) = Unit
IsCaught (judge_error message) = Unit
IsCaught e = ⊥

module _ {W : Type 0} (describe : Error → String) where
  -- A case records what a judge has answered for an example: its verdict, its score and its reasons,
  -- or else the text of its failure and nothing of a verdict.
  abbrev pub Records :
      LabeledJudgeExample → Result (JudgeVerdict W) → JudgeCalibrationCase W → Type 0
  Records x (ok v) c =
      (example_of c ≡ x)
      × (c.judge_pass ≡ some v.passed)
      × (c.judge_score ≡ some v.score)
      × (c.judge_reasoning ≡ v.reasoning)
      × (c.error ≡ none)
  Records x (err e) c =
      IsCaught e
      × (example_of c ≡ x)
      × (c.judge_pass ≡ none)
      × (c.judge_score ≡ none)
      × (c.judge_reasoning ≡ none)
      × (c.error ≡ some (bounded (describe e)))

  -- The cases record the judge's answers to the examples, in their order, where `call` is the number
  -- of the call for the first.
  abbrev pub Answered :
      Judge W → ℕ → List LabeledJudgeExample → List (JudgeCalibrationCase W) → Type 0
  Answered j call [] [] = Unit
  Answered j call (x ∷ xs) (c ∷ cs) = Records x (j.judge call x) c × Answered j (suc call) xs cs
  Answered j call _ _ = ⊥

module _ {W : Type 0} ⦃d : Double W⦄ where
  -- A verdict with a score within [0, 1], or one of the two failures that calibration catches.
  abbrev pub IsJudgement : Result (JudgeVerdict W) → Type 0
  IsJudgement (ok v) = in_unit v.score ≡ true
  IsJudgement (err (provider_error class_name message)) = Unit
  IsJudgement (err (judge_error message)) = Unit
  IsJudgement (err e) = ⊥

  new_case-eq : (c c' : JudgeCalibrationCase W) → new_judge_calibration_case c ≡ ok c' → c ≡ c'
  unfolding new_judge_calibration_case
  new_case-eq c c' h = ground arith

  new_calibration-eq : (c c' : JudgeCalibration W) → new_judge_calibration c ≡ ok c' → c ≡ c'
  unfolding new_judge_calibration
  new_calibration-eq c c' h = ground arith

module _ {W : Type 0} ⦃d : Double W⦄ (describe : Error → String) where
  case-Records :
      (x : LabeledJudgeExample) (answer : Result (JudgeVerdict W)) (c : JudgeCalibrationCase W)
      → case_of describe x answer ≡ ok c
      → Records describe x answer c
  unfolding case_of
  case-Records x (ok v) c h =
      subst (Records describe x (ok v)) (new_case-eq _ c h) (refl, refl, refl, refl, refl)
  case-Records x (err (provider_error class_name message)) c h =
      subst (Records describe x (err (provider_error class_name message))) (new_case-eq _ c h)
        (tt, refl, refl, refl, refl, refl)
  case-Records x (err (judge_error message)) c h =
      subst (Records describe x (err (judge_error message))) (new_case-eq _ c h)
        (tt, refl, refl, refl, refl, refl)
  case-Records x (err e) c h = cc

  case_total :
      (x : LabeledJudgeExample) (answer : Result (JudgeVerdict W))
      → IsJudgement answer
      → is_ok (case_of describe x answer) ≡ true
  unfolding case_of new_judge_calibration_case mathlib.Core.Bool.xor
  case_total x (ok v) h = rw h refl
  case_total x (err (provider_error class_name message)) h = refl
  case_total x (err (judge_error message)) h = refl
  case_total x (err e) h = ground arith

  cases_answer :
      (j : Judge W) (call : ℕ) (xs : List LabeledJudgeExample) (cs : List (JudgeCalibrationCase W))
      → cases_from describe j call xs ≡ ok cs
      → Answered describe j call xs cs
  unfolding cases_from
  cases_answer j call [] cs h = subst (Answered describe j call []) (ok_inj h) tt
  cases_answer j call (x ∷ xs) cs h =
      let (c, p, q) =
        >>=-eq-ok (case_of describe x (j.judge call x))
          (λ c. map_ok (λ cs. c ∷ cs) (cases_from describe j (suc call) xs)) h in
      let (cs', r, s) = map_ok-inv (λ cs. c ∷ cs) (cases_from describe j (suc call) xs) cs q in
      subst (Answered describe j call (x ∷ xs)) (sym s)
        (case-Records x (j.judge call x) c p, cases_answer j (suc call) xs cs' r)

  cases_total :
      (j : Judge W) (call : ℕ) (xs : List LabeledJudgeExample)
      → ((n : ℕ) (x : LabeledJudgeExample) → IsJudgement (j.judge n x))
      → is_ok (cases_from describe j call xs) ≡ true
  unfolding cases_from
  cases_total j call [] h = refl
  cases_total j call (x ∷ xs) h =
      let (c, p) = is_ok-value _ (case_total x (j.judge call x) (h call x)) in
      let (cs, q) = is_ok-value _ (cases_total j (suc call) xs h) in rw (p, q) refl

  -- A calibration that is returned has a case for each example, in the order of the examples, which
  -- records what the judge has answered for it: its verdict, score and reasons, or else the text of
  -- its ProviderError or JudgeError and no verdict. It counts as agreements the cases whose verdict
  -- is the person's, and as failures those without a verdict.
  pub calibration_answers :
      (id : String) (j : Judge W) (xs : List LabeledJudgeExample) (rubric : String)
      (c : JudgeCalibration W)
      → calibrate_judge describe id j xs rubric ≡ ok c
      → Answered describe j 0 xs c.cases
        × (c.metrics.agreements ≡ count_if agrees c.cases)
        × (c.metrics.failures ≡ count_if (λ k. is_none k.judge_pass) c.cases)
  unfolding calibrate_judge
  calibration_answers id j xs rubric c h =
      let (cs, p, h') = >>=-eq-ok (cases_from describe j 0 xs) _ h in
      let (m, q, r) = >>=-eq-ok (compute_metrics cs) _ h' in
      let built = new_calibration-eq _ c r in
      let (m', q', _, f, a) = compute_metrics_counts cs in
      let same : m' ≡ m = ok_inj (sym q' ∙ q) in
      subst
        (λ (k : JudgeCalibration W).
          Answered describe j 0 xs k.cases
          × (k.metrics.agreements ≡ count_if agrees k.cases)
          × (k.metrics.failures ≡ count_if (λ k. is_none k.judge_pass) k.cases))
        built
        (
          cases_answer j 0 xs cs p,
          subst (λ (m : JudgeCalibrationMetrics W). m.agreements ≡ count_if agrees cs) same a,
          subst
              (λ (m : JudgeCalibrationMetrics W).
                m.failures ≡ count_if (λ k. is_none k.judge_pass) cs)
              same f,
        )

  -- If the judge always gives a score within [0, 1], a ProviderError or a JudgeError, its model, its
  -- name, the rubric and the fresh id are visible and its temperature is not negative, then
  -- `calibrate_judge` returns.
  pub calibrate_total :
      (id : String) (j : Judge W) (xs : List LabeledJudgeExample) (rubric : String)
      → ((n : ℕ) (x : LabeledJudgeExample) → IsJudgement (j.judge n x))
      → is_blank j.model ≡ false
      → is_blank j.name ≡ false
      → is_blank rubric ≡ false
      → is_blank id ≡ false
      → d.lt j.temperature zero_f ≡ false
      → is_ok (calibrate_judge describe id j xs rubric) ≡ true
  unfolding calibrate_judge new_judge_calibration require_non_empty
  calibrate_total id j xs rubric h model name rub fresh temp =
      let (cs, p) = is_ok-value _ (cases_total j 0 xs h) in
      let (m, q, n, _, _) = compute_metrics_counts cs in
      let b = (nat_eq.beq_iff m.total (length cs)).1 n in
      rw (p, q) (rw (model, name, rub, fresh, temp, b) refl)
