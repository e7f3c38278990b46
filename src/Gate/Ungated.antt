-- ===== src/Gate/Ungated.antt =====
-- The gate without a policy.
use eval_ops.Prelude.{◌≡◌, false, Option, none, arith, [], All, string_eq, subst}
use eval_ops.Result.{ok, >>=-eq-ok, traverse, All-traverse}
use eval_ops.Double.{Double}
use eval_ops.Domain.Enums.{ReleaseDecision}
use eval_ops.Domain.Values.{MetricComparison}
use eval_ops.Domain.Evidence.{MetricEvidence}
use eval_ops.Domain.Entities.{EvaluationResult}
use eval_ops.Gate.Verdict.{
  Direction, higher_is_better, lower_is_better, pass, MetricVerdict, verdict_with, verdict,
  outcome_of, adverse_change,
}
use eval_ops.Gate.Report.{GateReport, verdict_in, evaluate_gate}
use eval_ops.Gate.Blocking.{verdict_parts}

module _ {W : Type 0} ⦃d : Double W⦄ where
  abbrev IsPassed : MetricVerdict W → Type 0
  IsPassed v = (v.outcome ≡ pass) × (v.threshold_breached ≡ false)

  IsPassed-with :
      (mc : MetricComparison W) (ev : Option (MetricEvidence W)) (dir : Direction)
      → IsPassed (verdict_with mc none ev dir)
  unfolding verdict_with outcome_of adverse_change
  IsPassed-with mc ev higher_is_better = ground arith
  IsPassed-with mc ev lower_is_better = ground arith

  verdict-IsPassed :
      (mc : MetricComparison W) (ev : Option (MetricEvidence W)) (v : MetricVerdict W)
      → verdict mc none ev ≡ ok v
      → IsPassed v
  verdict-IsPassed mc ev v h =
      let (dir, _, q) = verdict_parts mc none ev v h in subst IsPassed q (IsPassed-with mc ev dir)

  -- Without a policy nothing blocks: the gate passes, ungated, with no reason, and no metric is
  -- held to be a regression or a breach, whatever the values are.
  pub ungated_passes :
      (result : EvaluationResult W) (report : GateReport W)
      → evaluate_gate result none ≡ ok report
      → (report.decision ≡ ReleaseDecision.pass)
        × (report.gated ≡ false)
        × (report.reasons ≡ [])
        × All (λ v. (v.outcome ≡ pass) × (v.threshold_breached ≡ false)) report.verdicts
  unfolding evaluate_gate
  ungated_passes result report h =
      let (vs, p, q) = >>=-eq-ok (traverse (verdict_in result none) result.metrics) _ h in
      let all_passed =
        All-traverse (verdict_in result none) IsPassed (λ mc v e. verdict-IsPassed mc _ v e)
          result.metrics vs p in
      let same : vs ≡ report.verdicts = cc in (cc, cc, cc, subst (All IsPassed) same all_passed)
