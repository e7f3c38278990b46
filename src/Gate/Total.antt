-- ===== src/Gate/Total.antt =====
-- What `evaluate_gate` returns and raises, on every branch.
use eval_ops.Prelude.{
  ◌≡◌, refl, ◌↔◌, true, false, not, ◌&&◌, Option, some, arith, ◌+◌, ◌<◌, List, [], ◌∷◌, All, Exists,
  length, count_if, select, All-select, All-map, Exists-count_if, length-select, string_eq, ◌∙◌,
  if◌then◌else◌, String,
}
use eval_ops.Result.{
  ok, err, config_error, >>=-eq-ok, >>-eq-ok, raise_if, is_ok, is_ok-value, traverse,
  traverse_total, length-traverse, All-traverse, Exists-traverse,
}
use eval_ops.Double.{Double}
use eval_ops.Domain.Enums.{ReleaseDecision, block}
use eval_ops.Domain.Values.{MetricComparison}
use eval_ops.Domain.Evidence.{MetricEvidence}
use eval_ops.Domain.Entities.{EvaluationResult, ReleasePolicy, is_empty}
use eval_ops.Gate.Verdict.{GateOutcome, MetricVerdict, direction_of, verdict, is_regression}
use eval_ops.Gate.Report.{
  GateReport, is_advisory, reason, advisory, report_of, verdict_in, unknown_metrics, evaluate_gate,
}
use eval_ops.Gate.Explained.{IsExplained, verdict-IsExplained}
use eval_ops.Gate.Blocking.{Blocks, verdict-Blocks}

never_both : (o : GateOutcome) → (is_regression o && is_advisory o) ≡ false
never_both o = ground arith

module _ {W : Type 0} ⦃d : Double W⦄ where
  -- A report that has been returned, by its parts.
  report_parts :
      (verdicts : List (MetricVerdict W)) (report : GateReport W)
      → report_of verdicts ≡ ok report
      → (traverse reason (select (λ v. is_regression v.outcome) verdicts) ≡ ok report.reasons)
        × (traverse advisory (select (λ v. is_advisory v.outcome) verdicts) ≡ ok report.advisories)
        × (report.verdicts ≡ verdicts)
        × (report.decision ≡ (if is_empty report.reasons then ReleaseDecision.pass else block))
  unfolding report_of
  report_parts verdicts report h = ground arith

  -- The gate's answer under a policy, by its parts.
  gated_parts :
      (result : EvaluationResult W) (policy : ReleasePolicy W) (report : GateReport W)
      → evaluate_gate result (some policy) ≡ ok report
      → (verdicts : List (MetricVerdict W)) × (traverse
            (verdict_in result (some policy))
            result.metrics
          ≡ ok verdicts)
        × (report_of verdicts ≡ ok report)
  unfolding evaluate_gate
  gated_parts result policy report h =
      >>=-eq-ok (traverse (verdict_in result (some policy)) result.metrics) report_of
        (>>-eq-ok (raise_if (not (is_empty (unknown_metrics result policy))) _) _ h)

  blocks_reasons :
      (verdicts : List (MetricVerdict W)) (report : GateReport W)
      → report_of verdicts ≡ ok report
      → (report.decision ≡ block) ↔ (0 < length report.reasons)
  blocks_reasons verdicts report h = decided report.reasons (report_parts verdicts report h).3
    where
      decided :
          (reasons : List String)
          → report.decision ≡ (if is_empty reasons then ReleaseDecision.pass else block)
          → (report.decision ≡ block) ↔ (0 < length reasons)
      decided [] e = (λ b. cc, λ h. elim h [ ])
      decided (r ∷ rs) e = (λ b. omega arith, λ h. e)

  reasons_count :
      (verdicts : List (MetricVerdict W)) (report : GateReport W)
      → report_of verdicts ≡ ok report
      → (length report.reasons ≡ count_if (λ v. is_regression v.outcome) verdicts)
        × (length report.advisories ≡ count_if (λ v. is_advisory v.outcome) verdicts)
  reasons_count verdicts report h =
      let (p, q, _, _) = report_parts verdicts report h in
      (
        length-traverse reason _ _ p ∙ length-select (λ v. is_regression v.outcome) verdicts,
        length-traverse advisory _ _ q ∙ length-select (λ v. is_advisory v.outcome) verdicts,
      )

  -- The gate blocks exactly if some metric has a threshold, its adverse change is beyond the
  -- threshold, and its statistical evidence, where it has any, has at least eight pairs and an
  -- interval wholly beyond the tolerated boundary.
  pub block_iff :
      (result : EvaluationResult W) (policy : ReleasePolicy W) (report : GateReport W)
      → evaluate_gate result (some policy) ≡ ok report
      → (report.decision ≡ block) ↔ Exists (Blocks result policy) result.metrics
  block_iff result policy report h =
      let (verdicts, p, q) = gated_parts result policy report h in
      let (to_reasons, from_reasons) = blocks_reasons verdicts report q in
      let count = (reasons_count verdicts report q).0 in
      let (there, back) = Exists-count_if (λ v. is_regression v.outcome) verdicts in
      let (meets, met) =
        Exists-traverse (verdict_in result (some policy)) (Blocks result policy)
          (λ v. is_regression v.outcome ≡ true) (verdict-Blocks result policy) result.metrics
          verdicts p in
      (λ b. meets (there (rw count at (to_reasons b))), λ e. from_reasons (rw count (back (met e))))

  report_total :
      (verdicts : List (MetricVerdict W))
      → All IsExplained verdicts
      → (report : GateReport W) × (report_of verdicts ≡ ok report)
  unfolding report_of
  report_total verdicts h =
      let (reasons, p) = traverse_total reason _ (
        All-select (λ v. is_ok (reason v) ≡ true) (λ v. is_regression v.outcome) verdicts
          (All-map verdicts (λ v x. x.0) h)) in
      let (advisories, q) = traverse_total advisory _ (
        All-select (λ v. is_ok (advisory v) ≡ true) (λ v. is_advisory v.outcome) verdicts
          (All-map verdicts (λ v x. x.1) h)) in
      is_ok-value (report_of verdicts) (rw (p, q) refl)

  breaches_counted :
      (verdicts : List (MetricVerdict W))
      → All IsExplained verdicts
      → count_if (λ v. v.threshold_breached) verdicts
        ≡ count_if (λ v. is_regression v.outcome) verdicts
          + count_if (λ v. is_advisory v.outcome) verdicts
  breaches_counted [] h = refl
  breaches_counted (v ∷ vs) h = ground (arith, h.0.2, breaches_counted vs h.1, never_both v.outcome)

  -- Under a policy every metric whose change passed its threshold is reported: the reasons and the
  -- advisories together are as many as the breached verdicts.
  pub breaches_reported :
      (result : EvaluationResult W) (policy : ReleasePolicy W) (report : GateReport W)
      → evaluate_gate result (some policy) ≡ ok report
      → length report.reasons + length report.advisories
        ≡ count_if (λ v. v.threshold_breached) report.verdicts
  breaches_reported result policy report h =
      let (verdicts, p, q) = gated_parts result policy report h in
      let (r, a) = reasons_count verdicts report q in
      let explained =
        All-traverse (verdict_in result (some policy)) IsExplained
          (λ mc v e. verdict-IsExplained mc _ _ v e) result.metrics verdicts p in
      rw (report_parts verdicts report q).2
        (omega (arith, r, a, breaches_counted verdicts explained))

  verdict_total :
      (mc : MetricComparison W) (th : Option W) (ev : Option (MetricEvidence W))
      → is_ok (direction_of mc.metric) ≡ true
      → is_ok (verdict mc th ev) ≡ true
  unfolding verdict
  verdict_total mc th ev h = let (dir, e) = is_ok-value (direction_of mc.metric) h in rw e

  -- The gate answers if the policy names only produced metrics and each metric has a direction;
  -- no assertion and no formatting of its texts fails. A policy that names another metric is
  -- refused with a ConfigError.
  pub evaluate_gate_total :
      (result : EvaluationResult W) (policy : ReleasePolicy W)
      → (is_empty (unknown_metrics result policy) ≡ true
          → All (λ mc. is_ok (direction_of mc.metric) ≡ true) result.metrics
          → (report : GateReport W) × (evaluate_gate result (some policy) ≡ ok report))
        × (is_empty (unknown_metrics result policy) ≡ false
            → evaluate_gate result (some policy)
              ≡ err (
                  config_error
                    "release policy references metric(s) not produced by the evaluation"))
  evaluate_gate_total result policy = (
    λ known directed.
        let (verdicts, p) =
          traverse_total (verdict_in result (some policy)) result.metrics
            (All-map result.metrics (λ mc h. verdict_total mc _ _ h) directed) in
        let (report, q) = report_total verdicts (
          All-traverse (verdict_in result (some policy)) IsExplained
            (λ mc v e. verdict-IsExplained mc _ _ v e) result.metrics verdicts p) in
        (report, unfold evaluate_gate in rw (known, p) q),
    λ unknown. unfold evaluate_gate in rw unknown,
  )
