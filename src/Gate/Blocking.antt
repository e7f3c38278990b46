-- ===== src/Gate/Blocking.antt =====
-- What makes the gate block, described without its intermediate verdicts.
use eval_ops.Prelude.{
  ◌≤◌, ◌≡◌, ◌⊎◌, ◌↔◌, Bool, true, false, Option, none, some, arith, refl, ◌≢◌, string_eq, subst,
}
use eval_ops.Result.{ok, >>=-eq-ok}
use eval_ops.Double.{Double, zero_f, ◌≺◌}
use eval_ops.Dict.{get, index_by}
use eval_ops.Domain.Values.{MetricComparison}
use eval_ops.Domain.Evidence.{MetricEvidence}
use eval_ops.Domain.Entities.{EvaluationResult, ReleasePolicy}
use eval_ops.Gate.Verdict.{
  Direction, higher_is_better, lower_is_better, GateOutcome, regression, MetricVerdict,
  direction_of, verdict_with, verdict, is_regression, outcome_of, adverse_change,
}
use eval_ops.Gate.Report.{verdict_in}

is_regression_iff : (o : GateOutcome) → (is_regression o ≡ true) ↔ (o ≡ regression)
is_regression_iff o = ground arith

module _ {W : Type 0} ⦃d : Double W⦄ where
  -- The point change is beyond the tolerated fraction `t`, or unbounded.
  abbrev pub Breaches : Direction → W → MetricComparison W → Type 0
  Breaches higher_is_better t mc =
      (d.eq mc.baseline_value zero_f ≡ false)
      × (t ≺ d.div (d.sub mc.baseline_value mc.candidate_value) mc.baseline_value)
  Breaches lower_is_better t mc =
      ((d.eq mc.baseline_value zero_f ≡ true) × (d.eq mc.candidate_value zero_f ≡ false))
      ⊎ ((d.eq mc.baseline_value zero_f ≡ false)
          × (t ≺ d.div (d.sub mc.candidate_value mc.baseline_value) mc.baseline_value))

  abbrev pub LiesBeyond : Direction → W → W → W → Type 0
  LiesBeyond higher_is_better boundary low high = high ≺ d.neg boundary
  LiesBeyond lower_is_better boundary low high = boundary ≺ low

  -- Either there is no statistical evidence, or there are enough pairs and the whole interval
  -- lies beyond the tolerated boundary.
  abbrev pub Supports : Direction → W → Option (MetricEvidence W) → Type 0
  Supports dir t none = Unit
  Supports dir t (some ev) =
      (low : W) × (high : W) × (8 ≤ ev.n_pairs)
      × (ev.ci_low ≡ some low)
      × (ev.ci_high ≡ some high)
      × LiesBeyond dir (d.mul t ev.baseline.mean) low high

  abbrev pub Blocks : EvaluationResult W → ReleasePolicy W → MetricComparison W → Type 0
  Blocks result policy mc =
      (dir : Direction) × (t : W) × (direction_of mc.metric ≡ ok dir)
      × (get mc.metric policy.thresholds ≡ some t)
      × Breaches dir t mc
      × Supports dir t (get mc.metric (index_by (λ e. e.metric) result.evidence))

  outcome_supported :
      (t : W) (dir : Direction) (ev : Option (MetricEvidence W))
      → (outcome_of true (some t) dir ev ≡ regression) ↔ Supports dir t ev
  unfolding outcome_of
  outcome_supported t dir none = ground arith
  outcome_supported t higher_is_better (some ev) = (ground arith, ground arith)
  outcome_supported t lower_is_better (some ev) = (ground arith, ground arith)

  change-Breaches :
      (mc : MetricComparison W) (t : W) (dir : Direction)
      → ((adverse_change dir mc.baseline_value mc.candidate_value (some t)).1 ≡ true)
        ↔ Breaches dir t mc
  unfolding adverse_change
  change-Breaches mc t higher_is_better = (ground arith, ground arith)
  change-Breaches mc t lower_is_better = (ground arith, ground arith)

  outcome_breached :
      (b : Bool) (t : W) (dir : Direction) (ev : Option (MetricEvidence W))
      → (outcome_of b (some t) dir ev ≡ regression) ↔ ((b ≡ true) × Supports dir t ev)
  outcome_breached true t dir ev =
      let (there, back) = outcome_supported t dir ev in (λ h. (refl, there h), λ h. back h.1)
  outcome_breached false t dir ev = (unfold outcome_of in λ h. cc, λ h. cc)

  outcome_ungated :
      (dir : Direction) (b c : W) (ev : Option (MetricEvidence W))
      → outcome_of (adverse_change dir b c none).1 none dir ev ≢ regression
  unfolding outcome_of adverse_change
  outcome_ungated higher_is_better b c ev = ground arith
  outcome_ungated lower_is_better b c ev = ground arith

  -- A verdict that has been returned, by its parts.
  pub verdict_parts :
      (mc : MetricComparison W) (t : Option W) (ev : Option (MetricEvidence W))
      (v : MetricVerdict W)
      → verdict mc t ev ≡ ok v
      → (dir : Direction) × (direction_of mc.metric ≡ ok dir) × (verdict_with mc t ev dir ≡ v)
  unfolding verdict
  verdict_parts mc t ev v h =
      let (dir, p, q) =
        >>=-eq-ok (direction_of mc.metric) (λ dir. ok (verdict_with mc t ev dir)) h in
      (dir, p, cc)

  pub gated_blocks :
      (mc : MetricComparison W) (th : Option W) (ev : Option (MetricEvidence W)) (dir : Direction)
      → ((verdict_with mc th ev dir).outcome ≡ regression)
        ↔ ((t : W) × (th ≡ some t) × Breaches dir t mc × Supports dir t ev)
  unfolding verdict_with
  gated_blocks mc none ev dir =
      (λ h. absurd (outcome_ungated dir mc.baseline_value mc.candidate_value ev h), λ h. cc (h.1))
  gated_blocks mc (some t) ev dir =
      let (there, back) =
        outcome_breached (adverse_change dir mc.baseline_value mc.candidate_value (some t)).1 t dir
          ev in
      let (broken, breaks) = change-Breaches mc t dir in
      (
        λ h. (t, refl, broken (there h).0, (there h).1),
        λ (t', e, b, s).
            let same : t' ≡ t = cc in
            back (
              breaks (subst (λ x. Breaches dir x mc) same b),
              subst (λ x. Supports dir x ev) same s,
            ),
      )

  pub verdict-Blocks :
      (result : EvaluationResult W) (policy : ReleasePolicy W) (mc : MetricComparison W)
      (v : MetricVerdict W)
      → verdict_in result (some policy) mc ≡ ok v
      → (is_regression v.outcome ≡ true) ↔ Blocks result policy mc
  verdict-Blocks result policy mc v h =
      let th = get mc.metric policy.thresholds in
      let ev = get mc.metric (index_by (λ e. e.metric) result.evidence) in
      let (dir, p, q) = verdict_parts mc th ev v h in
      let (there, back) = gated_blocks mc th ev dir in
      let (out, in') = is_regression_iff v.outcome in
      (
        λ r. let (t, e, b, s) = there (cc (out r, q)) in (dir, t, p, e, b, s),
        λ (dir', t, p', e, b, s).
            let same : dir' ≡ dir = cc in
            in' (
              cc (
                q,
                back (
                  t,
                  e,
                  subst (λ x. Breaches x t mc) same b,
                  subst (λ x. Supports x t ev) same s,
                ),
              )),
      )
