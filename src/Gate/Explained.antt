-- ===== src/Gate/Explained.antt =====
-- Every threshold breach is explained: its reason or its advisory can be written.
use eval_ops.Prelude.{
  ◌≡◌, refl, Bool, true, false, ◌||◌, Option, none, some, arith, string_eq, subst,
}
use eval_ops.Result.{Result, ok, err, ◌>>=◌, is_ok}
use eval_ops.Double.{Double}
use eval_ops.Domain.Values.{MetricComparison}
use eval_ops.Domain.Evidence.{MetricEvidence}
use eval_ops.Gate.Verdict.{
  Direction, higher_is_better, lower_is_better, MetricVerdict, verdict_with, verdict, is_regression,
  outcome_of, adverse_change,
}
use eval_ops.Gate.Report.{is_advisory, reason, advisory, advisory_tail}
use eval_ops.Gate.Blocking.{verdict_parts}

>>=-is_ok :
    {A B : Type 0} (m : Result A) (f : A → B) → is_ok m ≡ true → is_ok (m >>= λ a. ok (f a)) ≡ true
>>=-is_ok (ok a) f h = refl
>>=-is_ok (err e) f h = cc

module _ {W : Type 0} ⦃d : Double W⦄ where
  flagged :
      (b : Bool) (th : Option W) (dir : Direction) (ev : Option (MetricEvidence W))
      → b ≡ (is_regression (outcome_of b th dir ev) || is_advisory (outcome_of b th dir ev))
  unfolding outcome_of
  flagged false th dir ev = refl
  flagged true th dir none = refl
  flagged true th dir (some ev) = ground arith

  ungated_breach : (dir : Direction) (b c : W) → (adverse_change dir b c none).1 ≡ false
  unfolding adverse_change
  ungated_breach higher_is_better b c = ground arith
  ungated_breach lower_is_better b c = ground arith

  reason_given :
      (mc : MetricComparison W) (th : Option W) (ev : Option (MetricEvidence W)) (dir : Direction)
      → is_regression (verdict_with mc th ev dir).outcome ≡ true
      → is_ok (reason (verdict_with mc th ev dir)) ≡ true
  unfolding verdict_with reason
  reason_given mc (some t) ev dir h = refl
  reason_given mc none ev dir h =
      let e = ungated_breach dir mc.baseline_value mc.candidate_value in
      ground (
        arith,
        flagged (adverse_change dir mc.baseline_value mc.candidate_value none).1 none dir ev,
      )

  tail_given :
      (b : Bool) (th : Option W) (dir : Direction) (ev : MetricEvidence W)
      → is_advisory (outcome_of b th dir (some ev)) ≡ true
      → is_ok (advisory_tail (outcome_of b th dir (some ev)) ev) ≡ true
  unfolding outcome_of advisory_tail
  tail_given false th dir ev h = cc
  tail_given true th dir ev h = ground arith

  unadvised :
      (b : Bool) (th : Option W) (dir : Direction) → is_advisory (outcome_of b th dir none) ≡ false
  unfolding outcome_of
  unadvised true th dir = refl
  unadvised false th dir = refl

  advisory_given :
      (mc : MetricComparison W) (th : Option W) (ev : Option (MetricEvidence W)) (dir : Direction)
      → is_advisory (verdict_with mc th ev dir).outcome ≡ true
      → is_ok (advisory (verdict_with mc th ev dir)) ≡ true
  unfolding verdict_with advisory
  advisory_given mc (some t) (some ev) dir h = >>=-is_ok (advisory_tail _ ev) _ (
      tail_given (adverse_change dir mc.baseline_value mc.candidate_value (some t)).1 (some t) dir
        ev h)
  advisory_given mc (some t) none dir h = ground (
    arith,
    unadvised (adverse_change dir mc.baseline_value mc.candidate_value (some t)).1 (some t) dir,
  )
  advisory_given mc none ev dir h =
      let e = ungated_breach dir mc.baseline_value mc.candidate_value in
      ground (
        arith,
        flagged (adverse_change dir mc.baseline_value mc.candidate_value none).1 none dir ev,
      )

  -- A verdict whose text can be written, and whose breach is reported in one list or the other.
  abbrev pub IsExplained : MetricVerdict W → Type 0
  IsExplained v =
      (is_regression v.outcome ≡ true → is_ok (reason v) ≡ true)
      × (is_advisory v.outcome ≡ true → is_ok (advisory v) ≡ true)
      × (v.threshold_breached ≡ (is_regression v.outcome || is_advisory v.outcome))

  pub verdict-IsExplained :
      (mc : MetricComparison W) (th : Option W) (ev : Option (MetricEvidence W))
      (v : MetricVerdict W)
      → verdict mc th ev ≡ ok v
      → IsExplained v
  verdict-IsExplained mc th ev v h =
      let (dir, _, q) = verdict_parts mc th ev v h in
      subst IsExplained q (
        reason_given mc th ev dir,
        advisory_given mc th ev dir,
        unfold verdict_with in
            flagged (adverse_change dir mc.baseline_value mc.candidate_value th).1 th dir ev,
      )
