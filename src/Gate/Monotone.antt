-- ===== src/Gate/Monotone.antt =====
-- A tighter policy blocks at least as much.
use eval_ops.Prelude.{◌≡◌, refl, inl, inr, true, Option, none, some, string_eq, subst}
use eval_ops.Result.{ok}
use eval_ops.Double.{Double, IsOrdered, zero_f, ◌≼◌}
use eval_ops.Domain.Values.{MetricComparison}
use eval_ops.Domain.Evidence.{MetricEvidence}
use eval_ops.Gate.Verdict.{
  Direction, higher_is_better, lower_is_better, regression, MetricVerdict, verdict,
}
use eval_ops.Gate.Blocking.{Breaches, LiesBeyond, Supports, verdict_parts, gated_blocks}

module _ {W : Type 0} ⦃d : Double W⦄ (laws : IsOrdered W) where
  open laws use {is_finite, le-lt_trans, lt-le_trans, mul_mono, neg_anti}

  Breaches-mono :
      (dir : Direction) (t t' : W) (mc : MetricComparison W)
      → t ≼ t'
      → Breaches dir t' mc
      → Breaches dir t mc
  Breaches-mono higher_is_better t t' mc h (z, b) = (z, le-lt_trans _ _ _ h b)
  Breaches-mono lower_is_better t t' mc h (inl b) = inl b
  Breaches-mono lower_is_better t t' mc h (inr (z, b)) = inr (z, le-lt_trans _ _ _ h b)

  -- The reference mean of the evidence, if there is any, is a finite number that is not negative.
  abbrev pub HasScale : Option (MetricEvidence W) → Type 0
  HasScale none = Unit
  HasScale (some ev) = (is_finite ev.baseline.mean ≡ true) × (zero_f ≼ ev.baseline.mean)

  beyond_mono :
      (dir : Direction) (b b' low high : W)
      → b ≼ b'
      → LiesBeyond dir b' low high
      → LiesBeyond dir b low high
  beyond_mono higher_is_better b b' low high h l = lt-le_trans _ _ _ l (neg_anti b b' h)
  beyond_mono lower_is_better b b' low high h l = le-lt_trans _ _ _ h l

  Supports-mono :
      (dir : Direction) (t t' : W) (ev : Option (MetricEvidence W))
      → is_finite t ≡ true
      → is_finite t' ≡ true
      → t ≼ t'
      → HasScale ev
      → Supports dir t' ev
      → Supports dir t ev
  Supports-mono dir t t' none ft ft' h scale s = tt
  Supports-mono dir t t' (some ev) ft ft' h scale (low, high, n, l, u, s) = (
    low,
    high,
    n,
    l,
    u,
    beyond_mono dir _ _ low high (mul_mono t t' ev.baseline.mean ft ft' scale.0 scale.1 h) s,
  )

  -- Lowering a threshold never turns a regression into something milder: what is a regression
  -- under a finite threshold is one under every lower finite threshold, on the same values and
  -- evidence, if the evidence's baseline mean is finite and not negative.
  pub threshold_mono :
      (mc : MetricComparison W) (ev : Option (MetricEvidence W)) (t t' : W) (v v' : MetricVerdict W)
      → verdict mc (some t) ev ≡ ok v
      → verdict mc (some t') ev ≡ ok v'
      → is_finite t ≡ true
      → is_finite t' ≡ true
      → t ≼ t'
      → HasScale ev
      → v'.outcome ≡ regression
      → v.outcome ≡ regression
  threshold_mono mc ev t t' v v' h h' ft ft' le scale r =
      let (dir, p, q) = verdict_parts mc (some t) ev v h in
      let (dir', p', q') = verdict_parts mc (some t') ev v' h' in
      let same : dir' ≡ dir = cc in
      let (there, _) = gated_blocks mc (some t') ev dir' in
      let (_, back) = gated_blocks mc (some t) ev dir in
      let (t'', e, b, s) = there (cc (r, q')) in
      let back_to : t'' ≡ t' = cc in
      let b' = subst (λ x. Breaches x t' mc) same (subst (λ x. Breaches dir' x mc) back_to b) in
      let s' = subst (λ x. Supports x t' ev) same (subst (λ x. Supports dir' x ev) back_to s) in
      cc (
        q,
        back (
          t,
          refl,
          Breaches-mono dir t t' mc le b',
          Supports-mono dir t t' ev ft ft' le scale s',
        ),
      )
