-- ===== src/Stats/Withheld.antt =====
-- When `metric_evidence` gives an interval.
use eval_ops.Prelude.{
  ℕ, ◌<◌, ◌≤◌, ◌≡◌, refl, subst, true, false, Option, none, is_some, List, arith, length, ltb,
  nat_eq, Bool-cases, inl, inr, if◌then◌else◌,
}
use eval_ops.Result.{ok, ok_inj}
use eval_ops.Double.{Double}
use eval_ops.Stats.Interval.{
  BootstrapOptions, paired_bootstrap_ci, interval_of, resampled_interval, differences,
  min_pairs_for_ci,
}

module _ {W : Type 0} ⦃d : Double W⦄ (draw : ℕ → ℕ → ℕ → ℕ) where
  ci_checked :
      (options : BootstrapOptions W) (baseline candidate : List W) (ci : Option W × Option W)
      → paired_bootstrap_ci draw options baseline candidate ≡ ok ci
      → (if ltb (length baseline) min_pairs_for_ci
          then ok (none, none)
          else interval_of draw options (differences baseline candidate))
        ≡ ok ci
  unfolding paired_bootstrap_ci
  ci_checked options baseline candidate ci h = ground arith

  interval_whole :
      (options : BootstrapOptions W) (diffs : List W) (ci : Option W × Option W)
      → interval_of draw options diffs ≡ ok ci
      → (is_some ci.0 ≡ true) × (is_some ci.1 ≡ true)
  unfolding interval_of resampled_interval
  interval_whole options diffs ci h = ground arith

  -- An interval has both its ends or none, and it has none exactly below three pairs.
  pub interval_withheld :
      (options : BootstrapOptions W) (baseline candidate : List W) (ci : Option W × Option W)
      → paired_bootstrap_ci draw options baseline candidate ≡ ok ci
      → (length baseline < 3 → (is_some ci.0 ≡ false) × (is_some ci.1 ≡ false))
        × (3 ≤ length baseline → (is_some ci.0 ≡ true) × (is_some ci.1 ≡ true))
  interval_withheld options baseline candidate ci h =
      elim (Bool-cases (ltb (length baseline) min_pairs_for_ci)) [
        | inl e ↦
            let none_given = ok_inj (rw e at (ci_checked options baseline candidate ci h)) in
            (
              λ few.
                  subst (λ (c : Option W × Option W). (is_some c.0 ≡ false) × (is_some c.1 ≡ false))
                    none_given (refl, refl),
              λ many. ground arith,
            )
        | inr e ↦
            let given = rw e at (ci_checked options baseline candidate ci h) in
            (
              λ few. ground arith,
              λ many. interval_whole options (differences baseline candidate) ci given,
            )
      ]
