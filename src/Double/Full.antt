-- ===== src/Double/Full.antt =====
-- When a share of a count is the whole of it.
use eval_ops.Prelude.{ℕ, ◌≤◌, ◌<◌, ◌≡◌, sym, ◌↔◌, subst, arith, leb, Bool-cases, inl, inr}
use eval_ops.Double.{Double, IsOrdered, ◌≼◌, one_f}

module _ {W : Type 0} ⦃d : Double W⦄ (laws : IsOrdered W) where
  -- A part of a positive count up to 2 ** 53 is a share of at least 1 exactly if it is the whole.
  pub full_ratio :
      (a b : ℕ) → a ≤ b → 0 < b → b ≤ 9007199254740992 → (one_f ≼ d.ratio a b) ↔ (a ≡ b)
  full_ratio a b le pos small = (
    λ full. elim (Bool-cases (leb b a)) [
      | inl h ↦ ground arith
      | inr h ↦
          let proper : a < b = ground arith in
          let below = laws.lt-le_trans _ _ _ (laws.ratio_below a b proper small) full in
          absurd (cc (below, laws.lt_irrefl (d.ratio a b)))
    ],
    λ same.
        subst (λ (n : ℕ). one_f ≼ d.ratio n b) (sym same)
          (subst (λ (x : W). one_f ≼ x) (sym (laws.ratio_self b pos))
            (laws.le_refl one_f laws.one_finite)),
  )
