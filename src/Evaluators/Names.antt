-- ===== src/Evaluators/Names.antt =====
-- That the evaluators built from specs have different names and thresholds within [0, 1].
use eval_ops.Prelude.{
  suc, String, ◌≡◌, refl, sym, ap, subst, Bool, true, false, Option, List, [], ◌∷◌, map, arith, All,
  length, distinct, contains, string_eq,
}
use eval_ops.Result.{
  Result, ok, Error, ok_inj, ◌>>◌, map_ok-inv, >>=-eq-ok, >>-eq-ok, raise_if, config_error,
}
use eval_ops.Double.{Double}
use eval_ops.Domain.Values.{Value}
use eval_ops.Evaluators.Match.{Matching}
use eval_ops.Evaluators.Ranges.{InRange, evaluator_from-InRange}
use eval_ops.Evaluators.Build.{
  BuiltEvaluator, evaluator_name, evaluator_from, build_from, build_evaluators,
}

pub raise_if_passed :
    {B : Type 0} (test : Bool) (e : Error) (rest : Result B) {b : B}
    → (raise_if test e >> rest) ≡ ok b
    → test ≡ false
raise_if_passed true e rest h = cc h
raise_if_passed false e rest h = refl

module _ {W : Type 0} where
  -- Names that are neither new nor seen.
  unseen_split :
      (new : String) (seen : List String) (es : List (BuiltEvaluator W))
      → All (λ e. contains (new ∷ seen) (evaluator_name e) ≡ false) es
      → (contains (map evaluator_name es) new ≡ false)
        × All (λ e. contains seen (evaluator_name e) ≡ false) es
  unseen_split new seen [] h = (refl, tt)
  unseen_split new seen (e ∷ es) h =
      let (absent, others) = unseen_split new seen es h.1 in
      (
        ground (
          arith,
          string_eq.beq_iff new (evaluator_name e),
          string_eq.beq_iff (evaluator_name e) new,
          absent,
          h.0,
        ),
        (ground (arith, h.0), others),
      )

module _ {W : Type 0} ⦃d : Double W⦄ (matching : Matching) (environ : String → Option String) where
  -- What the loop promises, given the names seen before it.
  abbrev Fresh : List String → List (BuiltEvaluator W) → Type 0
  Fresh seen es =
      (distinct (map evaluator_name es) ≡ true)
      × All (λ e. contains seen (evaluator_name e) ≡ false) es
      × All InRange es

  build_from-Fresh :
      (seen : List String) (specs : List (Value W)) (es : List (BuiltEvaluator W))
      → build_from matching environ seen specs ≡ ok es
      → Fresh seen es × (length es ≡ length specs)
  unfolding build_from
  build_from-Fresh seen [] es h =
      subst (λ (es : List (BuiltEvaluator W)). Fresh seen es × (length es ≡ 0)) (ok_inj h)
        ((refl, tt, tt), refl)
  build_from-Fresh seen (spec ∷ specs) es h =
      let (e, made, h1) = >>=-eq-ok (evaluator_from matching environ spec) _ h in
      let new = raise_if_passed (contains seen (evaluator_name e)) _ _ h1 in
      let h2 =
        >>-eq-ok
          (raise_if (contains seen (evaluator_name e)) (config_error "duplicate evaluator name")) _
          h1 in
      let (built, later, same) =
        map_ok-inv (λ (es : List (BuiltEvaluator W)). e ∷ es)
          (build_from matching environ (evaluator_name e ∷ seen) specs) es h2 in
      let ((names, unseen, ranges), size) =
        build_from-Fresh (evaluator_name e ∷ seen) specs built later in
      let (absent, others) = unseen_split (evaluator_name e) seen built unseen in
      subst (λ (es : List (BuiltEvaluator W)). Fresh seen es × (length es ≡ suc (length specs)))
        (sym same)
        (
          (
            rw (absent, names) refl,
            (new, others),
            (evaluator_from-InRange matching environ spec e made, ranges),
          ),
          ap suc size,
        )

  -- The evaluators that are built are as many as the specs; no two have the same name, and each
  -- threshold lies within [0, 1].
  pub build_evaluators_lem :
      (specs : List (Value W)) (es : List (BuiltEvaluator W))
      → build_evaluators matching environ specs ≡ ok es
      → (length es ≡ length specs) × (distinct (map evaluator_name es) ≡ true) × All InRange es
  unfolding build_evaluators
  build_evaluators_lem specs es h =
      let ((names, _, ranges), size) = build_from-Fresh [] specs es h in (size, names, ranges)
