-- ===== src/Rag/Scores.antt =====
-- That the evaluators of retrieval answer.
use eval_ops.Prelude.{
  ℕ, String, ◌≡◌, refl, sym, Bool, true, false, List, [], ◌∷◌, arith, length, count_if,
  count_if-le-length, length-select, contains, to_set, string_eq, subst, map,
}
use eval_ops.Result.{is_ok}
use eval_ops.Double.{Double, IsOrdered, zero_f, one_f}
use eval_ops.Text.{is_blank}
use eval_ops.Domain.Enums.{EvaluatorFamily, statistical, deterministic}
use eval_ops.Domain.Values.{new_evaluator_score, require_non_empty}
use eval_ops.Domain.Entities.{DatasetCase, EvaluationRun, is_empty}
use eval_ops.Agent.Scores.{InUnit, to_set_nonempty}
use eval_ops.Rag.Words.{unique_ordered, unique_from, content_tokens}
use eval_ops.Rag.Evaluators.{
  RagEvaluator, graded, found_ids, recall_of, precision_of, grounded_share, retrieval_recall,
  context_precision, groundedness_lexical, grounded_result, join_spaced, relevant_ids,
  retrieved_ids,
}

module _ {W : Type 0} ⦃d : Double W⦄ (laws : IsOrdered W) where
  graded_total :
      (family : EvaluatorFamily) (t : RagEvaluator W) (score : W)
      → is_blank t.name ≡ false
      → InUnit score
      → is_ok (graded family t score) ≡ true
  unfolding graded new_evaluator_score require_non_empty
  graded_total family t score named (low, high) = rw (named, low, high) refl

  pub zero_InUnit : InUnit {W = W} zero_f
  zero_InUnit =
      let (low, high) = laws.ratio_bounds 0 1 (omega arith) (omega arith) in
      (laws.le_refl zero_f laws.zero_finite, laws.le_trans _ _ _ low high)

  pub one_InUnit : InUnit {W = W} one_f
  one_InUnit =
      let (low, high) = laws.ratio_bounds 0 1 (omega arith) (omega arith) in
      (laws.le_trans _ _ _ low high, laws.le_refl one_f laws.one_finite)

  share_InUnit :
      (p : String → Bool) (xs : List String)
      → is_empty xs ≡ false
      → InUnit {W = W} (d.ratio (count_if p xs) (length xs))
  share_InUnit p [] h = absurd (cc h)
  share_InUnit p (x ∷ xs) h = laws.ratio_bounds _ _ (count_if-le-length p (x ∷ xs)) (omega arith)

  recall_InUnit :
      (relevant retrieved : List String)
      → is_empty relevant ≡ false
      → InUnit {W = W} (recall_of relevant retrieved)
  unfolding recall_of found_ids
  recall_InUnit relevant retrieved h =
      let found = contains (to_set retrieved) in
      subst (λ (n : ℕ). InUnit {W = W} (d.ratio n (length (to_set relevant))))
        (sym (length-select found (to_set relevant)))
        (laws.ratio_bounds _ _ (count_if-le-length found (to_set relevant))
          (to_set_nonempty relevant h))

  precision_InUnit :
      (relevant retrieved : List String) → InUnit {W = W} (precision_of relevant retrieved)
  unfolding precision_of
  precision_InUnit relevant [] = zero_InUnit
  precision_InUnit relevant (x ∷ xs) = share_InUnit (contains (to_set relevant)) (x ∷ xs) refl

  some_relevant : (ids : List String) → is_empty ids ≡ false → is_empty (unique_ordered ids) ≡ false
  unfolding unique_ordered unique_from
  some_relevant [] h = cc h
  some_relevant (x ∷ xs) h = refl

  -- With a visible name and a case that lists relevant ids, the two evaluators of retrieval return
  -- a score, so that its value lies within [0, 1].
  pub retrieval_scored :
      (t : RagEvaluator W) (run : EvaluationRun W) (case : DatasetCase W)
      → is_blank t.name ≡ false
      → is_empty case.expected_retrieval_ids ≡ false
      → (is_ok (retrieval_recall t run case) ≡ true) × (is_ok (context_precision t run case) ≡ true)
  unfolding retrieval_recall context_precision relevant_ids retrieved_ids
  retrieval_scored t run case named labelled =
      let some = some_relevant case.expected_retrieval_ids labelled in
      rw some (
        graded_total statistical t _ named
            (recall_InUnit (unique_ordered case.expected_retrieval_ids) (retrieved_ids run) some),
        graded_total statistical t _ named
            (precision_InUnit (unique_ordered case.expected_retrieval_ids) (retrieved_ids run)),
      )

  grounded_result_total :
      (t : RagEvaluator W) (answer context : List String)
      → is_blank t.name ≡ false
      → is_ok (grounded_result t answer context) ≡ true
  unfolding grounded_result grounded_share new_evaluator_score require_non_empty
  grounded_result_total t [] context named =
      let (low, high) = one_InUnit in rw (named, low, high) refl
  grounded_result_total t (x ∷ xs) context named = graded_total deterministic t _ named (
      subst (λ (n : ℕ). InUnit {W = W} (d.ratio n (length (x ∷ xs))))
        (sym (length-select (contains context) (x ∷ xs)))
        (share_InUnit (contains context) (x ∷ xs) refl))

  -- With a visible name, the lexical evaluator returns a score, whatever the run and the case and
  -- however texts are put into lower case.
  pub groundedness_scored :
      (lower : String → String) (t : RagEvaluator W) (run : EvaluationRun W) (case : DatasetCase W)
      → is_blank t.name ≡ false
      → is_ok (groundedness_lexical lower t run case) ≡ true
  unfolding groundedness_lexical
  groundedness_scored lower t run case named =
      grounded_result_total t (content_tokens lower run.output)
        (content_tokens lower (join_spaced (map (λ item. item.content) run.retrieval))) named
