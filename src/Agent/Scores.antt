-- ===== src/Agent/Scores.antt =====
-- That the evaluators of tool calls answer.
use eval_ops.Prelude.{
  ◌+◌, ◌*◌, ◌≤◌, ◌<◌, String, ◌≡◌, refl, ◌∙◌, Bool, true, false, List, [], ◌∷◌, map, inl, inr,
  arith, length, count_if-le-length, length-select, contains, to_set, string_eq,
}
use eval_ops.Result.{is_ok}
use eval_ops.Double.{Double, IsOrdered, ◌≼◌, zero_f, one_f}
use eval_ops.Domain.Values.{new_evaluator_score, require_non_empty}
use eval_ops.Domain.Entities.{DatasetCase, EvaluationRun, is_empty}
use eval_ops.Text.{is_blank}
use eval_ops.Agent.Subsequence.{lcs_len}
use eval_ops.Agent.Longest.{IsSubsequence}
use eval_ops.Agent.Rows.{lcs_len-IsLongest}
use eval_ops.Agent.Evaluators.{
  ToolEvaluator, scored, selection_score, success_score, trajectory_score, tool_selection,
  tool_success, tool_trajectory, common_size, union_size, expected_calls,
}

module _ {A : Type 0} where
  pub subsequence_short : (zs a : List A) → IsSubsequence zs a → length zs ≤ length a
  subsequence_short [] a h = omega arith
  subsequence_short (z ∷ zs) [] h = absurd h
  subsequence_short (z ∷ zs) (x ∷ a) (inl h) = omega (arith, subsequence_short zs a h.1)
  subsequence_short (z ∷ zs) (x ∷ a) (inr h) = omega (arith, subsequence_short (z ∷ zs) a h)

pub lcs_le : (a b : List String) → (lcs_len a b ≤ length a) × (lcs_len a b ≤ length b)
lcs_le a b =
    let ((zs, p, q, l), _) = lcs_len-IsLongest a b in
    (omega (arith, l, subsequence_short zs a p), omega (arith, l, subsequence_short zs b q))

pub to_set_nonempty : (xs : List String) → is_empty xs ≡ false → 0 < length (to_set xs)
to_set_nonempty [] h = absurd (cc h)
to_set_nonempty (x ∷ []) h = omega arith
to_set_nonempty (x ∷ y ∷ ys) h = ground (arith, to_set_nonempty (y ∷ ys) refl)

module _ {W : Type 0} ⦃d : Double W⦄ where
  abbrev pub InUnit : W → Type 0
  InUnit x = (zero_f ≼ x) × (x ≼ one_f)

module _ {W : Type 0} ⦃d : Double W⦄ (laws : IsOrdered W) where
  scored_total :
      (t : ToolEvaluator W) (score : W)
      → is_blank t.name ≡ false
      → InUnit score
      → is_ok (scored t score) ≡ true
  unfolding scored new_evaluator_score require_non_empty
  scored_total t score named (low, high) = rw (named, low, high) refl

  selection_bounds :
      (expected observed : List String)
      → is_empty expected ≡ false
      → InUnit {W = W} (selection_score expected observed)
  unfolding selection_score
  selection_bounds expected observed h =
      let some_name = to_set_nonempty expected h in
      let few = length-select (contains observed) (to_set expected) in
      let fewer = count_if-le-length (contains observed) (to_set expected) in
      rw h (
        laws.ratio_bounds (common_size expected observed) (union_size expected observed)
          (omega (arith, few, fewer)) (omega (arith, some_name)))

  success_bounds : (successes : List Bool) → InUnit {W = W} (success_score successes)
  unfolding success_score
  success_bounds [] =
      let (low, high) = laws.ratio_bounds 1 1 (omega arith) (omega arith) in
      (laws.le_trans _ _ _ low high, laws.le_refl one_f laws.one_finite)
  success_bounds (b ∷ bs) =
      laws.ratio_bounds _ _ (count_if-le-length (λ b. b) (b ∷ bs)) (omega arith)

  trajectory_bounds :
      (expected observed : List String)
      → is_empty expected ≡ false
      → InUnit {W = W} (trajectory_score expected observed)
  unfolding trajectory_score
  trajectory_bounds [] observed h = absurd (cc h)
  trajectory_bounds (x ∷ xs) observed h =
      let (la, lb) = lcs_le (x ∷ xs) observed in
      laws.ratio_bounds (2 * lcs_len (x ∷ xs) observed) (length (x ∷ xs) + length observed)
        (omega (arith, la, lb)) (omega arith)

  pub is_empty-map : {A B : Type 0} (f : A → B) (xs : List A) → is_empty (map f xs) ≡ is_empty xs
  is_empty-map f [] = refl
  is_empty-map f (x ∷ xs) = refl

  -- With a visible name and a case that lists expected calls, each of the three evaluators
  -- returns a score, so that its value lies within [0, 1].
  pub tools_scored :
      (t : ToolEvaluator W) (run : EvaluationRun W) (case : DatasetCase W)
      → is_blank t.name ≡ false
      → is_empty case.expected_tool_calls ≡ false
      → (is_ok (tool_selection t run case) ≡ true)
        × (is_ok (tool_success t run case) ≡ true)
        × (is_ok (tool_trajectory t run case) ≡ true)
  unfolding tool_selection tool_success tool_trajectory expected_calls
  tools_scored t run case named labelled =
      let none_lost = is_empty-map (λ e. e.name) case.expected_tool_calls ∙ labelled in
      rw labelled (
        scored_total t _ named (selection_bounds _ _ none_lost),
        scored_total t _ named (success_bounds _),
        scored_total t _ named (trajectory_bounds _ _ none_lost),
      )
