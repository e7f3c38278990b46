-- ===== src/Agent/Full.antt =====
-- What a full trajectory score means.
use eval_ops.Prelude.{
  ◌+◌, ◌*◌, ◌≤◌, String, ◌≡◌, refl, sym, ap, ◌∙◌, ◌↔◌, subst, false, List, [], ◌∷◌, map, inl, inr,
  arith, length, length-map, string_eq,
}
use eval_ops.Result.{ok, >>=-eq-ok}
use eval_ops.Double.{Double, IsOrdered, ◌≼◌, one_f}
use eval_ops.Double.Full.{full_ratio}
use eval_ops.Domain.Values.{ExpectedToolCall, EvaluatorScore, new_evaluator_score}
use eval_ops.Domain.Entities.{DatasetCase, EvaluationRun, is_empty}
use eval_ops.Agent.Subsequence.{lcs_len}
use eval_ops.Agent.Longest.{IsSubsequence}
use eval_ops.Agent.Rows.{lcs_len-IsLongest}
use eval_ops.Agent.Scores.{subsequence_short, lcs_le, is_empty-map}
use eval_ops.Agent.Evaluators.{
  ToolEvaluator, scored, trajectory_score, tool_trajectory, expected_calls,
}

module _ {A : Type 0} where
  subsequence_full : (zs a : List A) → IsSubsequence zs a → length zs ≡ length a → zs ≡ a
  subsequence_full [] [] h l = refl
  subsequence_full [] (x ∷ a) h l = absurd (omega (arith, l))
  subsequence_full (z ∷ zs) [] h l = absurd h
  subsequence_full (z ∷ zs) (x ∷ a) (inl h) l =
      let same = subsequence_full zs a h.1 (omega (arith, l)) in cc (h.0, same)
  subsequence_full (z ∷ zs) (x ∷ a) (inr h) l =
      absurd (omega (arith, l, subsequence_short (z ∷ zs) a h))

  IsSubsequence-self : (a : List A) → IsSubsequence a a
  IsSubsequence-self [] = tt
  IsSubsequence-self (x ∷ a) = inl (refl, IsSubsequence-self a)

same_sequence :
    (expected observed : List String)
    → (2 * lcs_len expected observed ≡ length expected + length observed) ↔ (expected ≡ observed)
same_sequence a b = (
  λ full.
      let ((zs, p, q, l), _) = lcs_len-IsLongest a b in
      let (la, lb) = lcs_le a b in
      sym (subsequence_full zs a p (omega (arith, full, l, la, lb)))
      ∙ subsequence_full zs b q (omega (arith, full, l, la, lb)),
  λ same.
      let (_, top) = lcs_len-IsLongest a b in
      let (la, lb) = lcs_le a b in
      let self =
        top a (IsSubsequence-self a) (subst (IsSubsequence a) same (IsSubsequence-self a)) in
      let lengths : length a ≡ length b = ap length same in omega (arith, self, la, lb, lengths),
)

module _ {W : Type 0} ⦃d : Double W⦄ where
  expected_calls-eq :
      (case : DatasetCase W) (calls : List (ExpectedToolCall W))
      → expected_calls case ≡ ok calls
      → (is_empty case.expected_tool_calls ≡ false) × (case.expected_tool_calls ≡ calls)
  unfolding expected_calls
  expected_calls-eq case calls h = ground arith

  scored-eq : (t : ToolEvaluator W) (x : W) (s : EvaluatorScore W) → scored t x ≡ ok s → x ≡ s.score
  unfolding scored new_evaluator_score
  scored-eq t x s h = ground arith

module _ {W : Type 0} ⦃d : Double W⦄ (laws : IsOrdered W) where
  trajectory_full :
      (expected observed : List String)
      → is_empty expected ≡ false
      → length expected + length observed ≤ 9007199254740992
      → (one_f ≼ trajectory_score {W = W} expected observed) ↔ (expected ≡ observed)
  unfolding trajectory_score
  trajectory_full [] observed h small = absurd (cc h)
  trajectory_full (x ∷ xs) observed h small =
      let (la, lb) = lcs_le (x ∷ xs) observed in
      let (there, back) =
        full_ratio laws (2 * lcs_len (x ∷ xs) observed) (length (x ∷ xs) + length observed)
          (omega (arith, la, lb)) (omega arith) small in
      let (same, full) = same_sequence (x ∷ xs) observed in
      (λ top. same (there top), λ e. back (full e))

  -- A score that the evaluator of trajectories returns is at least 1 exactly if the names of the
  -- tools that are called are the expected ones, in the same order and as often, where the expected
  -- and the observed calls are at most 2 ** 53 together.
  pub full_trajectory_iff :
      (t : ToolEvaluator W) (run : EvaluationRun W) (case : DatasetCase W) (s : EvaluatorScore W)
      → tool_trajectory t run case ≡ ok s
      → length case.expected_tool_calls + length run.tool_calls ≤ 9007199254740992
      → (one_f ≼ s.score)
        ↔ (map (λ e. e.name) case.expected_tool_calls ≡ map (λ c. c.name) run.tool_calls)
  unfolding tool_trajectory
  full_trajectory_iff t run case s h small =
      let (calls, found, graded) = >>=-eq-ok (expected_calls case) _ h in
      let (labelled, same) = expected_calls-eq case calls found in
      let value = scored-eq t _ s graded in
      let wanted = map (λ e. e.name) case.expected_tool_calls in
      let seen = map (λ c. c.name) run.tool_calls in
      let sizes : length wanted + length seen ≤ 9007199254740992 = omega (
        arith,
        small,
        length-map (λ e. e.name) case.expected_tool_calls,
        length-map (λ c. c.name) run.tool_calls,
      ) in
      subst (λ (x : W). (one_f ≼ x) ↔ (wanted ≡ seen))
        (subst (λ cs. trajectory_score (map (λ e. e.name) cs) seen ≡ s.score) (sym same) value)
        (trajectory_full wanted seen
          (is_empty-map laws (λ e. e.name) case.expected_tool_calls ∙ labelled) sizes)
