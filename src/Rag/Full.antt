-- ===== src/Rag/Full.antt =====
-- What a full recall means.
use eval_ops.Prelude.{
  suc, ◌≤◌, String, ◌≡◌, refl, sym, ap, ◌∙◌, ◌↔◌, Bool, true, false, List, [], ◌∷◌, All, inl, inr,
  arith, length, count_if, count_if-le-length, length-select, contains, contains-to_set, to_set,
  string_eq, Bool-cases, subst, map, ◌==◌, beq_self, ◌||◌,
}
use eval_ops.Result.{ok, >>=-eq-ok}
use eval_ops.Double.{Double, IsOrdered, ◌≼◌, one_f}
use eval_ops.Double.Full.{full_ratio}
use eval_ops.Domain.Enums.{EvaluatorFamily, statistical}
use eval_ops.Domain.Values.{EvaluatorScore, new_evaluator_score}
use eval_ops.Domain.Entities.{DatasetCase, EvaluationRun, is_empty}
use eval_ops.Agent.Scores.{to_set_nonempty}
use eval_ops.Rag.Words.{unique_ordered, unique_from}
use eval_ops.Rag.Unique.{unique_ordered_lem}
use eval_ops.Rag.Evaluators.{
  RagEvaluator, graded, found_ids, recall_of, retrieval_recall, relevant_ids, retrieved_ids,
}

full_count :
    (p : String → Bool) (xs : List String) → (count_if p xs ≡ length xs) ↔ All (λ x. p x ≡ true) xs
full_count p [] = (λ h. tt, λ h. refl)
full_count p (x ∷ xs) =
    let few = count_if-le-length p xs in
    let (there, back) = full_count p xs in
    elim (Bool-cases (p x)) [
      | inl h ↦
          (λ full. (h, there (omega (arith, rw h at full))), λ all. rw h (ap suc (back all.1)))
      | inr h ↦ (λ full. absurd (omega (arith, rw h at full, few)), λ all. absurd (cc (all.0, h)))
    ]

-- What holds of every item holds of each member.
All-contains :
    (p : String → Bool) (xs : List String)
    → All (λ x. p x ≡ true) xs ↔ ((a : String) → contains xs a ≡ true → p a ≡ true)
All-contains p [] = (λ h a k. absurd (cc k), λ h. tt)
All-contains p (x ∷ xs) =
    let (there, back) = All-contains p xs in
    (
      λ h a k. elim (Bool-cases (x == a)) [
        | inl e ↦ sym (ap p ((string_eq.beq_iff x a).0 e)) ∙ h.0
        | inr e ↦ there h.1 a (rw e at k)
      ],
      λ h. (h x (rw (beq_self x) refl), back (λ a k. h a (later (x == a) (contains xs a) k))),
    )
  where
    later : (b c : Bool) → c ≡ true → (b || c) ≡ true
    later b c h = ground (arith, h)

all_found :
    (relevant retrieved : List String)
    → (length (found_ids relevant retrieved) ≡ length (to_set relevant))
      ↔ ((a : String) → contains relevant a ≡ true → contains retrieved a ≡ true)
unfolding found_ids
all_found relevant retrieved =
    let found = contains (to_set retrieved) in
    let (there, back) = full_count found (to_set relevant) in
    let (each, gather) = All-contains found (to_set relevant) in
    let size = length-select found (to_set relevant) in
    (
      λ full a k.
          sym (contains-to_set a retrieved)
          ∙ each (there (sym size ∙ full)) a (contains-to_set a relevant ∙ k),
      λ all.
          size
          ∙ back (
              gather (λ a k.
                contains-to_set a retrieved ∙ all a (sym (contains-to_set a relevant) ∙ k))),
    )

length-to_set : (xs : List String) → length (to_set xs) ≤ length xs
length-to_set [] = omega arith
length-to_set (x ∷ xs) = ground (arith, length-to_set xs)

length-unique_from : (seen ids : List String) → length (unique_from seen ids) ≤ length ids
unfolding unique_from
length-unique_from seen [] = omega arith
length-unique_from seen (v ∷ ids) =
    ground (arith, length-unique_from seen ids, length-unique_from (v ∷ seen) ids)

length-unique_ordered : (ids : List String) → length (unique_ordered ids) ≤ length ids
unfolding unique_ordered
length-unique_ordered ids = length-unique_from [] ids

module _ {W : Type 0} ⦃d : Double W⦄ where
  relevant_ids-eq :
      (case : DatasetCase W) (ids : List String)
      → relevant_ids case ≡ ok ids
      → (is_empty ids ≡ false) × (unique_ordered case.expected_retrieval_ids ≡ ids)
  unfolding relevant_ids
  relevant_ids-eq case ids h = ground arith

  graded-eq :
      (family : EvaluatorFamily) (t : RagEvaluator W) (x : W) (s : EvaluatorScore W)
      → graded family t x ≡ ok s
      → x ≡ s.score
  unfolding graded new_evaluator_score
  graded-eq family t x s h = ground arith

module _ {W : Type 0} ⦃d : Double W⦄ (laws : IsOrdered W) where
  recall_full :
      (relevant retrieved : List String)
      → is_empty relevant ≡ false
      → length relevant ≤ 9007199254740992
      → (one_f ≼ recall_of {W = W} relevant retrieved)
        ↔ ((a : String) → contains relevant a ≡ true → contains retrieved a ≡ true)
  unfolding recall_of found_ids
  recall_full relevant retrieved h small =
      let size = length-select (contains (to_set retrieved)) (to_set relevant) in
      let few = count_if-le-length (contains (to_set retrieved)) (to_set relevant) in
      let (there, back) =
        full_ratio laws (length (found_ids relevant retrieved)) (length (to_set relevant))
          (omega (arith, size, few)) (to_set_nonempty relevant h)
          (omega (arith, small, length-to_set relevant)) in
      let (every, full) = all_found relevant retrieved in
      (λ top. every (there top), λ e. back (full e))

  -- A score that the evaluator of recall returns is at least 1 exactly if every id that the case
  -- expects is among the retrieved ones, where the case lists at most 2 ** 53 ids.
  pub full_recall_iff :
      (t : RagEvaluator W) (run : EvaluationRun W) (case : DatasetCase W) (s : EvaluatorScore W)
      → retrieval_recall t run case ≡ ok s
      → length case.expected_retrieval_ids ≤ 9007199254740992
      → (one_f ≼ s.score) ↔ (
          (a : String)
          → contains case.expected_retrieval_ids a ≡ true
          → contains (map (λ item. item.doc_id) run.retrieval) a ≡ true)
  unfolding retrieval_recall retrieved_ids
  full_recall_iff t run case s h small =
      let (relevant, found, grade) = >>=-eq-ok (relevant_ids case) _ h in
      let (labelled, same) = relevant_ids-eq case relevant found in
      let value = graded-eq statistical t _ s grade in
      let wanted = unique_ordered case.expected_retrieval_ids in
      let seen = unique_ordered (map (λ item. item.doc_id) run.retrieval) in
      let sizes : length wanted ≤ 9007199254740992 =
        omega (arith, small, length-unique_ordered case.expected_retrieval_ids) in
      let (there, back) = recall_full wanted seen (ap is_empty same ∙ labelled) sizes in
      let score : recall_of wanted seen ≡ s.score =
        subst (λ ids. recall_of ids seen ≡ s.score) (sym same) value in
      let (_, asked) = unique_ordered_lem case.expected_retrieval_ids in
      let (_, given) = unique_ordered_lem (map (λ item. item.doc_id) run.retrieval) in
      (
        λ top a k.
            sym (given a) ∙ there (subst (λ (x : W). one_f ≼ x) (sym score) top) a (asked a ∙ k),
        λ all.
            subst (λ (x : W). one_f ≼ x) score (back (λ a k. given a ∙ all a (sym (asked a) ∙ k))),
      )
