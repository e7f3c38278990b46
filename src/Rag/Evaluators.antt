-- ===== src/Rag/Evaluators.antt =====
-- rag_evaluators.py: `RetrievalRecall`, `ContextPrecision` and `GroundednessLexical`
use Prim.Native.String.{◌++◌ as join}
use eval_ops.Prelude.{
  String, true, not, ◌&&◌, List, [], ◌∷◌, map, string_eq, length, count_if, select, contains,
  to_set, if◌then◌else◌, some,
}
use eval_ops.Result.{Result, ok, config_error, ◌>>=◌, ◌>>◌, raise_if}
use eval_ops.Double.{Double, zero_f, one_f}
use eval_ops.Domain.Enums.{EvaluatorFamily, deterministic, statistical}
use eval_ops.Domain.Values.{EvaluatorScore, new_evaluator_score}
use eval_ops.Domain.Entities.{DatasetCase, EvaluationRun, is_empty}
use eval_ops.Rag.Words.{content_tokens, unique_ordered}

-- The fields of the three classes; `minimum` is `min_recall`, `min_precision` or
-- `min_groundedness`.
pub record RagEvaluator (W : Type 0) : Type 0 where
  pub minimum : W
  pub name : String

-- `" ".join(parts)`
abbrev pub join_spaced : List String → String
join_spaced [] = ""
join_spaced (part ∷ []) = part
join_spaced (part ∷ next ∷ parts) = join part (join " " (join_spaced (next ∷ parts)))

-- `relevant & retrieved`
unfoldable pub found_ids : List String → List String → List String
found_ids relevant retrieved = select (contains (to_set retrieved)) (to_set relevant)

module _ {W : Type 0} where
  unfoldable pub relevant_ids : DatasetCase W → Result (List String)
  unfolding unique_ordered
  relevant_ids case =
      let relevant = unique_ordered case.expected_retrieval_ids in
      raise_if (is_empty relevant)
        (config_error "evaluator requires expected_retrieval_ids, but the case has none")
      >> ok relevant

  unfoldable pub retrieved_ids : EvaluationRun W → List String
  unfolding unique_ordered
  retrieved_ids run = unique_ordered (map (λ item. item.doc_id) run.retrieval)

module _ {W : Type 0} ⦃d : Double W⦄ where
  unfoldable pub threshold : W → Result W
  threshold value =
      raise_if (not (d.le zero_f value && d.le value one_f))
        (config_error "the threshold must be a number within [0, 1]")
      >> ok value

  -- The constructor of each evaluator.
  unfoldable pub new_rag_evaluator : RagEvaluator W → Result (RagEvaluator W)
  unfolding threshold
  new_rag_evaluator t = do minimum ← threshold t.minimum; ok t

  -- The score of an evaluator, which passes from `minimum` on.
  unfoldable pub graded : EvaluatorFamily → RagEvaluator W → W → Result (EvaluatorScore W)
  graded family t score = new_evaluator_score (record {
    evaluator = t.name;
    family = family;
    score = score;
    passed = some (d.le t.minimum score);
  })

  unfoldable pub recall_of : List String → List String → W
  unfolding found_ids
  recall_of relevant retrieved =
      d.ratio (length (found_ids relevant retrieved)) (length (to_set relevant))

  unfoldable pub retrieval_recall :
      RagEvaluator W → EvaluationRun W → DatasetCase W → Result (EvaluatorScore W)
  unfolding recall_of relevant_ids retrieved_ids graded
  retrieval_recall t run case = do
    relevant ← relevant_ids case
    graded statistical t (recall_of relevant (retrieved_ids run))

  unfoldable pub precision_of : List String → List String → W
  precision_of relevant retrieved =
      if is_empty retrieved
      then zero_f
      else d.ratio (count_if (contains (to_set relevant)) retrieved) (length retrieved)

  unfoldable pub context_precision :
      RagEvaluator W → EvaluationRun W → DatasetCase W → Result (EvaluatorScore W)
  unfolding precision_of relevant_ids retrieved_ids graded
  context_precision t run case = do
    relevant ← relevant_ids case
    graded statistical t (precision_of relevant (retrieved_ids run))

  unfoldable pub grounded_share : List String → List String → W
  grounded_share answer context =
      d.ratio (length (select (contains context) answer)) (length answer)

  -- What follows once both sets of words are there.
  unfoldable pub grounded_result :
      RagEvaluator W → List String → List String → Result (EvaluatorScore W)
  unfolding grounded_share graded
  grounded_result t answer context =
      if is_empty answer
      then new_evaluator_score
          (record { evaluator = t.name; family = deterministic; score = one_f; passed = some true })
      else graded deterministic t (grounded_share answer context)

  unfoldable pub groundedness_lexical :
      (String → String)
      → RagEvaluator W
      → EvaluationRun W
      → DatasetCase W
      → Result (EvaluatorScore W)
  unfolding content_tokens grounded_result
  groundedness_lexical lower t run case =
      grounded_result t (content_tokens lower run.output)
        (content_tokens lower (join_spaced (map (λ item. item.content) run.retrieval)))
