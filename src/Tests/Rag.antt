-- ===== src/Tests/Rag.antt =====
-- Runs of the evaluators of retrieval.
use eval_ops.Prelude.{
  some, arith, String, ◌≡◌, refl, ◌↔◌, true, false, none, [], ◌∷◌, contains, distinct, string_eq,
}
use eval_ops.Result.{ok, is_ok}
use eval_ops.Double.{◌≼◌}
use eval_ops.Double.Milli.{Milli, nonneg, milli}
use eval_ops.Double.Laws.{milli_laws}
use eval_ops.Text.{is_blank}
use eval_ops.Domain.Enums.{authored, statistical}
use eval_ops.Domain.Values.{zero_usage, EvaluatorScore, new_evaluator_score, require_non_empty}
use eval_ops.Domain.Entities.{DatasetCase, EvaluationRun}
use eval_ops.Rag.Words.{unique_ordered, unique_from, content_tokens, words_from}
use eval_ops.Rag.Evaluators.{
  RagEvaluator, found_ids, retrieval_recall, context_precision, relevant_ids, retrieved_ids,
  recall_of, graded,
}
use eval_ops.Rag.Unique.{unique_ordered_lem}
use eval_ops.Rag.Scores.{retrieval_scored}
use eval_ops.Rag.Full.{full_recall_iff}

abbrev asked : DatasetCase Milli
asked = record {
  input = "hello";
  expected_output = none;
  origin = authored;
  source_trace_id = none;
  expected_retrieval_ids = "a" ∷ "b" ∷ "a" ∷ [];
  expected_tool_calls = [];
  id = "c";
}

abbrev retrieving : EvaluationRun Milli
retrieving = record {
  experiment_id = "x";
  system_version_id = "b";
  case_id = "c";
  repeat_index = 0;
  output = "The capital is Paris";
  usage = zero_usage;
  error = none;
  retrieval =
      record { doc_id = "b"; content = "Paris is the capital"; rank = 0; score = none } ∷ [];
  tool_calls = [];
  id = "r";
}

abbrev recall : RagEvaluator Milli
recall = record { minimum = nonneg 1000; name = "retrieval_recall" }

visible : is_blank "retrieval_recall" ≡ false
unfolding is_blank
visible = refl

words : content_tokens (λ s. s) "the capital is paris-2" ≡ "capital" ∷ "paris" ∷ []
unfolding content_tokens words_from
words = refl

unique_ordered_lem_example :
    (distinct (unique_ordered ("a" ∷ "b" ∷ "a" ∷ [])) ≡ true)
    × ((a : String)
        → contains (unique_ordered ("a" ∷ "b" ∷ "a" ∷ [])) a ≡ contains ("a" ∷ "b" ∷ "a" ∷ []) a)
unique_ordered_lem_example = unique_ordered_lem ("a" ∷ "b" ∷ "a" ∷ [])

-- One of the two relevant ids is retrieved.
abbrev half : EvaluatorScore Milli
half = record {
  evaluator = "retrieval_recall";
  family = statistical;
  score = nonneg 500;
  passed = some false;
}

recall_half : retrieval_recall recall retrieving asked ≡ ok half
unfolding retrieval_recall relevant_ids retrieved_ids unique_ordered unique_from recall_of found_ids
    graded new_evaluator_score require_non_empty is_blank
recall_half = refl

full_recall_iff_example :
    (nonneg 1000 ≼ nonneg 500)
    ↔ ((a : String) → contains ("a" ∷ "b" ∷ "a" ∷ []) a ≡ true → contains ("b" ∷ []) a ≡ true)
full_recall_iff_example =
    full_recall_iff milli_laws recall retrieving asked half recall_half (omega arith)

retrieval_scored_example :
    (is_ok (retrieval_recall recall retrieving asked) ≡ true)
    × (is_ok (context_precision recall retrieving asked) ≡ true)
retrieval_scored_example = retrieval_scored milli_laws recall retrieving asked visible refl
