-- ===== src/Persist/JsonRoundTrip.antt =====
-- That the lists in JSON columns, the datasets and the runs are read back unchanged.
use mathlib.Core.List.{Permᴰ}
use eval_ops.Prelude.{
  ℕ, suc, String, ◌≡◌, refl, ap, false, Option, none, some, List, [], ◌∷◌, arith, All, ◌==◌,
  string_eq, nat_eq, Bool-cases, inl, inr,
}
use package.text.Mathlib.TextEquality.{eq_iff}
use eval_ops.Result.{Result, ok}
use eval_ops.Double.{Double}
use eval_ops.Text.{is_blank}
use eval_ops.Domain.Values.{
  Value, Fields, end, field, text, object, float, RetrievedItem, new_retrieved_item, ToolCall,
  new_tool_call, ExpectedToolCall, new_expected_tool_call, new_usage_metrics, require_non_empty,
}
use eval_ops.Domain.Entities.{
  DatasetCase, new_dataset_case, Dataset, new_dataset, EvaluationRun, new_evaluation_run,
}
use eval_ops.Persist.Json.{
  Builtins, items_of, retrieval_entry, tool_call_entry, expected_entry, retrieval_to_json,
  tool_calls_to_json, expected_tool_calls_to_json, retrieval_item, tool_call_item, expected_item,
  read_items, option_value, unless_null, dict_of, float_of, error_of, or_empty,
}
use eval_ops.Persist.Runs.{
  case_to_orm, case_from_orm, dataset_to_orm, dataset_from_orm, evaluation_run_to_orm,
  evaluation_run_from_orm,
}
use eval_ops.Persist.Rows.{DatasetCaseRow}
use eval_ops.Persist.RoundTrip.{traverse-handed}

-- Entries that are each read back let the list be read back.
read_items-items_of :
    {W A : Type 0} (write : A → Value W) (read : ℕ → Value W → Option (Result A))
    (Good : A → Type 0)
    → ((n : ℕ) (x : A) → Good x → read n (write x) ≡ some (ok x))
    → (n : ℕ) (xs : List A) → All Good xs
    → read_items read n (items_of write xs) ≡ ok xs
read_items-items_of write read Good back n [] h = refl
read_items-items_of write read Good back n (x ∷ xs) h =
    let first = back n x h.0 in
    let rest = read_items-items_of write read Good back (suc n) xs h.1 in rw (first, rest) refl

-- A text that is not blank is not empty.
visible_truth : (s : String) → is_blank s ≡ false → (s == "") ≡ false
unfolding is_blank
visible_truth s h = elim (Bool-cases (s == "")) [
  | inl e ↦ (let empty = (eq_iff s "").0 e in cc (h, ap is_blank empty))
  | inr e ↦ e
]

module _ {W : Type 0} ⦃d : Double W⦄ where
  -- A run, its usage and each of its items have passed their constructors.
  abbrev pub BuiltRun : EvaluationRun W → Type 0
  BuiltRun v =
      (new_evaluation_run v ≡ ok v)
      × (new_usage_metrics v.usage ≡ ok v.usage)
      × All (λ i. new_retrieved_item i ≡ ok i) v.retrieval
      × All (λ c. new_tool_call c ≡ ok c) v.tool_calls

  -- A case and each of its expected calls have passed their constructors.
  abbrev pub BuiltCase : DatasetCase W → Type 0
  BuiltCase c =
      (new_dataset_case c ≡ ok c) × All (λ e. new_expected_tool_call e ≡ ok e) c.expected_tool_calls

module _ {W : Type 0} ⦃d : Double W⦄ (b : Builtins W) where
  score_back : (o : Option W) → unless_null b (float_of b) (option_value float o) ≡ ok o
  score_back none = refl
  score_back (some x) = refl

  error_back : (o : Option String) → error_of b (option_value text o) ≡ ok o
  error_back none = refl
  error_back (some x) = refl

  arguments_back :
      (o : Option (Fields W)) → unless_null b (dict_of b) (option_value object o) ≡ ok o
  arguments_back none = refl
  arguments_back (some x) = refl

  or_empty_back : (fs : Fields W) → dict_of b (or_empty b (object fs)) ≡ ok fs
  or_empty_back end = refl
  or_empty_back (field k v fs) = refl

  retrieval_visible :
      (x : RetrievedItem W) → new_retrieved_item x ≡ ok x → is_blank x.doc_id ≡ false
  unfolding new_retrieved_item require_non_empty
  retrieval_visible x h = ground arith

  tool_call_visible : (x : ToolCall W) → new_tool_call x ≡ ok x → is_blank x.name ≡ false
  unfolding new_tool_call require_non_empty
  tool_call_visible x h = ground arith

  expected_visible :
      (x : ExpectedToolCall W) → new_expected_tool_call x ≡ ok x → is_blank x.name ≡ false
  unfolding new_expected_tool_call require_non_empty
  expected_visible x h = ground arith

  retrieval_item_back :
      (n : ℕ) (x : RetrievedItem W)
      → new_retrieved_item x ≡ ok x
      → retrieval_item b n (retrieval_entry x) ≡ some (ok x)
  unfolding retrieval_item retrieval_entry
  retrieval_item_back n x h =
      rw (visible_truth x.doc_id (retrieval_visible x h), score_back x.score) (ap some h)

  tool_call_item_back :
      (n : ℕ) (x : ToolCall W)
      → new_tool_call x ≡ ok x
      → tool_call_item b n (tool_call_entry x) ≡ some (ok x)
  unfolding tool_call_item tool_call_entry
  tool_call_item_back n x h =
      rw
        (
          visible_truth x.name (tool_call_visible x h),
          or_empty_back x.arguments,
          error_back x.error,
        )
        (ap some h)

  expected_item_back :
      (n : ℕ) (x : ExpectedToolCall W)
      → new_expected_tool_call x ≡ ok x
      → expected_item b n (expected_entry x) ≡ some (ok x)
  unfolding expected_item expected_entry
  expected_item_back n x h =
      rw (visible_truth x.name (expected_visible x h), arguments_back x.arguments) (ap some h)

  -- A run that has been built is read back as it was stored, its retrieved items and tool calls
  -- through JSON included.
  pub evaluation_run_back :
      (v : EvaluationRun W)
      → BuiltRun v
      → evaluation_run_from_orm b (evaluation_run_to_orm v) ≡ ok v
  unfolding evaluation_run_from_orm evaluation_run_to_orm retrieval_to_json tool_calls_to_json
  evaluation_run_back v (built, usage, retrieval, calls) =
      rw
        (
          read_items-items_of retrieval_entry (retrieval_item b) (λ i. new_retrieved_item i ≡ ok i)
              retrieval_item_back 0 v.retrieval retrieval,
          read_items-items_of tool_call_entry (tool_call_item b) (λ c. new_tool_call c ≡ ok c)
              tool_call_item_back 0 v.tool_calls calls,
          usage,
        )
        built

  case_back : (n : ℕ) (c : DatasetCase W) → BuiltCase c → case_from_orm b (case_to_orm n c) ≡ ok c
  unfolding case_from_orm case_to_orm expected_tool_calls_to_json
  case_back n c (built, calls) =
      rw
        (read_items-items_of expected_entry (expected_item b) (λ e. new_expected_tool_call e ≡ ok e)
          expected_item_back 0 c.expected_tool_calls calls)
        built

  -- A dataset that has been built is read back as it was stored, its cases in order, in whichever
  -- order the database hands out their rows.
  pub dataset_back :
      (v : Dataset W) (cases : List (DatasetCaseRow W))
      → new_dataset v ≡ ok v
      → All BuiltCase v.cases
      → Permᴰ (dataset_to_orm v).cases cases
      → dataset_from_orm b (record (dataset_to_orm v) { cases = cases }) ≡ ok v
  unfolding dataset_from_orm dataset_to_orm case_to_orm
  dataset_back v rows built cases p =
      rw
        (traverse-handed (λ r. r.position) case_to_orm (case_from_orm b) BuiltCase (λ n c. refl)
          case_back v.cases rows cases p)
        built
