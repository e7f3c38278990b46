-- ===== src/Persist/Runs.antt =====
-- db/mapping.py: datasets and evaluation runs. A dataset's cases are read through the relationship,
-- which sorts the rows that the database hands out.
use eval_ops.Prelude.{ℕ}
use eval_ops.Result.{Result, ◌>>=◌, traverse}
use eval_ops.Double.{Double}
use eval_ops.Domain.Values.{new_usage_metrics}
use eval_ops.Domain.Entities.{
  DatasetCase, new_dataset_case, Dataset, new_dataset, EvaluationRun, new_evaluation_run,
}
use eval_ops.Persist.Rows.{DatasetCaseRow, DatasetRow, EvaluationRunRow}
use eval_ops.Persist.Loaded.{enumerated, loaded}
use eval_ops.Persist.Json.{
  Builtins, retrieval_to_json, tool_calls_to_json, expected_tool_calls_to_json, retrieval_item,
  tool_call_item, expected_item, read_array,
}

module _ {W : Type 0} where
  unfoldable pub case_to_orm : ℕ → DatasetCase W → DatasetCaseRow W
  case_to_orm position v = record {
    id = v.id;
    position = position;
    input = v.input;
    expected_output = v.expected_output;
    expected_retrieval_ids = v.expected_retrieval_ids;
    expected_tool_calls = expected_tool_calls_to_json v.expected_tool_calls;
    origin = v.origin;
    source_trace_id = v.source_trace_id;
  }

  unfoldable pub dataset_to_orm : Dataset W → DatasetRow W
  unfolding case_to_orm
  dataset_to_orm v = record {
    id = v.id;
    project_id = v.project_id;
    name = v.name;
    version = v.version;
    cases = enumerated case_to_orm 0 v.cases;
  }

  unfoldable pub evaluation_run_to_orm : EvaluationRun W → EvaluationRunRow W
  evaluation_run_to_orm v = record {
    id = v.id;
    experiment_id = v.experiment_id;
    system_version_id = v.system_version_id;
    case_id = v.case_id;
    repeat_index = v.repeat_index;
    output = v.output;
    error = v.error;
    retrieval = retrieval_to_json v.retrieval;
    tool_calls = tool_calls_to_json v.tool_calls;
    prompt_tokens = v.usage.prompt_tokens;
    completion_tokens = v.usage.completion_tokens;
    cost_usd = v.usage.cost_usd;
    latency_ms = v.usage.latency_ms;
  }

module _ {W : Type 0} ⦃d : Double W⦄ (b : Builtins W) where
  unfoldable pub case_from_orm : DatasetCaseRow W → Result (DatasetCase W)
  case_from_orm row = do
    calls ← read_array (expected_item b) row.expected_tool_calls
    new_dataset_case (record {
      id = row.id;
      input = row.input;
      expected_output = row.expected_output;
      expected_retrieval_ids = row.expected_retrieval_ids;
      expected_tool_calls = calls;
      origin = row.origin;
      source_trace_id = row.source_trace_id;
    })

  unfoldable pub dataset_from_orm : DatasetRow W → Result (Dataset W)
  unfolding case_from_orm loaded
  dataset_from_orm row = do
    cases ← traverse case_from_orm (loaded (λ r. r.position) row.cases)
    new_dataset (record {
      id = row.id;
      project_id = row.project_id;
      name = row.name;
      version = row.version;
      cases = cases;
    })

  unfoldable pub evaluation_run_from_orm : EvaluationRunRow W → Result (EvaluationRun W)
  evaluation_run_from_orm row = do
    retrieval ← read_array (retrieval_item b) row.retrieval
    tool_calls ← read_array (tool_call_item b) row.tool_calls
    usage ← new_usage_metrics (record {
      prompt_tokens = row.prompt_tokens;
      completion_tokens = row.completion_tokens;
      cost_usd = row.cost_usd;
      latency_ms = row.latency_ms;
    })
    new_evaluation_run (record {
      id = row.id;
      experiment_id = row.experiment_id;
      system_version_id = row.system_version_id;
      case_id = row.case_id;
      repeat_index = row.repeat_index;
      output = row.output;
      error = row.error;
      retrieval = retrieval;
      tool_calls = tool_calls;
      usage = usage;
    })
