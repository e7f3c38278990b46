-- ===== src/Promotion/Promote.antt =====
-- promotion.py: `promote_traces_to_dataset`, with the `get` and `add` of the repositories that it
-- uses. The rows found by a primary key, the database's verdict at the flush and fresh ids are
-- arguments.
use eval_ops.Prelude.{
  ℕ, suc, String, not, Option, none, some, List, [], ◌∷◌, ◌==◌, string_eq, distinct, length,
}
use eval_ops.Result.{Result, ok, err, config_error, record_not_found, ◌>>=◌, ◌>>◌, map_ok, raise_if}
use eval_ops.Double.{Double}
use eval_ops.Domain.Enums.{promoted_trace}
use eval_ops.Domain.Traces.{Project, ProductionTrace}
use eval_ops.Domain.Entities.{DatasetCase, new_dataset_case, Dataset, new_dataset, is_empty}
use eval_ops.Persist.Rows.{ProjectRow, ProductionTraceRow, DatasetRow}
use eval_ops.Persist.Flat.{project_from_orm, production_trace_from_orm}
use eval_ops.Persist.Runs.{dataset_to_orm}

pub record Session (W : Type 0) : Type 0 where
  pub project_row : String → Option ProjectRow
  pub trace_row : String → Option (ProductionTraceRow W)
  pub flush_dataset : DatasetRow W → Result (Unit {0})
  pub new_id : ℕ → String

module _ {W : Type 0} ⦃d : Double W⦄ (session : Session W) where
  unfoldable pub get_project : String → Result (Option Project)
  get_project id = elim (session.project_row id) [
    | none ↦ ok none
    | some row ↦ map_ok some (project_from_orm row)
  ]

  unfoldable pub get_trace : String → Result (Option (ProductionTrace W))
  get_trace id = elim (session.trace_row id) [
    | none ↦ ok none
    | some row ↦ map_ok some (production_trace_from_orm row)
  ]

  unfoldable pub add_dataset : Dataset W → Result (Dataset W)
  add_dataset v = do session.flush_dataset (dataset_to_orm v); ok v

  -- The case of a trace that has been found, with the number of its id.
  unfoldable pub promoted_case : String → ℕ → Option (ProductionTrace W) → Result (DatasetCase W)
  promoted_case project_id n none = err (record_not_found "production trace not found")
  promoted_case project_id n (some trace) = do
    raise_if (not (trace.project_id == project_id))
        (config_error "production trace belongs to another project")
    new_dataset_case (record {
      input = trace.input;
      expected_output = trace.reference_output;
      origin = promoted_trace;
      source_trace_id = some trace.id;
      expected_retrieval_ids = [];
      expected_tool_calls = [];
      id = session.new_id n;
    })

  -- The loop over the ids.
  unfoldable pub promoted_cases : String → ℕ → List String → Result (List (DatasetCase W))
  unfolding get_trace promoted_case
  promoted_cases project_id n [] = ok []
  promoted_cases project_id n (tid ∷ ids) =
      let rest = promoted_cases project_id (suc n) ids in
      get_trace tid >>= λ trace.
      promoted_case project_id n trace >>= λ case. map_ok (λ cases. case ∷ cases) rest

  -- `if ... is None: raise RecordNotFound`
  abbrev pub require_project : Option Project → Result (Unit {0})
  require_project none = err (record_not_found "project not found")
  require_project (some project) = ok tt

  unfoldable pub promote_traces_to_dataset : String → List String → String → Result (Dataset W)
  unfolding promoted_cases get_project add_dataset
  promote_traces_to_dataset project_id trace_ids name = do
    raise_if (is_empty trace_ids)
        (config_error "at least one trace id is required to build a dataset")
    raise_if (not (distinct trace_ids)) (config_error "duplicate trace id(s) in the selection")
    project ← get_project project_id
    require_project project
    cases ← promoted_cases project_id 0 trace_ids
    v ← new_dataset (record {
      project_id = project_id;
      name = name;
      version = 1;
      cases = cases;
      id = session.new_id (length trace_ids);
    })
    add_dataset v
