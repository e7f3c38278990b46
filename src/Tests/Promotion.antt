-- ===== src/Tests/Promotion.antt =====
-- The promotion of one production trace.
use eval_ops.Prelude.{
  String, ◌≡◌, refl, true, some, none, [], ◌∷◌, string_eq, nat_eq, ◌==◌, if◌then◌else◌, distinct,
}
use eval_ops.Result.{ok}
use eval_ops.Double.Milli.{Milli, milli}
use eval_ops.Text.{is_blank, show_nat}
use eval_ops.Domain.Enums.{promoted_trace}
use eval_ops.Domain.Values.{end, require_non_empty}
use eval_ops.Domain.Traces.{production, new_project, new_production_trace}
use eval_ops.Domain.Entities.{Dataset, new_dataset_case, new_dataset, require_origin}
use eval_ops.Persist.Rows.{ProductionTraceRow}
use eval_ops.Persist.Flat.{project_from_orm, production_trace_from_orm}
use eval_ops.Promotion.Promote.{
  Session, get_project, get_trace, add_dataset, promoted_case, promoted_cases,
  promote_traces_to_dataset,
}
use eval_ops.Promotion.Provenance.{ArePromoted, promote-ArePromoted}

abbrev stored_trace : ProductionTraceRow Milli
stored_trace = record {
  id = "t1";
  project_id = "p";
  system_version_id = "b";
  input = "hello";
  output = "wrong";
  reference_output = some "hi";
  trace_metadata = end;
  latency_ms = none;
  cost_usd = none;
  error = none;
  origin = production;
}

abbrev session : Session Milli
session = record {
  project_row = λ id. some (record { id = id; name = "demo" });
  trace_row = λ id. if id == "t1" then some stored_trace else none;
  flush_dataset = λ row. ok tt;
  new_id = λ n. show_nat n;
}

abbrev promoted : Dataset Milli
promoted = record {
  project_id = "p";
  name = "replay";
  version = 1;
  cases =
      record {
        input = "hello";
        expected_output = some "hi";
        origin = promoted_trace;
        source_trace_id = some "t1";
        expected_retrieval_ids = [];
        expected_tool_calls = [];
        id = "0";
      }
      ∷ [];
  id = "1";
}

promotes : promote_traces_to_dataset session "p" ("t1" ∷ []) "replay" ≡ ok promoted
unfolding promote_traces_to_dataset get_project project_from_orm new_project promoted_cases
    get_trace production_trace_from_orm new_production_trace promoted_case new_dataset_case
    new_dataset require_origin require_non_empty is_blank add_dataset show_nat
promotes = refl

promote-ArePromoted_example :
    ArePromoted session "p" ("t1" ∷ []) promoted.cases
    × (distinct {A = String} ("t1" ∷ []) ≡ true)
    × (promoted.project_id ≡ "p")
    × (promoted.name ≡ "replay")
    × (promoted.version ≡ 1)
promote-ArePromoted_example = promote-ArePromoted session "p" ("t1" ∷ []) "replay" promoted promotes
