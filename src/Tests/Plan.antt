-- ===== src/Tests/Plan.antt =====
-- A run plan that is read from a small document.
use eval_ops.Prelude.{
  String, ◌≡◌, refl, true, some, none, List, [], ◌∷◌, string_eq, nat_eq, Option, Exists, length,
  count_if, not, All, map, distinct,
}
use eval_ops.Result.{ok}
use eval_ops.Double.Milli.{Milli, milli}
use eval_ops.Text.{is_blank}
use eval_ops.Domain.Enums.{ProviderName, openai, authored}
use eval_ops.Domain.Values.{
  Value, Fields, end, field, object, text, array, nil, cons, nonneg, require_non_empty,
}
use eval_ops.Domain.Traces.{new_project}
use eval_ops.Domain.Entities.{
  SystemVersion, DatasetCase, Dataset, new_system_version, new_dataset_case, new_dataset,
  new_experiment, new_release_policy, check_threshold, require_origin,
}
use eval_ops.Providers.Registry.{Adapter, mock_adapter, mock, ExecutionSpec, build_providers}
use eval_ops.Providers.Covered.{Serves, build_providers-cover}
use eval_ops.Evaluators.Match.{Matching}
use eval_ops.Evaluators.Build.{
  BuiltEvaluator, exact, recall, evaluator_name, build_evaluators, build_from, evaluator_from,
  evaluator_of, spec_bool, spec_float,
}
use eval_ops.Rag.Evaluators.{new_rag_evaluator, threshold}
use eval_ops.Evaluators.Ranges.{InRange}
use eval_ops.Evaluators.Names.{build_evaluators_lem}
use eval_ops.Datasets.Jsonl.{
  load_jsonl, parse_lines, parse_line, parse_object, parse_expected_tool_calls, case_id_of,
}
use eval_ops.Datasets.Cases.{IsAuthored, load_jsonl_lem}
use eval_ops.Config.Policy.{build_policy, policy_section, policy_from, read_thresholds}
use eval_ops.Aggregate.Metrics.{expected_metric_names}
use eval_ops.Config.Sections.{
  build_system_version, check_reference_outputs, check_retrieval_labels, check_tool_labels,
  read_backend, config_evaluators, config_providers,
}
use eval_ops.Config.Plan.{RunPlan, Reading, plan_from, load_run_plan}
use eval_ops.Config.Labels.{IsRunnable, load_run_plan-IsRunnable}

abbrev fields : List (String × Value Milli) → Fields Milli
fields [] = end
fields ((name, v) ∷ rest) = field name v (fields rest)

abbrev exact_spec : Value Milli
exact_spec = object (field "type" (text "exact_match") end)

abbrev recall_spec : Value Milli
recall_spec = object (field "type" (text "retrieval_recall") (field "name" (text "recall") end))

abbrev version_section : Value Milli
version_section = object (
    fields (
      ("name", text "bot")
      ∷ ("version", text "1")
      ∷ ("provider", text "openai")
      ∷ ("model", text "m")
      ∷ ("prompt_template", text "say ${input}")
      ∷ []))

abbrev document : Value Milli
document = object (
    fields (
      ("project", text "p")
      ∷ ("dataset", object (field "path" (text "d.jsonl") end))
      ∷ ("execution", object (field "backend" (text "mock") end))
      ∷ ("baseline", version_section)
      ∷ ("candidate", version_section)
      ∷ ("evaluators", array (cons exact_spec nil))
      ∷ (
        "release_policy",
        object (
            fields (
              ("name", text "strict")
              ∷ ("thresholds", object (field "exact_match.pass_rate" (nonneg 0) end))
              ∷ [])),
      )
      ∷ []))

abbrev line : Value Milli
line =
    object
      (fields (("input", text "hello") ∷ ("expected_output", text "hi") ∷ ("id", text "c1") ∷ []))

abbrev any_text : Matching
any_text = record { casefold = λ s. s; compiles = λ p. true; search = λ p s. true }

abbrev reading : Reading Milli
reading = record {
  document = ok document;
  lines = λ path. ok ("{...}" ∷ " " ∷ []);
  stem = λ path. "d";
  loads = λ s. ok (some line);
  new_case_id = λ n. "fresh";
  new_id = λ entity. entity;
  environ = λ name. none;
  matching = any_text;
}

abbrev loaded_case : DatasetCase Milli
loaded_case = record {
  input = "hello";
  expected_output = some "hi";
  origin = authored;
  source_trace_id = none;
  expected_retrieval_ids = [];
  expected_tool_calls = [];
  id = "c1";
}

abbrev loaded_dataset : Dataset Milli
loaded_dataset = record {
  project_id = "project";
  name = "d";
  version = 1;
  cases = loaded_case ∷ [];
  id = "dataset";
}

abbrev loaded_version : String → SystemVersion Milli
loaded_version id = record {
  project_id = "project";
  name = "bot";
  version = "1";
  provider = openai;
  model = "m";
  prompt_template = "say ${input}";
  parameters = end;
  rag_config = none;
  tool_policy = none;
  id = id;
}

abbrev plan : RunPlan Milli
plan = record {
  project = record { name = "p"; id = "project" };
  dataset = loaded_dataset;
  experiment = record {
    project_id = "project";
    dataset_id = "dataset";
    baseline_version_id = "baseline";
    candidate_version_id = "candidate";
    repeats = 1;
    release_policy_id = none;
    id = "experiment";
  };
  baseline = loaded_version "baseline";
  candidate = loaded_version "candidate";
  evaluators = exact (record { case_sensitive = true; name = "exact_match" }) ∷ [];
  policy = some (record {
    name = "strict";
    thresholds = ("exact_match.pass_rate", Milli.nonneg 0) ∷ [];
    max_safety_violations = 0;
    id = "policy";
  });
  providers = (openai, mock_adapter) ∷ [];
}

loaded_lines :
    load_jsonl reading.loads reading.new_case_id "d" "dataset"
      (ok ("{...}" ∷ " " ∷ []))
      "project"
      none
    ≡ ok loaded_dataset
unfolding load_jsonl parse_lines parse_line parse_object parse_expected_tool_calls case_id_of
    new_dataset_case new_dataset require_non_empty require_origin is_blank
loaded_lines = refl

load_jsonl_lem_example :
    (length loaded_dataset.cases ≡ count_if (λ line. not (is_blank line)) ("{...}" ∷ " " ∷ []))
    × All IsAuthored loaded_dataset.cases
    × (loaded_dataset.version ≡ 1)
    × (loaded_dataset.project_id ≡ "project")
load_jsonl_lem_example =
    load_jsonl_lem reading.loads reading.new_case_id "d" "dataset" ("{...}" ∷ " " ∷ []) "project"
      none loaded_dataset loaded_lines

planned : load_run_plan reading ≡ ok plan
unfolding load_run_plan plan_from load_jsonl parse_lines parse_line parse_object
    parse_expected_tool_calls case_id_of new_dataset_case new_dataset require_non_empty
    require_origin is_blank new_project read_backend build_system_version new_system_version
    new_experiment config_evaluators build_evaluators build_from evaluator_from evaluator_of
    spec_bool check_reference_outputs check_retrieval_labels check_tool_labels build_policy
    policy_section policy_from read_thresholds new_release_policy check_threshold
    expected_metric_names config_providers build_providers mathlib.Core.List.flat_map
planned = refl

load_run_plan-IsRunnable_example : IsRunnable plan
load_run_plan-IsRunnable_example = load_run_plan-IsRunnable reading plan planned

abbrev spec_list : List (Value Milli)
spec_list = exact_spec ∷ recall_spec ∷ []

abbrev built : List (BuiltEvaluator Milli)
built =
    exact (record { case_sensitive = true; name = "exact_match" })
    ∷ recall (record { minimum = Milli.nonneg 1000; name = "recall" })
    ∷ []

abbrev no_key : String → Option String
no_key name = none

built_specs : build_evaluators any_text no_key spec_list ≡ ok built
unfolding build_evaluators build_from evaluator_from evaluator_of spec_bool spec_float
    new_rag_evaluator threshold
built_specs = refl

build_evaluators_lem_example :
    (length built ≡ length spec_list)
    × (distinct (map evaluator_name built) ≡ true)
    × All InRange built
build_evaluators_lem_example = build_evaluators_lem any_text no_key spec_list built built_specs

abbrev spec : ExecutionSpec Milli
spec = record { backend = mock; base_url = "u"; timeout_seconds = Milli.nonneg 1000 }

abbrev adapters : List (ProviderName × Adapter Milli)
adapters = (openai, mock_adapter) ∷ []

resolved :
    build_providers no_key spec (loaded_version "baseline") (loaded_version "candidate")
    ≡ ok adapters
unfolding build_providers
resolved = refl

build_providers-cover_example :
    Exists (Serves mock openai) adapters × Exists (Serves mock openai) adapters
build_providers-cover_example =
    build_providers-cover no_key spec (loaded_version "baseline") (loaded_version "candidate")
      adapters resolved
