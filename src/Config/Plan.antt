-- ===== src/Config/Plan.antt =====
-- config.py: `load_run_plan`. What it takes from outside is gathered in `Reading`: the document that
-- PyYAML reads from the file (an error if it cannot), the dataset's file, and fresh ids.
use eval_ops.Prelude.{ℕ, String, Option, none, some, List, map, ◌==◌, nat_eq}
use eval_ops.Result.{Result, ok, err, config_error, ◌>>=◌, ◌>>◌, raise_if}
use eval_ops.Double.{Double}
use eval_ops.Domain.Values.{Value, Fields}
use eval_ops.Domain.Traces.{Project, new_project}
use eval_ops.Domain.Entities.{SystemVersion, Dataset, Experiment, new_experiment, ReleasePolicy}
use eval_ops.Datasets.Jsonl.{load_jsonl}
use eval_ops.Providers.Registry.{Adapter, Backend}
use eval_ops.Domain.Enums.{ProviderName}
use eval_ops.Evaluators.Match.{Matching}
use eval_ops.Evaluators.Build.{BuiltEvaluator, evaluator_name}
use eval_ops.Config.Read.{build, as_mapping, req, req_str, opt_str, opt_int}
use eval_ops.Config.Policy.{build_policy}
use eval_ops.Config.Sections.{
  build_system_version, check_reference_outputs, check_retrieval_labels, check_tool_labels,
  read_backend, config_evaluators, config_providers,
}

pub record RunPlan (W : Type 0) : Type 0 where
  pub project : Project
  pub dataset : Dataset W
  pub experiment : Experiment
  pub baseline : SystemVersion W
  pub candidate : SystemVersion W
  pub evaluators : List (BuiltEvaluator W)
  pub policy : Option (ReleasePolicy W)
  pub providers : List (ProviderName × Adapter W)

pub record Reading (W : Type 0) : Type 0 where
  pub document : Result (Value W)
  pub lines : (path : String) → Result (List String)
  pub stem : (path : String) → String
  pub loads : String → Result (Option (Value W))
  pub new_case_id : (line : ℕ) → String
  pub new_id : (entity : String) → String
  pub environ : String → Option String
  pub matching : Matching

-- `repeats`, which must be positive
abbrev pub repeats_of : Option ℕ → Result ℕ
repeats_of none = err (config_error "config.repeats must be >= 1")
repeats_of (some n) = raise_if (n == 0) (config_error "config.repeats must be >= 1") >> ok n

module _ {W : Type 0} ⦃d : Double W⦄ (r : Reading W) where
  -- What follows once the experiment is there.
  unfoldable pub plan_from :
      Fields W
      → Project
      → Dataset W
      → Backend
      → SystemVersion W
      → SystemVersion W
      → Experiment
      → Result (RunPlan W)
  plan_from root project dataset backend baseline candidate experiment = do
    evaluators ← config_evaluators r.matching r.environ root
    check_reference_outputs evaluators dataset
    check_retrieval_labels evaluators dataset
    check_tool_labels evaluators dataset
    policy ← build_policy (r.new_id "policy") root (map evaluator_name evaluators)
    providers ← config_providers r.environ backend root baseline candidate
    ok (record {
      project = project;
      dataset = dataset;
      experiment = experiment;
      baseline = baseline;
      candidate = candidate;
      evaluators = evaluators;
      policy = policy;
      providers = providers;
    })

  unfoldable pub load_run_plan : Result (RunPlan W)
  unfolding plan_from
  load_run_plan = do
    loaded ← r.document
    root ← as_mapping loaded
    project_name ← req_str root "project"
    project ← build (new_project (record { name = project_name; id = r.new_id "project" }))
    dataset_value ← req root "dataset"
    dataset_section ← as_mapping dataset_value
    path ← req_str dataset_section "path"
    dataset_name ← opt_str dataset_section "name"
    dataset ← build (
        load_jsonl r.loads r.new_case_id (r.stem path) (r.new_id "dataset") (r.lines path)
          project.id dataset_name)
    backend ← read_backend root
    given_repeats ← opt_int root "repeats" 1
    repeats ← repeats_of given_repeats
    baseline ← build_system_version (r.new_id "baseline") root "baseline" project.id
    candidate ← build_system_version (r.new_id "candidate") root "candidate" project.id
    experiment ← build (
        new_experiment (record {
          project_id = project.id;
          dataset_id = dataset.id;
          baseline_version_id = baseline.id;
          candidate_version_id = candidate.id;
          repeats = repeats;
          release_policy_id = none;
          id = r.new_id "experiment";
        }))
    plan_from root project dataset backend baseline candidate experiment
