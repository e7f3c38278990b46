-- ===== src/Persist/Flat.antt =====
-- db/mapping.py: the entities whose rows have no children
use eval_ops.Result.{Result}
use eval_ops.Double.{Double}
use eval_ops.Domain.Traces.{Project, new_project, ProductionTrace, new_production_trace}
use eval_ops.Domain.Entities.{
  SystemVersion, new_system_version, Experiment, new_experiment, ReleasePolicy, new_release_policy,
}
use eval_ops.Persist.Rows.{
  ProjectRow, ExperimentRow, SystemVersionRow, ReleasePolicyRow, ProductionTraceRow,
}

unfoldable pub project_to_orm : Project → ProjectRow
project_to_orm v = record { id = v.id; name = v.name }

unfoldable pub experiment_to_orm : Experiment → ExperimentRow
experiment_to_orm v = record {
  id = v.id;
  project_id = v.project_id;
  dataset_id = v.dataset_id;
  baseline_version_id = v.baseline_version_id;
  candidate_version_id = v.candidate_version_id;
  release_policy_id = v.release_policy_id;
  repeats = v.repeats;
}

unfoldable pub project_from_orm : ProjectRow → Result Project
project_from_orm row = new_project (record { id = row.id; name = row.name })

unfoldable pub experiment_from_orm : ExperimentRow → Result Experiment
experiment_from_orm row = new_experiment (record {
  id = row.id;
  project_id = row.project_id;
  dataset_id = row.dataset_id;
  baseline_version_id = row.baseline_version_id;
  candidate_version_id = row.candidate_version_id;
  release_policy_id = row.release_policy_id;
  repeats = row.repeats;
})

module _ {W : Type 0} ⦃d : Double W⦄ where
  unfoldable pub system_version_to_orm : SystemVersion W → SystemVersionRow W
  system_version_to_orm v = record {
    id = v.id;
    project_id = v.project_id;
    name = v.name;
    version = v.version;
    provider = v.provider;
    model = v.model;
    prompt_template = v.prompt_template;
    parameters = v.parameters;
    rag_config = v.rag_config;
    tool_policy = v.tool_policy;
  }

  unfoldable pub system_version_from_orm : SystemVersionRow W → Result (SystemVersion W)
  system_version_from_orm row = new_system_version (record {
    id = row.id;
    project_id = row.project_id;
    name = row.name;
    version = row.version;
    provider = row.provider;
    model = row.model;
    prompt_template = row.prompt_template;
    parameters = row.parameters;
    rag_config = row.rag_config;
    tool_policy = row.tool_policy;
  })

  unfoldable pub release_policy_to_orm : ReleasePolicy W → ReleasePolicyRow W
  release_policy_to_orm v = record {
    id = v.id;
    name = v.name;
    thresholds = v.thresholds;
    max_safety_violations = v.max_safety_violations;
  }

  unfoldable pub release_policy_from_orm : ReleasePolicyRow W → Result (ReleasePolicy W)
  release_policy_from_orm row = new_release_policy (record {
    id = row.id;
    name = row.name;
    thresholds = row.thresholds;
    max_safety_violations = row.max_safety_violations;
  })

  unfoldable pub production_trace_to_orm : ProductionTrace W → ProductionTraceRow W
  production_trace_to_orm v = record {
    id = v.id;
    project_id = v.project_id;
    system_version_id = v.system_version_id;
    input = v.input;
    output = v.output;
    reference_output = v.reference_output;
    trace_metadata = v.metadata;
    latency_ms = v.latency_ms;
    cost_usd = v.cost_usd;
    error = v.error;
    origin = v.origin;
  }

  unfoldable pub production_trace_from_orm : ProductionTraceRow W → Result (ProductionTrace W)
  production_trace_from_orm row = new_production_trace (record {
    id = row.id;
    project_id = row.project_id;
    system_version_id = row.system_version_id;
    input = row.input;
    output = row.output;
    reference_output = row.reference_output;
    metadata = row.trace_metadata;
    latency_ms = row.latency_ms;
    cost_usd = row.cost_usd;
    error = row.error;
    origin = row.origin;
  })
