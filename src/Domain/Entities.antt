-- ===== src/Domain/Entities.antt =====
-- domain/entities.py: the entities that the run, the statistics, the gate and promotion use
use eval_ops.Prelude.{
  ℕ, String, Bool, true, false, not, Option, none, some, List, [], ◌∷◌, map, ◌==◌, nat_eq,
  string_eq, distinct, is_some, any,
}
use eval_ops.Result.{Result, ok, domain_error, ◌>>◌, raise_if, each}
use eval_ops.Double.{Double, zero_f}
use eval_ops.Dict.{Dict}
use eval_ops.Text.{is_blank}
use eval_ops.Domain.Enums.{ProviderName, CaseOrigin, authored, promoted_trace}
use eval_ops.Domain.Values.{
  UsageMetrics, RetrievedItem, ToolCall, ExpectedToolCall, EvaluatorScore, MetricComparison, Fields,
  require_non_empty, blank_when_set,
}
use eval_ops.Domain.Evidence.{MetricEvidence}

pub record SystemVersion (W : Type 0) : Type 0 where
  pub project_id : String
  pub name : String
  pub version : String
  pub provider : ProviderName
  pub model : String
  pub prompt_template : String
  pub parameters : Fields W
  pub rag_config : Option (Fields W)
  pub tool_policy : Option (Fields W)
  pub id : String

unfoldable pub new_system_version : {W : Type 0} → SystemVersion W → Result (SystemVersion W)
unfolding require_non_empty
new_system_version v = do
  require_non_empty v.project_id "SystemVersion.project_id"
  require_non_empty v.name "SystemVersion.name"
  require_non_empty v.version "SystemVersion.version"
  require_non_empty v.model "SystemVersion.model"
  require_non_empty v.prompt_template "SystemVersion.prompt_template"
  require_non_empty v.id "SystemVersion.id"
  ok v

pub record DatasetCase (W : Type 0) : Type 0 where
  pub input : String
  pub expected_output : Option String
  pub origin : CaseOrigin
  pub source_trace_id : Option String
  pub expected_retrieval_ids : List String
  pub expected_tool_calls : List (ExpectedToolCall W)
  pub id : String

-- The checks on where a case comes from: `has_trace` and the two tests on `origin`.
unfoldable pub require_origin : CaseOrigin → Option String → Result (Unit {0})
require_origin promoted_trace none =
    raise_if true (domain_error "source_trace_id is required when origin is promoted_trace")
require_origin promoted_trace (some t) =
    raise_if (is_blank t) (domain_error "source_trace_id is required when origin is promoted_trace")
require_origin authored t =
    raise_if (is_some t) (domain_error "source_trace_id must be unset when origin is authored")

unfoldable pub new_dataset_case : {W : Type 0} → DatasetCase W → Result (DatasetCase W)
unfolding require_non_empty require_origin
new_dataset_case c = do
  require_non_empty c.input "DatasetCase.input"
  require_non_empty c.id "DatasetCase.id"
  raise_if (any is_blank c.expected_retrieval_ids)
      (domain_error "expected_retrieval_ids entries must be non-empty strings")
  require_origin c.origin c.source_trace_id
  ok c

pub record Dataset (W : Type 0) : Type 0 where
  pub project_id : String
  pub name : String
  pub version : ℕ
  pub cases : List (DatasetCase W)
  pub id : String

abbrev pub is_empty {ℓ} : {A : Type ℓ} → List A → Bool
is_empty [] = true
is_empty (x ∷ xs) = false

unfoldable pub new_dataset : {W : Type 0} → Dataset W → Result (Dataset W)
unfolding require_non_empty
new_dataset s = do
  require_non_empty s.project_id "Dataset.project_id"
  require_non_empty s.name "Dataset.name"
  require_non_empty s.id "Dataset.id"
  raise_if (s.version == 0) (domain_error "Dataset.version must be >= 1")
  raise_if (is_empty s.cases) (domain_error "Dataset.cases must not be empty")
  raise_if (not (distinct (map (λ c. c.id) s.cases)))
      (domain_error "Dataset.cases contains duplicate case ids")
  ok s

pub record Experiment : Type 0 where
  pub project_id : String
  pub dataset_id : String
  pub baseline_version_id : String
  pub candidate_version_id : String
  pub repeats : ℕ
  pub release_policy_id : Option String
  pub id : String

unfoldable pub new_experiment : Experiment → Result Experiment
unfolding require_non_empty
new_experiment x = do
  require_non_empty x.project_id "Experiment.project_id"
  require_non_empty x.dataset_id "Experiment.dataset_id"
  require_non_empty x.baseline_version_id "Experiment.baseline_version_id"
  require_non_empty x.candidate_version_id "Experiment.candidate_version_id"
  require_non_empty x.id "Experiment.id"
  raise_if (x.baseline_version_id == x.candidate_version_id)
      (domain_error "Experiment baseline and candidate must be different SystemVersions")
  raise_if (x.repeats == 0) (domain_error "Experiment.repeats must be >= 1")
  raise_if (blank_when_set x.release_policy_id) (domain_error "Experiment.release_policy_id")
  ok x

pub record EvaluationRun (W : Type 0) : Type 0 where
  pub experiment_id : String
  pub system_version_id : String
  pub case_id : String
  pub repeat_index : ℕ
  pub output : String
  pub usage : UsageMetrics W
  pub error : Option String
  pub retrieval : List (RetrievedItem W)
  pub tool_calls : List (ToolCall W)
  pub id : String

unfoldable pub new_evaluation_run : {W : Type 0} → EvaluationRun W → Result (EvaluationRun W)
unfolding require_non_empty
new_evaluation_run r = do
  require_non_empty r.experiment_id "EvaluationRun.experiment_id"
  require_non_empty r.system_version_id "EvaluationRun.system_version_id"
  require_non_empty r.case_id "EvaluationRun.case_id"
  require_non_empty r.id "EvaluationRun.id"
  raise_if (blank_when_set r.error) (domain_error "EvaluationRun.error must be non-blank when set")
  ok r

pub record CaseResult (W : Type 0) : Type 0 where
  pub run_id : String
  pub scores : List (EvaluatorScore W)
  pub id : String

unfoldable pub new_case_result : {W : Type 0} → CaseResult W → Result (CaseResult W)
unfolding require_non_empty
new_case_result c = do
  require_non_empty c.run_id "CaseResult.run_id"
  require_non_empty c.id "CaseResult.id"
  raise_if (not (distinct (map (λ s. s.evaluator) c.scores)))
      (domain_error "CaseResult.scores has duplicate evaluator names")
  ok c

pub record EvaluationResult (W : Type 0) : Type 0 where
  pub experiment_id : String
  pub metrics : List (MetricComparison W)
  pub evidence : List (MetricEvidence W)
  pub id : String

unfoldable pub new_evaluation_result :
    {W : Type 0} → EvaluationResult W → Result (EvaluationResult W)
unfolding require_non_empty
new_evaluation_result r = do
  require_non_empty r.experiment_id "EvaluationResult.experiment_id"
  require_non_empty r.id "EvaluationResult.id"
  raise_if (not (distinct (map (λ m. m.metric) r.metrics)))
      (domain_error "EvaluationResult.metrics has duplicate metric names")
  raise_if (not (distinct (map (λ e. e.metric) r.evidence)))
      (domain_error "EvaluationResult.evidence has duplicate metric names")
  ok r

pub record ReleasePolicy (W : Type 0) : Type 0 where
  pub name : String
  pub thresholds : Dict String W
  pub max_safety_violations : ℕ
  pub id : String

-- The loop over `thresholds.items()`.
unfoldable pub check_threshold : {W : Type 0} ⦃d : Double W⦄ → String × W → Result (Unit {0})
check_threshold ⦃d⦄ (metric, ceiling) = do
  raise_if (is_blank metric) (domain_error "ReleasePolicy.thresholds has a blank metric name")
  raise_if (d.lt ceiling zero_f) (domain_error "ReleasePolicy threshold must be >= 0")

unfoldable pub new_release_policy :
    {W : Type 0} ⦃d : Double W⦄ → ReleasePolicy W → Result (ReleasePolicy W)
unfolding require_non_empty check_threshold
new_release_policy p = do
  require_non_empty p.name "ReleasePolicy.name"
  require_non_empty p.id "ReleasePolicy.id"
  each check_threshold p.thresholds
  ok p
