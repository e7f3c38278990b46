-- ===== src/Persist/Rows.antt =====
-- db/models.py: the rows of the tables, without the columns that only link a child to its parent
-- and without creation times.
use eval_ops.Prelude.{ℕ, String, Bool, Option, List}
use eval_ops.Dict.{Dict}
use eval_ops.Domain.Enums.{ProviderName, EvaluatorFamily, CaseOrigin}
use eval_ops.Domain.Traces.{TraceOrigin}
use eval_ops.Domain.Values.{Value, Fields}

pub record ProjectRow : Type 0 where
  pub id : String
  pub name : String

pub record DatasetCaseRow (W : Type 0) : Type 0 where
  pub id : String
  pub position : ℕ
  pub input : String
  pub expected_output : Option String
  pub expected_retrieval_ids : List String
  pub expected_tool_calls : Value W
  pub origin : CaseOrigin
  pub source_trace_id : Option String

pub record DatasetRow (W : Type 0) : Type 0 where
  pub id : String
  pub project_id : String
  pub name : String
  pub version : ℕ
  pub cases : List (DatasetCaseRow W)

pub record SystemVersionRow (W : Type 0) : Type 0 where
  pub id : String
  pub project_id : String
  pub name : String
  pub version : String
  pub provider : ProviderName
  pub model : String
  pub prompt_template : String
  pub parameters : Fields W
  pub rag_config : Option (Fields W)
  pub tool_policy : Option (Fields W)

pub record ReleasePolicyRow (W : Type 0) : Type 0 where
  pub id : String
  pub name : String
  pub thresholds : Dict String W
  pub max_safety_violations : ℕ

pub record ExperimentRow : Type 0 where
  pub id : String
  pub project_id : String
  pub dataset_id : String
  pub baseline_version_id : String
  pub candidate_version_id : String
  pub release_policy_id : Option String
  pub repeats : ℕ

pub record EvaluationRunRow (W : Type 0) : Type 0 where
  pub id : String
  pub experiment_id : String
  pub system_version_id : String
  pub case_id : String
  pub repeat_index : ℕ
  pub output : String
  pub error : Option String
  pub retrieval : Value W
  pub tool_calls : Value W
  pub prompt_tokens : ℕ
  pub completion_tokens : ℕ
  pub cost_usd : W
  pub latency_ms : W

pub record EvaluatorScoreRow (W : Type 0) : Type 0 where
  pub evaluator : String
  pub position : ℕ
  pub family : EvaluatorFamily
  pub score : W
  pub passed : Option Bool

pub record CaseResultRow (W : Type 0) : Type 0 where
  pub id : String
  pub run_id : String
  pub scores : List (EvaluatorScoreRow W)

pub record MetricComparisonRow (W : Type 0) : Type 0 where
  pub metric : String
  pub position : ℕ
  pub baseline_value : W
  pub candidate_value : W

pub record MetricEvidenceRow (W : Type 0) : Type 0 where
  pub metric : String
  pub position : ℕ
  pub kind : String
  pub n_pairs : ℕ
  pub baseline_mean : W
  pub baseline_median : W
  pub baseline_stdev : W
  pub candidate_mean : W
  pub candidate_median : W
  pub candidate_stdev : W
  pub paired_delta_mean : W
  pub paired_delta_median : W
  pub paired_delta_stdev : W
  pub delta : W
  pub relative_change : Option W
  pub confidence_level : W
  pub ci_low : Option W
  pub ci_high : Option W
  pub ci_excludes_zero : Bool
  pub insufficient_evidence : Bool
  pub dropped_provider_failures : ℕ
  pub method : String
  pub resamples : ℕ
  pub seed : ℕ

pub record EvaluationResultRow (W : Type 0) : Type 0 where
  pub id : String
  pub experiment_id : String
  pub metrics : List (MetricComparisonRow W)
  pub evidence : List (MetricEvidenceRow W)

pub record JudgeCalibrationCaseRow (W : Type 0) : Type 0 where
  pub position : ℕ
  pub input : String
  pub output : String
  pub reference : Option String
  pub human_pass : Bool
  pub judge_pass : Option Bool
  pub judge_score : Option W
  pub judge_reasoning : Option String
  pub error : Option String

pub record JudgeCalibrationRow (W : Type 0) : Type 0 where
  pub id : String
  pub judge_provider : ProviderName
  pub judge_model : String
  pub judge_name : String
  pub judge_temperature : W
  pub rubric_id : String
  pub total : ℕ
  pub scored : ℕ
  pub failures : ℕ
  pub agreements : ℕ
  pub agreement_rate : Option W
  pub true_positives : ℕ
  pub true_negatives : ℕ
  pub false_positives : ℕ
  pub false_negatives : ℕ
  pub precision : Option W
  pub recall : Option W
  pub f1 : Option W
  pub cases : List (JudgeCalibrationCaseRow W)

pub record ProductionTraceRow (W : Type 0) : Type 0 where
  pub id : String
  pub project_id : String
  pub system_version_id : String
  pub input : String
  pub output : String
  pub reference_output : Option String
  pub trace_metadata : Fields W
  pub latency_ms : Option W
  pub cost_usd : Option W
  pub error : Option String
  pub origin : TraceOrigin
