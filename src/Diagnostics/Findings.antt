-- ===== src/Diagnostics/Findings.antt =====
-- diagnostics.py: the findings on one pair of runs
use Prim.Native.String.{◌++◌ as join}
use eval_ops.Prelude.{
  ℕ, String, Bool, true, false, ◌&&◌, Option, none, some, List, [], ◌∷◌, ◌++◌, string_eq,
  if◌then◌else◌, contains, select, is_none, ltb,
}
use mathlib.Core.List.{flat_map}
use eval_ops.Double.{Double}
use eval_ops.Dict.{Dict, get, keys, index_by}
use eval_ops.Sort.{sorted, string_leb}
use eval_ops.Text.{starts_with}
use eval_ops.Calibration.Bounded.{collapse, text_length, text_take}
use eval_ops.Domain.Values.{EvaluatorScore}
use eval_ops.Domain.Entities.{EvaluationRun, CaseResult}

pub data RegressionCategory : Type 0 where
  evaluator_regression provider_execution_failure retrieval_regression : RegressionCategory
  groundedness_regression tool_selection_regression tool_argument_regression : RegressionCategory
  tool_execution_failure trajectory_regression : RegressionCategory

-- The text that a category is.
abbrev pub category_text : RegressionCategory → String
category_text evaluator_regression = "evaluator_regression"
category_text provider_execution_failure = "provider_execution_failure"
category_text retrieval_regression = "retrieval_regression"
category_text groundedness_regression = "groundedness_regression"
category_text tool_selection_regression = "tool_selection_regression"
category_text tool_argument_regression = "tool_argument_regression"
category_text tool_execution_failure = "tool_execution_failure"
category_text trajectory_regression = "trajectory_regression"

pub data FindingKind : Type 0 where
  provider_failure evaluator_pass_to_fail evaluator_score_drop : FindingKind

abbrev pub evaluator_category : Dict String RegressionCategory
evaluator_category =
    ("retrieval_recall", retrieval_regression)
    ∷ ("context_precision", retrieval_regression)
    ∷ ("groundedness_lexical", groundedness_regression)
    ∷ ("tool_selection", tool_selection_regression)
    ∷ ("tool_arguments", tool_argument_regression)
    ∷ ("tool_success", tool_execution_failure)
    ∷ ("tool_trajectory", trajectory_regression)
    ∷ []

unfoldable pub category_for_evaluator : String → RegressionCategory
category_for_evaluator name = elim (get name evaluator_category) [
  | some known ↦ known
  | none ↦ if starts_with name "groundedness" then groundedness_regression else evaluator_regression
]

pub record PairFinding : Type 0 where
  pub case_id : String
  pub repeat_index : ℕ
  pub baseline_run_id : String
  pub candidate_run_id : String
  pub category : RegressionCategory
  pub kind : FindingKind
  pub evaluator : Option String
  pub baseline_detail : String
  pub candidate_detail : String

unfoldable pub short_error : String → String
unfolding collapse text_length text_take
short_error text =
    let cleaned = collapse true true text in
    if ltb 160 (text_length cleaned) then join (text_take 159 cleaned) "…" else cleaned

-- `score.passed is value`
abbrev pub passed_is : Bool → Option Bool → Bool
passed_is value none = false
passed_is true (some b) = b
passed_is false (some true) = false
passed_is false (some false) = true

module _ {W : Type 0} where
  unfoldable pub score_map :
      EvaluationRun W → Dict String (CaseResult W) → Dict String (EvaluatorScore W)
  score_map run case_results = elim run.error [
    | some e ↦ []
    | none ↦ elim (get run.id case_results) [
      | none ↦ []
      | some result ↦ index_by (λ s. s.evaluator) result.scores
    ]
  ]

  -- `sorted(baseline_scores.keys() & candidate_scores.keys())`
  abbrev pub common_names :
      Dict String (EvaluatorScore W) → Dict String (EvaluatorScore W) → List String
  common_names bs cs = sorted string_leb (select (contains (keys cs)) (keys bs))

module _ {W : Type 0} ⦃d : Double W⦄ (key : String × ℕ) (baseline candidate : EvaluationRun W) where
  abbrev pub finding :
      RegressionCategory → FindingKind → Option String → String → String → PairFinding
  finding category kind evaluator baseline_detail candidate_detail = record {
    case_id = key.0;
    repeat_index = key.1;
    baseline_run_id = baseline.id;
    candidate_run_id = candidate.id;
    category = category;
    kind = kind;
    evaluator = evaluator;
    baseline_detail = baseline_detail;
    candidate_detail = candidate_detail;
  }

  unfoldable pub provider_findings : List PairFinding
  unfolding short_error
  provider_findings = elim candidate.error [
    | none ↦ []
    | some error ↦
        if is_none baseline.error
        then finding provider_execution_failure provider_failure none "completed"
            (short_error error)
          ∷ []
        else []
  ]

  -- The body of the loop over the evaluators that have scored both runs.
  unfoldable pub score_findings :
      W → String → EvaluatorScore W → EvaluatorScore W → List PairFinding
  unfolding category_for_evaluator
  score_findings drop name b c =
      if passed_is true b.passed && passed_is false c.passed
      then finding (category_for_evaluator name) evaluator_pass_to_fail (some name) "pass" "fail"
        ∷ []
      else if d.lt c.score (d.sub b.score drop)
      then finding (category_for_evaluator name) evaluator_score_drop (some name) (d.fixed3 b.score)
          (d.fixed3 c.score)
        ∷ []
      else []

  abbrev pub name_findings :
      W
      → Dict String (EvaluatorScore W)
      → Dict String (EvaluatorScore W)
      → String
      → List PairFinding
  name_findings drop bs cs name = elim (get name bs) [
    | none ↦ []
    | some b ↦ elim (get name cs) [ none ↦ [] | some c ↦ score_findings drop name b c ]
  ]

  unfoldable pub pair_findings : Dict String (CaseResult W) → W → List PairFinding
  unfolding provider_findings score_findings score_map
  pair_findings case_results drop =
      let bs = score_map baseline case_results in
      let cs = score_map candidate case_results in
      provider_findings ++ flat_map (name_findings drop bs cs) (common_names bs cs)
