-- ===== src/Tests/Diagnostics.antt =====
-- The diagnostics of an experiment with one case, which passes on the baseline only.
use eval_ops.Prelude.{
  ℕ, ◌≤◌, String, ◌≡◌, refl, Bool, true, false, some, none, [], ◌∷◌, length, string_eq, pair_eq,
  Exists,
}
use eval_ops.Result.{ok}
use eval_ops.Double.Milli.{Milli, nonneg, milli}
use eval_ops.Dict.{Dict, index_by}
use eval_ops.Sort.{sorted}
use eval_ops.Text.{starts_with}
use mathlib.Core.List.{flat_map}
use eval_ops.Domain.Enums.{deterministic}
use eval_ops.Domain.Values.{EvaluatorScore, zero_usage}
use eval_ops.Domain.Entities.{EvaluationRun}
use eval_ops.Runner.Exec.{RunOutcome}
use eval_ops.Stats.Pairing.{runs_by_key}
use eval_ops.Diagnostics.Groups.{sum_of, append_to, group_from}
use eval_ops.Diagnostics.Findings.{
  PairFinding, evaluator_regression, evaluator_pass_to_fail, score_map, category_for_evaluator,
  pair_findings, provider_findings, score_findings, short_error,
}
use eval_ops.Diagnostics.Report.{
  RegressionDiagnostics, diagnose_regressions, diagnose_pairs, report_on, findings_of, key_findings,
  regressing_cases_of, regressing_case, representative_of, evaluator_names, best_from,
  category_counts, evaluator_counts, named,
}
use eval_ops.Diagnostics.Totals.{diagnose_regressions-cases, diagnose_regressions-pairs}
use eval_ops.Diagnostics.Complete.{IsPassToFail, diagnose_regressions-IsPassToFail}
use eval_ops.Tests.Runner.{experiment}

abbrev run : String → String → EvaluationRun Milli
run version id = record {
  experiment_id = "x";
  system_version_id = version;
  case_id = "c";
  repeat_index = 0;
  output = "hi";
  usage = zero_usage;
  error = none;
  retrieval = [];
  tool_calls = [];
  id = id;
}

abbrev judged : Bool → EvaluatorScore Milli
judged passed = record {
  evaluator = "exact";
  family = deterministic;
  score = nonneg 500;
  passed = some passed;
}

abbrev lost_outcome : RunOutcome Milli
lost_outcome = record {
  runs = run "b" "r1" ∷ run "k" "r2" ∷ [];
  case_results =
      record { run_id = "r1"; scores = judged true ∷ []; id = "s1" }
      ∷ record { run_id = "r2"; scores = judged false ∷ []; id = "s2" }
      ∷ [];
}

abbrev lost_finding : PairFinding
lost_finding = record {
  case_id = "c";
  repeat_index = 0;
  baseline_run_id = "r1";
  candidate_run_id = "r2";
  category = evaluator_regression;
  kind = evaluator_pass_to_fail;
  evaluator = some "exact";
  baseline_detail = "pass";
  candidate_detail = "fail";
}

abbrev lost_report : RegressionDiagnostics
lost_report = record {
  experiment_id = "x";
  baseline_version_id = "b";
  candidate_version_id = "k";
  matched_pairs = 1;
  regressing_pairs = 1;
  regressing_cases = 1;
  categories = record { category = "evaluator_regression"; pairs = 1; cases = 1 } ∷ [];
  evaluators =
      record { evaluator = "exact"; pairs = 1; cases = 1; pass_to_fail = 1; score_drop = 0 } ∷ [];
  cases =
      record {
        case_id = "c";
        categories = "evaluator_regression" ∷ [];
        evaluators = "exact" ∷ [];
        has_provider_failure = false;
        finding_count = 1;
        representative = record {
          repeat_index = 0;
          baseline_run_id = "r1";
          candidate_run_id = "r2";
        };
      }
      ∷ [];
  findings = lost_finding ∷ [];
  available = true;
}

diagnosed : diagnose_regressions experiment lost_outcome (nonneg 50) ≡ ok lost_report
unfolding diagnose_regressions runs_by_key diagnose_pairs report_on findings_of key_findings
    pair_findings provider_findings score_findings score_map short_error category_for_evaluator
    starts_with regressing_cases_of regressing_case representative_of evaluator_names best_from
    category_counts evaluator_counts named append_to group_from index_by sorted flat_map
diagnosed = refl

diagnose_regressions-cases_example :
    (sum_of (λ c. c.finding_count) lost_report.cases ≡ length lost_report.findings)
    × (length lost_report.cases ≡ lost_report.regressing_cases)
diagnose_regressions-cases_example =
    diagnose_regressions-cases experiment lost_outcome (nonneg 50) lost_report diagnosed

diagnose_regressions-pairs_example : lost_report.regressing_pairs ≤ lost_report.matched_pairs
diagnose_regressions-pairs_example =
    diagnose_regressions-pairs experiment lost_outcome (nonneg 50) lost_report diagnosed

abbrev baseline_runs : Dict (String × ℕ) (EvaluationRun Milli)
baseline_runs = (("c", 0), run "b" "r1") ∷ []

abbrev candidate_runs : Dict (String × ℕ) (EvaluationRun Milli)
candidate_runs = (("c", 0), run "k" "r2") ∷ []

diagnose_regressions-IsPassToFail_example :
    Exists (IsPassToFail ("c", 0) "exact") lost_report.findings
unfolding runs_by_key score_map index_by
diagnose_regressions-IsPassToFail_example =
    diagnose_regressions-IsPassToFail experiment lost_outcome (nonneg 50) lost_report baseline_runs
      candidate_runs ("c", 0) (run "b" "r1") (run "k" "r2") "exact" (judged true) (judged false)
      diagnosed refl refl refl refl refl refl refl refl
