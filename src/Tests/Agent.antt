-- ===== src/Tests/Agent.antt =====
-- Runs of the evaluators of tool calls.
use eval_ops.Prelude.{
  some, arith, String, ◌≡◌, refl, ◌↔◌, true, false, none, List, [], ◌∷◌, string_eq,
}
use eval_ops.Result.{ok, is_ok}
use eval_ops.Double.{◌≼◌}
use eval_ops.Double.Milli.{Milli, nonneg, milli}
use eval_ops.Double.Laws.{milli_laws}
use eval_ops.Text.{is_blank}
use eval_ops.Domain.Enums.{authored, deterministic}
use eval_ops.Domain.Values.{
  end, null, zero_usage, EvaluatorScore, new_evaluator_score, require_non_empty,
}
use eval_ops.Domain.Entities.{DatasetCase, EvaluationRun}
use eval_ops.Agent.Subsequence.{lcs_len, rows, rest_of_row}
use eval_ops.Agent.Longest.{IsLongest}
use eval_ops.Agent.Rows.{lcs_len-IsLongest}
use eval_ops.Agent.Evaluators.{
  ToolEvaluator, tool_selection, tool_success, tool_trajectory, expected_calls, trajectory_score,
  scored,
}
use eval_ops.Agent.Scores.{tools_scored}
use eval_ops.Agent.Full.{full_trajectory_iff}

abbrev wanted : List String
wanted = "search" ∷ "read" ∷ "answer" ∷ []

abbrev seen : List String
seen = "read" ∷ "search" ∷ "answer" ∷ []

common_two : lcs_len wanted seen ≡ 2
unfolding lcs_len rows rest_of_row
common_two = refl

lcs_len-IsLongest_example : IsLongest (lcs_len wanted seen) wanted seen
lcs_len-IsLongest_example = lcs_len-IsLongest wanted seen

abbrev case : DatasetCase Milli
case = record {
  input = "question";
  expected_output = none;
  origin = authored;
  source_trace_id = none;
  expected_retrieval_ids = [];
  expected_tool_calls = record { name = "search"; arguments = none } ∷ [];
  id = "c1";
}

abbrev run : EvaluationRun Milli
run = record {
  experiment_id = "x";
  system_version_id = "v1";
  case_id = "c1";
  repeat_index = 0;
  output = "reply";
  usage = zero_usage;
  error = none;
  retrieval = [];
  tool_calls =
      record { name = "read"; arguments = end; result = null; success = true; error = none } ∷ [];
  id = "r1";
}

abbrev trajectory : ToolEvaluator Milli
trajectory = record { min_score = nonneg 1000; name = "tool_trajectory" }

visible : is_blank "tool_trajectory" ≡ false
unfolding is_blank
visible = refl

tools_scored_example :
    (is_ok (tool_selection trajectory run case) ≡ true)
    × (is_ok (tool_success trajectory run case) ≡ true)
    × (is_ok (tool_trajectory trajectory run case) ≡ true)
tools_scored_example = tools_scored milli_laws trajectory run case visible refl

-- The one call is not the expected one, so that the score is 0.
abbrev other : EvaluatorScore Milli
other = record {
  evaluator = "tool_trajectory";
  family = deterministic;
  score = nonneg 0;
  passed = some false;
}

names_differ : tool_trajectory trajectory run case ≡ ok other
unfolding tool_trajectory expected_calls trajectory_score scored lcs_len rows rest_of_row
    new_evaluator_score require_non_empty is_blank
names_differ = refl

full_trajectory_iff_example :
    (nonneg 1000 ≼ nonneg 0) ↔ (◌≡◌ {A = List String} ("search" ∷ []) ("read" ∷ []))
full_trajectory_iff_example =
    full_trajectory_iff milli_laws trajectory run case other names_differ (omega arith)
