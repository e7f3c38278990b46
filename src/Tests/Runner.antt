-- ===== src/Tests/Runner.antt =====
-- A run of an experiment with one case, one repeat and one evaluator.
use eval_ops.Prelude.{
  ◌*◌, String, ◌≡◌, refl, true, some, none, [], ◌∷◌, ◌++◌, map, length, string_eq, ◌==◌, nat_eq,
  if◌then◌else◌,
}
use eval_ops.Result.{ok, err, provider_error}
use eval_ops.Double.Milli.{Milli, nonneg, milli}
use eval_ops.Loop.{for_each, range_from}
use eval_ops.Text.{is_blank, strip}
use Prim.Native.String.{◌++◌ as join}
use eval_ops.Domain.Enums.{openai, authored, deterministic}
use eval_ops.Domain.Values.{zero_usage, end, require_non_empty}
use eval_ops.Domain.Entities.{
  SystemVersion, DatasetCase, Dataset, Experiment, new_evaluation_run, new_case_result,
}
use eval_ops.Runner.Exec.{
  ProviderClient, Evaluator, Environment, RunOutcome, Providers, run_experiment, run_version,
  run_case, run_repeat, execute, record_answer, error_text, score, scores_of, preflight,
}
use eval_ops.Runner.Turn.{slot, scored_id, run_id}
use eval_ops.Runner.Trace.{runs_in_order, results_aligned, version_slots}

abbrev pub env : Environment
env = record {
  new_id = λ n. if n == 0 then "i0" else if n == 1 then "i1" else if n == 2 then "i2" else "i3";
  render_prompt = λ template input. ok (join template input);
}

abbrev pub version : String → SystemVersion Milli
version id = record {
  project_id = "p";
  name = "bot";
  version = "1";
  provider = openai;
  model = "m";
  prompt_template = "say ";
  parameters = end;
  rag_config = none;
  tool_policy = none;
  id = id;
}

abbrev case : DatasetCase Milli
case = record {
  input = "hello";
  expected_output = some "hi";
  origin = authored;
  source_trace_id = none;
  expected_retrieval_ids = [];
  expected_tool_calls = [];
  id = "c";
}

abbrev pub dataset : Dataset Milli
dataset = record { project_id = "p"; name = "d"; version = 1; cases = case ∷ []; id = "ds" }

abbrev pub experiment : Experiment
experiment = record {
  project_id = "p";
  dataset_id = "ds";
  baseline_version_id = "b";
  candidate_version_id = "k";
  repeats = 1;
  release_policy_id = none;
  id = "x";
}

-- The first call is answered, each later one fails.
abbrev client : ProviderClient Milli
client = record {
  complete = λ call prompt v.
      if call == 0
      then ok (record { text = "hi"; usage = zero_usage; retrieval = []; tool_calls = [] })
      else err (provider_error "ProviderError" " timeout ");
}

abbrev pub providers : Providers Milli
providers name = some client

abbrev pub exact : Evaluator Milli
exact = record {
  name = "exact";
  family = deterministic;
  evaluate = λ call run case. ok (record {
    evaluator = "exact";
    family = deterministic;
    score = nonneg 1000;
    passed = some true;
  });
}

abbrev pub outcome : RunOutcome Milli
outcome = record {
  runs =
      record {
        experiment_id = "x";
        system_version_id = "b";
        case_id = "c";
        repeat_index = 0;
        output = "hi";
        usage = zero_usage;
        error = none;
        retrieval = [];
        tool_calls = [];
        id = "i0";
      }
      ∷ record {
        experiment_id = "x";
        system_version_id = "k";
        case_id = "c";
        repeat_index = 0;
        output = "";
        usage = zero_usage;
        error = some "timeout";
        retrieval = [];
        tool_calls = [];
        id = "i2";
      }
      ∷ [];
  case_results =
      record {
        run_id = "i0";
        scores =
            record {
              evaluator = "exact";
              family = deterministic;
              score = nonneg 1000;
              passed = some true;
            }
            ∷ [];
        id = "i1";
      }
      ∷ record { run_id = "i2"; scores = []; id = "i3" }
      ∷ [];
}

ran :
    run_experiment env experiment dataset (version "b") (version "k") providers (exact ∷ [])
    ≡ ok outcome
unfolding run_experiment run_version run_case run_repeat execute record_answer error_text score
    scores_of preflight for_each new_evaluation_run new_case_result require_non_empty is_blank strip
ran = refl

runs_in_order_example :
    map slot outcome.runs
    ≡ version_slots env experiment dataset (version "b")
      ++ version_slots env experiment dataset (version "k")
runs_in_order_example =
    runs_in_order env experiment dataset (version "b") (version "k") providers (exact ∷ []) outcome
      ran

results_aligned_example :
    (map scored_id outcome.case_results ≡ map run_id outcome.runs)
    × (map run_id outcome.runs ≡ map (λ n. env.new_id (2 * n)) (range_from 0 (length outcome.runs)))
results_aligned_example =
    results_aligned env experiment dataset (version "b") (version "k") providers (exact ∷ [])
      outcome ran
