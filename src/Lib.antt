-- ===== src/Lib.antt =====
-- EvalOps: a platform that runs an experiment over two versions of an AI system, scores the
-- answers, aggregates the scores and decides whether the candidate version may be released.
--
-- Paths are those of the Python package src/evalops. How the parts fit together: config.py and
-- datasets.py read a run plan, for which evaluators.py builds the evaluators and execution.py the
-- providers; runner.py calls a provider for each version, case and repeat and lets the evaluators
-- (evaluators.py, rag_evaluators.py, agent_evaluators.py, judge.py) score each answer; aggregate.py
-- checks the outcome and computes a comparison of the two versions per metric; stats.py pairs the
-- runs and gives evidence for each metric; gate.py applies a release policy to the comparisons;
-- worker/tasks.py does this in the background and records the life of the job through
-- db/repositories.py; db/mapping.py turns entities into rows and back; diagnostics.py explains
-- which cases regressed; promotion.py makes a dataset of production traces; calibration.py measures
-- the judge against people.
--
-- - Domain/Enums, Values, Evidence, Entities, Jobs: domain/enums.py, value_objects.py, entities.py.
--   A dataclass is a record; its `__post_init__` is `new_...`.
-- - Gate/Verdict, Report: gate.py. `verdict` is `_verdict`, `outcome_of` is `_outcome`,
--   `ci_confirms_regression` and `evaluate_gate` keep their names. Proofs: Blocking, Explained,
--   Total, Ungated, Monotone.
-- - Runner/Exec: runner.py and domain/contracts.py. `execute`, `score`, `preflight` and
--   `run_experiment`; `run_version`, `run_case` and `run_repeat` are the bodies of its three loops.
--   Proofs: Turn, Trace.
-- - Jobs/Repository, Worker: AsyncJobRepository of db/repositories.py, `unit_of_work` of
--   db/session.py, and worker/tasks.py. The table of jobs is passed along; a unit of work gives
--   back the old table when its body raises. Proofs: Transitions, Bounded, Rows, Writes, Lifecycle,
--   Task.
-- - Aggregate/Validate, Metrics: aggregate.py. Proofs: Names.
-- - Agent/Subsequence, Evaluators: agent_evaluators.py. `lcs_len` is `_lcs_len`. Proofs: Longest,
--   Rows, Scores, Full.
-- - Calibration/Values, Metrics, Bounded, Judging: calibration.py and its classes of
--   domain/value_objects.py and domain/entities.py. Proofs: Counts, Answers.
-- - Stats/Pairing, Interval: stats.py. `paired_observations`, `paired_bootstrap_ci`,
--   `metric_evidence` and `build_statistical_evidence` keep their names. Proofs: Matched, Withheld.
-- - Persist/Rows, Flat, Nested, Json, Runs: db/models.py and db/mapping.py. A row is a record with
--   the columns and the child rows; `..._to_orm` and `..._from_orm` keep their names. `loaded`
--   (Loaded) is a relationship with an `order_by`: the child rows that the database hands out,
--   sorted by position. What str, int, float and dict do with values of other types than the stored
--   ones is an argument (`Builtins`). Proofs: RoundTrip, JsonRoundTrip.
-- - Diagnostics/Findings, Groups, Report: diagnostics.py. `pair_findings` is `_pair_findings`,
--   `regressing_cases_of` is `_regressing_cases`. Proofs: Sizes, Totals, Complete.
-- - Rag/Words, Evaluators: rag_evaluators.py. Proofs: Unique, Scores, Full.
-- - Providers/Params, Registry: provider_registry.py, `require_api_key` and `cloud_params` of
--   cloud_providers.py, `build_options` of ollama.py, `build_providers` of execution.py. Proofs:
--   Covered.
-- - Evaluators/Match, Build: evaluators.py. `evaluator_from` is the body of the loop of
--   `build_evaluators`. Proofs: Ranges, Names.
-- - Datasets/Jsonl: datasets.py. Proofs: Cases.
-- - Config/Read, Policy, Sections, Plan: config.py. `plan_from` is the second half of
--   `load_run_plan`, `config_evaluators` is `_build_evaluators` and `config_providers` is
--   `_build_providers`. Proofs: Labels, Directed, Producible.
-- - Promotion/Promote: promotion.py, with `get` and `add` of three repositories. Proofs:
--   Provenance.
-- - Execution/Pipeline: `run_evaluation` of execution.py. Proofs: Decision.
-- - Judging/Parse, Ask: judge.py. `object_text` is the text that `_extract_json_object` reads as
--   JSON, `ask_judge` is `LLMJudge.judge`. Proofs: Judgement.
-- - Documents holds what the readers of decoded documents share.
-- - Result holds the exceptions; Double the floating point numbers; Dict, Sort, Text and Loop
--   Python's dict, sorted, str and for; Prelude what all share. Tests runs the model on concrete
--   inputs.
--
-- A function that may raise returns a `Result`; `float(n)` of an int raises an OverflowError where
-- the double arithmetic says that n does not fit; an exception's message stands without the values
-- that its f-string puts in. Floats are an interface (Double): the operations are arguments, and a
-- theorem that needs laws takes them as `IsOrdered`, in forms that hold for NaN and the infinities;
-- Double/Milli is an instance for the tests. Integers are natural numbers, since each class refuses
-- negative ones; a document that is read may hold negative ones. Loops are structural recursion on
-- a list or a count. Only the decimal digits of a number n (Text) use fuel: n + 1, which is more
-- than n has digits.
--
-- Arguments of the model: providers, evaluators and judges, as functions of the number of the call;
-- the prompt renderer; the supply of fresh ids; the clock; the database's verdict on a row at a
-- flush, and the order in which it hands out child rows; the broker's answer; the random numbers of
-- the bootstrap; str.lower, str.casefold and the module re; the environment variables; the lines of
-- files and the readers of YAML and JSON, whose documents have texts as keys; a reader of
-- JSON may raise other exceptions than a JSONDecodeError, which pass.
--
-- Not modelled, being input and output around the parts above: the HTTP API, the calls of providers
-- over HTTP, logging and correlation, the command line and the rendering of reports. Not modelled
-- either: creation times and the rows of jobs; execution_service.py and prompt.py; ToolArguments of
-- agent_evaluators.py; and `LLMJudge.evaluate`, which copies a verdict into a score.
pub mod Prelude
pub mod Result
pub mod Double
pub mod Dict
pub mod Sort
pub mod Text
pub mod Loop
pub mod Domain
pub mod Gate
pub mod Runner
pub mod Jobs
pub mod Aggregate
pub mod Agent
pub mod Calibration
pub mod Stats
pub mod Persist
pub mod Diagnostics
pub mod Rag
pub mod Documents
pub mod Providers
pub mod Evaluators
pub mod Datasets
pub mod Config
pub mod Promotion
pub mod Execution
pub mod Judging
pub mod Tests
