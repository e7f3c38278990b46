-- ===== src/Config/Sections.antt =====
-- config.py: the builders of the other sections, and the checks of the labels
use eval_ops.Prelude.{
  String, Bool, true, false, not, ◌&&◌, Option, none, List, ◌==◌, string_eq, if◌then◌else◌, any,
  is_none, is_some,
}
use eval_ops.Result.{Result, ok, err, config_error, ◌>>=◌, ◌>>◌, raise_if}
use eval_ops.Double.{Double}
use eval_ops.Domain.Enums.{ProviderName, openai, anthropic, ollama}
use eval_ops.Domain.Values.{Value, array, Fields}
use eval_ops.Domain.Entities.{SystemVersion, new_system_version, DatasetCase, Dataset, is_empty}
use eval_ops.Documents.{values_of}
use eval_ops.Providers.Registry.{Adapter, Backend, mock, live, real, build_providers, or_default}
use eval_ops.Evaluators.Match.{Matching}
use eval_ops.Evaluators.Build.{
  BuiltEvaluator, exact, contains_text, recall, precision, selection, arguments, trajectory,
  provider_of, build_evaluators,
}
use eval_ops.Config.Read.{build, as_mapping, req, req_str, opt_str, opt_number, opt_mapping}

module _ {W : Type 0} where
  unfoldable pub build_system_version :
      String → Fields W → String → String → Result (SystemVersion W)
  build_system_version id root key project_id = do
    value ← req root key
    section ← as_mapping value
    provider_name ← req_str section "provider"
    provider ← provider_of provider_name
    parameters ← opt_mapping section "parameters"
    name ← req_str section "name"
    version ← req_str section "version"
    model ← req_str section "model"
    prompt_template ← req_str section "prompt_template"
    build (
        new_system_version (record {
          project_id = project_id;
          name = name;
          version = version;
          provider = provider;
          model = model;
          prompt_template = prompt_template;
          parameters = parameters;
          rag_config = none;
          tool_policy = none;
          id = id;
        }))

  -- `isinstance(e, ExactMatch | Contains)`, and so on
  abbrev pub needs_output : BuiltEvaluator W → Bool
  needs_output (exact t) = true
  needs_output (contains_text t) = true
  needs_output _ = false

  abbrev pub needs_retrieval : BuiltEvaluator W → Bool
  needs_retrieval (recall t) = true
  needs_retrieval (precision t) = true
  needs_retrieval _ = false

  abbrev pub needs_calls : BuiltEvaluator W → Bool
  needs_calls (selection t) = true
  needs_calls (trajectory t) = true
  needs_calls _ = false

  abbrev pub needs_arguments : BuiltEvaluator W → Bool
  needs_arguments (arguments t) = true
  needs_arguments _ = false

  -- The form that the checks share: an evaluator that needs a label refuses a case without it.
  abbrev pub check_label :
      (BuiltEvaluator W → Bool)
      → (DatasetCase W → Bool)
      → List (BuiltEvaluator W)
      → Dataset W
      → Result (Unit {0})
  check_label needs lacks evaluators dataset =
      raise_if (any needs evaluators && any lacks dataset.cases)
        (config_error "an evaluator requires a label on every case")

  abbrev pub lacks_output : DatasetCase W → Bool
  lacks_output case = is_none case.expected_output

  abbrev pub lacks_retrieval : DatasetCase W → Bool
  lacks_retrieval case = is_empty case.expected_retrieval_ids

  abbrev pub lacks_calls : DatasetCase W → Bool
  lacks_calls case = is_empty case.expected_tool_calls

  abbrev pub lacks_arguments : DatasetCase W → Bool
  lacks_arguments case = not (any (λ e. is_some e.arguments) case.expected_tool_calls)

  unfoldable pub check_reference_outputs : List (BuiltEvaluator W) → Dataset W → Result (Unit {0})
  check_reference_outputs = check_label needs_output lacks_output

  unfoldable pub check_retrieval_labels : List (BuiltEvaluator W) → Dataset W → Result (Unit {0})
  check_retrieval_labels = check_label needs_retrieval lacks_retrieval

  unfoldable pub check_tool_labels : List (BuiltEvaluator W) → Dataset W → Result (Unit {0})
  check_tool_labels evaluators dataset = do
    check_label needs_calls lacks_calls evaluators dataset
    check_label needs_arguments lacks_arguments evaluators dataset

-- The backends that `_SUPPORTED_BACKENDS` lists.
abbrev pub backend_of : String → Result Backend
backend_of name =
    if name == "mock"
    then ok mock
    else if name == "live"
    then ok live
    else if name == "ollama"
    then ok (real ollama)
    else if name == "openai"
    then ok (real openai)
    else if name == "anthropic"
    then ok (real anthropic)
    else err (config_error "execution.backend is not supported")

module _ {W : Type 0} where
  unfoldable pub read_backend : Fields W → Result Backend
  read_backend root = do
    value ← req root "execution"
    execution ← as_mapping value
    backend ← req_str execution "backend"
    backend_of backend

module _ {W : Type 0} where
  -- `isinstance(specs, list) and specs`
  abbrev pub specs_of : Value W → Result (List (Value W))
  specs_of (array vs) =
      raise_if (is_empty (values_of vs)) (config_error "config.evaluators must be a non-empty list")
      >> ok (values_of vs)
  specs_of _ = err (config_error "config.evaluators must be a non-empty list")

module _ {W : Type 0} ⦃d : Double W⦄ (matching : Matching) (environ : String → Option String) where
  unfoldable pub config_evaluators : Fields W → Result (List (BuiltEvaluator W))
  config_evaluators root = do
    value ← req root "evaluators"
    specs ← specs_of value
    build_evaluators matching environ specs

module _ {W : Type 0} ⦃d : Double W⦄ (environ : String → Option String) where
  unfoldable pub config_providers :
      Backend
      → Fields W
      → SystemVersion W
      → SystemVersion W
      → Result (List (ProviderName × Adapter W))
  config_providers backend root baseline candidate = do
    value ← req root "execution"
    execution ← as_mapping value
    base_url ← opt_str execution "base_url"
    timeout_seconds ← opt_number execution "timeout_seconds" (d.of_nat 120)
    build_providers environ
        (record {
          backend = backend;
          base_url = or_default base_url "http://localhost:11434";
          timeout_seconds = timeout_seconds;
        })
        baseline candidate
