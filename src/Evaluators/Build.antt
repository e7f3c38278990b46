-- ===== src/Evaluators/Build.antt =====
-- evaluators.py: `build_evaluators` and its helpers. `environ` is the process environment.
use eval_ops.Prelude.{
  String, Bool, true, false, Option, none, some, List, [], ◌∷◌, ◌==◌, string_eq, if◌then◌else◌,
  contains,
}
use eval_ops.Result.{Result, ok, err, config_error, ◌>>=◌, ◌>>◌, map_ok, raise_if}
use eval_ops.Double.{Double, zero_f, one_f}
use eval_ops.Text.{is_blank}
use eval_ops.Domain.Enums.{ProviderName, openai, anthropic, ollama}
use eval_ops.Domain.Values.{Value, null, boolean, text, object, Fields}
use eval_ops.Persist.Json.{field_get}
use eval_ops.Documents.{as_number, below_zero}
use eval_ops.Providers.Registry.{Adapter, make_provider, or_default}
use eval_ops.Rag.Evaluators.{RagEvaluator, new_rag_evaluator}
use eval_ops.Agent.Evaluators.{ToolEvaluator, new_tool_evaluator}
use eval_ops.Evaluators.Match.{Matching, TextMatch, RegexMatch, new_regex_match}

-- The fields of `LLMJudge`.
pub record ModelJudge (W : Type 0) : Type 0 where
  pub provider_name : ProviderName
  pub provider_client : Adapter W
  pub model : String
  pub temperature : W
  pub name : String

-- An evaluator, by its class.
pub data BuiltEvaluator (W : Type 0) : Type 0 where
  exact contains_text : TextMatch → BuiltEvaluator W
  regex : RegexMatch → BuiltEvaluator W
  model_judge : ModelJudge W → BuiltEvaluator W
  recall precision groundedness : RagEvaluator W → BuiltEvaluator W
  selection arguments success trajectory : ToolEvaluator W → BuiltEvaluator W

module _ {W : Type 0} where
  -- `evaluator.name`
  abbrev pub evaluator_name : BuiltEvaluator W → String
  evaluator_name (exact t) = t.name
  evaluator_name (contains_text t) = t.name
  evaluator_name (regex t) = t.name
  evaluator_name (model_judge t) = t.name
  evaluator_name (recall t) = t.name
  evaluator_name (precision t) = t.name
  evaluator_name (groundedness t) = t.name
  evaluator_name (selection t) = t.name
  evaluator_name (arguments t) = t.name
  evaluator_name (success t) = t.name
  evaluator_name (trajectory t) = t.name

  -- A field that must be a text.
  abbrev pub text_field : String → Fields W → Result String
  text_field key spec = elim (field_get key spec) [
    | some (text s) ↦ ok s
    | _ ↦ err (config_error "missing required field")
  ]

  -- A field that may be absent or null, and otherwise must be a text.
  abbrev pub optional_text : String → Fields W → Result (Option String)
  optional_text key spec = elim (field_get key spec) [
    | none ↦ ok none
    | some null ↦ ok none
    | some (text s) ↦ ok (some s)
    | _ ↦ err (config_error "the field must be a string")
  ]

  unfoldable pub spec_bool : Fields W → String → Bool → Result Bool
  spec_bool spec key default = elim (field_get key spec) [
    | none ↦ ok default
    | some (boolean b) ↦ ok b
    | some _ ↦ err (config_error "the field must be a boolean")
  ]

-- `ProviderName(value)`
abbrev pub provider_of : String → Result ProviderName
provider_of name =
    if name == "openai"
    then ok openai
    else if name == "anthropic"
    then ok anthropic
    else if name == "ollama"
    then ok ollama
    else err (config_error "the provider is not one of the known ones")

module _ {W : Type 0} ⦃d : Double W⦄ where
  unfoldable pub spec_float : Fields W → String → W → Result W
  spec_float spec key default = elim (field_get key spec) [
    | none ↦ ok default
    | some value ↦ elim (as_number value) [
      | none ↦ err (config_error "the field must be a number")
      | some number ↦ number
    ]
  ]

  -- `spec.get("temperature", 0.0)`, checked to be a number that is not negative. Its conversion by
  -- `float` is made last, and so is handed on.
  abbrev pub judge_temperature : Fields W → Result (Result W)
  judge_temperature spec = elim (field_get "temperature" spec) [
    | none ↦ ok (ok zero_f)
    | some value ↦ elim (as_number value) [
      | none ↦ err (config_error "temperature must be a number >= 0")
      | some number ↦
          raise_if (below_zero value) (config_error "temperature must be a number >= 0")
          >> ok number
    ]
  ]

  unfoldable pub build_llm_judge :
      (String → Option String) → W → Fields W → Option String → Result (BuiltEvaluator W)
  unfolding make_provider
  build_llm_judge environ default_timeout spec name = do
    provider_raw ← text_field "provider" spec
    provider_name ← provider_of provider_raw
    model ← text_field "model" spec
    raise_if (is_blank model) (config_error "'llm_judge' requires a non-empty 'model'")
    converted ← judge_temperature spec
    base_url ← optional_text "base_url" spec
    client ← make_provider environ provider_name base_url default_timeout
    temperature ← converted
    ok (
        model_judge (record {
          provider_name = provider_name;
          provider_client = client;
          model = model;
          temperature = temperature;
          name = or_default name "llm_judge";
        }))

  -- An evaluator of retrieval, with its class, its key, its default and its default name.
  abbrev pub rag_of :
      (RagEvaluator W → BuiltEvaluator W)
      → Fields W
      → Option String
      → String
      → W
      → String
      → Result (BuiltEvaluator W)
  rag_of kind spec name key default default_name = do
    minimum ← spec_float spec key default
    t ← new_rag_evaluator (record { minimum = minimum; name = or_default name default_name })
    ok (kind t)

  abbrev pub tool_of :
      (ToolEvaluator W → BuiltEvaluator W)
      → Fields W
      → Option String
      → String
      → Result (BuiltEvaluator W)
  tool_of kind spec name default_name = do
    min_score ← spec_float spec "min_score" one_f
    t ← new_tool_evaluator (record { min_score = min_score; name = or_default name default_name })
    ok (kind t)

  abbrev pub text_match_of :
      (TextMatch → BuiltEvaluator W)
      → Fields W
      → Option String
      → Bool
      → String
      → Result (BuiltEvaluator W)
  text_match_of kind spec name default default_name = do
    case_sensitive ← spec_bool spec "case_sensitive" default
    ok (kind (record { case_sensitive = case_sensitive; name = or_default name default_name }))

  abbrev pub regex_of : Matching → Fields W → Option String → Result (BuiltEvaluator W)
  regex_of matching spec name = do
    pattern_text ← text_field "pattern" spec
    t ←
        new_regex_match matching
          (record { pattern = pattern_text; name = or_default name "regex_match" })
    ok (regex t)

module _ {W : Type 0} ⦃d : Double W⦄ (matching : Matching) (environ : String → Option String) where
  -- The branch of the loop's body for a type.
  unfoldable pub evaluator_of : String → Fields W → Option String → Result (BuiltEvaluator W)
  unfolding build_llm_judge
  evaluator_of evaluator_type spec name =
      if evaluator_type == "exact_match"
      then text_match_of exact spec name true "exact_match"
      else if evaluator_type == "contains"
      then text_match_of contains_text spec name false "contains"
      else if evaluator_type == "regex_match"
      then regex_of matching spec name
      else if evaluator_type == "llm_judge"
      then build_llm_judge environ (d.of_nat 120) spec name
      else if evaluator_type == "retrieval_recall"
      then rag_of recall spec name "min_recall" one_f "retrieval_recall"
      else if evaluator_type == "context_precision"
      then rag_of precision spec name "min_precision" one_f "context_precision"
      else if evaluator_type == "groundedness"
      then rag_of groundedness spec name "min_groundedness" (d.decimal 8 1) "groundedness_lexical"
      else if evaluator_type == "tool_selection"
      then tool_of selection spec name "tool_selection"
      else if evaluator_type == "tool_arguments"
      then tool_of arguments spec name "tool_arguments"
      else if evaluator_type == "tool_success"
      then tool_of success spec name "tool_success"
      else if evaluator_type == "tool_trajectory"
      then tool_of trajectory spec name "tool_trajectory"
      else err (config_error "the type of the evaluator is not one of the known ones")

  -- The body of the loop, up to the check of the name.
  unfoldable pub evaluator_from : Value W → Result (BuiltEvaluator W)
  unfolding evaluator_of
  evaluator_from (object spec) = do
    evaluator_type ← text_field "type" spec
    name ← optional_text "name" spec
    evaluator_of evaluator_type spec name
  evaluator_from _ = err (config_error "the evaluator must be a mapping")

  -- The loop, with the names seen so far.
  unfoldable pub build_from : List String → List (Value W) → Result (List (BuiltEvaluator W))
  unfolding evaluator_from
  build_from seen [] = ok []
  build_from seen (spec ∷ specs) = do
    evaluator ← evaluator_from spec
    raise_if (contains seen (evaluator_name evaluator)) (config_error "duplicate evaluator name")
    map_ok (λ built. evaluator ∷ built) (build_from (evaluator_name evaluator ∷ seen) specs)

  unfoldable pub build_evaluators : List (Value W) → Result (List (BuiltEvaluator W))
  unfolding build_from
  build_evaluators specs = build_from [] specs
