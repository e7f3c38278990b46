-- ===== src/Providers/Registry.antt =====
-- `make_provider` of provider_registry.py, `require_api_key` of cloud_providers.py, and
-- `build_providers` of execution.py. `environ` is the process environment.
use eval_ops.Prelude.{
  String, Bool, true, false, not, Option, none, some, List, [], ◌∷◌, ◌==◌, string_eq, if◌then◌else◌,
  map,
}
use eval_ops.Result.{Result, ok, err, config_error, ◌>>=◌, ◌>>◌, map_ok, raise_if, traverse}
use eval_ops.Double.{Double, zero_f}
use eval_ops.Text.{is_blank}
use eval_ops.Domain.Enums.{ProviderName, openai, anthropic, ollama}
use eval_ops.Domain.Entities.{SystemVersion}
use eval_ops.Providers.Params.{build_options, cloud_params}

-- `_DEFAULT_BASE_URL.get(name)`
abbrev default_base_url : ProviderName → Option String
default_base_url openai = some "https://api.openai.com/v1"
default_base_url anthropic = some "https://api.anthropic.com/v1"
default_base_url ollama = some "http://localhost:11434"

-- The adapter that a provider name is resolved to: `MockProvider()`, or `OllamaProvider`,
-- `OpenAIProvider` or `AnthropicProvider` with its two fields.
pub data Adapter (W : Type 0) : Type 0 where
  mock_adapter : Adapter W
  ollama_adapter openai_adapter anthropic_adapter :
      (base_url : String) → (timeout_seconds : W) → Adapter W

abbrev env_var : ProviderName → Option String
env_var openai = some "OPENAI_API_KEY"
env_var anthropic = some "ANTHROPIC_API_KEY"
env_var ollama = none

unfoldable pub require_api_key : (String → Option String) → ProviderName → Result (Unit {0})
require_api_key environ provider = elim (env_var provider) [
  | none ↦ ok tt
  | some name ↦ elim (environ name) [
    | none ↦ err (config_error "the provider requires its environment variable")
    | some key ↦
        raise_if (is_blank key) (config_error "the provider requires its environment variable")
  ]
]

-- `base_url or default`
abbrev pub or_default : Option String → String → String
or_default none default = default
or_default (some given) default = if given == "" then default else given

abbrev pub same_provider : ProviderName → ProviderName → Bool
same_provider openai openai = true
same_provider anthropic anthropic = true
same_provider ollama ollama = true
same_provider _ _ = false

-- `base_url or _DEFAULT_BASE_URL.get(name)`, or a ConfigError if that is None.
abbrev pub resolved_url : Option String → ProviderName → Result String
resolved_url base_url name = elim (default_base_url name) [
  | none ↦ elim base_url [
    | none ↦ err (config_error "no real provider adapter")
    | some given ↦ if given == "" then err (config_error "no real provider adapter") else ok given
  ]
  | some default ↦ ok (or_default base_url default)
]

-- The choice of the class.
unfoldable pub adapter_of : {W : Type 0} → ProviderName → String → W → Result (Adapter W)
adapter_of name resolved timeout_seconds =
    if same_provider name ollama
    then ok (ollama_adapter resolved timeout_seconds)
    else if same_provider name openai
    then ok (openai_adapter resolved timeout_seconds)
    else if same_provider name anthropic
    then ok (anthropic_adapter resolved timeout_seconds)
    else err (config_error "no real provider adapter")

module _ {W : Type 0} ⦃d : Double W⦄ (environ : String → Option String) where
  unfoldable pub make_provider : ProviderName → Option String → W → Result (Adapter W)
  unfolding require_api_key adapter_of
  make_provider name base_url timeout_seconds = do
    raise_if (d.le timeout_seconds zero_f)
        (config_error "provider timeout_seconds must be greater than 0")
    resolved ← resolved_url base_url name
    require_api_key environ name
    adapter_of name resolved timeout_seconds

-- The backends; `real` is one of those of `_REAL_BACKENDS`.
pub data Backend : Type 0 where
  mock live : Backend
  real : ProviderName → Backend

pub record ExecutionSpec (W : Type 0) : Type 0 where
  pub backend : Backend
  pub base_url : String
  pub timeout_seconds : W

-- `{baseline.provider, candidate.provider}`
abbrev pub both_names : ProviderName → ProviderName → List ProviderName
both_names p q = if same_provider p q then p ∷ [] else p ∷ q ∷ []

module _ {W : Type 0} ⦃d : Double W⦄ where
  unfoldable pub validate_generation_params : SystemVersion W → Result (Unit {0})
  unfolding build_options cloud_params
  validate_generation_params version =
      if same_provider version.provider ollama
      then (build_options version.parameters >>= λ options. ok tt)
      else (cloud_params version.parameters >>= λ options. ok tt)

  -- The providers that the backend uses.
  abbrev pub used_names : Backend → SystemVersion W → SystemVersion W → Result (List ProviderName)
  used_names mock baseline candidate = ok (both_names baseline.provider candidate.provider)
  used_names live baseline candidate = ok (both_names baseline.provider candidate.provider)
  used_names (real target) baseline candidate = do
    raise_if (not (same_provider baseline.provider target))
        (config_error "the provider of the baseline must be that of the backend")
    raise_if (not (same_provider candidate.provider target))
        (config_error "the provider of the candidate must be that of the backend")
    ok (target ∷ [])

module _ {W : Type 0} ⦃d : Double W⦄ (environ : String → Option String) where
  -- The body of the loop over the providers in use.
  unfoldable pub provider_entry : ExecutionSpec W → ProviderName → Result (ProviderName × Adapter W)
  unfolding make_provider
  provider_entry spec name =
      map_ok (λ adapter. (name, adapter))
        (make_provider environ name (if same_provider name ollama then some spec.base_url else none)
          spec.timeout_seconds)

  -- What follows for a backend other than the mock.
  unfoldable pub real_providers :
      ExecutionSpec W → SystemVersion W → SystemVersion W → Result (List (ProviderName × Adapter W))
  unfolding provider_entry validate_generation_params
  real_providers spec baseline candidate = do
    raise_if (d.le spec.timeout_seconds zero_f)
        (config_error "execution timeout_seconds must be greater than 0")
    used ← used_names spec.backend baseline candidate
    validate_generation_params baseline
    validate_generation_params candidate
    traverse (provider_entry spec) used

  unfoldable pub build_providers :
      ExecutionSpec W → SystemVersion W → SystemVersion W → Result (List (ProviderName × Adapter W))
  unfolding real_providers
  build_providers spec baseline candidate = elim spec.backend [
    | mock ↦
        ok (map (λ name. (name, mock_adapter)) (both_names baseline.provider candidate.provider))
    | live ↦ real_providers spec baseline candidate
    | real target ↦ real_providers spec baseline candidate
  ]
