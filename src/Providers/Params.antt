-- ===== src/Providers/Params.antt =====
-- `build_options` of ollama.py and `cloud_params` of cloud_providers.py
use eval_ops.Prelude.{
  ℕ, String, none, some, List, [], ◌∷◌, ◌==◌, string_eq, nat_eq, if◌then◌else◌, contains,
}
use eval_ops.Result.{Result, ok, err, config_error, ◌>>=◌, map_ok}
use eval_ops.Double.{Double}
use eval_ops.Domain.Values.{Value, nonneg, float, Fields, end, field}
use eval_ops.Documents.{as_nat, as_number, below_zero}

abbrev float_params : List String
float_params = "temperature" ∷ "top_p" ∷ []

abbrev ollama_int_options : List String
ollama_int_options = "seed" ∷ "num_predict" ∷ []

abbrev cloud_int_params : List String
cloud_int_params = "max_tokens" ∷ []

module _ {W : Type 0} ⦃d : Double W⦄ where
  -- A number that is not negative, as a float.
  abbrev float_option : Value W → Result (Value W)
  float_option value = elim (as_number value) [
    | none ↦ err (config_error "parameter must be a number >= 0")
    | some number ↦
        if below_zero value
        then err (config_error "parameter must be a number >= 0")
        else map_ok float number
  ]

  -- An integer that is at least `least`, which is 0 or 1.
  abbrev int_option : ℕ → Value W → Result (Value W)
  int_option least value = elim (as_nat value) [
    | none ↦ err (config_error "parameter must be an integer of at least the minimum")
    | some n ↦
        if least == 1
        then (if n == 0
            then err (config_error "parameter must be an integer of at least the minimum")
            else ok (nonneg n))
        else ok (nonneg n)
  ]

  -- One entry of the loop, after the key `mock` has been skipped.
  abbrev option_value : List String → ℕ → String → Value W → Result (Value W)
  option_value ints least key value =
      if contains float_params key
      then float_option value
      else if contains ints key
      then int_option least value
      else err (config_error "not a supported generation parameter")

  unfoldable pub options_from : List String → ℕ → Fields W → Result (Fields W)
  options_from ints least end = ok end
  options_from ints least (field key value rest) =
      let others = options_from ints least rest in
      if key == "mock"
      then others
      else option_value ints least key value >>= λ v. map_ok (λ options. field key v options) others

  unfoldable pub build_options : Fields W → Result (Fields W)
  unfolding options_from
  build_options parameters = options_from ollama_int_options 0 parameters

  unfoldable pub cloud_params : Fields W → Result (Fields W)
  unfolding options_from
  cloud_params parameters = options_from cloud_int_params 1 parameters
