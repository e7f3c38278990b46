-- ===== src/Config/Read.antt =====
-- config.py: the small typed parsing helpers. The messages stand without the values in them.
use eval_ops.Prelude.{ℕ, String, Option, none, some}
use eval_ops.Result.{Result, ok, err, config_error, domain_error}
use eval_ops.Double.{Double}
use eval_ops.Domain.Values.{Value, null, nonneg, negative, text, object, Fields, end}
use eval_ops.Persist.Json.{field_get}
use eval_ops.Documents.{as_number}

-- `_build`: a DomainValidationError becomes a ConfigError.
abbrev pub build : {A : Type 0} → Result A → Result A
build (ok a) = ok a
build (err (domain_error message)) = err (config_error message)
build (err e) = err e

module _ {W : Type 0} where
  abbrev pub as_mapping : Value W → Result (Fields W)
  as_mapping (object fs) = ok fs
  as_mapping _ = err (config_error "must be a mapping")

  abbrev pub req : Fields W → String → Result (Value W)
  req mapping key = elim (field_get key mapping) [
    | none ↦ err (config_error "missing required field")
    | some value ↦ ok value
  ]

  abbrev pub req_str : Fields W → String → Result String
  req_str mapping key = elim (field_get key mapping) [
    | none ↦ err (config_error "missing required field")
    | some (text s) ↦ ok s
    | some _ ↦ err (config_error "must be a string")
  ]

  -- The default is None at each call.
  abbrev pub opt_str : Fields W → String → Result (Option String)
  opt_str mapping key = elim (field_get key mapping) [
    | none ↦ ok none
    | some null ↦ ok none
    | some (text s) ↦ ok (some s)
    | some _ ↦ err (config_error "must be a string")
  ]

  -- An int, with none for a negative one, which every caller refuses.
  abbrev pub opt_int : Fields W → String → ℕ → Result (Option ℕ)
  opt_int mapping key default = elim (field_get key mapping) [
    | none ↦ ok (some default)
    | some (nonneg n) ↦ ok (some n)
    | some (negative n) ↦ ok none
    | some _ ↦ err (config_error "must be an integer")
  ]

  abbrev pub opt_mapping : Fields W → String → Result (Fields W)
  opt_mapping mapping key = elim (field_get key mapping) [
    | none ↦ ok end
    | some null ↦ ok end
    | some value ↦ as_mapping value
  ]

module _ {W : Type 0} ⦃d : Double W⦄ where
  abbrev pub opt_number : Fields W → String → W → Result W
  opt_number mapping key default = elim (field_get key mapping) [
    | none ↦ ok default
    | some value ↦ elim (as_number value) [
      | none ↦ err (config_error "must be a number")
      | some number ↦ number
    ]
  ]
