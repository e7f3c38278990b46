-- ===== src/Documents.antt =====
-- What the readers of decoded documents (evaluators.py, config.py, datasets.py, the provider
-- parameters) share: membership of a key, and the values that count as numbers.
-- `negative n` is the int -(n + 1).
use eval_ops.Prelude.{
  ℕ, suc, String, Bool, true, false, not, Option, none, some, List, [], ◌∷◌, is_some,
}
use eval_ops.Result.{Result, ok, other_error, raise_if, ◌>>◌, map_ok}
use eval_ops.Double.{Double, zero_f}
use eval_ops.Domain.Values.{Value, nonneg, negative, float, Items, nil, cons, Fields, end, field}
use eval_ops.Persist.Json.{field_get}

module _ {W : Type 0} where
  -- `key in mapping`
  abbrev pub has_field : String → Fields W → Bool
  has_field key fs = is_some (field_get key fs)

  -- `isinstance(value, int) and not isinstance(value, bool)`, for an int that is not negative
  abbrev pub as_nat : Value W → Option ℕ
  as_nat (nonneg n) = some n
  as_nat _ = none

  abbrev pub field_names : Fields W → List String
  field_names end = []
  field_names (field name v fs) = name ∷ field_names fs

  abbrev pub values_of : Items W → List (Value W)
  values_of nil = []
  values_of (cons v vs) = v ∷ values_of vs

module _ {W : Type 0} ⦃d : Double W⦄ where
  -- `float(n)` of an int, which may be too large
  abbrev pub int_float : ℕ → Result W
  int_float n = raise_if (not (d.fits n)) (other_error "OverflowError") >> ok (d.of_nat n)

  -- `float(value)` of an int or a float that is not a bool, and none of any other value
  abbrev pub as_number : Value W → Option (Result W)
  as_number (nonneg n) = some (int_float n)
  as_number (negative n) = some (map_ok d.neg (int_float (suc n)))
  as_number (float x) = some (ok x)
  as_number _ = none

  -- `value < 0`, of a number
  abbrev pub below_zero : Value W → Bool
  below_zero (negative n) = true
  below_zero (float x) = d.lt x zero_f
  below_zero _ = false
