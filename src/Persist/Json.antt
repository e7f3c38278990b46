-- ===== src/Persist/Json.antt =====
-- db/mapping.py: the lists that are stored in JSON columns, and the entities that hold them.
-- `Builtins` is what Python's `str`, `int`, `float`, `dict` and `str.strip` do with values of other
-- types than the stored ones; on the stored types they give back the value.
use eval_ops.Prelude.{
  ℕ, suc, String, Bool, true, false, not, Option, none, some, List, [], ◌∷◌, ◌==◌, string_eq,
  nat_eq, if◌then◌else◌,
}
use eval_ops.Result.{Result, ok, err, other_error, ◌>>=◌, map_ok}
use eval_ops.Double.{Double, zero_f}
use eval_ops.Domain.Values.{
  Value, null, boolean, nonneg, negative, float, text, array, object, Items, nil, cons, Fields, end,
  field, RetrievedItem, new_retrieved_item, ToolCall, new_tool_call, ExpectedToolCall,
  new_expected_tool_call,
}

pub record Builtins (W : Type 0) : Type 0 where
  pub str : Value W → String
  pub int : Value W → Result ℕ
  pub float : Value W → Result W
  pub dict : Value W → Result (Fields W)

module _ {W : Type 0} where
  -- `mapping.get(key)`
  abbrev pub field_get : String → Fields W → Option (Value W)
  field_get key end = none
  field_get key (field name v rest) = if name == key then some v else field_get key rest

  abbrev pub field_or : String → Value W → Fields W → Value W
  field_or key default fs = elim (field_get key fs) [ none ↦ default | some v ↦ v ]

  abbrev pub option_value {ℓ} : {A : Type ℓ} → (A → Value W) → Option A → Value W
  option_value wrap none = null
  option_value wrap (some a) = wrap a

  abbrev pub items_of {ℓ} : {A : Type ℓ} → (A → Value W) → List A → Items W
  items_of f [] = nil
  items_of f (x ∷ xs) = cons (f x) (items_of f xs)

  unfoldable pub retrieval_entry : RetrievedItem W → Value W
  retrieval_entry it = object (
      field "doc_id" (text it.doc_id) (
        field "content" (text it.content)
          (field "rank" (nonneg it.rank) (field "score" (option_value float it.score) end))))

  unfoldable pub tool_call_entry : ToolCall W → Value W
  tool_call_entry c = object (
      field "name" (text c.name) (
        field "arguments" (object c.arguments) (
          field "result" c.result
            (field "ok" (boolean c.success) (field "error" (option_value text c.error) end)))))

  unfoldable pub expected_entry : ExpectedToolCall W → Value W
  expected_entry c =
      object (field "name" (text c.name) (field "arguments" (option_value object c.arguments) end))

  unfoldable pub retrieval_to_json : List (RetrievedItem W) → Value W
  unfolding retrieval_entry
  retrieval_to_json items = array (items_of retrieval_entry items)

  unfoldable pub tool_calls_to_json : List (ToolCall W) → Value W
  unfolding tool_call_entry
  tool_calls_to_json calls = array (items_of tool_call_entry calls)

  unfoldable pub expected_tool_calls_to_json : List (ExpectedToolCall W) → Value W
  unfolding expected_entry
  expected_tool_calls_to_json calls = array (items_of expected_entry calls)

module _ {W : Type 0} ⦃d : Double W⦄ where
  -- The truth value of a JSON value.
  abbrev pub truth_of : Value W → Bool
  truth_of null = false
  truth_of (boolean b) = b
  truth_of (nonneg n) = not (n == 0)
  truth_of (negative n) = true
  truth_of (float x) = not (d.eq x zero_f)
  truth_of (text s) = not (s == "")
  truth_of (array nil) = false
  truth_of (array (cons v vs)) = true
  truth_of (object end) = false
  truth_of (object (field k v fs)) = true

  abbrev pub has_truth : String → Fields W → Bool
  has_truth key fs = elim (field_get key fs) [ none ↦ false | some v ↦ truth_of v ]

module _ {W : Type 0} ⦃d : Double W⦄ (b : Builtins W) where
  abbrev pub str_of : Value W → String
  str_of (text s) = s
  str_of v = b.str v

  abbrev pub int_of : Value W → Result ℕ
  int_of (nonneg n) = ok n
  int_of v = b.int v

  abbrev pub float_of : Value W → Result W
  float_of (float x) = ok x
  float_of v = b.float v

  abbrev pub dict_of : Value W → Result (Fields W)
  dict_of (object fs) = ok fs
  dict_of v = b.dict v

  -- `None if value is None else read(value)`
  abbrev pub unless_null {ℓ} : {A : Type ℓ} → (Value W → Result A) → Value W → Result (Option A)
  unless_null read null = ok none
  unless_null read v = map_ok some (read v)

  -- The error of a tool call, whose constructor calls `strip` on it.
  abbrev pub error_of : Value W → Result (Option String)
  error_of null = ok none
  error_of (text s) = ok (some s)
  error_of v = err (other_error "AttributeError")

  -- One entry, at its position: nothing, if the comprehension's condition leaves it out.
  unfoldable pub retrieval_item : ℕ → Value W → Option (Result (RetrievedItem W))
  retrieval_item position (object fs) =
      if has_truth "doc_id" fs
      then some (do
        rank ← int_of (field_or "rank" (nonneg position) fs)
        score ← unless_null float_of (field_or "score" null fs)
        new_retrieved_item (record {
          doc_id = str_of (field_or "doc_id" null fs);
          content = str_of (field_or "content" (text "") fs);
          rank = rank;
          score = score;
        }))
      else none
  retrieval_item position v = none

  -- `entry.get("arguments") or {}`
  abbrev pub or_empty : Value W → Value W
  or_empty v = if truth_of v then v else object end

  unfoldable pub tool_call_item : ℕ → Value W → Option (Result (ToolCall W))
  tool_call_item position (object fs) =
      if has_truth "name" fs
      then some (do
        arguments ← dict_of (or_empty (field_or "arguments" null fs))
        error ← error_of (field_or "error" null fs)
        new_tool_call (record {
          name = str_of (field_or "name" null fs);
          arguments = arguments;
          result = field_or "result" null fs;
          success = truth_of (field_or "ok" (boolean true) fs);
          error = error;
        }))
      else none
  tool_call_item position v = none

  unfoldable pub expected_item : ℕ → Value W → Option (Result (ExpectedToolCall W))
  expected_item position (object fs) =
      if has_truth "name" fs
      then some (do
        arguments ← unless_null dict_of (field_or "arguments" null fs)
        new_expected_tool_call
            (record { name = str_of (field_or "name" null fs); arguments = arguments }))
      else none
  expected_item position v = none

-- The comprehension over `enumerate(raw)`.
abbrev pub read_items :
    {W A : Type 0} → (ℕ → Value W → Option (Result A)) → ℕ → Items W → Result (List A)
read_items read n nil = ok []
read_items read n (cons v vs) =
    let rest = read_items read (suc n) vs in
    elim (read n v) [
      | none ↦ rest
      | some found ↦ found >>= λ a. map_ok (λ found_rest. a ∷ found_rest) rest
    ]

abbrev pub read_array :
    {W A : Type 0} → (ℕ → Value W → Option (Result A)) → Value W → Result (List A)
read_array read (array vs) = read_items read 0 vs
read_array read v = ok []
