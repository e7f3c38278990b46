-- ===== src/Datasets/Jsonl.antt =====
-- datasets.py: `load_jsonl`, `_parse_line` and `_parse_expected_tool_calls`. The file's lines, the
-- reader of JSON (none for a JSONDecodeError; any other exception passes) and the fresh id of a line
-- are arguments.
use eval_ops.Prelude.{
  ℕ, suc, String, Bool, not, Option, none, some, List, [], ◌∷◌, string_eq, if◌then◌else◌, contains,
  all, is_some,
}
use eval_ops.Result.{Result, ok, err, config_error, ◌>>=◌, ◌>>◌, map_ok, raise_if, traverse}
use eval_ops.Dict.{Dict, get, set}
use eval_ops.Text.{is_blank}
use eval_ops.Domain.Enums.{authored}
use eval_ops.Domain.Values.{
  Value, null, text, array, object, Fields, ExpectedToolCall, new_expected_tool_call,
}
use eval_ops.Domain.Entities.{DatasetCase, new_dataset_case, Dataset, new_dataset, is_empty}
use eval_ops.Persist.Json.{field_get}
use eval_ops.Documents.{field_names, values_of}
use eval_ops.Providers.Registry.{or_default}

abbrev pub allowed_keys : List String
allowed_keys =
    "input" ∷ "expected_output" ∷ "expected_retrieval_ids" ∷ "expected_tool_calls" ∷ "id" ∷ []

module _ {W : Type 0} where
  -- A text that is present and not blank.
  abbrev pub visible_text : Option (Value W) → Result String
  visible_text (some (text s)) =
      raise_if (is_blank s) (config_error "must be a non-empty string") >> ok s
  visible_text _ = err (config_error "must be a non-empty string")

  -- A text, if the value is present and not null.
  abbrev pub text_if_given : Option (Value W) → Result (Option String)
  text_if_given none = ok none
  text_if_given (some null) = ok none
  text_if_given (some (text s)) = ok (some s)
  text_if_given _ = err (config_error "must be a string when present")

  -- An object, if the value is present and not null.
  abbrev pub object_if_given : Option (Value W) → Result (Option (Fields W))
  object_if_given none = ok none
  object_if_given (some null) = ok none
  object_if_given (some (object fs)) = ok (some fs)
  object_if_given _ = err (config_error "must be an object when present")

  -- A list, which is empty if the value is absent; null is refused.
  abbrev pub list_if_given : Option (Value W) → Result (List (Value W))
  list_if_given none = ok []
  list_if_given (some (array vs)) = ok (values_of vs)
  list_if_given _ = err (config_error "must be a list when present")

  abbrev pub only_keys : List String → Fields W → Bool
  only_keys allowed fs = all (contains allowed) (field_names fs)

  -- The body of the loop of `_parse_expected_tool_calls`.
  unfoldable pub parse_tool_call : Value W → Result (ExpectedToolCall W)
  parse_tool_call (object entry) = do
    raise_if (not (only_keys ("name" ∷ "arguments" ∷ []) entry))
        (config_error "expected tool call must have 'name' and optional 'arguments'")
    name ← visible_text (field_get "name" entry)
    arguments ← object_if_given (field_get "arguments" entry)
    new_expected_tool_call (record { name = name; arguments = arguments })
  parse_tool_call _ = err (config_error "expected tool call must be an object")

  unfoldable pub parse_expected_tool_calls : Option (Value W) → Result (List (ExpectedToolCall W))
  unfolding parse_tool_call
  parse_expected_tool_calls raw = list_if_given raw >>= traverse parse_tool_call

  -- The id of a case, with the lines at which ids have been seen.
  unfoldable pub case_id_of :
      (ℕ → String) → ℕ → Fields W → Dict String ℕ → Result (String × Dict String ℕ)
  case_id_of new_id lineno obj first_seen = elim (field_get "id" obj) [
    | none ↦ ok (new_id lineno, first_seen)
    | some null ↦ ok (new_id lineno, first_seen)
    | some given ↦ visible_text (some given) >>= λ id.
        raise_if (is_some (get id first_seen)) (config_error "duplicate id")
        >> ok (id, set id lineno first_seen)
  ]

  -- What `_parse_line` does with a decoded line.
  unfoldable pub parse_object :
      (ℕ → String) → ℕ → Value W → Dict String ℕ → Result (DatasetCase W × Dict String ℕ)
  unfolding parse_expected_tool_calls case_id_of
  parse_object new_id lineno (object obj) first_seen = do
    raise_if (not (only_keys allowed_keys obj)) (config_error "unknown field(s)")
    raw_input ← visible_text (field_get "input" obj)
    expected ← text_if_given (field_get "expected_output" obj)
    raw_ids ← list_if_given (field_get "expected_retrieval_ids" obj)
    ids ← traverse (λ v. visible_text (some v)) raw_ids
    calls ← parse_expected_tool_calls (field_get "expected_tool_calls" obj)
    numbered ← case_id_of new_id lineno obj first_seen
    case ← new_dataset_case (record {
      input = raw_input;
      expected_output = expected;
      origin = authored;
      source_trace_id = none;
      expected_retrieval_ids = ids;
      expected_tool_calls = calls;
      id = numbered.0;
    })
    ok (case, numbered.1)
  parse_object new_id lineno _ first_seen = err (config_error "expected a JSON object")

  unfoldable pub parse_line :
      (String → Result (Option (Value W)))
      → (ℕ → String)
      → ℕ
      → String
      → Dict String ℕ
      → Result (DatasetCase W × Dict String ℕ)
  unfolding parse_object
  parse_line loads new_id lineno line first_seen = elim (loads line) [
    | ok none ↦ err (config_error "not valid JSON")
    | ok (some obj) ↦ parse_object new_id lineno obj first_seen
    | err e ↦ err e
  ]

  -- The loop over the lines, from a line number on.
  unfoldable pub parse_lines :
      (String → Result (Option (Value W)))
      → (ℕ → String)
      → ℕ
      → List String
      → Dict String ℕ
      → Result (List (DatasetCase W))
  unfolding parse_line
  parse_lines loads new_id lineno [] first_seen = ok []
  parse_lines loads new_id lineno (line ∷ lines) first_seen =
      let skipped = parse_lines loads new_id (suc lineno) lines first_seen in
      if is_blank line
      then skipped
      else (parse_line loads new_id lineno line first_seen >>= λ parsed.
          map_ok (λ cases. parsed.0 ∷ cases) (parse_lines loads new_id (suc lineno) lines parsed.1))

  unfoldable pub load_jsonl :
      (String → Result (Option (Value W)))
      → (ℕ → String)
      → (stem id : String) → Result (List String)
      → String
      → Option String
      → Result (Dataset W)
  unfolding parse_lines
  load_jsonl loads new_id stem id file project_id name = do
    lines ← file
    cases ← parse_lines loads new_id 1 lines []
    raise_if (is_empty cases) (config_error "dataset file contains no cases")
    new_dataset (record {
      project_id = project_id;
      name = or_default name stem;
      version = 1;
      cases = cases;
      id = id;
    })
