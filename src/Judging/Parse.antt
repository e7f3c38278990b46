-- ===== src/Judging/Parse.antt =====
-- judge.py: the prompt, and the text that `_extract_json_object` cuts out of a reply. `lower` is
-- Python's `str.lower`.
use Prim.Native.Char.{code}
use Prim.Native.String.{[], ◌∷◌, ◌++◌}
use eval_ops.Prelude.{
  ℕ, zero, suc, String, Option, none, some, ◌==◌, nat_eq, string_eq, if◌then◌else◌,
}
use eval_ops.Text.{lstrip, strip, starts_with}

-- `JUDGE_RUBRIC`, up to `{input}`
abbrev rubric : String
rubric =
    "You are a strict, impartial evaluation judge. Decide whether the CANDIDATE "
    ++ "ANSWER is a correct and appropriate response to the INPUT. If a REFERENCE "
    ++ "ANSWER is given, the candidate must be consistent with it in meaning.\n\n"
    ++ "Reply with ONE JSON object and nothing else, exactly this shape:\n"
    ++ "{\"verdict\": \"pass\" | \"fail\", \"score\": <number between 0 and 1>, "
    ++ "\"reasoning\": \"<one short sentence>\"}\n\n" ++ "INPUT:\n"

abbrev reference_section : Option String → String
reference_section none = ""
reference_section (some reference) = "REFERENCE ANSWER:\n" ++ reference ++ "\n\n"

unfoldable pub render_judge_prompt : String → String → Option String → String
render_judge_prompt case_input candidate_output reference =
    rubric
    ++ case_input
    ++ "\n\n"
    ++ reference_section reference
    ++ "CANDIDATE ANSWER:\n"
    ++ candidate_output
    ++ "\n"

-- `text[n:]`
unfoldable pub text_drop : ℕ → String → String
text_drop zero s = s
text_drop (suc n) [] = []
text_drop (suc n) (c ∷ s) = text_drop n s

-- The text before the next fence of three backticks, if there is one.
unfoldable pub before_fence : String → Option String
before_fence [] = none
before_fence (c ∷ s) =
    let rest = before_fence s in
    if starts_with (c ∷ s) "```"
    then some ""
    else elim rest [ none ↦ none | some found ↦ some (c ∷ found) ]

-- The text from the first opening brace on.
unfoldable pub from_brace : String → Option String
from_brace [] = none
from_brace (c ∷ s) = let rest = from_brace s in if code c == 123 then some (c ∷ s) else rest

-- The text up to the last closing brace, and that one.
unfoldable pub up_to_brace : String → Option String
up_to_brace [] = none
up_to_brace (c ∷ s) = elim (up_to_brace s) [
  | some found ↦ some (c ∷ found)
  | none ↦ (if code c == 125 then some (c ∷ []) else none)
]

abbrev if_found : Option String → String → String
if_found none otherwise = otherwise
if_found (some found) otherwise = found

-- The reply without a fence and its language tag.
unfoldable pub unfenced : (String → String) → String → String
unfolding before_fence text_drop
unfenced lower text =
    let candidate = strip text in
    if starts_with candidate "```"
    then (let inside = if_found (before_fence (text_drop 3 candidate)) candidate in
        strip (
          if starts_with (lower (lstrip inside)) "json"
          then text_drop 4 (lstrip inside)
          else inside))
    else candidate

-- The text that is read as JSON.
unfoldable pub object_text : (String → String) → String → Option String
unfolding unfenced from_brace up_to_brace
object_text lower text = elim (from_brace (unfenced lower text)) [
  | none ↦ none
  | some opened ↦ up_to_brace opened
]
