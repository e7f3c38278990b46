-- ===== src/Evaluators/Match.antt =====
-- evaluators.py: `ExactMatch`, `Contains` and `RegexMatch`. Python's `str.casefold` and the module
-- `re` are arguments.
use eval_ops.Prelude.{String, Bool, not, none, some, ◌==◌, string_eq, if◌then◌else◌, ◌||◌}
use Prim.Native.String.{[], ◌∷◌}
use eval_ops.Result.{Result, ok, err, config_error, ◌>>=◌, ◌>>◌, raise_if}
use eval_ops.Double.{Double, zero_f, one_f}
use eval_ops.Text.{strip, starts_with}
use eval_ops.Domain.Enums.{deterministic}
use eval_ops.Domain.Values.{EvaluatorScore, new_evaluator_score}
use eval_ops.Domain.Entities.{DatasetCase, EvaluationRun}

-- What the evaluators ask of Python: `s.casefold()`, whether `re.compile` accepts a pattern, and
-- whether `re.search(pattern, text)` finds a match.
pub record Matching : Type 0 where
  pub casefold : String → String
  pub compiles : String → Bool
  pub search : String → String → Bool

-- `needle in haystack`
unfoldable pub is_substring : String → String → Bool
is_substring needle [] = needle == ""
is_substring needle (c ∷ s) = starts_with (c ∷ s) needle || is_substring needle s

pub record TextMatch : Type 0 where
  pub case_sensitive : Bool
  pub name : String

pub record RegexMatch : Type 0 where
  pub pattern : String
  pub name : String

module _ {W : Type 0} ⦃d : Double W⦄ where
  unfoldable pub binary_score : String → Bool → Result (EvaluatorScore W)
  binary_score name passed = new_evaluator_score (record {
    evaluator = name;
    family = deterministic;
    score = if passed then one_f else zero_f;
    passed = some passed;
  })

module _ {W : Type 0} where
  unfoldable pub reference_output : DatasetCase W → Result String
  reference_output case = elim case.expected_output [
    | none ↦ err (config_error "evaluator requires expected_output, but the case has none")
    | some text ↦ ok text
  ]

unfoldable pub new_regex_match : Matching → RegexMatch → Result RegexMatch
new_regex_match matching t = do
  raise_if (not (matching.compiles t.pattern)) (config_error "invalid regex pattern")
  ok t

-- A text with its case kept or folded.
abbrev pub folded : Matching → Bool → String → String
folded matching case_sensitive text = if case_sensitive then text else matching.casefold text

module _ {W : Type 0} ⦃d : Double W⦄ (matching : Matching) where
  unfoldable pub exact_match :
      TextMatch → EvaluationRun W → DatasetCase W → Result (EvaluatorScore W)
  unfolding binary_score reference_output
  exact_match t run case = do
    target ← reference_output case
    binary_score t.name (
        folded matching t.case_sensitive (strip run.output)
        == folded matching t.case_sensitive (strip target))

  unfoldable pub contains_match :
      TextMatch → EvaluationRun W → DatasetCase W → Result (EvaluatorScore W)
  unfolding binary_score reference_output is_substring
  contains_match t run case = do
    needle ← reference_output case
    binary_score t.name (
        is_substring (folded matching t.case_sensitive needle)
          (folded matching t.case_sensitive run.output))

  unfoldable pub regex_match :
      RegexMatch → EvaluationRun W → DatasetCase W → Result (EvaluatorScore W)
  unfolding binary_score
  regex_match t run case = binary_score t.name (matching.search t.pattern run.output)
