-- ===== src/Evaluators/Ranges.antt =====
-- That a threshold of an evaluator built from a spec lies within [0, 1].
use eval_ops.Prelude.{
  String, ◌≡◌, subst, Bool, true, false, Option, arith, ◌==◌, string_eq, if◌then◌else◌,
}
use eval_ops.Result.{Result, ok, err, ok_inj, >>=-eq-ok, >>-eq-ok, raise_if, config_error}
use eval_ops.Double.{Double, one_f}
use eval_ops.Text.{is_blank}
use eval_ops.Domain.Values.{
  Value, null, boolean, nonneg, negative, float, text, array, object, Fields,
}
use eval_ops.Agent.Scores.{InUnit}
use eval_ops.Agent.Evaluators.{ToolEvaluator, new_tool_evaluator, threshold as tool_threshold}
use eval_ops.Rag.Evaluators.{RagEvaluator, new_rag_evaluator, threshold as rag_threshold}
use eval_ops.Providers.Registry.{or_default, make_provider}
use eval_ops.Evaluators.Match.{Matching, TextMatch, new_regex_match}
use eval_ops.Evaluators.Build.{
  BuiltEvaluator, exact, contains_text, recall, precision, groundedness, selection, arguments,
  success, trajectory, text_field, optional_text, spec_float, spec_bool, rag_of, tool_of,
  text_match_of, regex_of, build_llm_judge, provider_of, judge_temperature, evaluator_of,
  evaluator_from,
}

module _ {W : Type 0} ⦃d : Double W⦄ where
  -- An evaluator with a threshold has one within [0, 1].
  abbrev pub InRange : BuiltEvaluator W → Type 0
  InRange (recall t) = InUnit t.minimum
  InRange (precision t) = InUnit t.minimum
  InRange (groundedness t) = InUnit t.minimum
  InRange (selection t) = InUnit t.min_score
  InRange (arguments t) = InUnit t.min_score
  InRange (success t) = InUnit t.min_score
  InRange (trajectory t) = InUnit t.min_score
  InRange _ = Unit

  -- A test whose two branches have the property in their results has it too.
  branch :
      (P : BuiltEvaluator W → Type 0) (b : Bool) (x y : Result (BuiltEvaluator W))
      → ((e : BuiltEvaluator W) → x ≡ ok e → P e)
      → ((e : BuiltEvaluator W) → y ≡ ok e → P e)
      → (e : BuiltEvaluator W) → (if b then x else y) ≡ ok e
      → P e
  branch P true x y left right = left
  branch P false x y left right = right

  new_rag-InUnit : (s t : RagEvaluator W) → new_rag_evaluator s ≡ ok t → InUnit t.minimum
  unfolding new_rag_evaluator rag_threshold
  new_rag-InUnit s t h = ground (arith, h)

  new_tool-InUnit : (s t : ToolEvaluator W) → new_tool_evaluator s ≡ ok t → InUnit t.min_score
  unfolding new_tool_evaluator tool_threshold
  new_tool-InUnit s t h = ground (arith, h)

  rag_of-InRange :
      (kind : RagEvaluator W → BuiltEvaluator W)
      → ((t : RagEvaluator W) → InUnit t.minimum → InRange (kind t))
      → (spec : Fields W) (name : Option String) (key : String) (default : W)
        (default_name : String) (e : BuiltEvaluator W)
      → rag_of kind spec name key default default_name ≡ ok e
      → InRange e
  rag_of-InRange kind good spec name key default default_name e h =
      let (minimum, _, h1) = >>=-eq-ok (spec_float spec key default) _ h in
      let (t, made, h2) =
        >>=-eq-ok
          (new_rag_evaluator (record { minimum = minimum; name = or_default name default_name })) _
          h1 in
      subst InRange (ok_inj h2) (good t (new_rag-InUnit _ t made))

  tool_of-InRange :
      (kind : ToolEvaluator W → BuiltEvaluator W)
      → ((t : ToolEvaluator W) → InUnit t.min_score → InRange (kind t))
      → (spec : Fields W) (name : Option String) (default_name : String) (e : BuiltEvaluator W)
      → tool_of kind spec name default_name ≡ ok e
      → InRange e
  tool_of-InRange kind good spec name default_name e h =
      let (min_score, _, h1) = >>=-eq-ok (spec_float spec "min_score" one_f) _ h in
      let (t, made, h2) =
        >>=-eq-ok
          (new_tool_evaluator
            (record { min_score = min_score; name = or_default name default_name }))
          _ h1 in
      subst InRange (ok_inj h2) (good t (new_tool-InUnit _ t made))

  text_match_of-InRange :
      (kind : TextMatch → BuiltEvaluator W)
      → ((t : TextMatch) → InRange (kind t))
      → (spec : Fields W) (name : Option String) (default : Bool) (default_name : String)
        (e : BuiltEvaluator W)
      → text_match_of kind spec name default default_name ≡ ok e
      → InRange e
  text_match_of-InRange kind good spec name default default_name e h =
      let (case_sensitive, _, h1) = >>=-eq-ok (spec_bool spec "case_sensitive" default) _ h in
      subst InRange (ok_inj h1) (good _)

  regex_of-InRange :
      (matching : Matching) (spec : Fields W) (name : Option String) (e : BuiltEvaluator W)
      → regex_of matching spec name ≡ ok e
      → InRange e
  regex_of-InRange matching spec name e h =
      let (pattern_text, _, h1) = >>=-eq-ok (text_field "pattern" spec) _ h in
      let (t, _, h2) =
        >>=-eq-ok
          (new_regex_match matching
            (record { pattern = pattern_text; name = or_default name "regex_match" }))
          _ h1 in
      subst InRange (ok_inj h2) tt

  judge-InRange :
      (environ : String → Option String) (timeout : W) (spec : Fields W) (name : Option String)
      (e : BuiltEvaluator W)
      → build_llm_judge environ timeout spec name ≡ ok e
      → InRange e
  unfolding build_llm_judge
  judge-InRange environ timeout spec name e h =
      let (raw, _, h1) = >>=-eq-ok (text_field "provider" spec) _ h in
      let (provider, _, h2) = >>=-eq-ok (provider_of raw) _ h1 in
      let (model, _, h3) = >>=-eq-ok (text_field "model" spec) _ h2 in
      let h4 =
        >>-eq-ok
          (raise_if (is_blank model) (config_error "'llm_judge' requires a non-empty 'model'")) _
          h3 in
      let (converted, _, h5) = >>=-eq-ok (judge_temperature spec) _ h4 in
      let (base_url, _, h6) = >>=-eq-ok (optional_text "base_url" spec) _ h5 in
      let (client, _, h7) = >>=-eq-ok (make_provider environ provider base_url timeout) _ h6 in
      let (temperature, _, h8) = >>=-eq-ok converted _ h7 in subst InRange (ok_inj h8) tt

  unknown_type :
      (message : String) (e : BuiltEvaluator W) → err (config_error message) ≡ ok e → InRange e
  unknown_type message e h = cc h

module _ {W : Type 0} ⦃d : Double W⦄ (matching : Matching) (environ : String → Option String) where
  evaluator_of-InRange :
      (evaluator_type : String) (spec : Fields W) (name : Option String) (e : BuiltEvaluator W)
      → evaluator_of matching environ evaluator_type spec name ≡ ok e
      → InRange e
  unfolding evaluator_of
  evaluator_of-InRange evaluator_type spec name =
      let text_case = text_match_of-InRange {W = W} in
      let rag_case = rag_of-InRange {W = W} in
      let tool_case = tool_of-InRange {W = W} in
      branch InRange (evaluator_type == "exact_match") _ _
        (text_case exact (λ t. tt) spec name true "exact_match")
        (branch InRange (evaluator_type == "contains") _ _
          (text_case contains_text (λ t. tt) spec name false "contains")
          (branch InRange (evaluator_type == "regex_match") _ _
            (regex_of-InRange matching spec name)
            (branch InRange (evaluator_type == "llm_judge") _ _
              (judge-InRange environ (d.of_nat 120) spec name)
              (branch InRange (evaluator_type == "retrieval_recall") _ _
                (rag_case recall (λ t h. h) spec name "min_recall" one_f "retrieval_recall")
                (branch InRange (evaluator_type == "context_precision") _ _
                  (rag_case precision (λ t h. h) spec name "min_precision" one_f
                    "context_precision")
                  (branch InRange (evaluator_type == "groundedness") _ _
                    (rag_case groundedness (λ t h. h) spec name "min_groundedness" (d.decimal 8 1)
                      "groundedness_lexical")
                    (branch InRange (evaluator_type == "tool_selection") _ _
                      (tool_case selection (λ t h. h) spec name "tool_selection")
                      (branch InRange (evaluator_type == "tool_arguments") _ _
                        (tool_case arguments (λ t h. h) spec name "tool_arguments")
                        (branch InRange (evaluator_type == "tool_success") _ _
                          (tool_case success (λ t h. h) spec name "tool_success")
                          (branch InRange (evaluator_type == "tool_trajectory") _ _
                            (tool_case trajectory (λ t h. h) spec name "tool_trajectory")
                            (unknown_type
                              "the type of the evaluator is not one of the known ones")))))))))))

  pub evaluator_from-InRange :
      (spec : Value W) (e : BuiltEvaluator W)
      → evaluator_from matching environ spec ≡ ok e
      → InRange e
  unfolding evaluator_from
  evaluator_from-InRange (object spec) e h =
      let (evaluator_type, _, h1) = >>=-eq-ok (text_field "type" spec) _ h in
      let (name, _, h2) = >>=-eq-ok (optional_text "name" spec) _ h1 in
      evaluator_of-InRange evaluator_type spec name e h2
  evaluator_from-InRange null e h = cc h
  evaluator_from-InRange (boolean b) e h = cc h
  evaluator_from-InRange (nonneg n) e h = cc h
  evaluator_from-InRange (negative n) e h = cc h
  evaluator_from-InRange (float x) e h = cc h
  evaluator_from-InRange (text s) e h = cc h
  evaluator_from-InRange (array vs) e h = cc h
