-- ===== src/Domain/Values.antt =====
-- domain/value_objects.py, up to the metric comparison, and `_require_non_empty` of entities.py
use eval_ops.Prelude.{
  ℕ, ◌+◌, String, Bool, false, not, ◌&&◌, Option, none, some, string_eq, if◌then◌else◌, is_some,
}
use eval_ops.Result.{Result, ok, domain_error, ◌>>◌, raise_if}
use eval_ops.Double.{Double, zero_f, one_f}
use eval_ops.Text.{is_blank}
use eval_ops.Domain.Enums.{EvaluatorFamily}

unfoldable pub require_non_empty : String → String → Result (Unit {0})
require_non_empty value label = raise_if (is_blank value) (domain_error label)

pub record UsageMetrics (W : Type 0) : Type 0 where
  pub prompt_tokens : ℕ
  pub completion_tokens : ℕ
  pub cost_usd : W
  pub latency_ms : W

-- A value of a decoded JSON document, as in the arguments of a tool call.
mutual
  pub data Value (W : Type 0) : Type 0 where
    null : Value W
    boolean : Bool → Value W
    nonneg : ℕ → Value W
    negative : ℕ → Value W
    float : W → Value W
    text : String → Value W
    array : Items W → Value W
    object : Fields W → Value W

  pub data Items (W : Type 0) : Type 0 where
    nil : Items W
    cons : Value W → Items W → Items W

  pub data Fields (W : Type 0) : Type 0 where
    end : Fields W
    field : String → Value W → Fields W → Fields W

pub record RetrievedItem (W : Type 0) : Type 0 where
  pub doc_id : String
  pub content : String
  pub rank : ℕ
  pub score : Option W

unfoldable pub new_retrieved_item : {W : Type 0} → RetrievedItem W → Result (RetrievedItem W)
unfolding require_non_empty
new_retrieved_item r = do
  require_non_empty r.doc_id "RetrievedItem.doc_id must be a non-empty string"
  ok r

pub record ToolCall (W : Type 0) : Type 0 where
  pub name : String
  pub arguments : Fields W
  pub result : Value W
  pub success : Bool
  pub error : Option String

-- `text is not None and not text.strip()`
abbrev pub blank_when_set : Option String → Bool
blank_when_set none = false
blank_when_set (some s) = is_blank s

unfoldable pub new_tool_call : {W : Type 0} → ToolCall W → Result (ToolCall W)
unfolding require_non_empty
new_tool_call c = do
  require_non_empty c.name "ToolCall.name must be a non-empty string"
  raise_if (blank_when_set c.error) (domain_error "ToolCall.error must be non-blank when set")
  raise_if (c.success && is_some c.error)
      (domain_error "a successful ToolCall (ok=True) has no error")
  ok c

pub record ExpectedToolCall (W : Type 0) : Type 0 where
  pub name : String
  pub arguments : Option (Fields W)

unfoldable pub new_expected_tool_call :
    {W : Type 0} → ExpectedToolCall W → Result (ExpectedToolCall W)
unfolding require_non_empty
new_expected_tool_call c = do
  require_non_empty c.name "ExpectedToolCall.name must be a non-empty string"
  ok c

pub record EvaluatorScore (W : Type 0) : Type 0 where
  pub evaluator : String
  pub family : EvaluatorFamily
  pub score : W
  pub passed : Option Bool

pub record MetricComparison (W : Type 0) : Type 0 where
  pub metric : String
  pub baseline_value : W
  pub candidate_value : W

module _ {W : Type 0} ⦃d : Double W⦄ where
  -- The value that a failed run carries.
  abbrev pub zero_usage : UsageMetrics W
  zero_usage = record {
    prompt_tokens = 0;
    completion_tokens = 0;
    cost_usd = zero_f;
    latency_ms = zero_f;
  }

  unfoldable pub new_usage_metrics : UsageMetrics W → Result (UsageMetrics W)
  new_usage_metrics u = do
    raise_if (d.lt u.cost_usd zero_f) (domain_error "cost_usd must be non-negative")
    raise_if (d.lt u.latency_ms zero_f) (domain_error "latency_ms must be non-negative")
    ok u

  pub total_tokens : UsageMetrics W → ℕ
  total_tokens u = u.prompt_tokens + u.completion_tokens

  -- `0.0 <= x <= 1.0`
  abbrev pub in_unit : W → Bool
  in_unit x = d.le zero_f x && d.le x one_f

  unfoldable pub new_evaluator_score : EvaluatorScore W → Result (EvaluatorScore W)
  unfolding require_non_empty
  new_evaluator_score s = do
    require_non_empty s.evaluator "evaluator must be a non-empty string"
    raise_if (not (in_unit s.score)) (domain_error "score must be within [0.0, 1.0]")
    ok s

  unfoldable pub new_metric_comparison : MetricComparison W → Result (MetricComparison W)
  unfolding require_non_empty
  new_metric_comparison m = do require_non_empty m.metric "metric must be a non-empty string"; ok m

  pub delta : MetricComparison W → W
  delta m = d.sub m.candidate_value m.baseline_value

  pub relative_delta : MetricComparison W → Option W
  unfolding delta
  relative_delta m =
      if d.eq m.baseline_value zero_f then none else some (d.div (delta m) m.baseline_value)
