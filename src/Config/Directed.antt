-- ===== src/Config/Directed.antt =====
-- That the gate has a direction for each metric that a run can produce.
use Prim.Native.String.{[] as empty, ◌∷◌ as char_cons, ◌++◌ as join}
use eval_ops.Prelude.{
  String, ◌≡◌, refl, sym, subst, true, ◌||◌, List, [], ◌∷◌, ◌++◌, arith, All, string_eq, beq_self,
}
use mathlib.Core.List.{flat_map}
use eval_ops.Result.{is_ok}
use eval_ops.Text.{ends_with}
use eval_ops.Domain.Values.{text}
use package.text.Mathlib.TextLemmas.{nil-append, cons-append}
use eval_ops.Gate.Verdict.{direction_of}
use eval_ops.Aggregate.Metrics.{expected_metric_names, pass_rate_name, mean_score_name}

-- A text ends with what has been put after it.
ends_with-join : (s t : String) → ends_with (join s t) t ≡ true
unfolding ends_with
ends_with-join empty empty = refl
ends_with-join empty (char_cons c t) =
    subst (λ (u : String). ends_with u (char_cons c t) ≡ true) (sym (nil-append (char_cons c t)))
      (ground (arith, beq_self (char_cons c t)))
ends_with-join (char_cons c s) t =
    subst (λ (u : String). ends_with u t ≡ true) (sym (cons-append c s t))
      (ground (arith, ends_with-join s t))

-- A metric with one of the two suffixes has a direction.
suffix_directed :
    (m : String)
    → (ends_with m ".pass_rate" || ends_with m ".mean_score") ≡ true
    → is_ok (direction_of m) ≡ true
unfolding direction_of
suffix_directed m h = ground (arith, h)

All-append : (P : String → Type 0) (xs ys : List String) → All P xs → All P ys → All P (xs ++ ys)
All-append P [] ys h k = k
All-append P (x ∷ xs) ys h k = (h.0, All-append P xs ys h.1 k)

evaluators_directed :
    (names : List String)
    → All
        (λ m. is_ok (direction_of m) ≡ true)
        (flat_map (λ name. pass_rate_name name ∷ mean_score_name name ∷ []) names)
unfolding flat_map
evaluators_directed [] = tt
evaluators_directed (name ∷ names) =
    let rate = ends_with-join name ".pass_rate" in
    let mean = ends_with-join name ".mean_score" in
    (
      suffix_directed (pass_rate_name name) (rw rate refl),
      (suffix_directed (mean_score_name name) (ground (arith, mean)), evaluators_directed names),
    )

success_directed : is_ok (direction_of "success_rate") ≡ true
unfolding direction_of ends_with
success_directed = refl

totals_directed :
    All
      (λ m. is_ok (direction_of m) ≡ true)
      ("latency_ms.mean" ∷ "latency_ms.p95" ∷ "cost_usd.total" ∷ [])
unfolding direction_of ends_with
totals_directed = (refl, (refl, (refl, tt)))

-- The gate has a direction for each metric that a run can produce.
pub expected_directed :
    (names : List String) → All (λ m. is_ok (direction_of m) ≡ true) (expected_metric_names names)
unfolding expected_metric_names
expected_directed names = (
  success_directed,
  All-append _ (flat_map (λ name. pass_rate_name name ∷ mean_score_name name ∷ []) names) _
      (evaluators_directed names) totals_directed,
)
