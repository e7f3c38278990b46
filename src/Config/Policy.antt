-- ===== src/Config/Policy.antt =====
-- config.py: `_build_policy`
use eval_ops.Prelude.{String, not, Option, none, some, List, [], ◌∷◌, string_eq, select, contains}
use eval_ops.Result.{Result, ok, err, config_error, domain_error, ◌>>=◌, ◌>>◌, map_ok, raise_if}
use eval_ops.Double.{Double}
use eval_ops.Dict.{Dict, keys}
use eval_ops.Domain.Values.{null, Fields, end, field}
use eval_ops.Domain.Entities.{ReleasePolicy, new_release_policy, is_empty}
use eval_ops.Persist.Json.{field_get}
use eval_ops.Documents.{as_number}
use eval_ops.Aggregate.Metrics.{expected_metric_names}
use eval_ops.Config.Read.{build, as_mapping, req_str, opt_int, opt_mapping}

module _ {W : Type 0} ⦃d : Double W⦄ where
  -- The loop over the thresholds. The keys of a mapping are different.
  unfoldable pub read_thresholds : Fields W → Result (Dict String W)
  read_thresholds end = ok []
  read_thresholds (field metric value rest) =
      let others = read_thresholds rest in
      elim (as_number value) [
        | none ↦ err (config_error "the threshold must be a number")
        | some number ↦
            number >>= λ ceiling. map_ok (λ thresholds. (metric, ceiling) ∷ thresholds) others
      ]

  -- The call of the constructor, with its arguments read in order.
  unfoldable pub policy_from : String → Fields W → Dict String W → Result (ReleasePolicy W)
  policy_from id section thresholds = do
    name ← req_str section "name"
    violations ← opt_int section "max_safety_violations" 0
    elim violations [
      | none ↦ err (domain_error "ReleasePolicy.max_safety_violations must be >= 0")
      | some n ↦
          new_release_policy
            (record { name = name; thresholds = thresholds; max_safety_violations = n; id = id })
    ]

  -- The thresholds that the run cannot produce.
  abbrev pub unknown_thresholds : List String → Dict String W → List String
  unknown_thresholds evaluator_names thresholds =
      select (λ m. not (contains (expected_metric_names evaluator_names) m)) (keys thresholds)

  unfoldable pub policy_section : String → List String → Fields W → Result (ReleasePolicy W)
  unfolding read_thresholds policy_from
  policy_section id evaluator_names section = do
    raw_thresholds ← opt_mapping section "thresholds"
    thresholds ← read_thresholds raw_thresholds
    raise_if (not (is_empty (unknown_thresholds evaluator_names thresholds)))
        (config_error "release_policy.thresholds names metric(s) this run cannot produce")
    build (policy_from id section thresholds)

  unfoldable pub build_policy : String → Fields W → List String → Result (Option (ReleasePolicy W))
  unfolding policy_section
  build_policy id root evaluator_names = elim (field_get "release_policy" root) [
    | none ↦ ok none
    | some null ↦ ok none
    | some value ↦
        as_mapping value >>= λ section. map_ok some (policy_section id evaluator_names section)
  ]
