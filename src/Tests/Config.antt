-- ===== src/Tests/Config.antt =====
-- A policy that the reader accepts, applied to the result of Tests/Aggregate.
use eval_ops.Prelude.{◌≡◌, refl, some, [], ◌∷◌, string_eq}
use eval_ops.Result.{ok}
use eval_ops.Double.Milli.{Milli, milli}
use eval_ops.Text.{is_blank}
use eval_ops.Domain.Values.{Fields, end, field, object, text, nonneg, require_non_empty}
use eval_ops.Domain.Entities.{ReleasePolicy, new_release_policy, check_threshold}
use eval_ops.Aggregate.Metrics.{expected_metric_names}
use eval_ops.Gate.Report.{GateReport, evaluate_gate}
use eval_ops.Config.Policy.{build_policy, policy_section, policy_from, read_thresholds}
use eval_ops.Config.Producible.{build_policy-evaluate_gate}
use eval_ops.Tests.Runner.{experiment, outcome}
use eval_ops.Tests.Aggregate.{aggregated_result, aggregated}

abbrev root : Fields Milli
root =
    field "release_policy"
      (object (
        field "name" (text "strict")
          (field "thresholds" (object (field "exact.pass_rate" (nonneg 0) end)) end)))
      end

abbrev strict : ReleasePolicy Milli
strict = record {
  name = "strict";
  thresholds = ("exact.pass_rate", Milli.nonneg 0) ∷ [];
  max_safety_violations = 0;
  id = "policy";
}

accepted : build_policy "policy" root ("exact" ∷ []) ≡ ok (some strict)
unfolding build_policy policy_section policy_from read_thresholds new_release_policy check_threshold
    require_non_empty is_blank expected_metric_names mathlib.Core.List.flat_map
accepted = refl

build_policy-evaluate_gate_example :
    (report : GateReport Milli) × (evaluate_gate
        (record aggregated_result { evidence = [] })
        (some strict)
      ≡ ok report)
build_policy-evaluate_gate_example =
    build_policy-evaluate_gate "policy" "r" root ("exact" ∷ []) strict experiment outcome
      aggregated_result [] accepted aggregated
