-- ===== src/Config/Producible.antt =====
-- That a release policy that the reader accepts is one that the gate can apply.
use eval_ops.Prelude.{
  ℕ, String, ◌≡◌, sym, ap, ◌∙◌, subst, true, not, Option, none, some, List, [], ◌∷◌, map, arith,
  All, select, contains, string_eq,
}
use eval_ops.Result.{
  Result, ok, err, ok_inj, config_error, domain_error, each, is_ok, ◌>>=◌, map_ok, map_ok-inv,
  >>=-eq-ok, >>-eq-ok, raise_if,
}
use eval_ops.Double.{Double}
use eval_ops.Dict.{Dict, keys}
use eval_ops.Runner.Exec.{RunOutcome}
use eval_ops.Domain.Evidence.{MetricEvidence}
use eval_ops.Gate.Report.{GateReport, evaluate_gate}
use eval_ops.Gate.Total.{evaluate_gate_total}
use eval_ops.Aggregate.Names.{aggregated_names}
use eval_ops.Aggregate.Metrics.{aggregate_results}
use eval_ops.Evaluators.Names.{raise_if_passed}
use eval_ops.Domain.Values.{
  Value, null, boolean, nonneg, negative, float, text, array, object, Fields, MetricComparison,
  require_non_empty,
}
use eval_ops.Domain.Entities.{
  ReleasePolicy, check_threshold, new_release_policy, EvaluationResult, Experiment, is_empty,
}
use eval_ops.Persist.Json.{field_get}
use eval_ops.Config.Read.{build, as_mapping, req_str, opt_int, opt_mapping}
use eval_ops.Config.Policy.{
  read_thresholds, policy_from, unknown_thresholds, policy_section, build_policy,
}
use eval_ops.Config.Directed.{expected_directed}
use eval_ops.Gate.Verdict.{direction_of}

some_inj : {A : Type 0} {a b : A} → some a ≡ some b → a ≡ b
some_inj h = cc h

build-eq-ok : {A : Type 0} (m : Result A) (a : A) → build m ≡ ok a → m ≡ ok a
build-eq-ok (ok x) a h = h
build-eq-ok (err e) a h = ground (arith, h)

All-unmap :
    {A : Type 0} (P : String → Type 0) (f : A → String) (xs : List A)
    → All P (map f xs)
    → All (λ x. P (f x)) xs
All-unmap P f [] h = tt
All-unmap P f (x ∷ xs) h = (h.0, All-unmap P f xs h.1)

module _ {W : Type 0} ⦃d : Double W⦄ where
  new_release_policy-same : (p p' : ReleasePolicy W) → new_release_policy p ≡ ok p' → p ≡ p'
  unfolding new_release_policy
  new_release_policy-same p p' h = ok_inj (
      >>-eq-ok (each check_threshold p.thresholds) _ (
        >>-eq-ok (require_non_empty p.id "ReleasePolicy.id") _
          (>>-eq-ok (require_non_empty p.name "ReleasePolicy.name") _ h)))

  policy-thresholds :
      (id : String) (section : Fields W) (thresholds : Dict String W) (p : ReleasePolicy W)
      → policy_from id section thresholds ≡ ok p
      → p.thresholds ≡ thresholds
  unfolding policy_from
  policy-thresholds id section thresholds p h =
      let (name, _, h1) = >>=-eq-ok (req_str section "name") _ h in
      let (violations, _, h2) = >>=-eq-ok (opt_int section "max_safety_violations" 0) _ h1 in
      counted name violations h2
    where
      counted :
          (name : String) (violations : Option ℕ)
          → (elim violations [
            | none ↦ err (domain_error "ReleasePolicy.max_safety_violations must be >= 0")
            | some n ↦ new_release_policy (record {
              name = name;
              thresholds = thresholds;
              max_safety_violations = n;
              id = id;
            })
          ])
            ≡ ok p
          → p.thresholds ≡ thresholds
      counted name none k = cc k
      counted name (some n) k =
          ap (λ (q : ReleasePolicy W). q.thresholds) (sym (new_release_policy-same _ p k))

  -- A policy that has been built names no metric that the run cannot produce.
  policy_section-known :
      (id : String) (names : List String) (section : Fields W) (p : ReleasePolicy W)
      → policy_section id names section ≡ ok p
      → is_empty (unknown_thresholds names p.thresholds) ≡ true
  unfolding policy_section
  policy_section-known id names section p h =
      let (raw, _, h1) = >>=-eq-ok (opt_mapping section "thresholds") _ h in
      let (thresholds, _, h2) = >>=-eq-ok (read_thresholds raw) _ h1 in
      let unknown = not (is_empty (unknown_thresholds names thresholds)) in
      let message =
        config_error "release_policy.thresholds names metric(s) this run cannot produce" in
      let passed = raise_if_passed unknown message _ h2 in
      let built =
        build-eq-ok (policy_from id section thresholds) p
          (>>-eq-ok (raise_if unknown message) _ h2) in
      subst (λ (ts : Dict String W). is_empty (unknown_thresholds names ts) ≡ true)
        (sym (policy-thresholds id section thresholds p built)) (ground (arith, passed))

  build_policy-known :
      (id : String) (root : Fields W) (names : List String) (p : ReleasePolicy W)
      → build_policy id root names ≡ ok (some p)
      → is_empty (unknown_thresholds names p.thresholds) ≡ true
  unfolding build_policy
  build_policy-known id root names p h = read (field_get "release_policy" root) h
    where
      section :
          (fs : Fields W)
          → map_ok some (policy_section id names fs) ≡ ok (some p)
          → is_empty (unknown_thresholds names p.thresholds) ≡ true
      section fs k =
          let (q, built, same) = map_ok-inv some (policy_section id names fs) (some p) k in
          policy_section-known id names fs p (built ∙ ap ok (some_inj (sym same)))

      read :
          (o : Option (Value W))
          → (elim o [
            | none ↦ ok none
            | some null ↦ ok none
            | some value ↦
                as_mapping value >>= λ section. map_ok some (policy_section id names section)
          ])
            ≡ ok (some p)
          → is_empty (unknown_thresholds names p.thresholds) ≡ true
      read none k = cc k
      read (some null) k = cc k
      read (some (object fs)) k = section fs k
      read (some (boolean b)) k = cc k
      read (some (nonneg n)) k = cc k
      read (some (negative n)) k = cc k
      read (some (float y)) k = cc k
      read (some (text t)) k = cc k
      read (some (array vs)) k = cc k

  -- A policy that the reader accepts for the evaluators of a run can be applied to every result
  -- that is aggregated from an outcome for these evaluators, with any evidence: the gate returns a report.
  pub build_policy-evaluate_gate :
      (id result_id : String) (root : Fields W) (names : List String) (p : ReleasePolicy W)
      (x : Experiment) (outcome : RunOutcome W) (r : EvaluationResult W)
      (evidence : List (MetricEvidence W))
      → build_policy id root names ≡ ok (some p)
      → aggregate_results result_id x outcome names ≡ ok r
      → (report : GateReport W) × (evaluate_gate (record r { evidence = evidence }) (some p)
          ≡ ok report)
  build_policy-evaluate_gate id result_id root names p x outcome r evidence built aggregated =
      let (same, _) = aggregated_names result_id x outcome names r aggregated in
      let known = build_policy-known id root names p built in
      let directed =
        All-unmap (λ m. is_ok (direction_of m) ≡ true) (λ (m : MetricComparison W). m.metric)
          r.metrics
          (subst (All (λ m. is_ok (direction_of m) ≡ true)) (sym same) (expected_directed names)) in
      (evaluate_gate_total (record r { evidence = evidence }) p).0
        (subst
          (λ (ms : List String).
            is_empty (select (λ m. not (contains ms m)) (keys p.thresholds)) ≡ true)
          (sym same) known)
        directed
