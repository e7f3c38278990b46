-- ===== src/Config/Labels.antt =====
-- That a plan that has been loaded can be run: every evaluator finds its labels, names differ, and
-- both versions have a provider.
use eval_ops.Prelude.{
  String, ◌≡◌, refl, subst, Bool, true, false, ◌&&◌, Option, none, List, [], ◌∷◌, map, arith, All,
  Exists, any, distinct, string_eq, inl, inr,
}
use eval_ops.Result.{Result, ok, err, ok_inj, ◌>>=◌, ◌>>◌, >>=-eq-ok, >>-eq-ok}
use eval_ops.Double.{Double}
use eval_ops.Domain.Enums.{ProviderName}
use eval_ops.Domain.Values.{Fields}
use eval_ops.Domain.Traces.{Project, new_project}
use eval_ops.Domain.Entities.{SystemVersion, DatasetCase, Dataset, Experiment, new_experiment}
use eval_ops.Datasets.Jsonl.{load_jsonl}
use eval_ops.Providers.Registry.{Adapter, Backend}
use eval_ops.Providers.Covered.{Serves, build_providers-cover}
use eval_ops.Evaluators.Match.{Matching}
use eval_ops.Evaluators.Build.{BuiltEvaluator, evaluator_name}
use eval_ops.Evaluators.Ranges.{InRange}
use eval_ops.Evaluators.Names.{raise_if_passed, build_evaluators_lem}
use eval_ops.Config.Read.{build, as_mapping, req, req_str, opt_str, opt_int, opt_number}
use eval_ops.Config.Policy.{build_policy}
use eval_ops.Config.Sections.{
  build_system_version, check_label, needs_output, lacks_output, needs_retrieval, lacks_retrieval,
  needs_calls, lacks_calls, needs_arguments, lacks_arguments, check_reference_outputs,
  check_retrieval_labels, check_tool_labels, read_backend, specs_of, config_evaluators,
  config_providers,
}
use eval_ops.Config.Plan.{RunPlan, Reading, repeats_of, plan_from, load_run_plan}

All-any : {A : Type 0} (p : A → Bool) (xs : List A) → any p xs ≡ false → All (λ x. p x ≡ false) xs
All-any p [] h = tt
All-any p (x ∷ xs) h = (ground (arith, h), All-any p xs (ground (arith, h)))

module _ {W : Type 0} where
  -- No case lacks a label that an evaluator needs.
  abbrev pub IsLabelled : (BuiltEvaluator W → Bool) → (DatasetCase W → Bool) → RunPlan W → Type 0
  IsLabelled needs lacks plan =
      any needs plan.evaluators ≡ true → All (λ c. lacks c ≡ false) plan.dataset.cases

  labels_checked :
      (needs : BuiltEvaluator W → Bool) (lacks : DatasetCase W → Bool)
      (es : List (BuiltEvaluator W)) (v : Dataset W) {B : Type 0} (rest : Result B) {b : B}
      → (check_label needs lacks es v >> rest) ≡ ok b
      → any needs es ≡ true
      → All (λ c. lacks c ≡ false) v.cases
  labels_checked needs lacks es v rest h needed =
      let passed = raise_if_passed (any needs es && any lacks v.cases) _ rest h in
      All-any lacks v.cases (rw needed at passed)

  abbrev pub IsRunnable : ⦃d : Double W⦄ → RunPlan W → Type 0
  IsRunnable plan =
      IsLabelled needs_output lacks_output plan
      × IsLabelled needs_retrieval lacks_retrieval plan
      × IsLabelled needs_calls lacks_calls plan
      × IsLabelled needs_arguments lacks_arguments plan
      × (distinct (map evaluator_name plan.evaluators) ≡ true)
      × All InRange plan.evaluators
      × Exists (λ entry. entry.0 ≡ plan.baseline.provider) plan.providers
      × Exists (λ entry. entry.0 ≡ plan.candidate.provider) plan.providers

passed_first :
    {B : Type 0} (m : Result (Unit {0})) (rest : Result B) {b : B} → (m >> rest) ≡ ok b → m ≡ ok tt
passed_first (ok done) rest h = refl
passed_first (err e) rest h = cc h

passed_again : {B : Type 0} (b : B) (m : Result (Unit {0})) → m ≡ ok tt → (m >> ok b) ≡ ok b
passed_again b (ok done) h = refl
passed_again b (err e) h = cc h

module _ {W : Type 0} ⦃d : Double W⦄ where
  config_evaluators_lem :
      (matching : Matching) (environ : String → Option String) (root : Fields W)
      (es : List (BuiltEvaluator W))
      → config_evaluators matching environ root ≡ ok es
      → (distinct (map evaluator_name es) ≡ true) × All InRange es
  unfolding config_evaluators
  config_evaluators_lem matching environ root es h =
      let (value, _, h1) = >>=-eq-ok (req root "evaluators") _ h in
      let (specs, _, h2) = >>=-eq-ok (specs_of value) _ h1 in
      let (_, names, ranges) = build_evaluators_lem matching environ specs es h2 in (names, ranges)

  served :
      (backend : Backend) (p : ProviderName) (ps : List (ProviderName × Adapter W))
      → Exists (Serves backend p) ps
      → Exists (λ entry. entry.0 ≡ p) ps
  served backend p [] h = h
  served backend p (entry ∷ ps) (inl h) = inl h.0
  served backend p (entry ∷ ps) (inr h) = inr (served backend p ps h)

  config_providers_lem :
      (environ : String → Option String) (backend : Backend) (root : Fields W)
      (b c : SystemVersion W) (ps : List (ProviderName × Adapter W))
      → config_providers environ backend root b c ≡ ok ps
      → Exists (λ entry. entry.0 ≡ b.provider) ps × Exists (λ entry. entry.0 ≡ c.provider) ps
  unfolding config_providers
  config_providers_lem environ backend root b c ps h =
      let (value, _, h1) = >>=-eq-ok (req root "execution") _ h in
      let (execution, _, h2) = >>=-eq-ok (as_mapping value) _ h1 in
      let (base_url, _, h3) = >>=-eq-ok (opt_str execution "base_url") _ h2 in
      let (timeout_seconds, _, h4) =
        >>=-eq-ok (opt_number execution "timeout_seconds" (d.of_nat 120)) _ h3 in
      let (first, second) = build_providers-cover environ _ b c ps h4 in
      (served backend b.provider ps first, served backend c.provider ps second)

  plan_from-IsRunnable :
      (r : Reading W) (root : Fields W) (project : Project) (v : Dataset W) (backend : Backend)
      (b c : SystemVersion W) (x : Experiment) (plan : RunPlan W)
      → plan_from r root project v backend b c x ≡ ok plan
      → IsRunnable plan
  unfolding plan_from check_reference_outputs check_retrieval_labels check_tool_labels
  plan_from-IsRunnable r root project v backend b c x plan h =
      let (es, built, h1) = >>=-eq-ok (config_evaluators r.matching r.environ root) _ h in
      let h2 = >>-eq-ok (check_reference_outputs es v) _ h1 in
      let h3 = >>-eq-ok (check_retrieval_labels es v) _ h2 in
      let h4 = >>-eq-ok (check_tool_labels es v) _ h3 in
      let (policy, _, h5) =
        >>=-eq-ok (build_policy (r.new_id "policy") root (map evaluator_name es)) _ h4 in
      let (ps, provided, h6) = >>=-eq-ok (config_providers r.environ backend root b c) _ h5 in
      let (names, ranges) = config_evaluators_lem r.matching r.environ root es built in
      let (first, second) = config_providers_lem r.environ backend root b c ps provided in
      let outputs = labels_checked needs_output lacks_output es v _ h1 in
      let retrieval = labels_checked needs_retrieval lacks_retrieval es v _ h2 in
      let tools = passed_first (check_tool_labels es v) _ h3 in
      let calls = labels_checked needs_calls lacks_calls es v _ tools in
      let second_check =
        >>-eq-ok (check_label needs_calls lacks_calls es v)
          (check_label needs_arguments lacks_arguments es v) tools in
      let arguments =
        labels_checked needs_arguments lacks_arguments es v (ok v)
          (passed_again v _ second_check) in
      subst (λ (p : RunPlan W). IsRunnable p) (ok_inj h6)
        (outputs, retrieval, calls, arguments, names, ranges, first, second)

  -- What holds of every plan that a chain's continuation returns holds of what the chain returns.
  after :
      {A : Type 0} (first : Result A) (next : A → Result (RunPlan W))
      → ((a : A) (plan : RunPlan W) → next a ≡ ok plan → IsRunnable plan)
      → (plan : RunPlan W) → (first >>= next) ≡ ok plan
      → IsRunnable plan
  after (ok a) next each plan h = each a plan h
  after (err e) next each plan h = cc h

  -- A plan that has been loaded is one that can be run: a label that some evaluator needs is on
  -- every case of the dataset, the evaluators' names differ and their thresholds lie within
  -- [0, 1], and each of the two versions has its provider.
  pub load_run_plan-IsRunnable :
      (r : Reading W) (plan : RunPlan W) → load_run_plan r ≡ ok plan → IsRunnable plan
  unfolding load_run_plan
  load_run_plan-IsRunnable r = after r.document _ λ loaded. after (as_mapping loaded) _ λ root.
      after (req_str root "project") _ λ project_name.
        after (build (new_project (record { name = project_name; id = r.new_id "project" }))) _
          λ project. after (req root "dataset") _ λ dataset_value.
            after (as_mapping dataset_value) _ λ section. after (req_str section "path") _ λ path.
              after (opt_str section "name") _ λ name.
                after
                  (build (
                    load_jsonl r.loads r.new_case_id (r.stem path) (r.new_id "dataset")
                      (r.lines path) project.id name))
                  _
                  λ v. after (read_backend root) _ λ backend.
                    after (opt_int root "repeats" 1) _ λ given.
                      after (repeats_of given) _ λ repeats.
                        after
                          (build_system_version (r.new_id "baseline") root "baseline" project.id) _
                          λ b.
                            after
                              (build_system_version (r.new_id "candidate") root "candidate"
                                project.id)
                              _
                              λ c.
                                after
                                  (build (
                                    new_experiment (record {
                                      project_id = project.id;
                                      dataset_id = v.id;
                                      baseline_version_id = b.id;
                                      candidate_version_id = c.id;
                                      repeats = repeats;
                                      release_policy_id = none;
                                      id = r.new_id "experiment";
                                    })))
                                  _ λ x. plan_from-IsRunnable r root project v backend b c x
