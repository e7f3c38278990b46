-- ===== src/Runner/Turn.antt =====
-- One turn of the runner's innermost loop, and induction over the turns.
use mathlib.Core.List.{map-append}
use eval_ops.Prelude.{
  ℕ, suc, ◌*◌, String, ◌≡◌, sym, ap, ◌∙◌, some, List, [], ◌∷◌, ◌++◌, map, arith, string_eq,
  Option-cases, inl, inr,
}
use eval_ops.Result.{Result, ok, err, provider_error, >>=-eq-ok, >>-eq-ok, ok_inj}
use eval_ops.Double.{Double}
use eval_ops.Loop.{for_each, range_from, for_each_keeps}
use eval_ops.Domain.Entities.{
  SystemVersion, DatasetCase, Dataset, Experiment, EvaluationRun, new_evaluation_run, CaseResult,
  new_case_result,
}
use eval_ops.Runner.Exec.{
  ProviderResponse, ProviderClient, Providers, Evaluator, Environment, RunOutcome, Progress,
  record_answer, execute, scores_of, score, run_repeat, run_case, run_version, run_experiment,
  no_progress, preflight,
}

pub new_evaluation_run-eq :
    {W : Type 0} (r run : EvaluationRun W) → new_evaluation_run r ≡ ok run → r ≡ run
unfolding new_evaluation_run
new_evaluation_run-eq r run h = ground arith

pub new_case_result-eq :
    {W : Type 0} (c result : CaseResult W) → new_case_result c ≡ ok result → c ≡ result
unfolding new_case_result
new_case_result-eq c result h = ground arith

abbrev pub Slot : Type 0
Slot = String × String × ℕ

-- Which version, case and repeat a run is of.
abbrev pub slot : {W : Type 0} → EvaluationRun W → Slot
slot run = (run.system_version_id, run.case_id, run.repeat_index)

abbrev pub run_id : {W : Type 0} → EvaluationRun W → String
run_id run = run.id

abbrev pub scored_id : {W : Type 0} → CaseResult W → String
scored_id result = result.run_id

module _ {W : Type 0} ⦃d : Double W⦄ (env : Environment) where
  answer-slot :
      (x : Experiment) (v : SystemVersion W) (case : DatasetCase W) (r : ℕ) (id : String)
      (answer : Result (ProviderResponse W)) (run : EvaluationRun W)
      → record_answer env x v case r id answer ≡ ok run
      → (slot run ≡ (v.id, case.id, r)) × (run.id ≡ id) × (run.experiment_id ≡ x.id)
  unfolding record_answer
  answer-slot x v case r id (ok response) run h =
      let e = new_evaluation_run-eq _ run h in (cc e, cc e, cc e)
  answer-slot x v case r id (err (provider_error k m)) run h =
      let e = new_evaluation_run-eq _ run h in (cc e, cc e, cc e)
  answer-slot x v case r id (err _) run h = cc

  score-run_id :
      (run : EvaluationRun W) (case : DatasetCase W) (evaluators : List (Evaluator W)) (n : ℕ)
      (result : CaseResult W)
      → score env run case evaluators n ≡ ok result
      → result.run_id ≡ run.id
  unfolding score
  score-run_id run case evaluators n result h =
      let (scores, _, q) = >>=-eq-ok (scores_of run case evaluators n) _ h in
      cc (new_case_result-eq _ result q)

  -- What one turn of the innermost loop adds to the lists.
  pub record Turn (v : SystemVersion W) (case : DatasetCase W) (r : ℕ) (s s' : Progress W)
      : Type 0 where
    pub slots : map slot s'.runs ≡ map slot s.runs ++ (v.id, case.id, r) ∷ []
    pub ids : map run_id s'.runs ≡ map run_id s.runs ++ env.new_id (2 * s.calls) ∷ []
    pub run_ids :
        map scored_id s'.case_results
        ≡ map scored_id s.case_results ++ env.new_id (2 * s.calls) ∷ []
    pub calls : s'.calls ≡ suc s.calls

  pub run_repeat-Turn :
      (x : Experiment) (evaluators : List (Evaluator W)) (v : SystemVersion W)
      (provider : ProviderClient W) (case : DatasetCase W) (prompt : String) (r : ℕ)
      (s s' : Progress W)
      → run_repeat env x evaluators v provider case prompt r s ≡ ok s'
      → Turn v case r s s'
  unfolding run_repeat execute
  run_repeat-Turn x evaluators v provider case prompt r s s' h =
      let (run, p, q) = >>=-eq-ok (execute env x v case r prompt provider s.calls) _ h in
      let (result, p', q') = >>=-eq-ok (score env run case evaluators s.calls) _ q in
      let (at, named, _) = answer-slot x v case r _ _ run p in
      let scored = score-run_id run case evaluators s.calls result p' in
      let e = ok_inj q' in
      record {
        slots =
            sym (ap (λ t. map slot t.runs) e)
            ∙ (map-append slot s.runs (run ∷ []) ∙ ap (λ t. map slot s.runs ++ t ∷ []) at);
        ids =
            sym (ap (λ t. map run_id t.runs) e)
            ∙ (map-append run_id s.runs (run ∷ []) ∙ ap (λ t. map run_id s.runs ++ t ∷ []) named);
        run_ids =
            sym (ap (λ t. map scored_id t.case_results) e)
            ∙ (map-append scored_id s.case_results (result ∷ [])
                ∙ ap (λ t. map scored_id s.case_results ++ t ∷ []) (scored ∙ named));
        calls = cc e;
      }

  pub run_version-parts :
      (x : Experiment) (evaluators : List (Evaluator W)) (providers : Providers W)
      (dataset : Dataset W) (v : SystemVersion W) (s s' : Progress W)
      → run_version env x evaluators providers dataset v s ≡ ok s'
      → (provider : ProviderClient W) × (providers v.provider ≡ some provider)
        × (for_each (run_case env x evaluators v provider) dataset.cases s ≡ ok s')
  unfolding run_version
  run_version-parts x evaluators providers dataset v s s' h =
      elim (Option-cases (providers v.provider)) [
        | inl e ↦ cc (rw (e, run_version) at h)
        | inr (provider, e) ↦ (provider, e, rw (e, run_version) at h)
      ]

  pub run_experiment-parts :
      (x : Experiment) (dataset : Dataset W) (baseline candidate : SystemVersion W)
      (providers : Providers W) (evaluators : List (Evaluator W)) (outcome : RunOutcome W)
      → run_experiment env x dataset baseline candidate providers evaluators ≡ ok outcome
      → (s : Progress W) × (for_each
            (run_version env x evaluators providers dataset)
            (baseline ∷ candidate ∷ [])
            no_progress
          ≡ ok s)
        × (outcome ≡ record { runs = s.runs; case_results = s.case_results })
  unfolding run_experiment
  run_experiment-parts x dataset baseline candidate providers evaluators outcome h =
      let (s, p, q) =
        >>=-eq-ok
          (for_each (run_version env x evaluators providers dataset) (baseline ∷ candidate ∷ [])
            no_progress)
          _ (>>-eq-ok (preflight x dataset baseline candidate providers evaluators) _ h) in
      (s, p, sym (ok_inj q))

  -- An invariant of every turn of the innermost loop holds when the runner returns.
  module _ (P : Progress W → Type 0)
      (keep : (v : SystemVersion W) (case : DatasetCase W) (r : ℕ) (s s' : Progress W)
        → Turn v case r s s'
        → P s
        → P s')
      (x : Experiment) (evaluators : List (Evaluator W)) where
    case_keeps :
        (v : SystemVersion W) (provider : ProviderClient W) (case : DatasetCase W)
        (s s' : Progress W)
        → run_case env x evaluators v provider case s ≡ ok s'
        → P s
        → P s'
    unfolding run_case
    case_keeps v provider case s s' h =
        let (prompt, _, q) = >>=-eq-ok (env.render_prompt v.prompt_template case.input) _ h in
        for_each_keeps P (run_repeat env x evaluators v provider case prompt)
          (λ r t t' e.
            keep v case r t t' (run_repeat-Turn x evaluators v provider case prompt r t t' e))
          (range_from 0 x.repeats) s s' q

    version_keeps :
        (providers : Providers W) (dataset : Dataset W) (v : SystemVersion W) (s s' : Progress W)
        → run_version env x evaluators providers dataset v s ≡ ok s'
        → P s
        → P s'
    version_keeps providers dataset v s s' h =
        let (provider, _, q) = run_version-parts x evaluators providers dataset v s s' h in
        for_each_keeps P (run_case env x evaluators v provider) (case_keeps v provider)
          dataset.cases s s' q

    pub turn_induction :
        (dataset : Dataset W) (baseline candidate : SystemVersion W) (providers : Providers W)
        (outcome : RunOutcome W)
        → run_experiment env x dataset baseline candidate providers evaluators ≡ ok outcome
        → P no_progress
        → (s : Progress W) × P s
          × (outcome ≡ record { runs = s.runs; case_results = s.case_results })
    turn_induction dataset baseline candidate providers outcome h start =
        let (s, p, q) =
          run_experiment-parts x dataset baseline candidate providers evaluators outcome h in
        (
          s,
          for_each_keeps P (run_version env x evaluators providers dataset)
              (version_keeps providers dataset) (baseline ∷ candidate ∷ []) no_progress s p start,
          q,
        )
