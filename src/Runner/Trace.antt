-- ===== src/Runner/Trace.antt =====
-- The order in which the runner executes, and how its two lists are aligned.
use mathlib.Core.List.{flat_map, map-append, append-nil}
use eval_ops.Prelude.{
  ℕ, suc, ◌*◌, ◌≡◌, refl, sym, ap, ◌∙◌, List, [], ◌∷◌, ◌++◌, map, arith, length, length-append,
  length-map, string_eq, subst,
}
use eval_ops.Result.{ok, >>=-eq-ok}
use eval_ops.Double.{Double}
use eval_ops.Loop.{range_from, range_from-suc, for_each_trace}
use eval_ops.Domain.Entities.{SystemVersion, DatasetCase, Dataset, Experiment}
use eval_ops.Runner.Exec.{
  ProviderClient, Providers, Evaluator, Environment, RunOutcome, Progress, run_repeat, run_case,
  run_version, run_experiment, no_progress,
}
use eval_ops.Runner.Turn.{
  Slot, slot, run_id, scored_id, run_repeat-Turn, run_version-parts, run_experiment-parts,
  turn_induction, Turn,
}

longer :
    {W : Type 0} (s : Progress W) (n : ℕ)
    → s.calls ≡ suc n
    → range_from 0 s.calls ≡ range_from 0 n ++ n ∷ []
longer s n e =
    ap (range_from 0) e
    ∙ (range_from-suc 0 n ∙ ap (λ (t : ℕ). range_from 0 n ++ t ∷ []) (omega arith))

module _ {W : Type 0} ⦃d : Double W⦄ (env : Environment) where
  -- The slots of the loops, in their order.
  abbrev pub case_slots : Experiment → SystemVersion W → DatasetCase W → List Slot
  case_slots x v case = flat_map (λ r. (v.id, case.id, r) ∷ []) (range_from 0 x.repeats)

  abbrev pub version_slots : Experiment → Dataset W → SystemVersion W → List Slot
  version_slots x dataset v = flat_map (case_slots x v) dataset.cases

  abbrev traced : Progress W → List Slot
  traced s = map slot s.runs

  case-trace :
      (x : Experiment) (evaluators : List (Evaluator W)) (v : SystemVersion W)
      (provider : ProviderClient W) (case : DatasetCase W) (s s' : Progress W)
      → run_case env x evaluators v provider case s ≡ ok s'
      → traced s' ≡ traced s ++ case_slots x v case
  unfolding run_case
  case-trace x evaluators v provider case s s' h =
      let (prompt, _, q) = >>=-eq-ok (env.render_prompt v.prompt_template case.input) _ h in
      for_each_trace traced (λ r. (v.id, case.id, r) ∷ [])
        (run_repeat env x evaluators v provider case prompt)
        (λ r t t' e. (run_repeat-Turn env x evaluators v provider case prompt r t t' e).slots)
        (range_from 0 x.repeats) s s' q

  version-trace :
      (x : Experiment) (evaluators : List (Evaluator W)) (providers : Providers W)
      (dataset : Dataset W) (v : SystemVersion W) (s s' : Progress W)
      → run_version env x evaluators providers dataset v s ≡ ok s'
      → traced s' ≡ traced s ++ version_slots x dataset v
  version-trace x evaluators providers dataset v s s' h =
      let (provider, _, q) = run_version-parts env x evaluators providers dataset v s s' h in
      for_each_trace traced (case_slots x v) (run_case env x evaluators v provider)
        (case-trace x evaluators v provider) dataset.cases s s' q

  -- The runs come in the order of the loops: first the baseline version, then the candidate;
  -- within a version the cases in the order of the dataset; within a case the repeats from 0. There
  -- is exactly one run for each slot.
  pub runs_in_order :
      (x : Experiment) (dataset : Dataset W) (baseline candidate : SystemVersion W)
      (providers : Providers W) (evaluators : List (Evaluator W)) (outcome : RunOutcome W)
      → run_experiment env x dataset baseline candidate providers evaluators ≡ ok outcome
      → map slot outcome.runs
        ≡ version_slots x dataset baseline ++ version_slots x dataset candidate
  unfolding flat_map
  runs_in_order x dataset baseline candidate providers evaluators outcome h =
      let (s, p, q) =
        run_experiment-parts env x dataset baseline candidate providers evaluators outcome h in
      ap (λ o. map slot o.runs) q
      ∙ (for_each_trace traced (version_slots x dataset)
            (run_version env x evaluators providers dataset)
            (version-trace x evaluators providers dataset) (baseline ∷ candidate ∷ []) no_progress s
            p
          ∙ ap (λ t. version_slots x dataset baseline ++ t)
              (append-nil (version_slots x dataset candidate)))

  record IsAligned (s : Progress W) : Type 0 where
    paired : map scored_id s.case_results ≡ map run_id s.runs
    drawn : map run_id s.runs ≡ map (λ n. env.new_id (2 * n)) (range_from 0 s.calls)
    counted : length s.runs ≡ s.calls

  Turn-IsAligned :
      (v : SystemVersion W) (case : DatasetCase W) (r : ℕ) (s s' : Progress W)
      → Turn env v case r s s'
      → IsAligned s
      → IsAligned s'
  Turn-IsAligned v case r s s' t a =
      let f = λ (n : ℕ). env.new_id (2 * n) in
      record {
        paired = t.run_ids ∙ (ap (λ l. l ++ f s.calls ∷ []) a.paired ∙ sym t.ids);
        drawn =
            t.ids
            ∙ (ap (λ l. l ++ f s.calls ∷ []) a.drawn
                ∙ (sym (map-append f (range_from 0 s.calls) (s.calls ∷ []))
                    ∙ ap (map f) (sym (longer s' s.calls t.calls))));
        counted = omega (
          arith,
          a.counted,
          t.calls,
          ap (λ l. length l) t.ids,
          length-append (map run_id s.runs) (f s.calls ∷ []),
          length-map run_id s'.runs,
          length-map run_id s.runs,
        );
      }

  -- Each run has exactly one case result, in the same place: `case_results[i].run_id` is
  -- `runs[i].id` for every `i`, and the i-th run has the id drawn for the i-th call.
  pub results_aligned :
      (x : Experiment) (dataset : Dataset W) (baseline candidate : SystemVersion W)
      (providers : Providers W) (evaluators : List (Evaluator W)) (outcome : RunOutcome W)
      → run_experiment env x dataset baseline candidate providers evaluators ≡ ok outcome
      → (map scored_id outcome.case_results ≡ map run_id outcome.runs)
        × (map run_id outcome.runs
            ≡ map (λ n. env.new_id (2 * n)) (range_from 0 (length outcome.runs)))
  results_aligned x dataset baseline candidate providers evaluators outcome h =
      let (s, a, q) =
        turn_induction env IsAligned Turn-IsAligned x evaluators dataset baseline candidate
          providers outcome h (record { paired = refl; drawn = refl; counted = refl }) in
      subst
        (λ (o : RunOutcome W).
          (map scored_id o.case_results ≡ map run_id o.runs)
          × (map run_id o.runs ≡ map (λ n. env.new_id (2 * n)) (range_from 0 (length o.runs))))
        (sym q)
        (
          a.paired,
          a.drawn ∙ ap (λ n. map (λ n. env.new_id (2 * n)) (range_from 0 n)) (sym a.counted),
        )
