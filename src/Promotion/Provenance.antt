-- ===== src/Promotion/Provenance.antt =====
-- That each case of a promoted dataset comes from the trace at its place in the request.
use eval_ops.Prelude.{
  ℕ, suc, String, ◌≡◌, refl, sym, ap, ◌∙◌, subst, true, not, Option, none, some, List, [], ◌∷◌,
  arith, length, ◌==◌, string_eq, distinct,
}
use eval_ops.Result.{ok, ok_inj, config_error, map_ok-inv, >>=-eq-ok, >>-eq-ok, raise_if}
use eval_ops.Double.{Double}
use eval_ops.Domain.Enums.{promoted_trace}
use eval_ops.Domain.Traces.{ProductionTrace}
use eval_ops.Domain.Entities.{DatasetCase, Dataset, new_dataset, is_empty}
use eval_ops.Datasets.Cases.{new_dataset_case-same, new_dataset-same}
use eval_ops.Persist.Runs.{dataset_to_orm}
use eval_ops.Evaluators.Names.{raise_if_passed}
use eval_ops.Promotion.Promote.{
  Session, get_project, get_trace, add_dataset, promoted_case, promoted_cases, require_project,
  promote_traces_to_dataset,
}

module _ {W : Type 0} ⦃d : Double W⦄ (session : Session W) where
  -- A case has the input, the reference and the id of a trace of the project, and is marked as
  -- promoted.
  abbrev pub IsFrom : String → DatasetCase W → ProductionTrace W → Type 0
  IsFrom project_id c t =
      (c.input ≡ t.input)
      × (c.expected_output ≡ t.reference_output)
      × (c.source_trace_id ≡ some t.id)
      × (c.origin ≡ promoted_trace)
      × (t.project_id ≡ project_id)

  -- The cases come, in order, from the traces that the session finds for the ids.
  abbrev pub ArePromoted : String → List String → List (DatasetCase W) → Type 0
  ArePromoted project_id [] [] = Unit
  ArePromoted project_id [] (c ∷ cs) = ⊥
  ArePromoted project_id (tid ∷ ids) [] = ⊥
  ArePromoted project_id (tid ∷ ids) (c ∷ cs) =
      ((t : ProductionTrace W) × (get_trace session tid ≡ ok (some t)) × IsFrom project_id c t)
      × ArePromoted project_id ids cs

  case-IsFrom :
      (project_id : String) (n : ℕ) (o : Option (ProductionTrace W)) (c : DatasetCase W)
      → promoted_case session project_id n o ≡ ok c
      → (t : ProductionTrace W) × (o ≡ some t) × IsFrom project_id c t
  unfolding promoted_case
  case-IsFrom project_id n none c h = cc h
  case-IsFrom project_id n (some t) c h =
      let other = not (t.project_id == project_id) in
      let message = config_error "production trace belongs to another project" in
      let passed = raise_if_passed other message _ h in
      let same = new_dataset_case-same _ c (>>-eq-ok (raise_if other message) _ h) in
      let own = (string_eq.beq_iff t.project_id project_id).0 (ground (arith, passed)) in
      (
        t,
        refl,
        subst (λ (c : DatasetCase W). IsFrom project_id c t) same (refl, refl, refl, refl, own),
      )

  cases-ArePromoted :
      (project_id : String) (n : ℕ) (ids : List String) (cs : List (DatasetCase W))
      → promoted_cases session project_id n ids ≡ ok cs
      → ArePromoted project_id ids cs
  unfolding promoted_cases
  cases-ArePromoted project_id n [] cs h = subst (ArePromoted project_id []) (ok_inj h) tt
  cases-ArePromoted project_id n (tid ∷ ids) cs h =
      let (o, read, h1) = >>=-eq-ok (get_trace session tid) _ h in
      let (c, made, h2) = >>=-eq-ok (promoted_case session project_id n o) _ h1 in
      let (more, later, whole) =
        map_ok-inv (λ (cs : List (DatasetCase W)). c ∷ cs)
          (promoted_cases session project_id (suc n) ids) cs h2 in
      let (t, found, from) = case-IsFrom project_id n o c made in
      subst (ArePromoted project_id (tid ∷ ids)) (sym whole)
        ((t, read ∙ ap ok found, from), cases-ArePromoted project_id (suc n) ids more later)

  -- A dataset that has been promoted is version 1 of the project under the name given, its ids
  -- differ, and its cases come, in the order of the request, from the traces found for the ids:
  -- each has the trace's input, its reference as expected output, and its id as provenance.
  pub promote-ArePromoted :
      (project_id : String) (ids : List String) (name : String) (v : Dataset W)
      → promote_traces_to_dataset session project_id ids name ≡ ok v
      → ArePromoted project_id ids v.cases
        × (distinct ids ≡ true)
        × (v.project_id ≡ project_id)
        × (v.name ≡ name)
        × (v.version ≡ 1)
  unfolding promote_traces_to_dataset add_dataset
  promote-ArePromoted project_id ids name v h =
      let h1 =
        >>-eq-ok
          (raise_if (is_empty ids)
            (config_error "at least one trace id is required to build a dataset"))
          _ h in
      let repeated = config_error "duplicate trace id(s) in the selection" in
      let unlike = raise_if_passed (not (distinct ids)) repeated _ h1 in
      let h2 = >>-eq-ok (raise_if (not (distinct ids)) repeated) _ h1 in
      let (project, _, h3) = >>=-eq-ok (get_project session project_id) _ h2 in
      let h4 = >>-eq-ok (require_project session project) _ h3 in
      let (cases, promoted, h5) = >>=-eq-ok (promoted_cases session project_id 0 ids) _ h4 in
      let (built, made, h6) =
        >>=-eq-ok
          (new_dataset (record {
            project_id = project_id;
            name = name;
            version = 1;
            cases = cases;
            id = session.new_id (length ids);
          }))
          _ h5 in
      let same = new_dataset-same _ built made in
      let added = ok_inj (>>-eq-ok (session.flush_dataset (dataset_to_orm built)) _ h6) in
      subst
        (λ (v : Dataset W).
          ArePromoted project_id ids v.cases
          × (distinct ids ≡ true)
          × (v.project_id ≡ project_id)
          × (v.name ≡ name)
          × (v.version ≡ 1))
        (same ∙ added)
        (
          cases-ArePromoted project_id 0 ids cases promoted,
          ground (arith, unlike),
          refl,
          refl,
          refl,
        )
