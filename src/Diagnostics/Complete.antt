-- ===== src/Diagnostics/Complete.antt =====
-- That an evaluator that passes on the baseline and fails on the candidate is reported.
use eval_ops.Prelude.{
  ℕ, String, ◌≡◌, refl, sym, ap, ◌∙◌, subst, Bool, true, false, some, List, [], ◌∷◌, ◌++◌, arith,
  Exists, contains, select, is_some, string_eq, pair_eq, ◌==◌, Eq, Bool-cases, inl, inr,
}
use mathlib.Core.List.{flat_map}
use eval_ops.Result.{ok, ok_inj, map_ok-inv, >>=-eq-ok}
use eval_ops.Double.{Double}
use eval_ops.Dict.{Dict, get, keys, get-keys, index_by}
use eval_ops.Sort.{contains-sorted, string_leb, key_leb}
use eval_ops.Domain.Values.{EvaluatorScore}
use eval_ops.Domain.Entities.{Experiment, EvaluationRun, CaseResult}
use eval_ops.Runner.Exec.{RunOutcome}
use eval_ops.Stats.Pairing.{runs_by_key, both_runs}
use eval_ops.Diagnostics.Findings.{
  PairFinding, evaluator_pass_to_fail, pair_findings, provider_findings, score_findings, score_map,
  name_findings, common_names,
}
use eval_ops.Diagnostics.Report.{
  RegressionDiagnostics, report_on, diagnose_pairs, diagnose_regressions, findings_of, key_findings,
  common_keys, pair_of,
}

module _ {A : Type 0} (P : A → Type 0) where
  Exists-append_left : (xs ys : List A) → Exists P xs → Exists P (xs ++ ys)
  Exists-append_left [] ys h = absurd h
  Exists-append_left (x ∷ xs) ys (inl h) = inl h
  Exists-append_left (x ∷ xs) ys (inr h) = inr (Exists-append_left xs ys h)

  Exists-append_right : (xs ys : List A) → Exists P ys → Exists P (xs ++ ys)
  Exists-append_right [] ys h = h
  Exists-append_right (x ∷ xs) ys h = inr (Exists-append_right xs ys h)

  Exists-flat_map :
      {B : Type 0} ⦃e : Eq B⦄ (f : B → List A) (b : B) (bs : List B)
      → contains bs b ≡ true
      → Exists P (f b)
      → Exists P (flat_map f bs)
  unfolding flat_map
  Exists-flat_map f b [] h found = cc h
  Exists-flat_map ⦃e⦄ f b (c ∷ bs) h found = elim (Bool-cases (c == b)) [
    | inl same ↦
        Exists-append_left (f c) (flat_map f bs)
          (subst (λ (y : _). Exists P (f y)) (sym ((e.beq_iff c b).0 same)) found)
    | inr other ↦
        Exists-append_right (f c) (flat_map f bs) (Exists-flat_map f b bs (rw other at h) found)
  ]

contains-select :
    {A : Type 0} ⦃e : Eq A⦄ (p : A → Bool) (a : A) (xs : List A)
    → contains xs a ≡ true
    → p a ≡ true
    → contains (select p xs) a ≡ true
contains-select p a [] h k = cc h
contains-select ⦃e⦄ p a (x ∷ xs) h k = ground (arith, e.beq_iff x a, contains-select p a xs)

module _ {K V : Type 0} ⦃e : Eq K⦄ where
  known_key : (k : K) (v : V) (m : Dict K V) → get k m ≡ some v → contains (keys m) k ≡ true
  known_key k v m h = sym (get-keys k m) ∙ ap is_some h

-- A finding of a pass that has become a failure.
abbrev pub IsPassToFail : String × ℕ → String → PairFinding → Type 0
IsPassToFail key name f =
    (pair_of f ≡ key) × (f.evaluator ≡ some name) × (f.kind ≡ evaluator_pass_to_fail)

module _ {W : Type 0} ⦃d : Double W⦄ where
  name_findings-IsPassToFail :
      (key : String × ℕ) (b c : EvaluationRun W) (drop : W) (bs cs : Dict String (EvaluatorScore W))
      (name : String) (s t : EvaluatorScore W)
      → get name bs ≡ some s
      → get name cs ≡ some t
      → s.passed ≡ some true
      → t.passed ≡ some false
      → Exists (IsPassToFail key name) (name_findings key b c drop bs cs name)
  unfolding score_findings
  name_findings-IsPassToFail key b c drop bs cs name s t p q won lost =
      rw (name_findings, p, q, won, lost) (inl (refl, refl, refl))

  pair_findings-IsPassToFail :
      (key : String × ℕ) (b c : EvaluationRun W) (results : Dict String (CaseResult W)) (drop : W)
      (name : String) (s t : EvaluatorScore W)
      → get name (score_map b results) ≡ some s
      → get name (score_map c results) ≡ some t
      → s.passed ≡ some true
      → t.passed ≡ some false
      → Exists (IsPassToFail key name) (pair_findings key b c results drop)
  unfolding pair_findings
  pair_findings-IsPassToFail key b c results drop name s t p q won lost =
      let bs = score_map b results in
      let cs = score_map c results in
      let common =
        contains-sorted string_leb name (select (contains (keys cs)) (keys bs))
        ∙ contains-select (contains (keys cs)) name (keys bs) (known_key name s bs p)
            (known_key name t cs q) in
      Exists-append_right _ (provider_findings key b c) _ (
        Exists-flat_map _ (name_findings key b c drop bs cs) name (common_names bs cs) common
          (name_findings-IsPassToFail key b c drop bs cs name s t p q won lost))

  key_findings-known :
      (baseline candidate : Dict (String × ℕ) (EvaluationRun W))
      (results : Dict String (CaseResult W)) (drop : W) (key : String × ℕ) (b c : EvaluationRun W)
      → get key baseline ≡ some b
      → get key candidate ≡ some c
      → key_findings baseline candidate results drop key ≡ ok (pair_findings key b c results drop)
  unfolding key_findings
  key_findings-known baseline candidate results drop key b c p q = rw (both_runs, p, q) refl

  findings_of-Exists :
      (P : PairFinding → Type 0) (baseline candidate : Dict (String × ℕ) (EvaluationRun W))
      (results : Dict String (CaseResult W)) (drop : W) (key : String × ℕ) (b c : EvaluationRun W)
      → get key baseline ≡ some b
      → get key candidate ≡ some c
      → Exists P (pair_findings key b c results drop)
      → (ks : List (String × ℕ)) (findings : List PairFinding)
      → findings_of baseline candidate results drop ks ≡ ok findings
      → contains ks key ≡ true
      → Exists P findings
  unfolding findings_of key_findings
  findings_of-Exists P baseline candidate results drop key b c p q there [] findings h k = cc k
  findings_of-Exists P baseline candidate results drop key b c p q there (j ∷ ks) findings h k =
      let (found, first, rest) = >>=-eq-ok (key_findings baseline candidate results drop j) _ h in
      let (more, later, whole) =
        map_ok-inv (λ (more : List PairFinding). found ++ more)
          (findings_of baseline candidate results drop ks) findings rest in
      let at_key = λ (same : j ≡ key). Exists-append_left P found more (
        subst (Exists P)
          (ok_inj (
            sym (key_findings-known baseline candidate results drop key b c p q)
            ∙ sym (ap (key_findings baseline candidate results drop) same)
            ∙ first))
          there) in
      subst (Exists P) (sym whole) (elim (Bool-cases (j == key)) [
        | inl same ↦ at_key ((pair_eq.beq_iff j key).0 same)
        | inr other ↦ Exists-append_right P found more (
            findings_of-Exists P baseline candidate results drop key b c p q there ks more later
              (rw other at k))
      ])

  -- When the two runs of a case and repeat have both been scored by an evaluator, which passes the
  -- baseline's and fails the candidate's, a report has a finding of that kind for the pair and
  -- the evaluator.
  pub diagnose_regressions-IsPassToFail :
      (x : Experiment) (outcome : RunOutcome W) (drop : W) (report : RegressionDiagnostics)
      (baseline candidate : Dict (String × ℕ) (EvaluationRun W)) (key : String × ℕ)
      (b c : EvaluationRun W) (name : String) (s t : EvaluatorScore W)
      → diagnose_regressions x outcome drop ≡ ok report
      → runs_by_key x.baseline_version_id outcome.runs [] ≡ ok baseline
      → runs_by_key x.candidate_version_id outcome.runs [] ≡ ok candidate
      → get key baseline ≡ some b
      → get key candidate ≡ some c
      → get name (score_map b (index_by (λ r. r.run_id) outcome.case_results)) ≡ some s
      → get name (score_map c (index_by (λ r. r.run_id) outcome.case_results)) ≡ some t
      → s.passed ≡ some true
      → t.passed ≡ some false
      → Exists (IsPassToFail key name) report.findings
  unfolding diagnose_regressions diagnose_pairs report_on
  diagnose_regressions-IsPassToFail x outcome drop report baseline candidate key b c name s t h hb
        hc kb kc sb sc won lost =
      let results = index_by (λ (r : CaseResult W). r.run_id) outcome.case_results in
      let common = common_keys baseline candidate in
      let (findings, found, reported) =
        >>=-eq-ok (findings_of baseline candidate results drop common) (report_on x common)
          (rw (hb, hc) at h) in
      let (cases, _, same) = map_ok-inv _ _ report reported in
      let listed =
        contains-sorted key_leb key (select (contains (keys candidate)) (keys baseline))
        ∙ contains-select (contains (keys candidate)) key (keys baseline)
            (known_key key b baseline kb) (known_key key c candidate kc) in
      subst (Exists (IsPassToFail key name))
        (ap (λ (r : RegressionDiagnostics). r.findings) (sym same))
        (findings_of-Exists (IsPassToFail key name) baseline candidate results drop key b c kb kc
          (pair_findings-IsPassToFail key b c results drop name s t sb sc won lost) common findings
          found listed)
