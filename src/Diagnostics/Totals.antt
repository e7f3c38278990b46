-- ===== src/Diagnostics/Totals.antt =====
-- That the counts of a report add up.
use eval_ops.Prelude.{
  ℕ, ◌≤◌, String, ◌≡◌, refl, sym, ap, subst, List, [], ◌∷◌, ◌++◌, map, arith, length, All, to_set,
  string_eq, pair_eq, Option, none, some, true, false, ◌&&◌, Bool-cases, inl, inr,
}
use mathlib.Core.List.{flat_map}
use eval_ops.Result.{ok, ok_inj, map_ok-inv, >>=-eq-ok, traverse, traverse-cons}
use eval_ops.Double.{Double}
use eval_ops.Dict.{Dict, get, index_by}
use eval_ops.Sort.{length-sorted}
use eval_ops.Domain.Values.{EvaluatorScore}
use eval_ops.Domain.Entities.{Experiment, EvaluationRun, CaseResult}
use eval_ops.Runner.Exec.{RunOutcome}
use eval_ops.Stats.Pairing.{runs_by_key}
use eval_ops.Diagnostics.Groups.{group_by, sum_of, sum_of-sorted, sum-group_by, count_leb}
use eval_ops.Diagnostics.Sizes.{length-group_by, to_set_block}
use eval_ops.Diagnostics.Findings.{
  PairFinding, pair_findings, provider_findings, score_findings, score_map, name_findings,
  passed_is,
}
use eval_ops.Diagnostics.Report.{
  RegressingCase, RegressionDiagnostics, regressing_case, regressing_cases_of, report_on,
  diagnose_pairs, diagnose_regressions, findings_of, key_findings, common_keys, pair_of,
}

-- The case of a group counts the findings of the group.
regressing_case-count :
    (g : String × List PairFinding) (c : RegressingCase)
    → regressing_case g ≡ ok c
    → c.finding_count ≡ length g.1
unfolding regressing_case
regressing_case-count (case_id, group) c h =
    let (ref, found, same) = map_ok-inv _ _ c h in ap (λ (x : RegressingCase). x.finding_count) same

cases_total :
    (gs : Dict String (List PairFinding)) (cs : List RegressingCase)
    → traverse regressing_case gs ≡ ok cs
    → (sum_of (λ c. c.finding_count) cs ≡ sum_of (λ g. length g.1) gs) × (length cs ≡ length gs)
cases_total [] cs h = ground (arith, h)
cases_total (g ∷ gs) cs h =
    let (c, cs', first, rest, split) = traverse-cons regressing_case g gs cs h in
    let (sums, sizes) = cases_total gs cs' rest in
    let one = regressing_case-count g c first in
    let sum_split = ap (sum_of (λ (c : RegressingCase). c.finding_count)) split in
    (omega (arith, sum_split, sums, one), omega (arith, ap length split, sizes))

report-cases :
    (x : Experiment) (common : List (String × ℕ)) (findings : List PairFinding)
    (report : RegressionDiagnostics)
    → report_on x common findings ≡ ok report
    → (sum_of (λ c. c.finding_count) report.cases ≡ length report.findings)
      × (length report.cases ≡ report.regressing_cases)
unfolding report_on regressing_cases_of
report-cases x common findings report h =
    let (cases, sorts, same) = map_ok-inv _ _ report h in
    let (cs, found, order) = map_ok-inv _ _ cases sorts in
    let leb = λ (a b : RegressingCase).
      count_leb (a.finding_count, a.case_id) (b.finding_count, b.case_id) in
    let (sums, sizes) = cases_total (group_by (λ f. f.case_id) findings) cs found in
    subst
      (λ (r : RegressionDiagnostics).
        (sum_of (λ c. c.finding_count) r.cases ≡ length r.findings)
        × (length r.cases ≡ r.regressing_cases))
      (sym same)
      (
        omega (
          arith,
          ap (sum_of (λ (c : RegressingCase). c.finding_count)) order,
          sum_of-sorted leb (λ c. c.finding_count) cs,
          sums,
          sum-group_by (λ (f : PairFinding). f.case_id) findings,
        ),
        omega (
          arith,
          ap length order,
          length-sorted leb cs,
          sizes,
          length-group_by (λ (f : PairFinding). f.case_id) findings,
        ),
      )

report-pairs :
    (x : Experiment) (common : List (String × ℕ)) (findings : List PairFinding)
    (report : RegressionDiagnostics)
    → report_on x common findings ≡ ok report
    → length (to_set (map pair_of findings)) ≤ length common
    → report.regressing_pairs ≤ report.matched_pairs
unfolding report_on
report-pairs x common findings report h few =
    let (cases, sorts, same) = map_ok-inv _ _ report h in
    subst (λ (r : RegressionDiagnostics). r.regressing_pairs ≤ r.matched_pairs) (sym same) few

module _ {A : Type 0} (P : A → Type 0) where
  All-append : (xs ys : List A) → All P xs → All P ys → All P (xs ++ ys)
  All-append [] ys h k = k
  All-append (x ∷ xs) ys h k = (h.0, All-append xs ys h.1 k)

  All-flat_map :
      {B : Type 0} (f : B → List A)
      → ((b : B) → All P (f b))
      → (bs : List B) → All P (flat_map f bs)
  unfolding flat_map
  All-flat_map f each [] = tt
  All-flat_map f each (b ∷ bs) = All-append (f b) (flat_map f bs) (each b) (All-flat_map f each bs)

abbrev KeyedBy : String × ℕ → List PairFinding → Type 0
KeyedBy key findings = All (λ f. pair_of f ≡ key) findings

module _ {W : Type 0} ⦃d : Double W⦄ where
  provider_findings-KeyedBy :
      (key : String × ℕ) (b c : EvaluationRun W) → KeyedBy key (provider_findings key b c)
  unfolding provider_findings
  provider_findings-KeyedBy key b c = ground arith

  score_findings-KeyedBy :
      (key : String × ℕ) (b c : EvaluationRun W) (drop : W) (name : String) (s t : EvaluatorScore W)
      → KeyedBy key (score_findings key b c drop name s t)
  unfolding score_findings
  score_findings-KeyedBy key b c drop name s t =
      elim (Bool-cases (passed_is true s.passed && passed_is false t.passed)) [
        | inl h ↦ rw h (refl, tt)
        | inr h ↦ elim (Bool-cases (d.lt t.score (d.sub s.score drop))) [
          | inl h' ↦ rw (h, h') (refl, tt)
          | inr h' ↦ rw (h, h') tt
        ]
      ]

  name_findings-KeyedBy :
      (key : String × ℕ) (b c : EvaluationRun W) (drop : W) (bs cs : Dict String (EvaluatorScore W))
      (name : String)
      → KeyedBy key (name_findings key b c drop bs cs name)
  name_findings-KeyedBy key b c drop bs cs name = found (get name bs) (get name cs) refl refl
    where
      found :
          (s t : Option (EvaluatorScore W))
          → get name bs ≡ s
          → get name cs ≡ t
          → KeyedBy key (name_findings key b c drop bs cs name)
      found none t p q = rw (name_findings, p) tt
      found (some s) none p q = rw (name_findings, p, q) tt
      found (some s) (some t) p q =
          rw (name_findings, p, q) (score_findings-KeyedBy key b c drop name s t)

  -- Every finding on a pair of runs carries the pair's key.
  pair_findings-KeyedBy :
      (key : String × ℕ) (b c : EvaluationRun W) (results : Dict String (CaseResult W)) (drop : W)
      → KeyedBy key (pair_findings key b c results drop)
  unfolding pair_findings
  pair_findings-KeyedBy key b c results drop =
      All-append _ (provider_findings key b c) _ (provider_findings-KeyedBy key b c) (
        All-flat_map _ (name_findings key b c drop (score_map b results) (score_map c results))
          (name_findings-KeyedBy key b c drop (score_map b results) (score_map c results)) _)

  few_pairs :
      (baseline candidate : Dict (String × ℕ) (EvaluationRun W))
      (results : Dict String (CaseResult W)) (drop : W) (ks : List (String × ℕ))
      (findings : List PairFinding)
      → findings_of baseline candidate results drop ks ≡ ok findings
      → length (to_set (map pair_of findings)) ≤ length ks
  unfolding findings_of key_findings
  few_pairs baseline candidate results drop [] findings h =
      subst (λ (fs : List PairFinding). length (to_set (map pair_of fs)) ≤ 0) (ok_inj h)
        (omega arith)
  few_pairs baseline candidate results drop (key ∷ ks) findings h =
      let (found, first, rest) = >>=-eq-ok (key_findings baseline candidate results drop key) _ h in
      let (pair, runs, same) = map_ok-inv _ _ found first in
      let (more, later, whole) =
        map_ok-inv (λ (more : List PairFinding). found ++ more)
          (findings_of baseline candidate results drop ks) findings rest in
      let keyed =
        subst (KeyedBy key) (sym same) (pair_findings-KeyedBy key pair.0 pair.1 results drop) in
      omega (
        arith,
        to_set_block pair_of key found more keyed,
        few_pairs baseline candidate results drop ks more later,
        ap (λ (fs : List PairFinding). length (to_set (map pair_of fs))) whole,
      )

  -- In a report, the counts of findings of the regressing cases add up to the number of findings,
  -- and the number of regressing cases is that of the cases listed.
  pub diagnose_regressions-cases :
      (x : Experiment) (outcome : RunOutcome W) (drop : W) (report : RegressionDiagnostics)
      → diagnose_regressions x outcome drop ≡ ok report
      → (sum_of (λ c. c.finding_count) report.cases ≡ length report.findings)
        × (length report.cases ≡ report.regressing_cases)
  unfolding diagnose_regressions diagnose_pairs
  diagnose_regressions-cases x outcome drop report h =
      let (baseline, _, h1) = >>=-eq-ok (runs_by_key x.baseline_version_id outcome.runs []) _ h in
      let (candidate, _, h2) =
        >>=-eq-ok (runs_by_key x.candidate_version_id outcome.runs []) _ h1 in
      let (findings, _, h3) =
        >>=-eq-ok
          (findings_of baseline candidate (index_by (λ r. r.run_id) outcome.case_results) drop
            (common_keys baseline candidate))
          (report_on x (common_keys baseline candidate)) h2 in
      report-cases x (common_keys baseline candidate) findings report h3

  -- In a report, no more pairs have regressed than are matched.
  pub diagnose_regressions-pairs :
      (x : Experiment) (outcome : RunOutcome W) (drop : W) (report : RegressionDiagnostics)
      → diagnose_regressions x outcome drop ≡ ok report
      → report.regressing_pairs ≤ report.matched_pairs
  unfolding diagnose_regressions diagnose_pairs
  diagnose_regressions-pairs x outcome drop report h =
      let (baseline, _, h1) = >>=-eq-ok (runs_by_key x.baseline_version_id outcome.runs []) _ h in
      let (candidate, _, h2) =
        >>=-eq-ok (runs_by_key x.candidate_version_id outcome.runs []) _ h1 in
      let results = index_by (λ (r : CaseResult W). r.run_id) outcome.case_results in
      let (findings, found, h3) =
        >>=-eq-ok (findings_of baseline candidate results drop (common_keys baseline candidate))
          (report_on x (common_keys baseline candidate)) h2 in
      report-pairs x (common_keys baseline candidate) findings report h3
        (few_pairs baseline candidate results drop (common_keys baseline candidate) findings found)
