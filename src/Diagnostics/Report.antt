-- ===== src/Diagnostics/Report.antt =====
-- diagnostics.py: the counts, the cases and `diagnose_regressions`
use eval_ops.Prelude.{
  ℕ, String, Bool, true, false, ◌&&◌, ◌||◌, none, some, List, [], ◌∷◌, ◌++◌, map, ◌==◌, string_eq,
  nat_eq, pair_eq, if◌then◌else◌, contains, select, count_if, any, length, to_set, ltb,
}
use eval_ops.Result.{Result, ok, err, other_error, index_error, ◌>>=◌, map_ok, traverse}
use eval_ops.Double.{Double}
use eval_ops.Dict.{Dict, keys, index_by}
use eval_ops.Sort.{sorted, string_leb, key_leb}
use eval_ops.Domain.Entities.{Experiment, EvaluationRun, CaseResult}
use eval_ops.Runner.Exec.{RunOutcome}
use eval_ops.Stats.Pairing.{runs_by_key, both_runs}
use eval_ops.Diagnostics.Groups.{group_by, count_leb}
use eval_ops.Diagnostics.Findings.{
  category_text, FindingKind, provider_failure, evaluator_pass_to_fail, evaluator_score_drop,
  PairFinding, pair_findings,
}

pub record CategoryCount : Type 0 where
  pub category : String
  pub pairs : ℕ
  pub cases : ℕ

pub record EvaluatorCount : Type 0 where
  pub evaluator : String
  pub pairs : ℕ
  pub cases : ℕ
  pub pass_to_fail : ℕ
  pub score_drop : ℕ

pub record PairRef : Type 0 where
  pub repeat_index : ℕ
  pub baseline_run_id : String
  pub candidate_run_id : String

pub record RegressingCase : Type 0 where
  pub case_id : String
  pub categories : List String
  pub evaluators : List String
  pub has_provider_failure : Bool
  pub finding_count : ℕ
  pub representative : PairRef

pub record RegressionDiagnostics : Type 0 where
  pub experiment_id : String
  pub baseline_version_id : String
  pub candidate_version_id : String
  pub matched_pairs : ℕ
  pub regressing_pairs : ℕ
  pub regressing_cases : ℕ
  pub categories : List CategoryCount
  pub evaluators : List EvaluatorCount
  pub cases : List RegressingCase
  pub findings : List PairFinding
  pub available : Bool

abbrev pub pair_of : PairFinding → String × ℕ
pair_of f = (f.case_id, f.repeat_index)

-- `len({(f.case_id, f.repeat_index) for f in group})` and `len({f.case_id for f in group})`
abbrev pub pair_count : List PairFinding → ℕ
pair_count group = length (to_set (map pair_of group))

abbrev pub case_count : List PairFinding → ℕ
case_count group = length (to_set (map (λ f. f.case_id) group))

unfoldable pub category_counts : List PairFinding → List CategoryCount
category_counts findings =
    sorted (λ a b. count_leb (a.pairs, a.category) (b.pairs, b.category))
      (map (λ p. record { category = p.0; pairs = pair_count p.1; cases = case_count p.1 })
        (group_by (λ f. category_text f.category) findings))

abbrev pub is_pass_to_fail : FindingKind → Bool
is_pass_to_fail evaluator_pass_to_fail = true
is_pass_to_fail _ = false

abbrev pub is_score_drop : FindingKind → Bool
is_score_drop evaluator_score_drop = true
is_score_drop _ = false

abbrev pub is_provider_failure : FindingKind → Bool
is_provider_failure provider_failure = true
is_provider_failure _ = false

-- The findings that name an evaluator, each with the name.
unfoldable pub named : List PairFinding → List (String × PairFinding)
named [] = []
named (f ∷ fs) =
    let rest = named fs in elim f.evaluator [ none ↦ rest | some name ↦ (name, f) ∷ rest ]

abbrev pub evaluator_count : String × List (String × PairFinding) → EvaluatorCount
evaluator_count (name, group) =
    let findings = map (λ p. p.1) group in
    record {
      evaluator = name;
      pairs = pair_count findings;
      cases = case_count findings;
      pass_to_fail = count_if (λ f. is_pass_to_fail f.kind) findings;
      score_drop = count_if (λ f. is_score_drop f.kind) findings;
    }

unfoldable pub evaluator_counts : List PairFinding → List EvaluatorCount
unfolding named
evaluator_counts findings =
    sorted (λ a b. count_leb (a.pairs, a.evaluator) (b.pairs, b.evaluator))
      (map evaluator_count (group_by (λ p. p.0) (named findings)))

-- `(-len(xs), r) < (-len(ys), s)`
abbrev pub comes_first : ℕ × List PairFinding → ℕ × List PairFinding → Bool
comes_first (r, xs) (s, ys) = ltb (length ys) (length xs) || (length xs == length ys && ltb r s)

-- `min(...)`: the first of the least, with the best so far.
unfoldable pub best_from : ℕ × List PairFinding → Dict ℕ (List PairFinding) → ℕ × List PairFinding
best_from best [] = best
best_from best (p ∷ ps) = best_from (if comes_first p best then p else best) ps

abbrev pub first_ref : ℕ × List PairFinding → Result PairRef
first_ref (r, []) = err index_error
first_ref (r, sample ∷ rest) = ok (record {
  repeat_index = r;
  baseline_run_id = sample.baseline_run_id;
  candidate_run_id = sample.candidate_run_id;
})

unfoldable pub representative_of : Dict ℕ (List PairFinding) → Result PairRef
unfolding best_from
representative_of [] = err (other_error "ValueError")
representative_of (p ∷ ps) = first_ref (best_from p ps)

-- `f.evaluator for f in group if f.evaluator`
unfoldable pub evaluator_names : List PairFinding → List String
evaluator_names [] = []
evaluator_names (f ∷ fs) =
    let rest = evaluator_names fs in
    elim f.evaluator [ none ↦ rest | some name ↦ (if name == "" then rest else name ∷ rest) ]

unfoldable pub regressing_case : String × List PairFinding → Result RegressingCase
unfolding representative_of evaluator_names
regressing_case (case_id, group) =
    map_ok
      (λ ref. record {
        case_id = case_id;
        categories = sorted string_leb (to_set (map (λ f. category_text f.category) group));
        evaluators = sorted string_leb (to_set (evaluator_names group));
        has_provider_failure = any (λ f. is_provider_failure f.kind) group;
        finding_count = length group;
        representative = ref;
      })
      (representative_of (group_by (λ f. f.repeat_index) group))

unfoldable pub regressing_cases_of : List PairFinding → Result (List RegressingCase)
unfolding regressing_case
regressing_cases_of findings =
    map_ok (sorted (λ a b. count_leb (a.finding_count, a.case_id) (b.finding_count, b.case_id)))
      (traverse regressing_case (group_by (λ f. f.case_id) findings))

-- The report on the findings.
unfoldable pub report_on :
    Experiment → List (String × ℕ) → List PairFinding → Result RegressionDiagnostics
unfolding regressing_cases_of
report_on x common findings =
    map_ok
      (λ cases. record {
        experiment_id = x.id;
        baseline_version_id = x.baseline_version_id;
        candidate_version_id = x.candidate_version_id;
        matched_pairs = length common;
        regressing_pairs = pair_count findings;
        regressing_cases = case_count findings;
        categories = category_counts findings;
        evaluators = evaluator_counts findings;
        cases = cases;
        findings = findings;
        available = ltb 0 (length common);
      })
      (regressing_cases_of findings)

module _ {W : Type 0} ⦃d : Double W⦄ where
  -- `sorted(baseline_by_key.keys() & candidate_by_key.keys())`
  abbrev pub common_keys :
      Dict (String × ℕ) (EvaluationRun W) → Dict (String × ℕ) (EvaluationRun W) → List (String × ℕ)
  common_keys baseline candidate =
      sorted key_leb (select (contains (keys candidate)) (keys baseline))

  -- The findings on the pair of runs of a key.
  unfoldable pub key_findings :
      Dict (String × ℕ) (EvaluationRun W)
      → Dict (String × ℕ) (EvaluationRun W)
      → Dict String (CaseResult W)
      → W
      → String × ℕ
      → Result (List PairFinding)
  key_findings baseline candidate results drop key =
      map_ok (λ pair. pair_findings key pair.0 pair.1 results drop)
        (both_runs baseline candidate key)

  -- The loop over the common keys, which extends the list of findings.
  unfoldable pub findings_of :
      Dict (String × ℕ) (EvaluationRun W)
      → Dict (String × ℕ) (EvaluationRun W)
      → Dict String (CaseResult W)
      → W
      → List (String × ℕ)
      → Result (List PairFinding)
  unfolding key_findings
  findings_of baseline candidate results drop [] = ok []
  findings_of baseline candidate results drop (key ∷ keys) =
      let rest = findings_of baseline candidate results drop keys in
      key_findings baseline candidate results drop key >>= λ found.
      map_ok (λ more. found ++ more) rest

  unfoldable pub diagnose_pairs :
      Experiment
      → Dict String (CaseResult W)
      → W
      → Dict (String × ℕ) (EvaluationRun W)
      → Dict (String × ℕ) (EvaluationRun W)
      → Result RegressionDiagnostics
  unfolding findings_of report_on
  diagnose_pairs x results drop baseline candidate =
      findings_of baseline candidate results drop (common_keys baseline candidate)
      >>= report_on x (common_keys baseline candidate)

  unfoldable pub diagnose_regressions : Experiment → RunOutcome W → W → Result RegressionDiagnostics
  unfolding diagnose_pairs
  diagnose_regressions x outcome drop = do
    baseline ← runs_by_key x.baseline_version_id outcome.runs []
    candidate ← runs_by_key x.candidate_version_id outcome.runs []
    diagnose_pairs x (index_by (λ r. r.run_id) outcome.case_results) drop baseline candidate
