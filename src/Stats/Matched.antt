-- ===== src/Stats/Matched.antt =====
-- That the two sides of each series are aligned, and that its counts add up.
use Prim.Native.String.{◌++◌ as join}
use eval_ops.Prelude.{
  ℕ, ◌+◌, ◌-◌, String, ◌≡◌, sym, ◌∙◌, subst, not, ◌&&◌, List, [], ◌∷◌, ◌++◌, arith, length, select,
  contains, distinct, All, is_none, length-map, length-select, count_if-le-length, string_eq,
  pair_eq,
}
use eval_ops.Result.{
  Result, ok, config_error, ◌>>=◌, >>=-eq-ok, >>-eq-ok, map_ok, map_ok-inv, ok_inj, traverse,
  length-traverse, raise_if,
}
use eval_ops.Double.{Double}
use eval_ops.Dict.{Dict, keys, index_by}
use eval_ops.Sort.{sorted, key_leb}
use eval_ops.Domain.Evidence.{MetricKind, binary, continuous}
use eval_ops.Domain.Entities.{Experiment, EvaluationRun, CaseResult}
use eval_ops.Runner.Exec.{RunOutcome}
use eval_ops.Stats.Pairing.{
  PairedSeries, runs_by_key, both_runs, full_series, total_series, partial_series, both_ok,
  latency_series, evaluator_series, all_series, paired_observations, pass_obs, score_obs,
  success_obs, matched_series,
}

module _ {W : Type 0} where
  -- Both sides have as many observations as there are comparable pairs, and the comparable and the
  -- dropped pairs are the matched ones.
  pub record IsAligned (s : PairedSeries W) : Type 0 where
    pub baseline_length : length s.baseline ≡ s.comparable_pairs
    pub candidate_length : length s.candidate ≡ s.comparable_pairs
    pub pairs_add_up : s.comparable_pairs + s.dropped_provider_failures ≡ s.matched_pairs

  IsAligned-append :
      (ss last : List (PairedSeries W))
      → All IsAligned ss
      → All IsAligned last
      → All IsAligned (ss ++ last)
  IsAligned-append [] last h k = k
  IsAligned-append (s ∷ ss) last h k = (h.0, IsAligned-append ss last h.1 k)

module _ {W : Type 0} ⦃d : Double W⦄ (matched unmatched : ℕ)
    (pairs : List (EvaluationRun W × EvaluationRun W)) (same : length pairs ≡ matched) where
  total_series-IsAligned :
      (metric : String) (kind : MetricKind) (observe : EvaluationRun W → W)
      → IsAligned (total_series matched unmatched pairs metric kind observe)
  unfolding total_series
  total_series-IsAligned metric kind observe = record {
    baseline_length = length-map (λ p. observe p.0) pairs ∙ same;
    candidate_length = length-map (λ p. observe p.1) pairs ∙ same;
    pairs_add_up = omega arith;
  }

  latency_series-IsAligned : IsAligned (latency_series matched unmatched pairs)
  unfolding latency_series
  latency_series-IsAligned =
      let ok_pairs = both_ok matched unmatched pairs in
      let few = count_if-le-length (λ p. is_none p.0.error && is_none p.1.error) pairs in
      let counted = length-select (λ p. is_none p.0.error && is_none p.1.error) pairs in
      record {
        baseline_length = length-map (λ p. p.0.usage.latency_ms) ok_pairs;
        candidate_length = length-map (λ p. p.1.usage.latency_ms) ok_pairs;
        pairs_add_up = omega (arith, few, counted, same);
      }

  partial_series-IsAligned :
      (metric : String) (kind : MetricKind) (observe : EvaluationRun W → Result W)
      (s : PairedSeries W)
      → partial_series matched unmatched pairs metric kind observe ≡ ok s
      → IsAligned s
  unfolding partial_series
  partial_series-IsAligned metric kind observe s h =
      let built = λ (b c : List W). ok (full_series matched unmatched pairs metric kind b c) in
      let after = λ (b : List W). traverse (λ p. observe p.1) pairs >>= built b in
      let (b, p, h') = >>=-eq-ok (traverse (λ p. observe p.0) pairs) after h in
      let (c, q, h'') = >>=-eq-ok (traverse (λ p. observe p.1) pairs) (built b) h' in
      subst IsAligned (ok_inj h'') (record {
        baseline_length = length-traverse (λ p. observe p.0) pairs b p ∙ same;
        candidate_length = length-traverse (λ p. observe p.1) pairs c q ∙ same;
        pairs_add_up = omega arith;
      })

  evaluator_series-IsAligned :
      (results : Dict String (CaseResult W)) (names : List String) (ss : List (PairedSeries W))
      → evaluator_series matched unmatched pairs results names ≡ ok ss
      → All IsAligned ss
  unfolding evaluator_series
  evaluator_series-IsAligned results [] ss h = subst (All IsAligned) (ok_inj h) tt
  evaluator_series-IsAligned results (name ∷ names) ss h =
      let rest = evaluator_series matched unmatched pairs results names in
      let joined = λ (a b : PairedSeries W). map_ok (λ more. a ∷ b ∷ more) rest in
      let scores =
        partial_series matched unmatched pairs (join name ".mean_score") continuous
          (λ run. score_obs run results name) in
      let (a, p, h') =
        >>=-eq-ok
          (partial_series matched unmatched pairs (join name ".pass_rate") binary
            (λ run. pass_obs run results name))
          (λ a. scores >>= joined a) h in
      let (b, q, h'') = >>=-eq-ok scores (joined a) h' in
      let (more, r, e) = map_ok-inv (λ more. a ∷ b ∷ more) rest ss h'' in
      subst (All IsAligned) (sym e) (
        partial_series-IsAligned _ _ _ a p,
        (partial_series-IsAligned _ _ _ b q, evaluator_series-IsAligned results names more r),
      )

  all_series-IsAligned :
      (results : Dict String (CaseResult W)) (names : List String) (ss : List (PairedSeries W))
      → all_series matched unmatched pairs results names ≡ ok ss
      → All IsAligned ss
  unfolding all_series
  all_series-IsAligned results names ss h =
      let success = total_series matched unmatched pairs "success_rate" binary success_obs in
      let latency = latency_series matched unmatched pairs in
      let cost =
        total_series matched unmatched pairs "cost_usd.mean" continuous (λ r. r.usage.cost_usd) in
      let (mid, p, e) =
        map_ok-inv (λ mid. success ∷ (mid ++ (latency ∷ cost ∷ [])))
          (evaluator_series matched unmatched pairs results names) ss h in
      subst (All IsAligned) (sym e) (
        total_series-IsAligned _ _ _,
        IsAligned-append mid (latency ∷ cost ∷ []) (evaluator_series-IsAligned results names mid p)
            (latency_series-IsAligned, (total_series-IsAligned _ _ _, tt)),
      )

module _ {W : Type 0} ⦃d : Double W⦄ where
  matched_series-IsAligned :
      (outcome : RunOutcome W) (names : List String)
      (baseline candidate : Dict (String × ℕ) (EvaluationRun W)) (ss : List (PairedSeries W))
      → matched_series outcome names baseline candidate ≡ ok ss
      → All IsAligned ss
  unfolding matched_series
  matched_series-IsAligned outcome names baseline candidate ss h =
      let common = sorted key_leb (select (contains (keys candidate)) (keys baseline)) in
      let matched = length common in
      let unmatched = (length baseline - matched) + (length candidate - matched) in
      let results = index_by (λ r. r.run_id) outcome.case_results in
      let (pairs, p, q) =
        >>=-eq-ok (traverse (both_runs baseline candidate) common)
          (λ pairs. all_series matched unmatched pairs results names) h in
      all_series-IsAligned matched unmatched pairs
        (length-traverse (both_runs baseline candidate) common pairs p) results names ss q

  -- In every series that `paired_observations` returns, the baseline and the candidate have as many
  -- observations as there are comparable pairs, and the comparable pairs and the dropped ones are
  -- together the matched pairs.
  pub series-IsAligned :
      (x : Experiment) (outcome : RunOutcome W) (names : List String) (ss : List (PairedSeries W))
      → paired_observations x outcome names ≡ ok ss
      → All IsAligned ss
  unfolding paired_observations
  series-IsAligned x outcome names ss h =
      let of_candidate = runs_by_key x.candidate_version_id outcome.runs [] in
      let with_both = λ (b : Dict (String × ℕ) (EvaluationRun W)).
        of_candidate >>= matched_series outcome names b in
      let (b, _, h') = >>=-eq-ok (runs_by_key x.baseline_version_id outcome.runs []) with_both (
        >>-eq-ok
          (raise_if (not (distinct names)) (config_error "evaluator_names contains duplicates"))
          (runs_by_key x.baseline_version_id outcome.runs [] >>= with_both) h) in
      let (c, _, h'') = >>=-eq-ok of_candidate (matched_series outcome names b) h' in
      matched_series-IsAligned outcome names b c ss h''
