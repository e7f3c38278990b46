-- ===== src/Stats/Interval.antt =====
-- stats.py: `summarize`, `_percentile`, `paired_bootstrap_ci`, `metric_evidence` and
-- `build_statistical_evidence`
use eval_ops.Prelude.{
  ℕ, zero, suc, ◌+◌, ◌-◌, String, Bool, false, not, ◌&&◌, ◌||◌, Option, none, some, List, [], ◌∷◌,
  all, ◌==◌, nat_eq, length, get_elem?, leb, ltb, if◌then◌else◌,
}
use eval_ops.Result.{Result, ok, err, config_error, index_error, ◌>>=◌, ◌>>◌, raise_if, map_ok}
use eval_ops.Double.{Double, zero_f, one_f}
use eval_ops.Sort.{sorted}
use eval_ops.Domain.Evidence.{
  MetricKind, SampleSummary, MetricEvidence, new_sample_summary, new_metric_evidence,
}
use eval_ops.Domain.Entities.{Experiment}
use eval_ops.Runner.Exec.{RunOutcome}
use eval_ops.Stats.Pairing.{PairedSeries, paired_observations}

abbrev pub min_pairs_for_ci : ℕ
min_pairs_for_ci = 3

-- `confidence_level`, `resamples` and `seed`
pub record BootstrapOptions (W : Type 0) : Type 0 where
  pub confidence_level : W
  pub resamples : ℕ
  pub seed : ℕ

module _ {W : Type 0} ⦃d : Double W⦄ where
  unfoldable pub summarize : List W → Result (SampleSummary W)
  summarize values =
      if length values == 0
      then new_sample_summary (record { n = 0; mean = zero_f; median = zero_f; stdev = zero_f })
      else new_sample_summary (record {
        n = length values;
        mean = d.fmean values;
        median = d.median values;
        stdev = if leb 2 (length values) then d.stdev values else zero_f;
      })

  -- `values[i]`
  unfoldable pub at_index : List W → ℕ → Result W
  at_index values i = elim (get_elem? values i) [ none ↦ err index_error | some x ↦ ok x ]

  unfoldable pub percentile : List W → W → Result W
  percentile ordered q =
      if length ordered == 1
      then at_index ordered 0
      else (let pos = d.mul q (d.of_nat (length ordered - 1)) in
          at_index ordered (d.floor pos) >>= λ low.
          if d.floor pos == d.ceil pos
          then ok low
          else map_ok
              (λ high. d.add low (d.mul (d.sub high low) (d.sub pos (d.of_nat (d.floor pos)))))
              (at_index ordered (d.ceil pos)))

  -- `[cv - bv for bv, cv in zip(baseline, candidate, strict=True)]`, of lists of one length
  unfoldable pub differences : List W → List W → List W
  differences (b ∷ bs) (c ∷ cs) = d.sub c b ∷ differences bs cs
  differences _ _ = []

-- `draw seed k n` is the k-th answer of `randrange(n)` on a stream `random.Random(seed)`.
module _ {W : Type 0} ⦃d : Double W⦄ (draw : ℕ → ℕ → ℕ → ℕ) where
  -- The inner loop: `left` more draws from the k-th on.
  unfoldable pub resampled_total : ℕ → List W → ℕ → ℕ → W → Result W
  resampled_total seed diffs k zero total = ok total
  resampled_total seed diffs k (suc left) total =
      at_index diffs (draw seed k (length diffs)) >>= λ x.
      resampled_total seed diffs (suc k) left (d.add total x)

  -- The outer loop: `left` more estimates from the k-th draw on.
  unfoldable pub estimates : ℕ → List W → ℕ → ℕ → Result (List W)
  unfolding resampled_total
  estimates seed diffs k zero = ok []
  estimates seed diffs k (suc left) =
      let rest = estimates seed diffs (k + length diffs) left in
      resampled_total seed diffs k (length diffs) zero_f >>= λ total.
      map_ok (λ more. d.div total (d.of_nat (length diffs)) ∷ more) rest

  -- The interval of a sample whose differences are not all the same.
  unfoldable pub resampled_interval : BootstrapOptions W → List W → Result (Option W × Option W)
  unfolding estimates
  resampled_interval options diffs =
      let tail = d.div (d.sub one_f options.confidence_level) (d.of_nat 2) in
      estimates options.seed diffs 0 options.resamples >>= λ found.
      percentile (sorted d.le found) tail >>= λ low.
      map_ok (λ high. (some low, some high)) (percentile (sorted d.le found) (d.sub one_f tail))

  unfoldable pub interval_of : BootstrapOptions W → List W → Result (Option W × Option W)
  unfolding resampled_interval
  interval_of options [] = err index_error
  interval_of options (x ∷ xs) =
      if all (λ y. d.eq y x) (x ∷ xs)
      then ok (some x, some x)
      else resampled_interval options (x ∷ xs)

  unfoldable pub paired_bootstrap_ci :
      BootstrapOptions W → List W → List W → Result (Option W × Option W)
  unfolding interval_of
  paired_bootstrap_ci options baseline candidate = do
    raise_if (not (d.lt zero_f options.confidence_level && d.lt options.confidence_level one_f))
        (config_error "confidence_level must be in (0, 1)")
    raise_if (not (length candidate == length baseline))
        (config_error "baseline and candidate must have the same length")
    if ltb (length baseline) min_pairs_for_ci
        then ok (none, none)
        else interval_of options (differences baseline candidate)

  -- `ci_low is not None and ci_high is not None and (ci_low > 0.0 or ci_high < 0.0)`
  abbrev pub excludes_zero : Option W → Option W → Bool
  excludes_zero (some low) (some high) = d.lt zero_f low || d.lt high zero_f
  excludes_zero (some low) none = false
  excludes_zero none high = false

  unfoldable pub metric_evidence :
      String → MetricKind → List W → List W → BootstrapOptions W → ℕ → Result (MetricEvidence W)
  unfolding paired_bootstrap_ci
  metric_evidence metric kind baseline candidate options dropped = do
    raise_if (not (length baseline == length candidate))
        (config_error "baseline and candidate must have the same length")
    b ← summarize baseline
    c ← summarize candidate
    delta_summary ← summarize (differences baseline candidate)
    ci ← paired_bootstrap_ci options baseline candidate
    let n = length (differences baseline candidate)
    let change = d.sub c.mean b.mean
    new_metric_evidence (record {
      metric = metric;
      kind = kind;
      n_pairs = n;
      baseline = b;
      candidate = c;
      paired_delta = delta_summary;
      delta = change;
      relative_change = if d.eq b.mean zero_f then none else some (d.div change b.mean);
      confidence_level = options.confidence_level;
      ci_low = ci.0;
      ci_high = ci.1;
      ci_excludes_zero = not (ltb n min_pairs_for_ci) && excludes_zero ci.0 ci.1;
      insufficient_evidence = ltb n min_pairs_for_ci;
      method = "paired_bootstrap_percentile";
      resamples = options.resamples;
      seed = options.seed;
      dropped_provider_failures = dropped;
    })

  -- The evidence of the series from the i-th on.
  unfoldable pub evidence_from :
      BootstrapOptions W → ℕ → List (PairedSeries W) → Result (List (MetricEvidence W))
  unfolding metric_evidence
  evidence_from options i [] = ok []
  evidence_from options i (s ∷ ss) =
      let rest = evidence_from options (suc i) ss in
      metric_evidence s.metric s.kind s.baseline s.candidate
        (record options { seed = options.seed + i }) s.dropped_provider_failures
      >>= λ e. map_ok (λ es. e ∷ es) rest

  unfoldable pub build_statistical_evidence :
      Experiment
      → RunOutcome W
      → List String
      → BootstrapOptions W
      → Result (List (MetricEvidence W))
  unfolding evidence_from
  build_statistical_evidence x outcome names options =
      paired_observations x outcome names >>= evidence_from options 0
