-- ===== src/Tests/Stats.antt =====
-- The paired observations of the experiment that Tests/Runner runs.
use eval_ops.Prelude.{
  ℕ, ◌<◌, ◌≤◌, ◌≡◌, refl, true, false, Option, some, is_some, String, List, [], ◌∷◌, All, length,
}
use eval_ops.Result.{ok}
use eval_ops.Dict.{index_by}
use eval_ops.Sort.{sorted}
use eval_ops.Double.Milli.{Milli, nonneg, milli, minus}
use eval_ops.Domain.Evidence.{MetricKind, binary, continuous}
use eval_ops.Stats.Pairing.{
  PairedSeries, paired_observations, runs_by_key, matched_series, all_series, evaluator_series,
  partial_series, total_series, latency_series, success_obs, pass_obs, score_obs, observed_score,
}
use eval_ops.Stats.Matched.{IsAligned, series-IsAligned}
use eval_ops.Stats.Interval.{BootstrapOptions, paired_bootstrap_ci, interval_of, differences}
use eval_ops.Stats.Withheld.{interval_withheld}
use eval_ops.Tests.Runner.{experiment, outcome}

abbrev one_pair : String → MetricKind → Milli → Milli → PairedSeries Milli
one_pair metric kind b c = record {
  metric = metric;
  kind = kind;
  baseline = b ∷ [];
  candidate = c ∷ [];
  matched_pairs = 1;
  comparable_pairs = 1;
  dropped_provider_failures = 0;
  unmatched_runs = 0;
}

-- The candidate's only run has failed, so its latency is dropped.
abbrev dropped : PairedSeries Milli
dropped = record {
  metric = "latency_ms.mean";
  kind = continuous;
  baseline = [];
  candidate = [];
  matched_pairs = 1;
  comparable_pairs = 0;
  dropped_provider_failures = 1;
  unmatched_runs = 0;
}

abbrev series : List (PairedSeries Milli)
series =
    one_pair "success_rate" binary (nonneg 1000) (nonneg 0)
    ∷ one_pair "exact.pass_rate" binary (nonneg 1000) (nonneg 0)
    ∷ one_pair "exact.mean_score" continuous (nonneg 1000) (nonneg 0)
    ∷ dropped
    ∷ one_pair "cost_usd.mean" continuous (nonneg 0) (nonneg 0)
    ∷ []

observed : paired_observations experiment outcome ("exact" ∷ []) ≡ ok series
unfolding paired_observations runs_by_key matched_series all_series evaluator_series partial_series
    total_series latency_series success_obs pass_obs score_obs observed_score index_by sorted
observed = refl

series-IsAligned_example : All IsAligned series
series-IsAligned_example = series-IsAligned experiment outcome ("exact" ∷ []) series observed

-- Three pairs with the same loss give a point interval without a draw.
abbrev options : BootstrapOptions Milli
options = record { confidence_level = nonneg 950; resamples = 10; seed = 1 }

abbrev draw : ℕ → ℕ → ℕ → ℕ
draw seed k n = 0

abbrev three : Milli → List Milli
three x = x ∷ x ∷ x ∷ []

abbrev interval : Option Milli × Option Milli
interval = (some (minus 499), some (minus 499))

bounded : paired_bootstrap_ci draw options (three (nonneg 1000)) (three (nonneg 500)) ≡ ok interval
unfolding paired_bootstrap_ci interval_of differences
bounded = refl

interval_withheld_example :
    (length (three (nonneg 1000)) < 3 → (is_some interval.0 ≡ false) × (is_some interval.1 ≡ false))
    × (3 ≤ length (three (nonneg 1000)) → (is_some interval.0 ≡ true) × (is_some interval.1 ≡ true))
interval_withheld_example =
    interval_withheld draw options (three (nonneg 1000)) (three (nonneg 500)) interval bounded
