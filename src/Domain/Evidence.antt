-- ===== src/Domain/Evidence.antt =====
-- domain/value_objects.py: the statistical evidence for one metric
use eval_ops.Prelude.{ℕ, String, Bool, false, not, ◌&&◌, Option, none, some, ◌==◌, nat_eq, is_none}
use mathlib.Core.Bool.{xor}
use eval_ops.Result.{Result, ok, domain_error, ◌>>◌, raise_if}
use eval_ops.Double.{Double, zero_f, one_f}
use eval_ops.Domain.Values.{require_non_empty}

pub data MetricKind : Type 0 where
  binary continuous : MetricKind

pub record SampleSummary (W : Type 0) : Type 0 where
  pub n : ℕ
  pub mean : W
  pub median : W
  pub stdev : W

pub record MetricEvidence (W : Type 0) : Type 0 where
  pub metric : String
  pub kind : MetricKind
  pub n_pairs : ℕ
  pub baseline : SampleSummary W
  pub candidate : SampleSummary W
  pub paired_delta : SampleSummary W
  pub delta : W
  pub relative_change : Option W
  pub confidence_level : W
  pub ci_low : Option W
  pub ci_high : Option W
  pub ci_excludes_zero : Bool
  pub insufficient_evidence : Bool
  pub method : String
  pub resamples : ℕ
  pub seed : ℕ
  pub dropped_provider_failures : ℕ

module _ {W : Type 0} ⦃d : Double W⦄ where
  unfoldable pub new_sample_summary : SampleSummary W → Result (SampleSummary W)
  new_sample_summary s = do
    raise_if (d.lt s.stdev zero_f) (domain_error "SampleSummary.stdev must be >= 0")
    ok s

  -- `low is not None and high is not None and low > high`
  abbrev pub inverted : Option W → Option W → Bool
  inverted (some low) (some high) = d.lt high low
  inverted (some low) none = false
  inverted none high = false

  unfoldable pub new_metric_evidence : MetricEvidence W → Result (MetricEvidence W)
  unfolding require_non_empty
  new_metric_evidence e = do
    require_non_empty e.metric "MetricEvidence.metric must be a non-empty string"
    raise_if (not (d.lt zero_f e.confidence_level && d.lt e.confidence_level one_f))
        (domain_error "MetricEvidence.confidence_level must be in (0, 1)")
    raise_if (xor (is_none e.ci_low) (is_none e.ci_high))
        (domain_error "MetricEvidence.ci_low and ci_high must both be set or both be None")
    raise_if (inverted e.ci_low e.ci_high) (domain_error "MetricEvidence CI is inverted")
    raise_if (not (e.baseline.n == e.n_pairs)) (domain_error "MetricEvidence.baseline.n != n_pairs")
    raise_if (not (e.candidate.n == e.n_pairs))
        (domain_error "MetricEvidence.candidate.n != n_pairs")
    raise_if (not (e.paired_delta.n == e.n_pairs))
        (domain_error "MetricEvidence.paired_delta.n != n_pairs")
    ok e
