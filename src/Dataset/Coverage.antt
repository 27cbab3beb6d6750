-- ===== src/Dataset/Coverage.antt =====
-- `ProviderCoverage` with `_provider_coverage`, and `DatasetGap` with `_detect_gaps`. Instants and
-- intervals are in microseconds.
use xrp_inteliggence_x.Base.{
  ℕ, ◌+◌, ◌-◌, ◌/◌, not, ◌||◌, Option, none, some, List, [], ◌∷◌, ◌++◌, map, ltb, leb, ◌==◌,
  if◌then◌else◌, length, list_order, nat_order, sort_by, elements, Dict, group_by, ℤ, pos, ltb_ℤ,
  pos_part, Str, Result, ok, raise, ◌>>=◌, ◌>>◌, raise_if, collect, value_error, seconds,
}
use xrp_inteliggence_x.Contract.Observation.{HistoricalObservation, text}
use xrp_inteliggence_x.Store.Partitions.{least, greatest}

pub record ProviderCoverage : Type 0 where
  pub provider : Str
  pub observation_count : ℕ
  pub minimum_observed_at : ℕ
  pub maximum_observed_at : ℕ
  pub minimum_fetched_at : ℕ
  pub maximum_fetched_at : ℕ

-- `ProviderCoverage.__post_init__`
unfoldable pub provider_coverage : ProviderCoverage → Result ProviderCoverage
provider_coverage c = do
  provider ← text c.provider "provider"
  raise_if (ltb c.observation_count 1) (value_error "observation_count must be positive")
  raise_if (ltb c.maximum_observed_at c.minimum_observed_at)
      (value_error "provider observed-at range is inverted")
  raise_if (ltb c.maximum_fetched_at c.minimum_fetched_at)
      (value_error "provider fetched-at range is inverted")
  ok (record c { provider = provider })

pub record DatasetGap : Type 0 where
  pub provider : Str
  pub starts_at : ℕ
  pub ends_at : ℕ
  pub expected_interval_seconds : ℕ

-- `DatasetGap.__post_init__`
unfoldable pub dataset_gap : DatasetGap → Result DatasetGap
dataset_gap g = do
  provider ← text g.provider "provider"
  raise_if (leb g.ends_at g.starts_at) (value_error "gap ends_at must be after starts_at")
  raise_if (ltb g.expected_interval_seconds 1)
      (value_error "expected_interval_seconds must be positive")
  ok (record g { provider = provider })

abbrev pub Rows : Type 0
Rows = List HistoricalObservation

-- `sorted(grouped.items())`
unfoldable pub by_provider : Rows → Dict Str Rows
by_provider os = sort_by (λ e. e.0) (group_by (λ o. o.provider) [] os)

unfoldable pub coverage_of : Str × Rows → Result ProviderCoverage
coverage_of (provider, []) = raise (value_error "min() iterable argument is empty")
coverage_of (provider, o ∷ os) = provider_coverage (record {
  provider = provider;
  observation_count = length (o ∷ os);
  minimum_observed_at = least o.observed_at (map (λ x. x.observed_at) os);
  maximum_observed_at = greatest o.observed_at (map (λ x. x.observed_at) os);
  minimum_fetched_at = least o.fetched_at (map (λ x. x.fetched_at) os);
  maximum_fetched_at = greatest o.fetched_at (map (λ x. x.fetched_at) os);
})

-- `_provider_coverage`
unfoldable pub provider_coverages : Rows → Result (List ProviderCoverage)
provider_coverages os = collect coverage_of (by_provider os)

-- `sorted(timestamps)` of the set of a provider's times.
unfoldable pub times_of : Rows → List ℕ
times_of os = sort_by (λ t. t) (elements (map (λ o. o.observed_at) os))

-- The loop over consecutive times of one provider.
unfoldable pub gaps_between : Str → ℕ → List ℕ → Result (List DatasetGap)
gaps_between provider interval [] = ok []
gaps_between provider interval (previous ∷ []) = ok []
gaps_between provider interval (previous ∷ current ∷ times) = do
  here ←
      if ltb interval (current - previous)
      then (do
        gap ← dataset_gap (record {
          provider = provider;
          starts_at = previous + interval;
          ends_at = current;
          expected_interval_seconds = interval / 1000000;
        })
        ok (gap ∷ []))
      else ok []
  later ← gaps_between provider interval (current ∷ times)
  ok (here ++ later)

unfoldable pub gaps_of : ℕ → Dict Str Rows → Result (List DatasetGap)
gaps_of interval [] = ok []
gaps_of interval ((provider, os) ∷ groups) = do
  here ← gaps_between provider interval (times_of os)
  later ← gaps_of interval groups
  ok (here ++ later)

-- `_detect_gaps`
unfoldable pub detect_gaps : Option ℤ → Rows → Result (List DatasetGap)
detect_gaps none os = ok []
detect_gaps (some expected) os = do
  raise_if (not (ltb_ℤ (pos 0) expected)) (value_error "expected_interval must be positive")
  let interval = pos_part expected
  raise_if (not (interval == seconds (interval / 1000000)) || ltb (interval / 1000000) 1)
      (value_error "expected_interval must resolve to whole positive seconds")
  gaps_of interval (by_provider os)
