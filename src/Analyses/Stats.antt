-- ===== src/Analyses/Stats.antt =====
-- internal/core/usecase/analysis.go: Stats and Services, over a repository that computes neither itself, such
-- as the one in memory.
pub mod Tally
pub mod Ranking
pub mod Agree
use observai_api.Base.{
  ℕ, zero, suc, ◌-◌, ◌%◌, String, Bool, not, ◌&&◌, List, [], ◌∷◌, map, Option, none, some, length,
  take, ◌==◌, ltb, if◌then◌else◌,
}
use observai_api.Base.Int.{ℤ, pos, negsuc}
use observai_api.Base.Text.{trim_space, to_lower, contains, is_empty}
use observai_api.Base.Text.Order.{lt_string}
use observai_api.Base.Dict.{Dict, lookup, insert}
use observai_api.Base.Sorting.{sort_stable}
use observai_api.Domain.Severity.{Severity}
use observai_api.Domain.Analysis.{AnalysisResult, Time}
use observai_api.Analyses.Types.{AnalysisListFilter, AnalysisList, AnalysisStore}
use observai_api.Analyses.Repository.{list_analyses}

pub record AnalysisStatsFilter : Type 0 where
  pub from : Time
  pub to : Time
  pub service : String
  pub severity : Severity

pub record ServiceCount : Type 0 where
  pub service : String
  pub count : ℕ

pub record TrendBucket : Type 0 where
  pub bucket_start : Time
  pub count : ℕ

pub record AnalysisStats : Type 0 where
  pub total : ℕ
  pub by_severity : Dict ℕ
  pub by_confidence : Dict ℕ
  pub top_affected_services : List ServiceCount
  pub trend_buckets : List TrendBucket
  pub from : Time
  pub to : Time

-- A missing key reads as 0.
abbrev pub or_zero : Option ℕ → ℕ
or_zero none = 0
or_zero (some n) = n

abbrev pub count_at : String → Dict ℕ → ℕ
count_at key counts = or_zero (lookup key counts)

-- counts[key]++
unfoldable pub increment : String → Dict ℕ → Dict ℕ
increment key counts = insert key (suc (count_at key counts)) counts

-- bucketCounts[bucket]++
unfoldable pub increment_day : Time → List (Time × ℕ) → List (Time × ℕ)
increment_day day [] = (day, 1) ∷ []
increment_day day ((other, n) ∷ rest) =
    let later = increment_day day rest in
    if other == day then (other, suc n) ∷ rest else (other, n) ∷ later

-- Truncate(24 * time.Hour), which counts from Go's zero time
abbrev pub day_of : Time → Time
day_of t = t - t % 86_400_000_000_000

-- The maps of computeAnalysisStats.
pub record Counts : Type 0 where
  pub severities : Dict ℕ
  pub confidences : Dict ℕ
  pub services : Dict ℕ
  pub days : List (Time × ℕ)

abbrev pub increment_named : String → Dict ℕ → Dict ℕ
increment_named name counts = if is_empty name then counts else increment name counts

unfoldable pub increment_all : List String → Dict ℕ → Dict ℕ
unfolding increment
increment_all [] counts = counts
increment_all (name ∷ names) counts = increment_all names (increment_named name counts)

-- The body of the loop.
unfoldable pub count_item : AnalysisResult → Counts → Counts
unfolding increment increment_all increment_day
count_item item c = record {
  severities = increment_named item.severity c.severities;
  confidences = increment_named item.confidence c.confidences;
  services = increment_all item.affected_services c.services;
  days = increment_day (day_of item.created_at) c.days;
}

unfoldable pub count_items : List AnalysisResult → Counts → Counts
unfolding count_item
count_items [] c = c
count_items (item ∷ items) c = count_items items (count_item item c)

abbrev pub service_less : ServiceCount → ServiceCount → Bool
service_less a b = if a.count == b.count then lt_string a.service b.service else ltb b.count a.count

abbrev pub service_counts : Dict ℕ → List ServiceCount
service_counts counts = map (λ entry. record { service = entry.0; count = entry.1 }) counts

abbrev pub top_of : ℕ → List ServiceCount → List ServiceCount
top_of top items = if ltb 0 top && ltb top (length items) then take top items else items

-- topServiceCounts
unfoldable pub top_service_counts : Dict ℕ → ℕ → List ServiceCount
unfolding sort_stable lt_string
top_service_counts counts top = top_of top (sort_stable service_less (service_counts counts))

abbrev pub earlier : TrendBucket → TrendBucket → Bool
earlier a b = ltb a.bucket_start b.bucket_start

abbrev pub buckets_of : List (Time × ℕ) → List TrendBucket
buckets_of days = map (λ entry. record { bucket_start = entry.0; count = entry.1 }) days

-- sortedTrendBuckets
unfoldable pub sorted_trend_buckets : List (Time × ℕ) → List TrendBucket
unfolding sort_stable
sorted_trend_buckets days = sort_stable earlier (buckets_of days)

abbrev pub no_counts : Counts
no_counts = record { severities = []; confidences = []; services = []; days = [] }

-- computeAnalysisStats
unfoldable pub compute_analysis_stats : List AnalysisResult → AnalysisStatsFilter → AnalysisStats
unfolding count_items top_service_counts sorted_trend_buckets
compute_analysis_stats items wanted =
    let c = count_items items no_counts in
    record {
      total = length items;
      by_severity = c.severities;
      by_confidence = c.confidences;
      top_affected_services = top_service_counts c.services 10;
      trend_buckets = sorted_trend_buckets c.days;
      from = wanted.from;
      to = wanted.to;
    }

abbrev fetch_all : AnalysisListFilter
fetch_all = record {
  limit = pos 1000;
  offset = pos 0;
  severity = "";
  service = "";
  signal = "";
  provider = "";
  from = 0;
  to = 0;
  query = "";
  sort = "";
  order = "";
}

abbrev stats_of : AnalysisStatsFilter → Option AnalysisList → Option AnalysisStats
stats_of wanted none = none
stats_of wanted (some page) = some (compute_analysis_stats page.items wanted)

-- Stats; none stands for the panic of ListAnalyses.
unfoldable pub stats : AnalysisStatsFilter → AnalysisStore → Option AnalysisStats
unfolding compute_analysis_stats list_analyses
stats wanted w = stats_of wanted (
    list_analyses
      (record fetch_all {
        severity = wanted.severity;
        service = wanted.service;
        from = wanted.from;
        to = wanted.to;
      })
      w)

-- The inner loop of Services.
unfoldable pub count_matching : String → List String → Dict ℕ → Dict ℕ
unfolding trim_space to_lower contains increment
count_matching needle [] counts = counts
count_matching needle (raw ∷ rest) counts =
    let service = trim_space raw in
    let skipped = count_matching needle rest counts in
    let counted = count_matching needle rest (increment service counts) in
    if is_empty service
    then skipped
    else if not (is_empty needle) && not (contains (to_lower service) needle)
    then skipped
    else counted

unfoldable pub count_services : String → List AnalysisResult → Dict ℕ → Dict ℕ
unfolding count_matching
count_services needle [] counts = counts
count_services needle (item ∷ items) counts =
    count_services needle items (count_matching needle item.affected_services counts)

abbrev service_limit : ℤ → ℕ
service_limit (pos zero) = 10
service_limit (pos (suc n)) = suc n
service_limit (negsuc n) = 10

abbrev names_of : String → ℕ → Option AnalysisList → Option (List String)
names_of needle limit none = none
names_of needle limit (some page) =
    some (map (λ s. s.service) (top_service_counts (count_services needle page.items []) limit))

-- Services
unfoldable pub services : String → ℤ → AnalysisStore → Option (List String)
unfolding count_services top_service_counts list_analyses trim_space to_lower
services query limit w =
    names_of (to_lower (trim_space query)) (service_limit limit) (list_analyses fetch_all w)
