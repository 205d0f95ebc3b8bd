-- ===== src/Analyses/Stats/Agree.antt =====
-- internal/core/usecase/analysis.go: computeAnalysisStats against the analyses that it counts.
use Prim.Native.Nat.{min}
use observai_api.Base.{
  Bool, map, if◌then◌else◌, ltb, ℕ, ◌+◌, String, List, [], ◌∷◌, length, count, ◌==◌, ◌≡◌, refl, ◌∙◌,
  arith, All,
}
use observai_api.Base.Text.Order.{lt_string}
use observai_api.Base.Dict.{Dict, lookup}
use observai_api.Base.Dict.Laws.{IsMap}
use observai_api.Base.Sorting.{IsSorted}
use observai_api.Base.Sorting.Order.{AreFirst, sort_stable-IsSorted, All-sort_stable}
use observai_api.Domain.Analysis.{AnalysisResult, Time}
use observai_api.Analyses.Stats.{
  count_at, count_items, no_counts, day_of, ServiceCount, TrendBucket, AnalysisStats,
  AnalysisStatsFilter, top_service_counts, earlier, buckets_of, sorted_trend_buckets,
  compute_analysis_stats,
}
use observai_api.Analyses.Stats.Tally.{
  names, mentions, affected, count_on, count_items-severities, count_items-confidences,
  count_items-services, count_items-days, sum_days-count_items,
}
use observai_api.Analyses.Stats.Ranking.{
  AllPositive, count_items-AllPositive, count_items-IsMap, count_items-IsDays, days_found,
  sum_buckets, sum_buckets-sorted_trend_buckets, top_service_counts-AreFirst,
  length-top_service_counts, AnyBucket, any_buckets, earlier-IsOrder,
}

-- The analyses of a day.
abbrev pub on_day : Time → List AnalysisResult → ℕ
on_day day items = count (λ item. day_of item.created_at == day) items

-- The order of the ranking: the service that is named more often comes first, and of two that are named as
-- often the one with the lesser name.
abbrev pub ranks_before : ServiceCount → ServiceCount → Bool
ranks_before a b = if a.count == b.count then lt_string a.service b.service else ltb b.count a.count

abbrev pub starts_before : TrendBucket → TrendBucket → Bool
starts_before a b = ltb a.bucket_start b.bucket_start

-- The first ten of a table with one entry for each service that the analyses name, with the number of times
-- that they name it, or all of them where there are fewer.
pub record IsRanking (items : List AnalysisResult) (kept : List ServiceCount) : Type 0 where
  pub named : Dict ℕ
  pub is_map : IsMap named
  pub exact : (name : String) → count_at name named ≡ mentions name (affected items)
  pub first :
      AreFirst ranks_before
        (map (λ entry. record { service = entry.0; count = entry.1 }) named)
        kept
  pub positive : AllPositive named
  pub kept_count : length kept ≡ min 10 (length named)

-- The statistics of these analyses.
pub record IsStatistics (items : List AnalysisResult) (s : AnalysisStats) : Type 0 where
  pub total : s.total ≡ length items
  pub severities :
      (name : String) → count_at name s.by_severity ≡ count (λ item. names name item.severity) items
  pub confidences :
      (name : String)
      → count_at name s.by_confidence ≡ count (λ item. names name item.confidence) items
  pub services : IsRanking items s.top_affected_services
  pub days : All (λ b. b.count ≡ on_day b.bucket_start items) s.trend_buckets
  pub in_order : IsSorted starts_before s.trend_buckets
  pub every_day : sum_buckets s.trend_buckets ≡ length items

zero_add : (n : ℕ) → 0 + n ≡ n
zero_add n = omega arith

buckets-exact :
    (items : List AnalysisResult) (days rest : List (Time × ℕ))
    → ((day : Time) → count_on day days ≡ on_day day items)
    → All (λ e. count_on e.0 days ≡ e.1) rest
    → All (λ b. b.count ≡ on_day b.bucket_start items) (buckets_of rest)
buckets-exact items days [] e h = tt
buckets-exact items days ((day, n) ∷ rest) e h =
    (cc (h.0, e day), buckets-exact items days rest e h.1)

top_services-IsRanking :
    (items : List AnalysisResult)
    → IsRanking items (top_service_counts (count_items items no_counts).services 10)
unfolding lookup
top_services-IsRanking items =
    let c = count_items items no_counts in
    record {
      named = c.services;
      is_map = count_items-IsMap items no_counts tt;
      exact = λ name. count_items-services name items no_counts ∙ zero_add _;
      first = top_service_counts-AreFirst c.services 9;
      positive = count_items-AllPositive items no_counts tt;
      kept_count = length-top_service_counts c.services 9;
    }

trend_buckets-exact :
    (items : List AnalysisResult)
    → All
        (λ b. b.count ≡ on_day b.bucket_start items)
        (sorted_trend_buckets (count_items items no_counts).days)
unfolding sorted_trend_buckets
trend_buckets-exact items =
    let days = (count_items items no_counts).days in
    let found = days_found days (count_items-IsDays items no_counts tt) in
    All-sort_stable earlier (λ b. b.count ≡ on_day b.bucket_start items) (buckets_of days)
      (buckets-exact items days days (λ day. count_items-days day items no_counts ∙ zero_add _)
        found)

trend_buckets-IsSorted : (days : List (Time × ℕ)) → IsSorted earlier (sorted_trend_buckets days)
unfolding sorted_trend_buckets
trend_buckets-IsSorted days =
    sort_stable-IsSorted earlier AnyBucket earlier-IsOrder (buckets_of days) (any_buckets days)

-- The statistics of a list of analyses have its length as their total, and for each severity and confidence
-- the number of analyses that carry it. Their services are the first ten, by the number of times that
-- the analyses name them and then by name, of a table of all that they name with these numbers, or all where
-- there are fewer than ten. Their buckets are in
-- the order of time, each has the number of analyses of its day, and together they count every analysis.
pub compute_analysis_stats-IsStatistics :
    (items : List AnalysisResult) (wanted : AnalysisStatsFilter)
    → IsStatistics items (compute_analysis_stats items wanted)
unfolding compute_analysis_stats lookup
compute_analysis_stats-IsStatistics items wanted =
    let c = count_items items no_counts in
    record {
      total = refl;
      severities = λ name. count_items-severities name items no_counts ∙ zero_add _;
      confidences = λ name. count_items-confidences name items no_counts ∙ zero_add _;
      services = top_services-IsRanking items;
      days = trend_buckets-exact items;
      in_order = trend_buckets-IsSorted c.days;
      every_day =
          sum_buckets-sorted_trend_buckets c.days
          ∙ sum_days-count_items items no_counts
          ∙ zero_add _;
    }
