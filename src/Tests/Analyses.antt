-- ===== src/Tests/Analyses.antt =====
-- Runs of the theorems on stored analyses.
use mathlib.Core.List.Permᴰ
use observai_api.Base.{List, [], ◌∷◌, some, length, ◌≡◌, refl, ◌≤◌}
use observai_api.Base.Int.{pos, negsuc}
use observai_api.Base.Dict.{Dict, lookup, insert}
use observai_api.Domain.Analysis.{AnalysisResult}
use observai_api.Analyses.Types.{AnalysisListFilter, AnalysisList, AnalysisStore}
use observai_api.Analyses.Repository.{values}
use observai_api.Analyses.Listing.{normalize_analysis_list_filter, list_stored}
use observai_api.Analyses.Stored.{IsStored}
use observai_api.Analyses.Pages.{IsPage, list_stored-IsPage}
use observai_api.Analyses.Walk.{items_of, list_stored-rearranged}
use observai_api.Analyses.Stats.{AnalysisStatsFilter, compute_analysis_stats, services}
use observai_api.Analyses.Stats.Agree.{IsStatistics, compute_analysis_stats-IsStatistics}
use observai_api.Tests.Samples.{generated}

abbrev first : AnalysisResult
first = record generated { id = "a1"; created_at = 10 }

abbrev second : AnalysisResult
second = record generated { id = "a2"; created_at = 20; severity = "high" }

abbrev analyses : Dict AnalysisResult
analyses = ("a1", first) ∷ ("a2", second) ∷ []

abbrev analyses_turned : Dict AnalysisResult
analyses_turned = ("a2", second) ∷ ("a1", first) ∷ []

abbrev pub store : AnalysisStore
store = record { time = 30; analyses = analyses; messages = []; next_id = 0 }

abbrev wanted : AnalysisListFilter
wanted = record {
  limit = pos 1;
  offset = negsuc 4;
  severity = "";
  service = " ";
  signal = "";
  provider = "";
  from = 5;
  to = 0;
  query = "CARD";
  sort = "severity";
  order = "desc";
}

-- The more severe analysis stands on the first page.
first_page : items_of (list_stored wanted store) ≡ second ∷ []
unfolding list_stored
first_page = refl

list_stored-IsPage_example :
    (page : AnalysisList) × (list_stored wanted store ≡ some page)
    × IsPage (normalize_analysis_list_filter wanted) 0 1 (values analyses) page
    × (length page.items ≤ 100)
list_stored-IsPage_example = list_stored-IsPage wanted store

analyses-IsStored : IsStored analyses
unfolding lookup
analyses-IsStored = record { is_map = (refl, (refl, tt)); keyed = (refl, (refl, tt)) }

list_stored-rearranged_example :
    list_stored wanted store ≡ list_stored wanted (record store { analyses = analyses_turned })
list_stored-rearranged_example =
    list_stored-rearranged wanted store analyses_turned analyses-IsStored (Permᴰ.swap refl refl)

abbrev counted : List AnalysisResult
counted =
    record first { affected_services = "pay" ∷ "" ∷ "auth" ∷ [] }
    ∷ record second { affected_services = "pay" ∷ []; created_at = 86_400_000_000_005 }
    ∷ []

abbrev anything : AnalysisStatsFilter
anything = record { from = 0; to = 0; service = ""; severity = "" }

-- The service that is named more often comes first, and each day has its bucket.
counted_stats :
    (compute_analysis_stats counted anything).top_affected_services
    ≡ record { service = "pay"; count = 2 } ∷ record { service = "auth"; count = 1 } ∷ []
unfolding compute_analysis_stats insert lookup
counted_stats = refl

no_service_named : services "pay" (pos 0) store ≡ some []
unfolding services
no_service_named = refl

compute_analysis_stats-IsStatistics_example :
    IsStatistics counted (compute_analysis_stats counted anything)
compute_analysis_stats-IsStatistics_example = compute_analysis_stats-IsStatistics counted anything
