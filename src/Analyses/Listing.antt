-- ===== src/Analyses/Listing.antt =====
-- internal/core/usecase/analysis.go: Get and List, over the repository in memory.
use observai_api.Base.{String, Option, if◌then◌else◌}
use observai_api.Base.Int.{ℤ, pos, ltb_ℤ, leb_ℤ}
use observai_api.Base.Text.{trim_space, is_empty}
use observai_api.Base.Errors.{Result, err, error, or_wrap, analysis_not_found}
use observai_api.Domain.Analysis.{AnalysisResult}
use observai_api.Analyses.Types.{AnalysisListFilter, AnalysisList, AnalysisStore}
use observai_api.Analyses.Repository.{find, list_analyses}

-- Get
unfoldable pub get : String → AnalysisStore → Result AnalysisResult
unfolding trim_space find
get analysis_id w =
    if is_empty (trim_space analysis_id)
    then err (error analysis_not_found "analysis not found: analysis id is required")
    else or_wrap "find analysis" (find (trim_space analysis_id) w)

-- The three tests of normalizeAnalysisListFilter, one after the other.
abbrev pub bounded_offset : ℤ → ℤ
bounded_offset offset = if ltb_ℤ offset (pos 0) then pos 0 else offset

abbrev pub default_limit : ℤ → ℤ
default_limit limit = if leb_ℤ limit (pos 0) then pos 20 else limit

abbrev pub bounded_limit : ℤ → ℤ
bounded_limit limit = if ltb_ℤ (pos 100) (default_limit limit) then pos 100 else default_limit limit

unfoldable pub normalize_analysis_list_filter : AnalysisListFilter → AnalysisListFilter
unfolding trim_space
normalize_analysis_list_filter wanted = record wanted {
  service = trim_space wanted.service;
  offset = bounded_offset wanted.offset;
  limit = bounded_limit wanted.limit;
}

-- List; the repository in memory returns no error.
unfoldable pub list_stored : AnalysisListFilter → AnalysisStore → Option AnalysisList
unfolding normalize_analysis_list_filter list_analyses
list_stored wanted w = list_analyses (normalize_analysis_list_filter wanted) w
