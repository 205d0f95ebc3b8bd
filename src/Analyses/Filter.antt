-- ===== src/Analyses/Filter.antt =====
-- internal/adapters/outbound/inmemory/analysis_repository.go: which analyses a filter selects.
use observai_api.Base.{
  String, Bool, true, false, not, ◌&&◌, ◌||◌, List, [], ◌∷◌, any, ltb, if◌then◌else◌,
}
use observai_api.Base.Text.{str_eq, is_empty, to_lower, contains}
use observai_api.Domain.Analysis.{AnalysisResult, is_zero_time}
use observai_api.Analyses.Types.{AnalysisListFilter}

unfoldable pub severity_matches : AnalysisResult → AnalysisListFilter → Bool
severity_matches result filter = is_empty filter.severity || str_eq result.severity filter.severity

unfoldable pub contains_string : List String → String → Bool
contains_string values expected = any (λ value. str_eq value expected) values

unfoldable pub service_matches : AnalysisResult → AnalysisListFilter → Bool
unfolding contains_string
service_matches result filter =
    is_empty filter.service || contains_string result.affected_services filter.service

unfoldable pub signal_matches : AnalysisResult → AnalysisListFilter → Bool
signal_matches result filter =
    if is_empty filter.signal
    then true
    else any (λ evidence. str_eq evidence.signal filter.signal) result.evidence

unfoldable pub provider_matches : AnalysisResult → AnalysisListFilter → Bool
provider_matches result filter =
    if is_empty filter.provider
    then true
    else any (λ evidence. str_eq evidence.provider filter.provider) result.evidence

unfoldable pub time_window_matches : AnalysisResult → AnalysisListFilter → Bool
time_window_matches result filter =
    if not (is_zero_time filter.from) && ltb result.created_at filter.from
    then false
    else if not (is_zero_time filter.to) && ltb filter.to result.created_at
    then false
    else true

unfoldable pub text_query_matches : AnalysisResult → AnalysisListFilter → Bool
unfolding to_lower contains
text_query_matches result filter =
    let needle = to_lower filter.query in
    if is_empty filter.query
    then true
    else contains (to_lower result.summary) needle || contains (to_lower result.id) needle

abbrev pub Predicate : Type 0
Predicate = AnalysisResult → AnalysisListFilter → Bool

unfoldable pub analysis_filter_predicates : List Predicate
unfolding severity_matches service_matches signal_matches provider_matches time_window_matches
    text_query_matches
analysis_filter_predicates =
    severity_matches ∷ service_matches ∷ signal_matches ∷ provider_matches ∷ time_window_matches
    ∷ text_query_matches ∷ []

-- The loop, which returns false at the first predicate that fails.
abbrev pub matches_all : List Predicate → AnalysisResult → AnalysisListFilter → Bool
matches_all [] result filter = true
matches_all (predicate ∷ rest) result filter =
    let others = matches_all rest result filter in
    if not (predicate result filter) then false else others

unfoldable pub matches_analysis_filter : AnalysisResult → AnalysisListFilter → Bool
unfolding analysis_filter_predicates
matches_analysis_filter result filter = matches_all analysis_filter_predicates result filter
