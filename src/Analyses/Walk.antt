-- ===== src/Analyses/Walk.antt =====
-- Walking through the pages: internal/core/usecase/analysis.go.
use mathlib.Core.List.{Permᴰ}
use observai_api.Base.{ℕ, zero, suc, ◌+◌, List, [], ◌++◌, Option, none, some, ◌≡◌, refl}
use observai_api.Base.Int.{pos}
use observai_api.Base.Dict.{Dict}
use observai_api.Domain.Analysis.{AnalysisResult}
use observai_api.Analyses.Types.{AnalysisListFilter, AnalysisList, AnalysisStore}
use observai_api.Analyses.Repository.{list_analyses}
use observai_api.Analyses.Listing.{normalize_analysis_list_filter, list_stored}
use observai_api.Analyses.Stored.{IsStored, selected-rearranged}

-- The filter, asking for the page of `l` from place `o` on.
abbrev pub paged : AnalysisListFilter → ℕ → ℕ → AnalysisListFilter
paged wanted o l = record wanted { offset = pos o; limit = pos l }

abbrev pub items_of : Option AnalysisList → List AnalysisResult
items_of none = []
items_of (some page) = page.items

-- What a client collects that asks for `n` pages of `l`, from place `o` on, each from the end of the last one.
abbrev pub walk : AnalysisListFilter → AnalysisStore → (l n o : ℕ) → List AnalysisResult
walk wanted w l zero o = []
walk wanted w l (suc n) o =
    let later = walk wanted w l n (o + l) in items_of (list_stored (paged wanted o l) w) ++ later

-- The order in which the map lists its entries, which Go leaves open, does not show in the pages: two
-- stores that list the same analyses in different orders, each once and under its identifier, give
-- the same page for every filter.
pub list_stored-rearranged :
    (wanted : AnalysisListFilter) (w : AnalysisStore) (others : Dict AnalysisResult)
    → IsStored w.analyses
    → Permᴰ w.analyses others
    → list_stored wanted w ≡ list_stored wanted (record w { analyses = others })
unfolding list_stored list_analyses
list_stored-rearranged wanted w others s p =
    rw (selected-rearranged w.analyses others (normalize_analysis_list_filter wanted) s p) refl
