-- ===== src/Analyses/Stored.antt =====
-- internal/adapters/outbound/inmemory/analysis_repository.go: the order in which a map lists its entries does
-- not show in a selection of analyses.
use mathlib.Core.List.{Permᴰ}
use mathlib.Core.Option.{some-injective}
use observai_api.Base.{
  String, false, [], ◌∷◌, some, filter, All, All-filter, ◌≡◌, refl, sym, ap, subst, ◌∙◌, Bool-cases,
  inl, inr,
}
use observai_api.Base.{eq_iff}
use observai_api.Base.Text.{str_eq}
use observai_api.Base.Dict.{Dict, lookup, insert}
use observai_api.Base.Dict.Laws.{IsMap, insert-IsMap, entries_found}
use observai_api.Base.Sorting.Unique.{sort_stable_unique}
use observai_api.Base.Sorting.Rearrange.{All-rearranged, map-rearranged, filter-rearranged}
use observai_api.Domain.Analysis.{AnalysisResult}
use observai_api.Analyses.Types.{AnalysisListFilter, AnalysisStore}
use observai_api.Analyses.Filter.{matches_analysis_filter}
use observai_api.Analyses.Order.{
  listing-IsOrder, listing_less, listing_less-IsStrategy, sort_analyses, IsStrategy,
}
use observai_api.Analyses.Repository.{save, values, selected}

-- Every analysis is stored once, under its identifier.
pub record IsStored (analyses : Dict AnalysisResult) : Type 0 where
  pub is_map : IsMap analyses
  pub keyed : All (λ entry. entry.0 ≡ entry.1.id) analyses

insert-keyed :
    (result : AnalysisResult) (m : Dict AnalysisResult)
    → All (λ entry. entry.0 ≡ entry.1.id) m
    → All (λ entry. entry.0 ≡ entry.1.id) (insert result.id result m)
unfolding insert
insert-keyed result [] h = (refl, tt)
insert-keyed result ((j, w) ∷ m) h = elim (Bool-cases (str_eq j result.id)) [
  | inl same ↦ rw same ((eq_iff j result.id).0 same, h.1)
  | inr other ↦ rw other (h.0, insert-keyed result m h.1)
]

pub save-IsStored :
    (result : AnalysisResult) (w : AnalysisStore)
    → IsStored w.analyses
    → IsStored (save result w).analyses
unfolding save
save-IsStored result w s = record {
  is_map = insert-IsMap result.id result w.analyses s.is_map;
  keyed = insert-keyed result w.analyses s.keyed;
}

values_found-from :
    (analyses m : Dict AnalysisResult)
    → All (λ entry. lookup entry.0 analyses ≡ some entry.1) m
    → All (λ entry. entry.0 ≡ entry.1.id) m
    → All (λ r. lookup r.id analyses ≡ some r) (values m)
values_found-from analyses [] f k = tt
values_found-from analyses ((j, r) ∷ m) f k =
    (subst (λ i. lookup i analyses ≡ some r) k.0 f.0, values_found-from analyses m f.1 k.1)

values_found :
    (analyses : Dict AnalysisResult)
    → IsStored analyses
    → All (λ r. lookup r.id analyses ≡ some r) (values analyses)
values_found analyses s =
    values_found-from analyses analyses (entries_found analyses s.is_map) s.keyed

listing-total :
    (wanted : AnalysisListFilter) (analyses : Dict AnalysisResult) (x y : AnalysisResult)
    → lookup x.id analyses ≡ some x
    → lookup y.id analyses ≡ some y
    → listing_less wanted x y ≡ false
    → listing_less wanted y x ≡ false
    → x ≡ y
listing-total wanted analyses x y qx qy h k =
    let same = IsStrategy.total (listing_less-IsStrategy wanted) x y h k in
    some-injective x y (sym qx ∙ ap (λ i. lookup i analyses) same ∙ qy)

-- A map that lists its entries in another order gives the same selection.
pub selected-rearranged :
    (a b : Dict AnalysisResult) (wanted : AnalysisListFilter)
    → IsStored a
    → Permᴰ a b
    → selected a wanted ≡ selected b wanted
unfolding selected sort_analyses
selected-rearranged a b wanted s p =
    let test = λ (r : AnalysisResult). matches_analysis_filter r wanted in
    let Q = λ (r : AnalysisResult). lookup r.id a ≡ some r in
    let found = values_found a s in
    let moved = map-rearranged (λ (entry : String × AnalysisResult). entry.1) p in
    sort_stable_unique (listing_less wanted) Q (listing-IsOrder wanted Q) (listing-total wanted a)
      (filter test (values a)) (filter test (values b)) (All-filter Q test (values a) found)
      (All-filter Q test (values b) (All-rearranged Q moved found))
      ∣ filter-rearranged test moved ∣₁
