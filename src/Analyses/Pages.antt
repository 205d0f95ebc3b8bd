-- ===== src/Analyses/Pages.antt =====
-- The pages of analyses: internal/core/usecase/analysis.go and
-- internal/adapters/outbound/inmemory/analysis_repository.go.
use mathlib.Core.List.{Perm}
use Prim.Native.Nat.{min}
use observai_api.Base.{
  ℕ, zero, suc, ◌+◌, ◌-◌, ◌≤◌, true, List, [], ◌∷◌, Option, some, length, take, drop, filter, All,
  length-drop, take-min, drop-min, length-take, ◌&&◌, ◌≡◌, refl, ap, ap₂, ◌∙◌, arith, leb,
}
use observai_api.Base.Int.{ℤ, pos, negsuc, ◌+ℤ◌, min_ℤ}
use observai_api.Base.Dict.{Dict}
use observai_api.Base.Sorting.{sort_stable-perm, IsSorted}
use observai_api.Base.Sorting.Order.{sort_stable-IsSorted}
use observai_api.Domain.Analysis.{AnalysisResult}
use observai_api.Analyses.Types.{AnalysisListFilter, AnalysisList, AnalysisStore}
use observai_api.Analyses.Filter.{matches_analysis_filter}
use observai_api.Analyses.Order.{listing-IsOrder, listing_less, sort_analyses}
use observai_api.Analyses.Repository.{page_of, slice, values, selected, list_analyses}
use observai_api.Analyses.Listing.{
  bounded_offset, bounded_limit, normalize_analysis_list_filter, list_stored,
}

-- The offset and the limit that List works with.
abbrev pub real_offset : ℤ → ℕ
real_offset (pos n) = n
real_offset (negsuc n) = 0

abbrev pub real_limit : ℤ → ℕ
real_limit (pos zero) = 20
real_limit (pos (suc n)) = min (suc n) 100
real_limit (negsuc n) = 20

bounded_offset-real : (z : ℤ) → bounded_offset z ≡ pos (real_offset z)
bounded_offset-real (pos n) = ground arith
bounded_offset-real (negsuc n) = ground arith

bounded_limit-real : (z : ℤ) → bounded_limit z ≡ pos (real_limit z)
bounded_limit-real (pos zero) = ground arith
bounded_limit-real (pos (suc n)) = ground arith
bounded_limit-real (negsuc n) = ground arith

real_limit_le : (z : ℤ) → real_limit z ≤ 100
real_limit_le (pos zero) = omega arith
real_limit_le (pos (suc n)) = omega arith
real_limit_le (negsuc n) = omega arith

min_ℤ-pos : (a b : ℕ) → min_ℤ (pos a) (pos b) ≡ pos (min a b)
min_ℤ-pos a b = ground arith

module _ {ℓ} {A : Type ℓ} where
  slice-take :
      (o l : ℕ) (xs : List A)
      → let t = length xs in
        slice (pos (min o t)) (pos (min (min o t + l) t)) xs ≡ some (take l (drop o xs))
  slice-take o l xs =
      let t = length xs in
      let s = min o t in
      let e = min (s + l) t in
      let in_bounds : (leb s e && leb e t) ≡ true = ground arith in
      let span : e - s ≡ min l (t - s) = omega arith in
      let rest : length (drop s xs) ≡ t - s = length-drop s xs in
      let part : take (e - s) (drop s xs) ≡ take l (drop o xs) =
        rw (span, ← rest, take-min, drop-min) refl in
      rw in_bounds (ap some part)

-- What a page holds: at most `l` analyses from place `o` on, in the list of all stored analyses that
-- the filter selects, in its order.
pub record IsPage (wanted : AnalysisListFilter) (o l : ℕ) (stored : List AnalysisResult)
    (page : AnalysisList) : Type 0 where
  pub all : List AnalysisResult
  pub matching : Perm all (filter (λ r. matches_analysis_filter r wanted) stored)
  pub ordered : IsSorted (listing_less wanted) all
  pub is_part : page.items ≡ take l (drop o all)
  pub total : page.total ≡ length all

AnyResult : AnalysisResult → Type 0
AnyResult r = Unit

All-any : (rs : List AnalysisResult) → All AnyResult rs
unfolding AnyResult
All-any [] = tt
All-any (r ∷ rs) = (tt, All-any rs)

pub selected-perm :
    (analyses : Dict AnalysisResult) (wanted : AnalysisListFilter)
    → Perm
        (selected analyses wanted)
        (filter (λ r. matches_analysis_filter r wanted) (values analyses))
unfolding selected sort_analyses
selected-perm analyses wanted =
    sort_stable-perm (listing_less wanted)
      (filter (λ (r : AnalysisResult). matches_analysis_filter r wanted) (values analyses))

pub selected-IsSorted :
    (analyses : Dict AnalysisResult) (wanted : AnalysisListFilter)
    → IsSorted (listing_less wanted) (selected analyses wanted)
unfolding selected sort_analyses
selected-IsSorted analyses wanted =
    let kept =
      filter (λ (r : AnalysisResult). matches_analysis_filter r wanted) (values analyses) in
    sort_stable-IsSorted (listing_less wanted) AnyResult (listing-IsOrder wanted AnyResult) kept
      (All-any kept)

-- List never runs into a slice out of bounds.
pub list_stored-page :
    (wanted : AnalysisListFilter) (w : AnalysisStore)
    → let normal = normalize_analysis_list_filter wanted in
      let all = selected w.analyses normal in
      list_stored wanted w
      ≡ some (record {
        items = take (real_limit wanted.limit) (drop (real_offset wanted.offset) all);
        limit = normal.limit;
        offset = normal.offset;
        total = length all;
      })
unfolding list_stored list_analyses normalize_analysis_list_filter
list_stored-page wanted w =
    let o = real_offset wanted.offset in
    let l = real_limit wanted.limit in
    let normal = normalize_analysis_list_filter wanted in
    let all = selected w.analyses normal in
    let t = length all in
    let start : min_ℤ (bounded_offset wanted.offset) (pos t) ≡ pos (min o t) =
      ap (λ z. min_ℤ z (pos t)) (bounded_offset-real wanted.offset) ∙ min_ℤ-pos o t in
    let end : min_ℤ (min_ℤ (bounded_offset wanted.offset) (pos t) +ℤ bounded_limit wanted.limit)
          (pos t)
        ≡ pos (min (min o t + l) t) =
      ap₂ (λ a b. min_ℤ (a +ℤ b) (pos t)) start (bounded_limit-real wanted.limit)
      ∙ min_ℤ-pos (min o t + l) t in
    let part = ap₂ (λ a b. slice a b all) start end ∙ slice-take o l all in
    ap (λ (items : Option (List AnalysisResult)). page_of normal t items) part

-- List returns a page, whatever offset and limit it is asked for: the analyses that match the filter
-- stand in its order, each once, and the page is the part of them from the offset on (0 for a
-- negative one), as long as the limit, which is 20 if none is given, and 100 at most.
pub list_stored-IsPage :
    (wanted : AnalysisListFilter) (w : AnalysisStore)
    → (page : AnalysisList) × (list_stored wanted w ≡ some page)
      × IsPage
          (normalize_analysis_list_filter wanted)
          (real_offset wanted.offset)
          (real_limit wanted.limit)
          (values w.analyses)
          page
      × (length page.items ≤ 100)
list_stored-IsPage wanted w =
    let normal = normalize_analysis_list_filter wanted in
    let all = selected w.analyses normal in
    let l = real_limit wanted.limit in
    let small : l ≤ 100 = real_limit_le wanted.limit in
    (
      _,
      list_stored-page wanted w,
      record {
        all = all;
        matching = selected-perm w.analyses normal;
        ordered = selected-IsSorted w.analyses normal;
        is_part = refl;
        total = refl;
      },
      omega (arith, length-take l (drop (real_offset wanted.offset) all)),
    )
