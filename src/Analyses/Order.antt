-- ===== src/Analyses/Order.antt =====
-- internal/adapters/outbound/inmemory/analysis_repository.go: the orders in which analyses are listed.
use observai_api.Base.{
  ℕ, String, Bool, true, false, not, List, ◌==◌, ltb, ◌≡◌, arith, if◌then◌else◌, Bool-cases, inl,
  inr,
}
use observai_api.Base.Text.{str_eq}
use observai_api.Base.Text.Order.{lt_string, lt_string_asymm, lt_string_trans, lt_string_total}
use observai_api.Base.Sorting.{sort_stable}
use observai_api.Base.Sorting.Order.{IsOrder}
use observai_api.Domain.Severity.{severity_rank}
use observai_api.Domain.Analysis.{AnalysisResult}
use observai_api.Analyses.Types.{AnalysisListFilter}

-- confidenceRank
unfoldable pub confidence_rank : String → ℕ
confidence_rank confidence =
    if str_eq confidence "low"
    then 1
    else if str_eq confidence "medium"
    then 2
    else if str_eq confidence "high"
    then 3
    else 0

abbrev pub AnalysisLess : Type 0
AnalysisLess = AnalysisResult → AnalysisResult → Bool

-- The body that the strategies share: by a rank, and by identifier where the ranks are equal.
abbrev pub less_by_rank : (AnalysisResult → ℕ) → AnalysisLess
less_by_rank rank left right =
    if rank left == rank right then lt_string left.id right.id else ltb (rank left) (rank right)

-- analysisSortStrategies, with the strategy by creation time where the filter names none.
unfoldable pub sort_strategy : String → AnalysisLess
unfolding severity_rank confidence_rank lt_string
sort_strategy sort =
    if str_eq sort "severity"
    then less_by_rank (λ r. severity_rank r.severity)
    else if str_eq sort "confidence"
    then less_by_rank (λ r. confidence_rank r.confidence)
    else less_by_rank (λ r. r.created_at)

abbrev pub directed : Bool → AnalysisLess → AnalysisLess
directed descending less left right = if descending then less right left else less left right

abbrev pub listing_less : AnalysisListFilter → AnalysisLess
listing_less filter = directed (not (str_eq filter.order "asc")) (sort_strategy filter.sort)

unfoldable pub sort_analyses : List AnalysisResult → AnalysisListFilter → List AnalysisResult
unfolding sort_strategy sort_stable
sort_analyses items filter = sort_stable (listing_less filter) items

-- A strategy orders all analyses, and tells those apart that have different identifiers.
pub record IsStrategy (less : AnalysisLess) : Type 0 where
  pub asymm : (x y : AnalysisResult) → less x y ≡ true → less y x ≡ false
  pub trans : (x y z : AnalysisResult) → less y x ≡ false → less z y ≡ false → less z x ≡ false
  pub total : (x y : AnalysisResult) → less x y ≡ false → less y x ≡ false → x.id ≡ y.id

less_by_rank-IsStrategy : (rank : AnalysisResult → ℕ) → IsStrategy (less_by_rank rank)
less_by_rank-IsStrategy rank = record {
  asymm = λ x y h. ground (arith, lt_string_asymm x.id y.id);
  trans = λ x y z h k. ground (arith, lt_string_trans x.id y.id z.id);
  total = λ x y h k. lt_string_total x.id y.id (ground arith) (ground arith);
}

sort_strategy-IsStrategy : (sort : String) → IsStrategy (sort_strategy sort)
unfolding sort_strategy
sort_strategy-IsStrategy sort = elim (Bool-cases (str_eq sort "severity")) [
  | inl severe ↦ rw severe (less_by_rank-IsStrategy (λ r. severity_rank r.severity))
  | inr h ↦ elim (Bool-cases (str_eq sort "confidence")) [
    | inl sure ↦ rw (h, sure) (less_by_rank-IsStrategy (λ r. confidence_rank r.confidence))
    | inr k ↦ rw (h, k) (less_by_rank-IsStrategy (λ r. r.created_at))
  ]
]

directed-IsStrategy :
    (descending : Bool) (less : AnalysisLess)
    → IsStrategy less
    → IsStrategy (directed descending less)
directed-IsStrategy true less s = record {
  asymm = λ x y h. s.asymm y x h;
  trans = λ x y z h k. s.trans z y x k h;
  total = λ x y h k. s.total x y k h;
}
directed-IsStrategy false less s = s

pub listing_less-IsStrategy : (filter : AnalysisListFilter) → IsStrategy (listing_less filter)
listing_less-IsStrategy filter =
    directed-IsStrategy (not (str_eq filter.order "asc")) (sort_strategy filter.sort)
      (sort_strategy-IsStrategy filter.sort)

pub listing-IsOrder :
    (wanted : AnalysisListFilter) (Q : AnalysisResult → Type 0) → IsOrder (listing_less wanted) Q
listing-IsOrder wanted Q =
    let s = listing_less-IsStrategy wanted in
    record { asymm = λ x y a b. s.asymm x y; trans = λ x y z a b c. s.trans x y z }
