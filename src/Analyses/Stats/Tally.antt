-- ===== src/Analyses/Stats/Tally.antt =====
-- internal/core/usecase/analysis.go: the statistics count what they say.
use observai_api.Base.{
  ℕ, suc, ◌+◌, ◌++◌, String, Bool, not, ◌&&◌, List, [], ◌∷◌, length, count, ◌==◌, ◌≡◌, refl, ap,
  arith, Bool-cases, inl, inr, if◌then◌else◌, eq_iff,
}
use observai_api.Base.Text.{is_empty, str_eq}
use observai_api.Base.Dict.{Dict, lookup-insert}
use observai_api.Domain.Analysis.{AnalysisResult, Time}
use observai_api.Analyses.Stats.{
  count_at, increment, increment_day, day_of, Counts, increment_named, increment_all, count_item,
  count_items,
}

count_at-increment :
    (s key : String) (m : Dict ℕ)
    → count_at s (increment key m) ≡ (if str_eq key s then suc (count_at s m) else count_at s m)
unfolding increment
count_at-increment s key m = elim (Bool-cases (str_eq key s)) [
  | inl same ↦
      let e : key ≡ s = (eq_iff key s).0 same in
      rw (lookup-insert, same) (ap (λ k. suc (count_at k m)) e)
  | inr other ↦ rw (lookup-insert, other) refl
]

-- A text that is not empty and is this one.
abbrev pub names : String → String → Bool
names s name = not (is_empty name) && str_eq name s

count_at-increment_named :
    (s name : String) (m : Dict ℕ)
    → count_at s (increment_named name m)
      ≡ (if names s name then suc (count_at s m) else count_at s m)
count_at-increment_named s name m = elim (Bool-cases (is_empty name)) [
  | inl blank ↦ rw blank refl
  | inr named ↦ rw named (count_at-increment s name m)
]

-- How often a text stands in a list.
abbrev pub mentions : String → List String → ℕ
mentions s texts = count (names s) texts

count_at-increment_all :
    (s : String) (texts : List String) (m : Dict ℕ)
    → count_at s (increment_all texts m) ≡ count_at s m + mentions s texts
unfolding increment_all
count_at-increment_all s [] m = omega arith
count_at-increment_all s (name ∷ texts) m =
    let rest = count_at-increment_all s texts (increment_named name m) in
    ground (arith, rest, count_at-increment_named s name m)

-- The count of a day.
abbrev pub count_on : Time → List (Time × ℕ) → ℕ
count_on day [] = 0
count_on day ((other, n) ∷ rest) =
    let later = count_on day rest in if other == day then n else later

count_on-increment_day :
    (day other : Time) (days : List (Time × ℕ))
    → count_on day (increment_day other days)
      ≡ (if other == day then suc (count_on day days) else count_on day days)
unfolding increment_day
count_on-increment_day day other [] = ground arith
count_on-increment_day day other ((d, n) ∷ days) =
    ground (arith, count_on-increment_day day other days)

-- The names of the affected services, one for each mention.
abbrev pub affected : List AnalysisResult → List String
affected [] = []
affected (item ∷ items) = item.affected_services ++ affected items

mentions-append :
    (s : String) (texts more : List String)
    → mentions s (texts ++ more) ≡ mentions s texts + mentions s more
mentions-append s [] more = omega arith
mentions-append s (name ∷ texts) more = ground (arith, mentions-append s texts more)

module _ (s : String) where
  pub count_items-severities :
      (items : List AnalysisResult) (c : Counts)
      → count_at s (count_items items c).severities
        ≡ count_at s c.severities + count (λ item. names s item.severity) items
  unfolding count_items count_item
  count_items-severities [] c = omega arith
  count_items-severities (item ∷ items) c = ground (
    arith,
    count_items-severities items (count_item item c),
    count_at-increment_named s item.severity c.severities,
  )

  pub count_items-confidences :
      (items : List AnalysisResult) (c : Counts)
      → count_at s (count_items items c).confidences
        ≡ count_at s c.confidences + count (λ item. names s item.confidence) items
  unfolding count_items count_item
  count_items-confidences [] c = omega arith
  count_items-confidences (item ∷ items) c = ground (
    arith,
    count_items-confidences items (count_item item c),
    count_at-increment_named s item.confidence c.confidences,
  )

  pub count_items-services :
      (items : List AnalysisResult) (c : Counts)
      → count_at s (count_items items c).services
        ≡ count_at s c.services + mentions s (affected items)
  unfolding count_items count_item
  count_items-services [] c = omega arith
  count_items-services (item ∷ items) c = omega (
    arith,
    count_items-services items (count_item item c),
    count_at-increment_all s item.affected_services c.services,
    mentions-append s item.affected_services (affected items),
  )

pub count_items-days :
    (day : Time) (items : List AnalysisResult) (c : Counts)
    → count_on day (count_items items c).days
      ≡ count_on day c.days + count (λ item. day_of item.created_at == day) items
unfolding count_items count_item
count_items-days day [] c = omega arith
count_items-days day (item ∷ items) c = ground (
  arith,
  count_items-days day items (count_item item c),
  count_on-increment_day day (day_of item.created_at) c.days,
)

-- The sum of the counts of the days.
abbrev pub sum_days : List (Time × ℕ) → ℕ
sum_days [] = 0
sum_days ((day, n) ∷ rest) = n + sum_days rest

sum_days-increment_day :
    (day : Time) (days : List (Time × ℕ)) → sum_days (increment_day day days) ≡ suc (sum_days days)
unfolding increment_day
sum_days-increment_day day [] = refl
sum_days-increment_day day ((d, n) ∷ days) = ground (arith, sum_days-increment_day day days)

pub sum_days-count_items :
    (items : List AnalysisResult) (c : Counts)
    → sum_days (count_items items c).days ≡ sum_days c.days + length items
unfolding count_items count_item
sum_days-count_items [] c = omega arith
sum_days-count_items (item ∷ items) c = omega (
  arith,
  sum_days-count_items items (count_item item c),
  sum_days-increment_day (day_of item.created_at) c.days,
)
