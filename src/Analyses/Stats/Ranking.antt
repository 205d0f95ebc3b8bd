-- ===== src/Analyses/Stats/Ranking.antt =====
-- internal/core/usecase/analysis.go: the entries that topServiceCounts and sortedTrendBuckets put in order.
use Prim.Native.Nat.{min}
use observai_api.Base.{
  ℕ, suc, ◌+◌, ◌<◌, ap, String, false, List, [], ◌∷◌, length, take, ◌==◌, ltb, ◌≡◌, refl, arith,
  Bool-cases, inl, inr, All, take-all, length-take,
}
use observai_api.Base.Text.{is_empty, str_eq}
use observai_api.Base.Text.Order.{lt_string_asymm, lt_string_trans}
use observai_api.Base.Dict.{Dict, insert}
use observai_api.Base.Dict.Laws.{IsMap, insert-IsMap}
use observai_api.Base.Sorting.{insert_sorted, sort_stable, length-sort_stable}
use observai_api.Base.Sorting.Order.{IsOrder, AreFirst, take_sorted-AreFirst}
use observai_api.Domain.Analysis.{AnalysisResult, Time}
use observai_api.Analyses.Stats.Tally.{count_on, sum_days}
use observai_api.Analyses.Stats.{
  count_at, increment, increment_all, Counts, count_item, count_items, ServiceCount, TrendBucket,
  service_less, service_counts, top_service_counts, top_of, increment_day, day_of, earlier,
  buckets_of, sorted_trend_buckets,
}

abbrev AnyCount : ServiceCount → Type 0
AnyCount c = Unit

any_counts : (counts : Dict ℕ) → All AnyCount (service_counts counts)
any_counts [] = tt
any_counts (entry ∷ counts) = (tt, any_counts counts)

service_less-IsOrder : IsOrder service_less AnyCount
service_less-IsOrder = record {
  asymm = λ x y qx qy h. ground (arith, lt_string_asymm x.service y.service);
  trans = λ x y z qx qy qz h k. ground (arith, lt_string_trans x.service y.service z.service);
}

increment_all-IsMap : (texts : List String) (m : Dict ℕ) → IsMap m → IsMap (increment_all texts m)
unfolding increment_all increment
increment_all-IsMap [] m h = h
increment_all-IsMap (name ∷ texts) m h = elim (Bool-cases (is_empty name)) [
  | inl blank ↦ rw blank (increment_all-IsMap texts m h)
  | inr named ↦
      rw named (
        increment_all-IsMap texts (increment name m)
          (insert-IsMap name (suc (count_at name m)) m h))
]

pub count_items-IsMap :
    (items : List AnalysisResult) (c : Counts)
    → IsMap c.services
    → IsMap (count_items items c).services
unfolding count_items count_item
count_items-IsMap [] c h = h
count_items-IsMap (item ∷ items) c h =
    count_items-IsMap items (count_item item c)
      (increment_all-IsMap item.affected_services c.services h)

abbrev pub AnyBucket : TrendBucket → Type 0
AnyBucket b = Unit

pub any_buckets : (days : List (Time × ℕ)) → All AnyBucket (buckets_of days)
any_buckets [] = tt
any_buckets (entry ∷ days) = (tt, any_buckets days)

pub earlier-IsOrder : IsOrder earlier AnyBucket
earlier-IsOrder = record {
  asymm = λ x y qx qy h. ground arith;
  trans = λ x y z qx qy qz h k. ground arith;
}

abbrev pub sum_buckets : List TrendBucket → ℕ
sum_buckets [] = 0
sum_buckets (b ∷ rest) = b.count + sum_buckets rest

sum_buckets-insert_sorted :
    (b : TrendBucket) (rest : List TrendBucket)
    → sum_buckets (insert_sorted earlier b rest) ≡ b.count + sum_buckets rest
unfolding insert_sorted
sum_buckets-insert_sorted b [] = refl
sum_buckets-insert_sorted b (c ∷ rest) = ground (arith, sum_buckets-insert_sorted b rest)

pub sum_buckets-sorted_trend_buckets :
    (days : List (Time × ℕ)) → sum_buckets (sorted_trend_buckets days) ≡ sum_days days
unfolding sorted_trend_buckets sort_stable
sum_buckets-sorted_trend_buckets [] = refl
sum_buckets-sorted_trend_buckets ((day, n) ∷ days) =
    let head : TrendBucket = record { bucket_start = day; count = n } in
    omega (
      arith,
      sum_buckets-insert_sorted head (sort_stable earlier (buckets_of days)),
      sum_buckets-sorted_trend_buckets days,
    )

-- Every day stands in one entry.
abbrev pub IsDays : List (Time × ℕ) → Type 0
IsDays [] = Unit
IsDays ((day, n) ∷ rest) = All (λ e. (e.0 == day) ≡ false) rest × IsDays rest

increment_day-later :
    (day other : Time) (days : List (Time × ℕ))
    → (other == day) ≡ false
    → All (λ e. (e.0 == day) ≡ false) days
    → All (λ e. (e.0 == day) ≡ false) (increment_day other days)
unfolding increment_day
increment_day-later day other [] h q = (h, tt)
increment_day-later day other ((d, n) ∷ days) h q = elim (Bool-cases (d == other)) [
  | inl same ↦ rw same (q.0, q.1)
  | inr apart ↦ rw apart (q.0, increment_day-later day other days h q.1)
]

increment_day-IsDays :
    (day : Time) (days : List (Time × ℕ)) → IsDays days → IsDays (increment_day day days)
unfolding increment_day
increment_day-IsDays day [] h = (tt, tt)
increment_day-IsDays day ((d, n) ∷ days) h = elim (Bool-cases (d == day)) [
  | inl same ↦ rw same h
  | inr apart ↦
      let turned : (day == d) ≡ false = ground arith in
      rw apart (increment_day-later d day days turned h.0, increment_day-IsDays day days h.1)
]

pub count_items-IsDays :
    (items : List AnalysisResult) (c : Counts) → IsDays c.days → IsDays (count_items items c).days
unfolding count_items count_item
count_items-IsDays [] c h = h
count_items-IsDays (item ∷ items) c h =
    count_items-IsDays items (count_item item c)
      (increment_day-IsDays (day_of item.created_at) c.days h)

count_on-later :
    (day : Time) (n : ℕ) (days rest : List (Time × ℕ))
    → All (λ e. (e.0 == day) ≡ false) rest
    → All (λ e. count_on e.0 days ≡ e.1) rest
    → All (λ e. count_on e.0 ((day, n) ∷ days) ≡ e.1) rest
count_on-later day n days [] apart h = tt
count_on-later day n days ((d, k) ∷ rest) apart h =
    let turned : (day == d) ≡ false = ground arith in
    (rw turned h.0, count_on-later day n days rest apart.1 h.1)

-- The entry of a day has its count.
pub days_found : (days : List (Time × ℕ)) → IsDays days → All (λ e. count_on e.0 days ≡ e.1) days
days_found [] h = tt
days_found ((day, n) ∷ days) h =
    (ground arith, count_on-later day n days days h.0 (days_found days h.1))

top_of-take : (n : ℕ) (xs : List ServiceCount) → top_of (suc n) xs ≡ take (suc n) xs
top_of-take n xs = elim (Bool-cases (ltb (suc n) (length xs))) [
  | inl more ↦ ground arith
  | inr few ↦ let whole : take (suc n) xs ≡ xs = take-all (suc n) xs (ground arith) in ground arith
]

pub top_service_counts-AreFirst :
    (counts : Dict ℕ) (n : ℕ)
    → AreFirst service_less (service_counts counts) (top_service_counts counts (suc n))
unfolding top_service_counts
top_service_counts-AreFirst counts n =
    rw (top_of-take n (sort_stable service_less (service_counts counts))) (
      take_sorted-AreFirst service_less AnyCount service_less-IsOrder (suc n)
        (service_counts counts) (any_counts counts))

length-service_counts : (counts : Dict ℕ) → length (service_counts counts) ≡ length counts
length-service_counts [] = refl
length-service_counts (entry ∷ counts) = ap suc (length-service_counts counts)

pub length-top_service_counts :
    (counts : Dict ℕ) (n : ℕ)
    → length (top_service_counts counts (suc n)) ≡ min (suc n) (length counts)
unfolding top_service_counts
length-top_service_counts counts n =
    let ranked = sort_stable service_less (service_counts counts) in
    rw (top_of-take n ranked) (
      omega (
        arith,
        length-take (suc n) ranked,
        length-sort_stable service_less (service_counts counts),
        length-service_counts counts,
      ))

-- No count is 0: a text that is not named has no entry.
abbrev pub AllPositive : Dict ℕ → Type 0
AllPositive counts = All (λ entry. 0 < entry.1) counts

insert-AllPositive :
    (key : String) (n : ℕ) (counts : Dict ℕ)
    → 0 < n
    → AllPositive counts
    → AllPositive (insert key n counts)
unfolding insert
insert-AllPositive key n [] p h = (p, tt)
insert-AllPositive key n ((other, k) ∷ counts) p h = elim (Bool-cases (str_eq other key)) [
  | inl same ↦ rw same (p, h.1)
  | inr apart ↦ rw apart (h.0, insert-AllPositive key n counts p h.1)
]

increment_all-AllPositive :
    (texts : List String) (m : Dict ℕ) → AllPositive m → AllPositive (increment_all texts m)
unfolding increment_all increment
increment_all-AllPositive [] m h = h
increment_all-AllPositive (name ∷ texts) m h = elim (Bool-cases (is_empty name)) [
  | inl blank ↦ rw blank (increment_all-AllPositive texts m h)
  | inr named ↦ rw named (
      increment_all-AllPositive texts (increment name m)
        (insert-AllPositive name (suc (count_at name m)) m (omega arith) h))
]

pub count_items-AllPositive :
    (items : List AnalysisResult) (c : Counts)
    → AllPositive c.services
    → AllPositive (count_items items c).services
unfolding count_items count_item
count_items-AllPositive [] c h = h
count_items-AllPositive (item ∷ items) c h =
    count_items-AllPositive items (count_item item c)
      (increment_all-AllPositive item.affected_services c.services h)
