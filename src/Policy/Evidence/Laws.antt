-- ===== src/Policy/Evidence/Laws.antt =====
-- internal/core/policy/evidence.go: what is kept and what the cap drops.
use observai_api.Base.{
  ℕ, ◌≡◌, refl, ◌≢◌, ◌≤◌, ◌<◌, inl, inr, Bool, true, ◌||◌, arith, List, [], ◌∷◌, Option, All,
  All-take, length, length-take, filter, leb, Bool-cases,
}
use observai_api.Base.Int.{ℤ, pos, negsuc}
use observai_api.Base.Float.{nan, lt_float, lt_float_asymm, lt_float_trans}
use observai_api.Base.Sorting.{sort_stable, length-sort_stable}
use observai_api.Base.Sorting.Order.{IsOrder, All-sort_stable, AreFirst, take_sorted-AreFirst}
use observai_api.Domain.Analysis.{Evidence}
use observai_api.Policy.Evidence.{Specification, selects, outranks, cap_evidence, filter_evidence}

filter-selects :
    (spec : Option Specification) (es : List Evidence)
    → All (λ e. selects spec e ≡ true) (filter (selects spec) es)
filter-selects spec [] = tt
filter-selects spec (e ∷ es) = elim (Bool-cases (selects spec e)) [
  | inl h ↦ rw h (h, filter-selects spec es)
  | inr h ↦ rw h (filter-selects spec es)
]

module _ (Q : Evidence → Type 0) where
  cap_evidence-All : (n : ℤ) (es : List Evidence) → All Q es → All Q (cap_evidence n es)
  cap_evidence-All (negsuc n) es h = h
  cap_evidence-All (pos n) es h = elim (Bool-cases (leb n 0 || leb (length es) n)) [
    | inl t ↦ rw t h
    | inr f ↦ rw f (All-take Q n _ (All-sort_stable outranks Q es h))
  ]

-- Every item that reaches the model satisfies the specification.
pub filter_evidence-satisfies :
    (es : List Evidence) (spec : Option Specification) (n : ℤ)
    → All (λ e. selects spec e ≡ true) (filter_evidence es spec n)
unfolding filter_evidence
filter_evidence-satisfies es spec n =
    cap_evidence-All (λ e. selects spec e ≡ true) n _ (filter-selects spec es)

-- A positive cap bounds the number of items, and the items are the whole selection if it fits.
pub filter_evidence-cap :
    (es : List Evidence) (spec : Option Specification) (n : ℕ)
    → 0 < n
    → (length (filter_evidence es spec (pos n)) ≤ n)
      × (length (filter (selects spec) es) ≤ n
          → filter_evidence es spec (pos n) ≡ filter (selects spec) es)
unfolding filter_evidence
filter_evidence-cap es spec n p = elim (Bool-cases (leb n 0 || leb (length kept) n)) [
  | inl t ↦ rw t (ground arith, λ h. refl)
  | inr f ↦
      rw f (omega (arith, length-take n (sort_stable outranks kept)), λ h. absurd (ground arith))
]
  where
    kept : List Evidence
    kept = filter (selects spec) es

abbrev pub HasScore : Evidence → Type 0
HasScore e = e.score ≢ nan

outranks-IsOrder : IsOrder outranks HasScore
outranks-IsOrder = record {
  asymm = λ x y qx qy h. lt_float_asymm y.score x.score h;
  trans = λ x y z qx qy qz h k. lt_float_trans x.score y.score z.score qy h k;
}

abbrev pub scores_higher : Evidence → Evidence → Bool
scores_higher a b = lt_float b.score a.score

-- When the selection is larger than the cap and no score is NaN, as many items are kept as the cap
-- allows; they are in the order of their scores, highest first, they and the dropped ones make up the
-- selection, and no dropped item has a higher score than a kept one.
pub filter_evidence-AreFirst :
    (es : List Evidence) (spec : Option Specification) (n : ℕ)
    → 0 < n
    → n < length (filter (selects spec) es)
    → All HasScore (filter (selects spec) es)
    → (length (filter_evidence es spec (pos n)) ≡ n)
      × AreFirst scores_higher (filter (selects spec) es) (filter_evidence es spec (pos n))
unfolding filter_evidence
filter_evidence-AreFirst es spec n p over scores =
    let kept = filter (selects spec) es in
    elim (Bool-cases (leb n 0 || leb (length kept) n)) [
      | inl t ↦ absurd (ground arith)
      | inr f ↦ rw f (
        omega (
          arith,
          length-take n (sort_stable outranks kept),
          length-sort_stable outranks kept,
          over,
        ),
        take_sorted-AreFirst outranks HasScore outranks-IsOrder n kept scores,
      )
    ]
